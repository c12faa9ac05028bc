-- ===== src/Prelude/Maps.antt =====
-- A finite map with numbers for keys, as `std::unordered_map<uint32_t, …>` is used: `find`,
-- `operator[]`, and loops over all entries in some order, which is the order of the list.
use Prim.Native.Nat.{ℕ}
use mathlib.Core.Path.{◌≡◌, refl}
use mathlib.Core.Option.{Option, none, some}
use mathlib.Core.List.{List, [], ◌∷◌}
use native.Mathlib.Omega.{arith}
use k_watch.Prelude.Tests.{◌==◌, if◌then◌else◌}

abbrev pub Assoc {ℓ} : Type ℓ → Type ℓ
Assoc V = List (ℕ × V)

module _ {ℓ} {V : Type ℓ} where
  unfoldable pub find : ℕ → Assoc V → Option V
  find k [] = none
  find k ((j, v) ∷ m) = if j == k then some v else find k m

  -- `m[k] = v`: in place where `k` is there, else at the end
  unfoldable pub insert : ℕ → V → Assoc V → Assoc V
  insert k v [] = (k, v) ∷ []
  insert k v ((j, w) ∷ m) = if j == k then (k, v) ∷ m else (j, w) ∷ insert k v m

  abbrev pub value_or : V → Option V → V
  value_or d none = d
  value_or d (some v) = v

  -- `m[k]`, with the default value of a key that is not there
  abbrev pub at : V → ℕ → Assoc V → V
  at d k m = value_or d (find k m)

  -- `for (auto &[k, v] : m) v = f k v`
  unfoldable pub map_values : (ℕ → V → V) → Assoc V → Assoc V
  map_values f [] = []
  map_values f ((k, v) ∷ m) = (k, f k v) ∷ map_values f m

  abbrev option_map : (V → V) → Option V → Option V
  option_map f none = none
  option_map f (some v) = some (f v)

  pub find-insert :
      (k j : ℕ) (v : V) (m : Assoc V)
      → find j (insert k v m) ≡ (if k == j then some v else find j m)
  unfolding find insert
  find-insert k j v [] = ground arith
  find-insert k j v ((i, w) ∷ m) = ground (arith, find-insert k j v m)

  pub find-map_values :
      (f : ℕ → V → V) (j : ℕ) (m : Assoc V)
      → find j (map_values f m) ≡ elim (find j m) [ none ↦ none | some v ↦ some (f j v) ]
  unfolding find map_values
  find-map_values f j [] = refl
  find-map_values f j ((i, w) ∷ m) = ground (arith, find-map_values f j m)
