-- ===== src/Prelude/Keys.antt =====
-- A map holds a key once. The loops over all entries: collecting the keys of some entries, and
-- erasing some entries.
use Prim.Native.Nat.{ℕ}
use mathlib.Core.Path.{◌≡◌, refl}
use mathlib.Core.Bool.{Bool, false, ◌||◌}
use mathlib.Core.Option.{Option, none, some}
use mathlib.Core.List.{List, [], ◌∷◌}
use native.Mathlib.Omega.{arith}
use k_watch.Prelude.Tests.{◌==◌, if◌then◌else◌}
use k_watch.Prelude.Maps.{Assoc, find, insert, find-insert, map_values, find-map_values}

unfoldable pub elem : ℕ → List ℕ → Bool
elem k [] = false
elem k (j ∷ ks) = j == k || elem k ks

module _ {ℓ} {V : Type ℓ} where
  -- whether `k` is there with a value that satisfies the test
  abbrev pub holds : (V → Bool) → Option V → Bool
  holds p none = false
  holds p (some v) = p v

  -- the value, unless the test erases it
  abbrev pub retain : (V → Bool) → Option V → Option V
  retain p none = none
  retain p (some v) = if p v then some v else none

  unfoldable pub keys_where : (V → Bool) → Assoc V → List ℕ
  keys_where p [] = []
  keys_where p ((k, v) ∷ m) = let rest = keys_where p m in if p v then k ∷ rest else rest

  -- `if (p(v)) ++it; else it = m.erase(it);` over all entries
  unfoldable pub retain_where : (V → Bool) → Assoc V → Assoc V
  retain_where p [] = []
  retain_where p ((k, v) ∷ m) = let rest = retain_where p m in if p v then (k, v) ∷ rest else rest

  -- No key stands twice.
  abbrev pub Distinct : Assoc V → Type ℓ
  Distinct [] = Unit
  Distinct ((k, v) ∷ m) = (find k m ≡ none) × Distinct m

module _ {ℓ} {V : Type ℓ} where
  pub Distinct-insert : (k : ℕ) (v : V) (m : Assoc V) → Distinct m → Distinct (insert k v m)
  unfolding find insert
  Distinct-insert k v [] d = (refl, tt)
  Distinct-insert k v ((j, w) ∷ m) (h, d) =
      ground (arith, Distinct-insert k v m d, find-insert k j v m)

  pub Distinct-map_values : (f : ℕ → V → V) (m : Assoc V) → Distinct m → Distinct (map_values f m)
  unfolding map_values
  Distinct-map_values f [] d = tt
  Distinct-map_values f ((j, w) ∷ m) (h, d) =
      (ground (arith, find-map_values f j m), Distinct-map_values f m d)

  pub find-retain_where :
      (p : V → Bool) (k : ℕ) (m : Assoc V)
      → Distinct m
      → find k (retain_where p m) ≡ retain p (find k m)
  unfolding find retain_where
  find-retain_where p k [] d = refl
  find-retain_where p k ((j, w) ∷ m) (h, d) = ground (arith, find-retain_where p k m d)

  pub Distinct-retain_where :
      (p : V → Bool) (m : Assoc V) → Distinct m → Distinct (retain_where p m)
  unfolding retain_where
  Distinct-retain_where p [] d = tt
  Distinct-retain_where p ((j, w) ∷ m) (h, d) =
      ground (arith, Distinct-retain_where p m d, find-retain_where p j m d)

  pub elem-keys_where :
      (p : V → Bool) (k : ℕ) (m : Assoc V)
      → Distinct m
      → elem k (keys_where p m) ≡ holds p (find k m)
  unfolding find elem keys_where
  elem-keys_where p k [] d = refl
  elem-keys_where p k ((j, w) ∷ m) (h, d) = ground (arith, elem-keys_where p k m d)
