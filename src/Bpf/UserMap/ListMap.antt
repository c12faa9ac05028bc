-- ===== src/Bpf/UserMap/ListMap.antt =====
-- A map of the interface: a list of entries, for tests.
use k_watch.Prelude.{Option, none, some, List, [], ◌∷◌, Bool, if◌then◌else◌}
use k_watch.Bpf.UserMap.{UserMap}

module _ {K V : Type 0} (eq : K → K → Bool) where
  abbrev pub lookup : List (K × V) → K → Option V
  lookup [] k = none
  lookup ((j, v) ∷ m) k = if eq j k then some v else lookup m k

  abbrev first : List (K × V) → Option K
  first [] = none
  first ((k, v) ∷ m) = some k

  -- the key behind the given one, or the first key where that is not there
  abbrev pub after : List (K × V) → List (K × V) → K → Option K
  after all [] k = first all
  after all ((j, v) ∷ m) k = if eq j k then first m else after all m k

  abbrev pub next_key : List (K × V) → Option K → Option K
  next_key m none = first m
  next_key m (some k) = after m m k

  abbrev pub update : List (K × V) → K → V → List (K × V)
  update [] k v = (k, v) ∷ []
  update ((j, w) ∷ m) k v = if eq j k then (j, v) ∷ m else (j, w) ∷ update m k v

  abbrev pub remove : List (K × V) → K → List (K × V)
  remove [] k = []
  remove ((j, w) ∷ m) k = if eq j k then remove m k else (j, w) ∷ remove m k

  -- a key that is not there cannot be deleted
  abbrev pub delete : List (K × V) → K → Option (List (K × V))
  delete m k = elim (lookup m k) [ none ↦ none | some v ↦ some (remove m k) ]

  abbrev pub list_map : UserMap K V
  list_map = record {
    Map = List (K × V);
    lookup = lookup;
    next_key = next_key;
    update = λ m k v. some (update m k v);
    delete = delete;
  }
