-- ===== src/Bpf/UserMap.antt =====
-- BPF maps as the user-space commands use them through libbpf: `bpf_map_lookup_elem`,
-- `bpf_map_get_next_key`, `bpf_map_update_elem` and `bpf_map_delete_elem` are parameters. The loops
-- over all the entries of a map.
pub mod Scan
pub mod ListMap
pub mod LpmTrie
use k_watch.Prelude.{
  ℕ, zero, suc, ◌≡◌, Bool, true, if◌then◌else◌, Option, none, some, List, [], ◌∷◌,
}

-- `none` is a call that fails.
pub record UserMap (K V : Type 0) : Type 1 where
  pub Map : Type 0
  pub lookup : Map → K → Option V
  pub next_key : Map → Option K → Option K
  pub update : Map → K → V → Option Map
  pub delete : Map → K → Option Map

module _ {K V : Type 0} (u : UserMap K V) where
  abbrev pub push_found : K → Option V → List (K × V) → List (K × V)
  push_found k none rest = rest
  push_found k (some v) rest = (k, v) ∷ rest

  abbrev pub map_found : K → Option V → Option (List (K × V)) → Option (List (K × V))
  map_found k v none = none
  map_found k v (some rest) = some (push_found k v rest)

  -- `while (bpf_map_get_next_key(fd, lookup_key, &next_key) == 0)`, with the entries whose lookup
  -- succeeds; `none` where the fuel is used up
  unfoldable pub scan_loop : ℕ → u.Map → Option K → Option (List (K × V))
  scan_loop zero m lookup_key = none
  scan_loop (suc f) m lookup_key = elim (u.next_key m lookup_key) [
    | none ↦ some []
    | some next ↦ map_found next (u.lookup m next) (scan_loop f m (some next))
  ]
