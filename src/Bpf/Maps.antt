-- ===== src/Bpf/Maps.antt =====
-- The BPF maps of the kernel, which are not part of the repository: what the program does with a
-- hash map, and the documented behaviour that theorems take as a hypothesis.
use k_watch.Prelude.{◌≡◌, ◌≢◌, Option, none, some}

pub record BpfMap (K V : Type 0) : Type 1 where
  pub Map : Type 0
  -- `bpf_map_lookup_elem`, with the value behind the pointer that it returns
  pub lookup : Map → K → Option V
  -- a write through that pointer
  pub store : Map → K → V → Map
  -- `bpf_map_update_elem` with BPF_NOEXIST, whose return value the program ignores
  pub update_noexist : Map → K → V → Map

-- A write through a pointer changes the value of its key alone; BPF_NOEXIST leaves a key that is
-- there alone, and for one that is not there adds the value or (for a full map) nothing.
pub record IsHash {K V : Type 0} (m : BpfMap K V) : Type 0 where
  pub lookup-store_self :
      (t : m.Map) (k : K) (v w : V) → m.lookup t k ≡ some w → m.lookup (m.store t k v) k ≡ some v
  pub lookup-store_ne :
      (t : m.Map) (k j : K) (v : V) → k ≢ j → m.lookup (m.store t k v) j ≡ m.lookup t j
  pub update_noexist_there :
      (t : m.Map) (k : K) (v w : V)
      → m.lookup t k ≡ some w
      → m.lookup (m.update_noexist t k v) k ≡ some w
  pub update_noexist_adds :
      (t : m.Map) (k : K) (v w : V)
      → m.lookup t k ≡ none
      → m.lookup (m.update_noexist t k v) k ≡ some w
      → w ≡ v

-- Adding a key to a hash map that is not an LRU map removes no other.
pub record IsStable {K V : Type 0} (m : BpfMap K V) : Type 0 where
  pub update_noexist_ne :
      (t : m.Map) (k j : K) (v : V) → k ≢ j → m.lookup (m.update_noexist t k v) j ≡ m.lookup t j
