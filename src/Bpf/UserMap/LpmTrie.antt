-- ===== src/Bpf/UserMap/LpmTrie.antt =====
-- The blacklist of bpf/kwatch.bpf.c, a `BPF_MAP_TYPE_LPM_TRIE` of at most 1024 entries: what the kernel
-- documents of such a map.
pub mod LpmList
use k_watch.Prelude.{
  ℕ, zero, suc, ◌+◌, ◌-◌, ◌/◌, ◌%◌, ◌^◌, ◌≤◌, ◌≡◌, refl, sym, ◌∙◌, subst, ap, Option, none, some,
  List, [], ◌∷◌, Bool, true, false, ◌&&◌, ◌||◌, ◌==◌, leb, ltb, if◌then◌else◌, arith, length,
}
use k_watch.Bpf.UserMap.{UserMap}

-- a key: prefix length and address
abbrev pub Prefix : Type 0
Prefix = ℕ × ℕ

abbrev pub max_entries : ℕ
max_entries = 1024

-- The first `n` bits of an address, below 32. Its lowest byte stands first in memory, and a byte's
-- highest bit is its first.
abbrev pub first_bits : ℕ → ℕ → ℕ × ℕ
first_bits n addr = (addr % 256 ^ (n / 8), addr / 256 ^ (n / 8) % 256 / 2 ^ (8 - n % 8))

abbrev pub same_bits : ℕ × ℕ → ℕ × ℕ → Bool
same_bits (a, b) (c, d) = a == c && b == d

-- The keys of one node: bits past the prefix length do not count, and 32 bits are the whole address.
unfoldable pub same_prefix : Prefix → Prefix → Bool
same_prefix (n, a) (k, b) =
    n == k && (if leb 32 n then a == b else same_bits (first_bits n a) (first_bits n b))

-- The value of the longest prefix of `addr` that has a node, of the prefixes of at most `n` bits.
unfoldable pub longest : (Prefix → Option ℕ) → ℕ → ℕ → Option ℕ
longest node zero addr = node (0, addr)
longest node (suc n) addr = elim (node (suc n, addr)) [
  | none ↦ longest node n addr
  | some v ↦ some v
]

-- `node` is the value of a prefix of its own, which no single call tells, and `size` the number of the
-- nodes. An update fails only where the map is full, for a key with at most 32 bits,
-- the kernel having memory.
pub record IsLpmTrie (u : UserMap Prefix ℕ) : Type 0 where
  pub node : u.Map → Prefix → Option ℕ
  pub size : u.Map → ℕ
  pub lookup_longest : (m : u.Map) (n addr : ℕ) → u.lookup m (n, addr) ≡ longest (node m) n addr
  pub node-update :
      (m m' : u.Map) (k j : Prefix) (v : ℕ)
      → u.update m k v ≡ some m'
      → node m' j ≡ (if same_prefix k j then some v else node m j)
  pub size-update :
      (m m' : u.Map) (k : Prefix) (v : ℕ) → u.update m k v ≡ some m' → size m' ≤ size m + 1
  pub update_fails :
      (m : u.Map) (n addr v : ℕ) → n ≤ 32 → u.update m (n, addr) v ≡ none → max_entries ≤ size m
  pub node-delete :
      (m m' : u.Map) (k j : Prefix)
      → u.delete m k ≡ some m'
      → node m' j ≡ (if same_prefix k j then none else node m j)
  pub delete_fails :
      (m : u.Map) (k j : Prefix) → u.delete m k ≡ none → same_prefix k j ≡ true → node m j ≡ none

-- The kernel's lookup of an address finds a node of all its 32 bits first.
pub lookup_host :
    (u : UserMap Prefix ℕ) (laws : IsLpmTrie u) (m : u.Map) (addr : ℕ) {v : ℕ}
    → laws.node m (32, addr) ≡ some v
    → u.lookup m (32, addr) ≡ some v
unfolding longest
lookup_host u laws m addr e = laws.lookup_longest m 32 addr ∙ rw (longest, e) refl
