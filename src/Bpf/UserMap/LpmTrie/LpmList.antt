-- ===== src/Bpf/UserMap/LpmTrie/LpmList.antt =====
-- A list of entries that behaves as the kernel documents of the trie.
use k_watch.Prelude.{
  ℕ, ◌+◌, ◌≤◌, ◌≡◌, refl, sym, ◌∙◌, subst, ap, Option, none, some, List, [], ◌∷◌, Bool, true, false,
  ◌&&◌, ◌||◌, ◌==◌, leb, ltb, if◌then◌else◌, arith, length,
}
use k_watch.Bpf.UserMap.{UserMap}
use k_watch.Bpf.UserMap.ListMap.{update, remove, next_key, lookup}
use k_watch.Bpf.UserMap.LpmTrie.{
  Prefix, max_entries, first_bits, same_bits, same_prefix, longest, IsLpmTrie,
}

same_prefix_refl : (k : Prefix) → same_prefix k k ≡ true
unfolding same_prefix
same_prefix_refl (n, a) = ground arith

bits_cong :
    (whole : Bool) (a b d : ℕ) (x y z : ℕ × ℕ)
    → (if whole then a == b else same_bits x y) ≡ true
    → (if whole then a == d else same_bits x z) ≡ (if whole then b == d else same_bits y z)
bits_cong whole a b d x y z h = ground (arith, h)

both : (x y : Bool) → (x && y) ≡ true → (x ≡ true) × (y ≡ true)
both x y h = ground (arith, h)

same_number : (n k : ℕ) → (n == k) ≡ true → n ≡ k
same_number n k h = ground (arith, h)

-- The keys of one node have the same other keys of that node.
same_prefix_cong : (i k j : Prefix) → same_prefix i k ≡ true → same_prefix i j ≡ same_prefix k j
unfolding same_prefix
same_prefix_cong (n, a) (k, b) (l, d) h =
    subst
      (λ k.
        (n == l && (if leb 32 n then a == d else same_bits (first_bits n a) (first_bits n d)))
        ≡ (k == l && (if leb 32 k then b == d else same_bits (first_bits k b) (first_bits k d))))
      (same_number n k parts.0)
      (ap (λ x. n == l && x)
        (bits_cong (leb 32 n) a b d (first_bits n a) (first_bits n b) (first_bits n d) parts.1))
  where
    parts :
        ((n == k) ≡ true)
        × ((if leb 32 n then a == b else same_bits (first_bits n a) (first_bits n b)) ≡ true)
    parts =
        both (n == k) (if leb 32 n then a == b else same_bits (first_bits n a) (first_bits n b)) h

-- a node of the list
abbrev pub node_of : List (Prefix × ℕ) → Prefix → Option ℕ
node_of m k = lookup same_prefix m k

abbrev delete : List (Prefix × ℕ) → Prefix → Option (List (Prefix × ℕ))
delete m k = elim (node_of m k) [ none ↦ none | some v ↦ some (remove same_prefix m k) ]

abbrev pub lpm_list : UserMap Prefix ℕ
lpm_list = record {
  Map = List (Prefix × ℕ);
  lookup = λ m k. longest (node_of m) k.0 k.1;
  next_key = next_key same_prefix;
  update = λ m k v.
      if leb max_entries (length m) || ltb 32 k.0 then none else some (update same_prefix m k v);
  delete = delete;
}

-- the tests of an entry `i`, the key `k` of the call and a key `j`
apart :
    (i k j : Prefix) → same_prefix i k ≡ false → same_prefix i j ≡ true → same_prefix k j ≡ false
apart i k j h e =
    ground (arith, h, e, same_prefix_cong i j k, same_prefix_cong k j k, same_prefix_refl k)

set_node :
    (a b c : Bool) (v w : ℕ) (rest rest' : Option ℕ)
    → (a ≡ true → c ≡ b)
    → (a ≡ false → c ≡ true → b ≡ false)
    → rest' ≡ (if b then some v else rest)
    → (if a then (if c then some v else rest) else (if c then some w else rest'))
      ≡ (if b then some v else (if c then some w else rest))
set_node a b c v w rest rest' h k e = ground (arith, h, k, e)

drop_node :
    (a b c : Bool) (w : ℕ) (rest rest' : Option ℕ)
    → (a ≡ true → c ≡ b)
    → (a ≡ false → c ≡ true → b ≡ false)
    → rest' ≡ (if b then none else rest)
    → (if a then rest' else (if c then some w else rest'))
      ≡ (if b then none else (if c then some w else rest))
drop_node a b c w rest rest' h k e = ground (arith, h, k, e)

node_of_if :
    (a : Bool) (x y : List (Prefix × ℕ)) (j : Prefix)
    → node_of (if a then x else y) j ≡ (if a then node_of x j else node_of y j)
node_of_if true x y j = refl
node_of_if false x y j = refl

pub node_of-update :
    (m : List (Prefix × ℕ)) (k j : Prefix) (v : ℕ)
    → node_of (update same_prefix m k v) j ≡ (if same_prefix k j then some v else node_of m j)
node_of-update [] k j v = refl
node_of-update ((i, w) ∷ m) k j v =
    node_of_if (same_prefix i k) ((i, v) ∷ m) ((i, w) ∷ update same_prefix m k v) j
    ∙ set_node (same_prefix i k) (same_prefix k j) (same_prefix i j) v w (node_of m j) _
        (same_prefix_cong i k j) (apart i k j) (node_of-update m k j v)

node_of-remove :
    (m : List (Prefix × ℕ)) (k j : Prefix)
    → node_of (remove same_prefix m k) j ≡ (if same_prefix k j then none else node_of m j)
node_of-remove [] k j = ground arith
node_of-remove ((i, w) ∷ m) k j =
    node_of_if (same_prefix i k) (remove same_prefix m k) ((i, w) ∷ remove same_prefix m k) j
    ∙ drop_node (same_prefix i k) (same_prefix k j) (same_prefix i j) w (node_of m j) _
        (same_prefix_cong i k j) (apart i k j) (node_of-remove m k j)

node_of_cong :
    (m : List (Prefix × ℕ)) (k j : Prefix)
    → same_prefix k j ≡ true
    → node_of m k ≡ none
    → node_of m j ≡ none
node_of_cong [] k j h e = refl
node_of_cong ((i, w) ∷ m) k j h e = ground (
  arith,
  h,
  e,
  node_of_cong m k j h,
  same_prefix_cong k j i,
  same_prefix_cong i j k,
  same_prefix_cong k j k,
  same_prefix_refl k,
)

pub length-update_lem :
    (m : List (Prefix × ℕ)) (k : Prefix) (v : ℕ) → length (update same_prefix m k v) ≤ length m + 1
length-update_lem [] k v = omega arith
length-update_lem ((i, w) ∷ m) k v = ground (arith, length-update_lem m k v)

pub when_room :
    (full : Bool) (m m' m'' : List (Prefix × ℕ))
    → ◌≡◌ {A = Option (List (Prefix × ℕ))} (if full then none else some m') (some m'')
    → m' ≡ m''
when_room true m m' m'' h = cc
when_room false m m' m'' h = cc

pub update_fails_lem :
    (m : List (Prefix × ℕ)) (n addr v : ℕ)
    → n ≤ 32
    → lpm_list.update m (n, addr) v ≡ none
    → max_entries ≤ length m
update_fails_lem m n addr v h e = ground arith

pub node_of-delete :
    (m m' : List (Prefix × ℕ)) (k j : Prefix)
    → delete m k ≡ some m'
    → node_of m' j ≡ (if same_prefix k j then none else node_of m j)
node_of-delete m m' k j e = ground (arith, node_of-remove m k j)

pub delete_fails_lem :
    (m : List (Prefix × ℕ)) (k j : Prefix)
    → delete m k ≡ none
    → same_prefix k j ≡ true
    → node_of m j ≡ none
delete_fails_lem m k j e h = node_of_cong m k j h (ground arith)

unfoldable pub lpm_list-IsLpmTrie : IsLpmTrie lpm_list
lpm_list-IsLpmTrie = record {
  node = node_of;
  size = λ m. length m;
  lookup_longest = λ m n addr. refl;
  node-update = λ m m' k j v e.
      ap (λ t. node_of t j) (sym (when_room _ m (update same_prefix m k v) m' e))
      ∙ node_of-update m k j v;
  size-update = λ m m' k v e.
      subst (λ t. length t ≤ length m + 1) (when_room _ m (update same_prefix m k v) m' e)
        (length-update_lem m k v);
  update_fails = update_fails_lem;
  node-delete = node_of-delete;
  delete_fails = delete_fails_lem;
}
