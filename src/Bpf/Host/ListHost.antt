-- ===== src/Bpf/Host/ListHost.antt =====
-- A host for tests: a list of paths and nodes.
use k_watch.Prelude.{
  ℕ, ◌≡◌, ◌≢◌, refl, ap, sym, ◌∙◌, Option, none, some, List, [], ◌∷◌, Bool, true, false, ◌==◌,
  if◌then◌else◌, ◌⊎◌, inl, inr, arith, Bool-cases, Option-cases,
}
use k_watch.Prelude.Text.{Text, codes, equal, equal_refl, equal_sound}
use k_watch.Bpf.Host.{
  Node, directory, file, pinned_map, Host, IsHost, entry_path, listed, enoent, eexist, enotempty,
  Call,
}

abbrev Files : Type 0
Files = List (Text × Node)

unfoldable pub lookup : Files → Text → Option Node
unfolding equal
lookup [] p = none
lookup ((q, n) ∷ w) p = if equal q p then some n else lookup w p

unfoldable pub remove : Files → Text → Files
unfolding equal
remove [] p = []
remove ((q, n) ∷ w) p = if equal q p then remove w p else (q, n) ∷ remove w p

-- the name of the entry of the directory that stands at a path
unfoldable strip : Text → Text → Option Text
strip [] [] = none
strip [] (c ∷ q) = if c == b'/' then some q else none
strip (d ∷ p) [] = none
strip (d ∷ p) (c ∷ q) = if d == c then strip p q else none

abbrev keep : Option Text → List Text → List Text
keep none names = names
keep (some n) names = n ∷ names

unfoldable pub names : Files → Text → List Text
unfolding strip
names [] p = []
names ((q, n) ∷ w) p = keep (strip p q) (names w p)

abbrev is_directory : Option Node → Bool
is_directory (some directory) = true
is_directory o = false

abbrev content : Option Node → Option Text
content (some (file t)) = some t
content o = none

abbrev list_read_dir : Files → Text → List Text ⊎ ℕ
list_read_dir w p = inl (names w p)

abbrev list_mkdir : Files → Text → Call Files
list_mkdir w p = elim (lookup w p) [ some n ↦ (eexist, w) | none ↦ (0, (p, directory) ∷ w) ]

abbrev pub rmdir_at : Option Node → List Text → Files → Text → Call Files
rmdir_at none ns w p = (enoent, w)
rmdir_at (some n) [] w p = (0, remove w p)
rmdir_at (some n) (m ∷ ms) w p = (enotempty, w)

abbrev list_rmdir : Files → Text → Call Files
list_rmdir w p = rmdir_at (lookup w p) (names w p) w p

abbrev list_unlink : Files → Text → Call Files
list_unlink w p = elim (lookup w p) [ none ↦ (enoent, w) | some n ↦ (0, remove w p) ]

-- opened: an empty file
abbrev list_put : Files → Text → Text → Call Files
list_put w p t = (0, (p, file t) ∷ remove w p)

abbrev map_path : Text → Text
map_path p = entry_path p (codes "flow_map")

abbrev list_pin : Files → Text → Call Files
list_pin w p = (0, (map_path p, pinned_map) ∷ w)

abbrev pub list_host : Host
list_host = record {
  World = Files;
  node = lookup;
  read_dir = list_read_dir;
  is_dir = λ w p. is_directory (lookup w p);
  read_file = λ w p. content (lookup w p);
  mkdir = list_mkdir;
  rmdir = list_rmdir;
  unlink = list_unlink;
  open_file = λ w p. list_put w p [];
  print_file = list_put;
  close_file = λ w p. (0, w);
  pin_maps = list_pin;
  unpin_maps = λ w p. remove w (map_path p);
  destroy = λ w s. w;
}

equal-ne : (p q : Text) → q ≢ p → equal p q ≡ false
equal-ne p q ne = elim (Bool-cases (equal p q)) [
  | inl h ↦ absurd (ne (sym (equal_sound p q h)))
  | inr h ↦ h
]

lookup-remove_ne : (w : Files) (p q : Text) → q ≢ p → lookup (remove w p) q ≡ lookup w q
unfolding lookup remove
lookup-remove_ne [] p q ne = refl
lookup-remove_ne ((r, n) ∷ w) p q ne = elim (Bool-cases (equal r p)) [
  | inl h ↦ rw (h, subst_ne (equal_sound r p h)) (lookup-remove_ne w p q ne)
  | inr h ↦ ground (arith, h, lookup-remove_ne w p q ne)
]
  where
    subst_ne : r ≡ p → equal r q ≡ false
    subst_ne e = ap (λ s. equal s q) e ∙ equal-ne p q ne

lookup-remove_self : (w : Files) (p : Text) → lookup (remove w p) p ≡ none
unfolding lookup remove
lookup-remove_self [] p = refl
lookup-remove_self ((r, n) ∷ w) p = elim (Bool-cases (equal r p)) [
  | inl h ↦ rw (h) (lookup-remove_self w p)
  | inr h ↦ rw (h, h) (lookup-remove_self w p)
]

lookup-cons_ne : (w : Files) (p q : Text) (n : Node) → q ≢ p → lookup ((p, n) ∷ w) q ≡ lookup w q
unfolding lookup
lookup-cons_ne w p q n ne = rw (lookup, equal-ne p q ne) refl

strip-entry_path : (p name : Text) → strip p (entry_path p name) ≡ some name
unfolding strip
strip-entry_path [] name = refl
strip-entry_path (c ∷ p) name = ground (arith, strip-entry_path p name)

-- A path that has a node is listed in its directory.
names-listed :
    (w : Files) (p name : Text)
    → lookup w (entry_path p name) ≢ none
    → listed name (names w p) ≡ true
unfolding lookup names
names-listed [] p name h = absurd (h refl)
names-listed ((q, n) ∷ w) p name h = elim (Bool-cases (equal q (entry_path p name))) [
  | inl e ↦ rw (stripped (equal_sound q (entry_path p name) e), equal_refl name) refl
  | inr e ↦ rest (names-listed w p name (λ k. h (rw (lookup, e) k))) (strip p q)
]
  where
    stripped : q ≡ entry_path p name → strip p q ≡ some name
    stripped e = ap (strip p) e ∙ strip-entry_path p name

    rest :
        listed name (names w p) ≡ true → (o : Option Text) → listed name (keep o (names w p)) ≡ true
    rest k none = k
    rest k (some m) = ground (arith, k)

read_file-put : (w : Files) (p t : Text) → content (lookup ((p, file t) ∷ w) p) ≡ some t
unfolding lookup
read_file-put w p t = rw (lookup, equal_refl p) refl

put_frame : (w : Files) (p t q : Text) → q ≢ p → lookup ((p, file t) ∷ remove w p) q ≡ lookup w q
put_frame w p t q ne = lookup-cons_ne (remove w p) p q (file t) ne ∙ lookup-remove_ne w p q ne

mkdir_frame : (w : Files) (p q : Text) → q ≢ p → lookup (list_mkdir w p).1 q ≡ lookup w q
mkdir_frame w p q ne = elim (Option-cases (lookup w p)) [
  | inl e ↦ rw (list_mkdir, e) (lookup-cons_ne w p q directory ne)
  | inr (n, e) ↦ rw (list_mkdir, e) refl
]

mkdir_new : (w : Files) (p : Text) → (list_mkdir w p).0 ≡ 0 → lookup w p ≡ none
mkdir_new w p h = elim (Option-cases (lookup w p)) [ inl e ↦ e | inr (n, e) ↦ ground (arith, e) ]

unlink_frame : (w : Files) (p q : Text) → q ≢ p → lookup (list_unlink w p).1 q ≡ lookup w q
unlink_frame w p q ne = elim (Option-cases (lookup w p)) [
  | inl e ↦ rw (list_unlink, e) refl
  | inr (n, e) ↦ rw (list_unlink, e) (lookup-remove_ne w p q ne)
]

unlink_none : (w : Files) (p : Text) → lookup (list_unlink w p).1 p ≡ none
unlink_none w p = elim (Option-cases (lookup w p)) [
  | inl e ↦ rw (list_unlink, e) e
  | inr (n, e) ↦ rw (list_unlink, e) (lookup-remove_self w p)
]

rmdir_at-frame :
    (o : Option Node) (ns : List Text) (w : Files) (p q : Text)
    → q ≢ p
    → lookup (rmdir_at o ns w p).1 q ≡ lookup w q
rmdir_at-frame none ns w p q ne = refl
rmdir_at-frame (some n) [] w p q ne = lookup-remove_ne w p q ne
rmdir_at-frame (some n) (m ∷ ms) w p q ne = refl

rmdir_at-none :
    (o : Option Node) (ns : List Text) (w : Files) (p : Text)
    → (rmdir_at o ns w p).0 ≡ 0
    → lookup (rmdir_at o ns w p).1 p ≡ none
rmdir_at-none none ns w p e = ground arith
rmdir_at-none (some n) [] w p e = lookup-remove_self w p
rmdir_at-none (some n) (m ∷ ms) w p e = ground arith

pub list_host-IsHost : IsHost list_host
list_host-IsHost = record {
  mkdir_frame = mkdir_frame;
  mkdir_new = mkdir_new;
  rmdir_frame = λ w p q ne. rmdir_at-frame (lookup w p) (names w p) w p q ne;
  rmdir_none = λ w p e. rmdir_at-none (lookup w p) (names w p) w p e;
  unlink_frame = unlink_frame;
  unlink_none = λ w p h. unlink_none w p;
  open_frame = λ w p q ne. put_frame w p [] q ne;
  print_frame = put_frame;
  close_frame = λ w p q ne. refl;
  pin_frame =
      λ w p q o. lookup-cons_ne w (map_path p) q pinned_map (o.not_entry (codes "flow_map"));
  unpin_frame = λ w p q o. lookup-remove_ne w (map_path p) q (o.not_entry (codes "flow_map"));
  destroy_frame = λ w k q. refl;
  read_file_node = λ w v p e. ap content e;
  read_dir_all =
      λ w p name ns e h. ap (listed name) (sym (inl_injective e)) ∙ names-listed w p name h;
  read_dir_none = λ w p name e. cc;
  read-write = λ w p t a b c. read_file-put _ p t;
}
  where
    inl_injective : {a b : List Text} → ◌≡◌ {A = List Text ⊎ ℕ} (inl a) (inl b) → a ≡ b
    inl_injective e = cc
