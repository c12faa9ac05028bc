-- ===== src/Bpf/Cleanup/Clears.antt =====
-- What `cleanup_stale_state` has removed where it succeeds.
use k_watch.Prelude.{
  ℕ, ◌≡◌, ◌≢◌, refl, ap, sym, ◌∙◌, Option, none, some, List, [], ◌∷◌, ◌++◌, Bool, true, false, not,
  ◌&&◌, ◌==◌, if◌then◌else◌, ◌⊎◌, inl, inr, Bool-cases, arith, ==_iff, get_elem?, String,
}
use k_watch.Prelude.Text.{Text, equal, equal_refl, equal_sound}
use k_watch.Util.Result.{Result, ok, err, by_refusal}
use k_watch.Bpf.Host.{Host, IsHost, Call, Node, Outside, entry_path, enoent, listed}
use k_watch.Bpf.Cleanup.{
  is_dot, unlink_entries, remove_listed, remove_dir_entries, clean_dir, clean_pin, clean_owner,
  cleanup_stale_state, Step, pin_path_for_iface, owner_state_dir_for_iface,
  owner_pid_path_for_iface,
}
use k_watch.Bpf.Cleanup.Frame.{remove_dir-frame, clean_pin-frame}

tail_of : Text → Text
tail_of [] = []
tail_of (c ∷ s) = s

entry_path_injective : (p a b : Text) → entry_path p a ≡ entry_path p b → a ≡ b
unfolding tail_of
entry_path_injective [] a b e = ap tail_of e
entry_path_injective (c ∷ p) a b e = entry_path_injective p a b (ap tail_of e)

append-ne : (s : Text) (c : ℕ) (t : Text) → s ++ (c ∷ t) ≢ s
unfolding tail_of
append-ne [] c t e = cc
append-ne (d ∷ s) c t e = append-ne s c t (ap tail_of e)

dot-ne : (n name : Text) → is_dot n ≡ true → is_dot name ≡ false → equal n name ≡ false
dot-ne n name a b = elim (Bool-cases (equal n name)) [
  | inl e ↦ ground (arith, a, b, ap is_dot (equal_sound n name e))
  | inr e ↦ e
]

listed-tail :
    (n name : Text) (names : List Text)
    → equal n name ≡ false
    → listed name (n ∷ names) ≡ true
    → listed name names ≡ true
listed-tail n name names a b = ground (arith, a, b)

-- `unlink(…) != 0 && errno != ENOENT`
abbrev failed : ℕ → Bool
failed e = not (e == 0) && not (e == enoent)

failed-cases : (e : ℕ) → failed e ≡ false → (e ≡ 0) ⊎ (e ≡ enoent)
failed-cases e h = ground arith

-- A property of the world behind the three ways that an entry can go.
module _ {W : Type 0} (G : W → Type 0) where
  by_entry :
      (p q : Bool) (a c : Result (Unit {0}) × W) (e : String) (w : W) (u : Unit {0})
      → (p ≡ true → a.0 ≡ ok u → G a.1)
      → (p ≡ false → q ≡ false → c.0 ≡ ok u → G c.1)
      → (if p then a else if q then (err e, w) else c).0 ≡ ok u
      → G (if p then a else if q then (err e, w) else c).1
  by_entry true q a c e w u f g r = f refl r
  by_entry false true a c e w u f g r = cc
  by_entry false false a c e w u f g r = g refl refl r

module _ (h : Host) (laws : IsHost h) where
  abbrev Gone : h.World → Text → Text → Type 0
  Gone w dir_path name = h.node w (entry_path dir_path name) ≡ none

  absent : (o : Option Node) (b : Bool) → (o ≢ none → b ≡ true) → b ≡ false → o ≡ none
  absent none b k e = refl
  absent (some n) b k e = ground (arith, k (λ c. cc))

  -- The entries that are listed are gone.
  unlink_entries-Gone :
      (dir_path : Text) (names : List Text) (w : h.World) (name : Text) (u : Unit {0})
      → is_dot name ≡ false
      → (h.node w (entry_path dir_path name) ≢ none → listed name names ≡ true)
      → (unlink_entries h dir_path names w).0 ≡ ok u
      → h.node (unlink_entries h dir_path names w).1 (entry_path dir_path name) ≡ none
  unfolding unlink_entries
  unlink_entries-Gone dir_path [] w name u d k r =
      absent (h.node w (entry_path dir_path name)) false k refl
  unlink_entries-Gone dir_path (n ∷ names) w name u d k r =
      by_entry (λ v. Gone v dir_path name) (is_dot n) (failed (unlinked).0)
        (unlink_entries h dir_path names w) (unlink_entries h dir_path names unlinked.1)
        "unlink entry failed" unlinked.1 u
        (λ dot.
          unlink_entries-Gone dir_path names w name u d
            (λ m. listed-tail n name names (dot-ne n name dot d) (k m)))
        (λ plain done. unlink_entries-Gone dir_path names unlinked.1 name u d (later done)) r
    where
      unlinked : Call h.World
      unlinked = h.unlink w (entry_path dir_path n)

      later :
          failed unlinked.0 ≡ false
          → h.node unlinked.1 (entry_path dir_path name) ≢ none
          → listed name names ≡ true
      later done m = elim (Bool-cases (equal n name)) [
        | inl e ↦ absurd (
            m (
              ap (λ t. h.node unlinked.1 (entry_path dir_path t)) (sym (equal_sound n name e))
              ∙ laws.unlink_none w (entry_path dir_path n) (failed-cases unlinked.0 done)))
        | inr e ↦ listed-tail n name names e (
            k (λ z. m (
              laws.unlink_frame w (entry_path dir_path n) (entry_path dir_path name) (other e)
              ∙ z)))
      ]
        where
          other : equal n name ≡ false → entry_path dir_path name ≢ entry_path dir_path n
          other e i =
              ground (arith, e, equal_refl n, ap (equal n) (entry_path_injective dir_path name n i))

  remove_listed-Gone :
      (dir_path : Text) (w : h.World) (name : Text) (u : Unit {0}) (o : List Text ⊎ ℕ)
      → is_dot name ≡ false
      → h.read_dir w dir_path ≡ o
      → (remove_listed h dir_path w o).0 ≡ ok u
      → Gone (remove_listed h dir_path w o).1 dir_path name
  remove_listed-Gone dir_path w name u (inr e) d k r = elim (Bool-cases (e == enoent)) [
    | inl m ↦ rw m (laws.read_dir_none w dir_path name (k ∙ ap inr ((==_iff e enoent).0 m)))
    | inr m ↦ ground (arith, m, r)
  ]
  remove_listed-Gone dir_path w name u (inl names) d k r =
      unlink_entries-Gone dir_path names w name u d (laws.read_dir_all w dir_path name names k) r

  clean_dir-Gone :
      (dir_path : Text) (changed b : Bool) (s : Result (Unit {0}) × h.World) (name : Text)
      → ((u : Unit {0}) → s.0 ≡ ok u → Gone s.1 dir_path name)
      → (clean_dir h dir_path changed s).0 ≡ ok b
      → Gone (clean_dir h dir_path changed s).1 dir_path name
  unfolding clean_dir
  clean_dir-Gone dir_path changed b (err e, w) name k r = cc
  clean_dir-Gone dir_path changed b (ok u, w) name k r =
      remove_dir-frame h laws dir_path (err "pin dir remove failed") changed w
        (entry_path dir_path name) (append-ne dir_path b'/' name)
      ∙ k u refl

  clean_pin-Gone :
      (pin_path : Text) (b : Bool) (s : Step h) (name : Text)
      → is_dot name ≡ false
      → (clean_pin h pin_path s).0 ≡ ok b
      → Gone (clean_pin h pin_path s).1 pin_path name
  unfolding clean_pin remove_dir_entries
  clean_pin-Gone pin_path b (err e, w) name d r = cc
  clean_pin-Gone pin_path b (ok changed, w) name d r =
      clean_dir-Gone pin_path changed b (remove_dir_entries h pin_path w) name
        (λ u. remove_listed-Gone pin_path w name u (h.read_dir w pin_path) d refl) r

  clean_pin-ok :
      (pin_path : Text) (b : Bool) (s : Step h)
      → (clean_pin h pin_path s).0 ≡ ok b
      → (c : Bool) × (s.0 ≡ ok c)
  unfolding clean_pin
  clean_pin-ok pin_path b (err e, w) r = cc
  clean_pin-ok pin_path b (ok c, w) r = (c, refl)

  clean_owner-gone :
      (file dir : Text) (w : h.World) (b : Bool)
      → file ≢ dir
      → (clean_owner h file dir w).0 ≡ ok b
      → h.node (clean_owner h file dir w).1 file ≡ none
  unfolding clean_owner
  clean_owner-gone file dir w b ne r = elim (Bool-cases (failed (h.unlink w file).0)) [
    | inl f ↦ ground (arith, f, r)
    | inr f ↦
        rw (clean_owner, f)
          (remove_dir-frame h laws dir (err "owner dir remove failed") ((h.unlink w file).0 == 0)
              (h.unlink w file).1 file ne
            ∙ laws.unlink_none w file (failed-cases (h.unlink w file).0 f))
  ]

-- Nothing is left of the interface's owner file and of the entries of its pin directory.
pub record Cleared (h : Host) (if_name : Text) (w : h.World) : Type 0 where
  pub no_owner_file : h.node w (owner_pid_path_for_iface if_name) ≡ none
  pub no_entry :
      (name : Text)
      → is_dot name ≡ false
      → h.node w (entry_path (pin_path_for_iface if_name) name) ≡ none

abbrev owner_cleaned : (h : Host) → Text → h.World → Step h
owner_cleaned h if_name w =
    clean_owner h (owner_pid_path_for_iface if_name) (owner_state_dir_for_iface if_name) w

abbrev cleaned : (h : Host) → Text → h.World → Step h
cleaned h if_name w = clean_pin h (pin_path_for_iface if_name) (owner_cleaned h if_name w)

owner_file-ne_pin : (if_name : Text) → owner_pid_path_for_iface if_name ≢ pin_path_for_iface if_name
owner_file-ne_pin if_name e = ground (arith, ap (λ s. get_elem? s 1) e)

owner_file-Outside :
    (if_name : Text) → Outside (pin_path_for_iface if_name) (owner_pid_path_for_iface if_name)
owner_file-Outside if_name = record {
  not_entry = λ name e. ground (arith, ap (λ s. get_elem? s 1) e);
}

cleaned-Clears :
    (h : Host) (laws : IsHost h) (if_name : Text) (w : h.World) (b : Bool)
    → (cleaned h if_name w).0 ≡ ok b
    → Cleared h if_name (cleaned h if_name w).1
cleaned-Clears h laws if_name w b r = record {
  no_owner_file =
      clean_pin-frame h laws (pin_path_for_iface if_name) (owner_cleaned h if_name w)
        (owner_pid_path_for_iface if_name) (owner_file-ne_pin if_name) (owner_file-Outside if_name)
      ∙ (let (c, e) =
            clean_pin-ok h laws (pin_path_for_iface if_name) b (owner_cleaned h if_name w) r in
          clean_owner-gone h laws (owner_pid_path_for_iface if_name)
            (owner_state_dir_for_iface if_name) w c
            (append-ne (owner_state_dir_for_iface if_name) _ _) e);
  no_entry = λ name d.
      clean_pin-Gone h laws (pin_path_for_iface if_name) b (owner_cleaned h if_name w) name d r;
}

-- Where cleanup_stale_state succeeds, the interface has no owner file afterwards, and its pin
-- directory no entries besides `.` and `..`. The file system keeps what it documents.
pub cleanup_stale_state-Clears :
    (h : Host) (stat_line : ℕ → Option Text) (if_name : Text) (w : h.World) (b : Bool)
    → IsHost h
    → (cleanup_stale_state h stat_line if_name w).0 ≡ ok b
    → Cleared h if_name (cleanup_stale_state h stat_line if_name w).1
unfolding cleanup_stale_state
cleanup_stale_state-Clears h stat_line if_name w b laws r =
    by_refusal (Cleared h if_name) _ "active owner exists" w _ b
      (λ q. cleaned-Clears h laws if_name w b) r
