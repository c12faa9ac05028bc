-- ===== src/Bpf/Skeleton/Load/Details.antt =====
-- The libbpf messages as one line of a log.
use k_watch.Prelude.{
  ℕ, zero, suc, ◌≤◌, ◌≡◌, refl, [], ◌∷◌, ◌++◌, Bool, true, false, not, ◌&&◌, ltb, ◌==◌, length,
  take, length-take, length-append, arith, Bool-cases, inl, inr,
}
use k_watch.Prelude.Text.{Text, codes}
use k_watch.Bpf.Skeleton.Load.{is_blank, squeeze, one_line_libbpf_details}

-- No line break and no tab, and no two spaces in a row; `last_was_space` is of the character before.
unfoldable pub one_line : Bool → Text → Bool
one_line last_was_space [] = true
one_line last_was_space (ch ∷ s) =
    not (is_blank ch && not (ch == 32)) && not (last_was_space && ch == 32) && one_line (ch == 32) s

squeeze-one_line : (last : Bool) (s : Text) → one_line last (squeeze last s) ≡ true
unfolding squeeze one_line
squeeze-one_line last [] = refl
squeeze-one_line true (ch ∷ s) = ground (arith, squeeze-one_line true s, squeeze-one_line false s)
squeeze-one_line false (ch ∷ s) = ground (arith, squeeze-one_line true s, squeeze-one_line false s)

one_line-cut :
    (last : Bool) (n : ℕ) (s : Text)
    → one_line last s ≡ true
    → one_line last (take n s ++ codes "...") ≡ true
unfolding one_line
one_line-cut last zero s h = ground arith
one_line-cut last (suc n) [] h = ground arith
one_line-cut last (suc n) (ch ∷ s) h = ground (arith, h, one_line-cut (ch == 32) n s)

pub one_line_libbpf_details-one_line :
    (buf : Text)
    → (one_line false (one_line_libbpf_details buf) ≡ true)
      × (length (one_line_libbpf_details buf) ≤ 1003)
unfolding one_line_libbpf_details
one_line_libbpf_details-one_line buf = elim (Bool-cases (ltb 1000 (length (squeeze false buf)))) [
  | inl h ↦
      rw (one_line_libbpf_details, h)
        (
          one_line-cut false 1000 (squeeze false buf) (squeeze-one_line false buf),
          ground (
            arith,
            length-append (take 1000 (squeeze false buf)) (codes "..."),
            length-take 1000 (squeeze false buf),
          ),
        )
  | inr h ↦ rw (one_line_libbpf_details, h) (squeeze-one_line false buf, ground (arith, h))
]
