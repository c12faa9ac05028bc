-- ===== src/Tui/Sparkline/Bars.antt =====
-- The bars that are drawn.
use native.Mathlib.Nat.{div-le_of_le-mul}
use k_watch.Prelude.{
  ℕ, suc, ◌≤◌, ◌≡◌, refl, ap, ◌∙◌, List, [], ◌∷◌, ltb, ◌==◌, if◌then◌else◌, arith, length, drop,
  length-drop, All, min, Bool-cases, inl, inr, ◌||◌,
}
use k_watch.Tui.Sparkline.{
  max_loop, max_of, raw_index, bar_index, start_of, draw_loop, render_sparkline,
}

max_loop_bound : (xs : List ℕ) (m : ℕ) → (m ≤ max_loop xs m) × All (λ x. x ≤ max_loop xs m) xs
unfolding max_loop
max_loop_bound [] m = (omega arith, tt)
max_loop_bound (x ∷ xs) m =
    raise (ground arith) (ground arith) (max_loop_bound xs (if ltb m x then x else m))
  where
    next : ℕ
    next = if ltb m x then x else m

    raise :
        m ≤ next
        → x ≤ next
        → (next ≤ max_loop xs next) × All (λ y. y ≤ max_loop xs next) xs
        → (m ≤ max_loop xs next) × ((x ≤ max_loop xs next) × All (λ y. y ≤ max_loop xs next) xs)
    raise a b (le, d) = (omega (arith, a, le), (omega (arith, b, le), d))

raw_index-le : (m x : ℕ) → x ≤ m → raw_index m x ≤ 8
unfolding raw_index
raw_index-le m x h = div-le_of_le-mul m (omega arith)

max_of-bound : (xs : List ℕ) → All (λ x. x ≤ max_of xs) xs
unfolding max_of
max_of-bound xs = elim (Bool-cases (max_loop xs 0 == 0)) [
  | inl e ↦ rw (max_of, e) (all_zero (max_loop xs 0) xs (ground arith) (max_loop_bound xs 0).1)
  | inr e ↦ rw (max_of, e) (max_loop_bound xs 0).1
]
  where
    all_zero : (m : ℕ) (ys : List ℕ) → m ≡ 0 → All (λ x. x ≤ m) ys → All (λ x. x ≤ 1) ys
    all_zero m [] z d = tt
    all_zero m (y ∷ ys) z (le, d) = (omega arith, all_zero m ys z d)

draw_loop-length : (m : ℕ) (xs : List ℕ) → length (draw_loop m xs) ≡ length xs
unfolding draw_loop
draw_loop-length m [] = refl
draw_loop-length m (x ∷ xs) = ap suc (draw_loop-length m xs)

-- The sparkline has one bar for each value that it shows: as many as there are values, at most the
-- width.
pub render_sparkline-length :
    (xs : List ℕ) (width : ℕ) → length (render_sparkline xs width) ≡ min width (length xs)
unfolding render_sparkline
render_sparkline-length xs width = elim (Bool-cases (length xs == 0 || width == 0)) [
  | inl e ↦ rw (render_sparkline, e) (ground arith)
  | inr e ↦
      rw (render_sparkline, e)
        (draw_loop-length (max_of (drop (start_of (length xs) width) xs))
            (drop (start_of (length xs) width) xs)
          ∙ length-drop (start_of (length xs) width) xs
          ∙ ground arith)
]

-- Whatever the values, also those whose product with 8 wraps around: for each value of a list, the
-- index into the table of bars is at most 8 without being clamped.
pub bar_index-in_table :
    (xs : List ℕ)
    → All
        (λ x. (raw_index (max_of xs) x ≤ 8) × (bar_index (max_of xs) x ≡ raw_index (max_of xs) x))
        xs
unfolding bar_index
bar_index-in_table xs = each (max_of xs) xs (max_of-bound xs)
  where
    each :
        (m : ℕ) (ys : List ℕ)
        → All (λ x. x ≤ m) ys
        → All (λ x. (raw_index m x ≤ 8) × (bar_index m x ≡ raw_index m x)) ys
    each m [] d = tt
    each m (y ∷ ys) (le, d) =
        ((raw_index-le m y le, ground (arith, raw_index-le m y le)), each m ys d)
