-- ===== src/Tui/Sparkline.antt =====
-- tui/widgets/sparkline.cpp: a graph of the last values in one line. A width that is negative in the
-- source is 0 here; both give no text.
pub mod Bars
pub mod Tests
use k_watch.Prelude.{
  ℕ, zero, suc, ◌-◌, ◌*◌, ◌/◌, List, [], ◌∷◌, Bool, true, false, ◌||◌, ltb, leb, ◌==◌,
  if◌then◌else◌, length, drop, get_or, u64, u32, String,
}

abbrev pub bars : List String
bars = " " ∷ " " ∷ "▂" ∷ "▃" ∷ "▄" ∷ "▅" ∷ "▆" ∷ "▇" ∷ "█" ∷ []

-- the loop for the greatest value
unfoldable pub max_loop : List ℕ → ℕ → ℕ
max_loop [] max_val = max_val
max_loop (x ∷ xs) max_val = max_loop xs (if ltb max_val x then x else max_val)

unfoldable pub max_of : List ℕ → ℕ
unfolding max_loop
max_of xs = if max_loop xs 0 == 0 then 1 else max_loop xs 0

-- the index before it is clamped
unfoldable pub raw_index : ℕ → ℕ → ℕ
raw_index max_val x = u64 (x * 8) / max_val

unfoldable pub bar_index : ℕ → ℕ → ℕ
unfolding raw_index
bar_index max_val x = if ltb 8 (raw_index max_val x) then 8 else raw_index max_val x

abbrev pub start_of : ℕ → ℕ → ℕ
start_of n width = if ltb width n then n - width else 0

unfoldable pub draw_loop : ℕ → List ℕ → List String
unfolding bar_index
draw_loop max_val [] = []
draw_loop max_val (x ∷ xs) = get_or bars (bar_index max_val x) "" ∷ draw_loop max_val xs

-- the bars one after another
unfoldable pub render_sparkline : List ℕ → ℕ → List String
unfolding max_of draw_loop
render_sparkline samples width =
    if length samples == 0 || width == 0
    then []
    else (let shown = drop (start_of (length samples) width) samples in
        draw_loop (max_of shown) shown)
