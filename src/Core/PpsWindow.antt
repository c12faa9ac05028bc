-- ===== src/Core/PpsWindow.antt =====
-- core/pps_window.{h,cpp}: the last packet rates in an array of fixed size that is written round.
pub mod Snapshot
pub mod Average
pub mod Tests
use k_watch.Prelude.{
  ℕ, zero, suc, ◌+◌, ◌-◌, ◌/◌, ◌%◌, List, [], ◌∷◌, ◌++◌, Bool, ◌||◌, ltb, ◌==◌, if◌then◌else◌,
  length, get_or, set, replicate, u64,
}

pub record PpsWindow : Type 0 where
  pub window : List ℕ
  pub head : ℕ
  pub count : ℕ

-- the constructor
pub new : ℕ → PpsWindow
new size = record { window = replicate size 0; head = 0; count = 0 }

abbrev pub size : PpsWindow → ℕ
size w = length w.window

pub push : PpsWindow → ℕ → PpsWindow
push w pps = if length w.window == 0 then w else record {
  window = set w.window w.head pps;
  head = (w.head + 1) % length w.window;
  count = if ltb w.count (length w.window) then w.count + 1 else w.count;
}

-- The loop of `copy_snapshot` with `n` rounds left. Its indices are below `size()`.
copy_loop : List ℕ → ℕ → ℕ → ℕ → List ℕ → List ℕ
copy_loop window start i zero out = out
copy_loop window start i (suc n) out =
    copy_loop window start (i + 1) n (out ++ (get_or window ((start + i) % length window) 0 ∷ []))

-- The list is what `out` holds afterwards.
pub copy_snapshot : PpsWindow → List ℕ
copy_snapshot w =
    if w.count == 0
    then []
    else (let start = if ltb w.count (length w.window) then 0 else w.head in
        copy_loop w.window start 0 w.count [])

pub get_snapshot : PpsWindow → List ℕ
unfolding copy_snapshot
get_snapshot w = copy_snapshot w

pub latest : PpsWindow → ℕ
latest w =
    if w.count == 0 || length w.window == 0
    then 0
    else get_or w.window (if w.head == 0 then length w.window - 1 else w.head - 1) 0

-- The loop of `current_average`; the sum is a `uint64_t`.
sum_loop : List ℕ → ℕ → ℕ → ℕ → ℕ
sum_loop window i zero sum = sum
sum_loop window i (suc n) sum = sum_loop window (i + 1) n (u64 (sum + get_or window i 0))

pub current_average : PpsWindow → ℕ
current_average w = if w.count == 0 then 0 else sum_loop w.window 0 w.count 0 / w.count
