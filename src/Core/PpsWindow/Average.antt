-- ===== src/Core/PpsWindow/Average.antt =====
-- The newest rate and the average, read off the snapshot.
use native.Mathlib.Nat.{mod-eq_of_lt}
use native.Mathlib.Decide.{dec_lt}
use k_watch.Prelude.{
  ℕ, zero, suc, ◌+◌, ◌-◌, ◌%◌, ◌/◌, ◌^◌, ◌≤◌, ◌<◌, ◌≡◌, refl, sym, ap, ◌∙◌, List, [], ◌∷◌, ◌++◌,
  arith, length, length-set, get_or, get_or-set_self, u64,
}
use k_watch.Core.PpsWindow.{PpsWindow, size, push, copy_snapshot, latest, sum_loop, current_average}
use k_watch.Core.PpsWindow.Snapshot.{IsValid, round, copy_snapshot_from, round-shift, wrap_round}

-- Pushing a rate makes it the newest. For a valid window.
pub latest-push : {w : PpsWindow} (pps : ℕ) → IsValid w → latest (push w pps) ≡ pps
unfolding latest push
latest-push {w} pps v = ground (
  arith,
  length-set w.window w.head pps,
  get_or-set_self w.window w.head pps 0,
  back (w.head + 1) (size w),
  v.filling,
)
  where
    back : (h c : ℕ) → h ≤ c → (h ≡ c → h % c ≡ 0) × (h < c → h % c ≡ h)
    back h c le = (λ e. grind arith, λ lt. mod-eq_of_lt lt)

abbrev pub total : List ℕ → ℕ
total [] = 0
total (x ∷ xs) = x + total xs

total-append : (xs ys : List ℕ) → total (xs ++ ys) ≡ total xs + total ys
total-append [] ys = omega arith
total-append (x ∷ xs) ys = omega (arith, total-append xs ys)

module _ (window : List ℕ) where
  round_last :
      (s i n : ℕ)
      → round window s i (suc n)
        ≡ round window s i n ++ (get_or window ((s + i + n) % length window) 0 ∷ [])
  round_last s i zero = ap (λ k. get_or window (k % length window) 0 ∷ []) (omega arith)
  round_last s i (suc n) =
      ap (λ l. get_or window ((s + i) % length window) 0 ∷ l)
        (round_last s (i + 1) n
          ∙ ap (λ k. round window s (i + 1) n ++ (get_or window (k % length window) 0 ∷ []))
              (omega arith))

  -- Reading the whole array from another index gives the same sum.
  total_turned :
      (s m : ℕ)
      → s < length window
      → length window ≡ suc m
      → total (round window ((s + 1) % length window) 0 (suc m)) ≡ total (round window s 0 (suc m))
  total_turned s m lt e =
      ap total (round_last ((s + 1) % length window) 0 m)
      ∙ total-append (round window ((s + 1) % length window) 0 m) _
      ∙ omega (
        arith,
        ap total (round-shift window s 0 m),
        ap (λ k. get_or window k 0) (last_index),
        ap (λ k. get_or window k 0) (first_index),
      )
    where
      first_index : (s + 0) % length window ≡ s
      first_index = ap (λ k. k % length window) (omega arith) ∙ mod-eq_of_lt lt

      last_index : ((s + 1) % length window + 0 + m) % length window ≡ s
      last_index =
          ap (λ k. ((s + 1) % length window + 0 + k) % length window) (omega arith)
          ∙ wrap_round s (length window) lt

  total_from :
      (s m : ℕ)
      → s < length window
      → length window ≡ suc m
      → total (round window s 0 (suc m)) ≡ total (round window 0 0 (suc m))
  total_from zero m lt e = refl
  total_from (suc s) m lt e =
      ap (λ k. total (round window k 0 (suc m)))
        (sym (mod-eq_of_lt lt) ∙ ap (λ k. k % length window) (omega arith))
      ∙ total_turned s m (omega arith) e
      ∙ total_from s m (omega arith) e

  sum_loop-eq-total :
      (i n sum : ℕ)
      → i + n ≤ length window
      → sum < 2 ^ 64
      → sum_loop window i n sum ≡ u64 (sum + total (round window 0 i n))
  unfolding sum_loop
  sum_loop-eq-total i zero sum le lt = omega arith
  sum_loop-eq-total i (suc n) sum le lt =
      sum_loop-eq-total (i + 1) n _ (omega arith) (omega arith)
      ∙ omega (arith, ap (λ k. get_or window k 0) here)
    where
      here : (0 + i) % length window ≡ i
      here = ap (λ k. k % length window) {y = i} (omega arith) ∙ mod-eq_of_lt (omega arith)

total_snapshot :
    {w : PpsWindow} → IsValid w → total (copy_snapshot w) ≡ total (round w.window 0 0 w.count)
total_snapshot {w} v = elim (dec_lt w.count (size w)) [
  | yes lt ↦ ap total (copy_snapshot_from w refl (ground arith) refl)
  | no full ↦
      ap total (
        copy_snapshot_from w {s = w.head} {n = suc (size w - 1)} refl (ground arith)
          (omega (arith, v.head_in, v.count_in)))
      ∙ total_from w.window w.head (size w - 1) v.head_in (omega (arith, v.head_in))
      ∙ ap (λ n. total (round w.window 0 0 n)) {x = suc (size w - 1)}
          (omega (arith, v.head_in, v.count_in))
]

-- The average is the sum of the snapshot, as a uint64_t, over the number of rates, and 0 for a
-- window that holds none; also where the array has been written round. For a valid window.
pub current_average_lem :
    {w : PpsWindow}
    → IsValid w
    → (w.count ≡ 0 → current_average w ≡ 0)
      × (0 < w.count → current_average w ≡ u64 (total (copy_snapshot w)) / w.count)
unfolding current_average
current_average_lem {w} v = (
  λ e. ground arith,
  λ pos. ground (
    arith,
    total_snapshot v,
    sum_loop-eq-total w.window 0 w.count 0 (omega (arith, v.count_in)) (omega arith),
  ),
)
