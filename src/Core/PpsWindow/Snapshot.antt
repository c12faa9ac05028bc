-- ===== src/Core/PpsWindow/Snapshot.antt =====
-- A window that is pushed to holds the last `size()` of the rates, oldest first.
use native.Mathlib.Nat.{mod-add-mod, mod-eq_of_lt, mod-eq-sub-mod, mod-lt, add-mod_right}
use native.Mathlib.Decide.{dec_lt}
use mathlib.Core.List.{append-nil, append_assoc}
use k_watch.Prelude.{
  ℕ, zero, suc, ◌+◌, ◌-◌, ◌%◌, ◌≤◌, ◌<◌, ◌≡◌, refl, sym, ap, ap₂, ◌∙◌, ◌≢◌, List, [], ◌∷◌, ◌++◌,
  arith, ltb, length, length-set, length-append, length-replicate, get_or, set, drop, drop-append,
  drop-drop, length-append, length-drop, length-replicate, if◌then◌else◌, get_or-set_self,
  get_or-set_ne,
}
use k_watch.Core.PpsWindow.{PpsWindow, size, new, push, copy_loop, copy_snapshot}

-- The indices stay in range, and the next write follows the last rate.
pub record IsValid (w : PpsWindow) : Type 0 where
  pub head_in : w.head < size w
  pub count_in : w.count ≤ size w
  pub filling : w.count < size w → w.head ≡ w.count

pub push-IsValid : {w : PpsWindow} (pps : ℕ) → IsValid w → IsValid (push w pps)
unfolding push
push-IsValid {w} pps v = ground (arith, length-set w.window w.head pps, room, v.filling)
  where
    room : w.head + 1 < size w → (w.head + 1) % size w ≡ w.head + 1
    room h = mod-eq_of_lt h

-- `n` entries from index `start + i` on, going round at the end
abbrev pub round : List ℕ → ℕ → ℕ → ℕ → List ℕ
round window start i zero = []
round window start i (suc n) =
    get_or window ((start + i) % length window) 0 ∷ round window start (i + 1) n

copy_loop-eq-round :
    (window : List ℕ) (start i n : ℕ) (out : List ℕ)
    → copy_loop window start i n out ≡ out ++ round window start i n
unfolding copy_loop
copy_loop-eq-round window start i zero out = sym (append-nil out)
copy_loop-eq-round window start i (suc n) out =
    copy_loop-eq-round window start (i + 1) n _ ∙ append_assoc out _ _

length-round : (window : List ℕ) (start i n : ℕ) → length (round window start i n) ≡ n
length-round window start i zero = refl
length-round window start i (suc n) = ap suc (length-round window start (i + 1) n)

-- Fewer than `c` steps on do not come back to the same index.
mod-ne : (a k c : ℕ) → 0 < k → k < c → (a + k) % c ≢ a % c
mod-ne a k c pos lt = elim (dec_lt (a % c + k) c) [
  | yes p ↦ omega (arith, mod-add-mod a c k, mod-eq_of_lt p)
  | no p ↦ omega (
    arith,
    mod-add-mod a c k,
    mod-lt a {m = c} (omega arith),
    mod-eq-sub-mod {n = a % c + k} {m = c} (omega arith),
    mod-eq_of_lt {n = a % c + k - c} {m = c} (omega (arith, mod-lt a {m = c} (omega arith))),
  )
]

mod-self_of_eq : (a c : ℕ) → a ≡ c → a % c ≡ 0
mod-self_of_eq a c e = grind arith

pub wrap_round : (h c : ℕ) → h < c → ((h + 1) % c + 0 + (c - 1)) % c ≡ h
wrap_round h c lt =
    ap (λ k. k % c) (omega arith)
    ∙ mod-add-mod (h + 1) c (c - 1)
    ∙ ap (λ k. k % c) (omega arith)
    ∙ add-mod_right h c
    ∙ mod-eq_of_lt lt

-- Writing at the index just past `n` entries appends to them.
pub round-set :
    (window : List ℕ) (x start i n p : ℕ)
    → n < length window
    → p ≡ (start + i + n) % length window
    → round (set window p x) start i (suc n) ≡ round window start i n ++ (x ∷ [])
round-set window x start i zero p lt e =
    ap₂ ◌∷◌ (ap (λ k. get_or (set window p x) k 0) here ∙ get_or-set_self window p x 0 in_range)
      refl
  where
    here : (start + i) % length (set window p x) ≡ p
    here = rw (length-set window p x) (ap (λ k. k % length window) (omega arith) ∙ sym e)

    in_range : p < length window
    in_range = rw e (mod-lt (start + i + 0) (omega arith))
round-set window x start i (suc n) p lt e =
    ap₂ ◌∷◌
      (rw (length-set window p x) (get_or-set_ne window p ((start + i) % length window) x 0 apart))
      (round-set window x start (i + 1) n p (omega arith)
        (e ∙ ap (λ k. k % length window) (omega arith)))
  where
    apart : p ≢ (start + i) % length window
    apart = rw e (mod-ne (start + i) (suc n) (length window) (omega arith) lt)

-- Going on by one index is starting one index later.
pub round-shift :
    (window : List ℕ) (start i n : ℕ)
    → round window start (i + 1) n ≡ round window ((start + 1) % length window) i n
round-shift window start i zero = refl
round-shift window start i (suc n) =
    ap₂ ◌∷◌
      (ap (λ k. get_or window k 0)
        (ap (λ k. k % length window) (omega arith)
          ∙ sym (mod-add-mod (start + 1) (length window) i)))
      (round-shift window start (i + 1) n)

-- where `copy_snapshot` starts to read
abbrev pub start : PpsWindow → ℕ
start w = if ltb w.count (size w) then 0 else w.head

copy_snapshot-eq-round : (w : PpsWindow) → copy_snapshot w ≡ round w.window (start w) 0 w.count
unfolding copy_snapshot
copy_snapshot-eq-round w = ground (arith, copy_loop-eq-round w.window (start w) 0 w.count [])

pub length-copy_snapshot : (w : PpsWindow) → length (copy_snapshot w) ≡ w.count
length-copy_snapshot w = rw copy_snapshot-eq-round (length-round w.window (start w) 0 w.count)

-- the last `n` elements
abbrev pub keep_last : ℕ → List ℕ → List ℕ
keep_last n xs = drop (length xs - n) xs

pub copy_snapshot_from :
    (w : PpsWindow) {window : List ℕ} {s n : ℕ}
    → w.window ≡ window
    → start w ≡ s
    → w.count ≡ n
    → copy_snapshot w ≡ round window s 0 n
copy_snapshot_from w e f g = copy_snapshot-eq-round w ∙ (λ i. round (e i) (f i) 0 (g i))

module _ {w : PpsWindow} (pps : ℕ) (v : IsValid w) where
  copy_snapshot-push_filling :
      w.count < size w → copy_snapshot (push w pps) ≡ copy_snapshot w ++ (pps ∷ [])
  unfolding push
  copy_snapshot-push_filling lt =
      copy_snapshot_from (push w pps) {window = set w.window w.head pps} {s = 0} {n = suc w.count}
        (ground arith)
        (ground
          (arith, length-set w.window w.head pps, v.filling, mod-self_of_eq (w.head + 1) (size w)))
        (ground arith)
      ∙ round-set w.window pps 0 0 w.count w.head lt here
      ∙ ap (λ l. l ++ (pps ∷ [])) (sym (copy_snapshot_from w refl (ground arith) refl))
    where
      here : w.head ≡ (0 + 0 + w.count) % size w
      here = v.filling lt ∙ sym (mod-eq_of_lt lt) ∙ ap (λ k. k % size w) (omega arith)

  -- the last `size() - 1` entries of a full window
  abbrev newer : List ℕ
  newer = round w.window ((w.head + 1) % size w) 0 (size w - 1)

  copy_snapshot_full : w.count ≡ size w → copy_snapshot w ≡ get_or w.window w.head 0 ∷ newer
  copy_snapshot_full full =
      copy_snapshot_from w {window = w.window} {s = w.head} {n = suc (size w - 1)} refl
        (ground arith) (omega (arith, v.head_in))
      ∙ ap₂ ◌∷◌
          (ap (λ k. get_or w.window k 0)
            (ap (λ k. k % size w) (omega arith) ∙ mod-eq_of_lt v.head_in))
          (round-shift w.window w.head 0 (size w - 1))

  copy_snapshot-push_full : w.count ≡ size w → copy_snapshot (push w pps) ≡ newer ++ (pps ∷ [])
  unfolding push
  copy_snapshot-push_full full =
      copy_snapshot_from (push w pps) {window = set w.window w.head pps} {s = (w.head + 1) % size w}
        {n = suc (size w - 1)} (ground arith) (ground (arith, length-set w.window w.head pps))
        (ground arith)
      ∙ round-set w.window pps ((w.head + 1) % size w) 0 (size w - 1) w.head
          (omega (arith, v.head_in)) here
    where
      here : w.head ≡ ((w.head + 1) % size w + 0 + (size w - 1)) % size w
      here = sym (wrap_round w.head (size w) v.head_in)

-- A rate that is pushed is appended to what the window shows, and the oldest rate goes when the
-- window was full.
-- For a valid window, whose size is therefore not 0.
pub copy_snapshot-push :
    {w : PpsWindow} (pps : ℕ)
    → IsValid w
    → copy_snapshot (push w pps) ≡ keep_last (size w) (copy_snapshot w ++ (pps ∷ []))
copy_snapshot-push {w} pps v = elim (dec_lt w.count (size w)) [
  | yes lt ↦ copy_snapshot-push_filling pps v lt ∙ sym (keep_all lt)
  | no full ↦ copy_snapshot-push_full pps v (omega arith) ∙ sym (drop_oldest (omega arith))
]
  where
    measured : length (copy_snapshot w ++ (pps ∷ [])) ≡ w.count + 1
    measured = length-append (copy_snapshot w) (pps ∷ []) ∙ ap (λ k. k + 1) (length-copy_snapshot w)

    keep_all :
        w.count < size w
        → keep_last (size w) (copy_snapshot w ++ (pps ∷ [])) ≡ copy_snapshot w ++ (pps ∷ [])
    keep_all lt = ap (λ k. drop k (copy_snapshot w ++ (pps ∷ []))) {y = 0} (omega (arith, measured))

    drop_oldest :
        w.count ≡ size w
        → keep_last (size w) (copy_snapshot w ++ (pps ∷ [])) ≡ newer pps v ++ (pps ∷ [])
    drop_oldest full =
        ap (λ k. drop k (copy_snapshot w ++ (pps ∷ []))) {y = 1} (omega (arith, measured))
        ∙ ap (λ l. drop 1 (l ++ (pps ∷ []))) (copy_snapshot_full pps v full)

-- every rate of a list, in order
unfoldable pub push_all : PpsWindow → List ℕ → PpsWindow
push_all w [] = w
push_all w (x ∷ xs) = push_all (push w x) xs

size-push : (w : PpsWindow) (pps : ℕ) → size (push w pps) ≡ size w
unfolding push
size-push w pps = ground (arith, length-set w.window w.head pps)

keep_last-step :
    (n : ℕ) (ys : List ℕ) (x : ℕ)
    → keep_last n (keep_last n ys ++ (x ∷ [])) ≡ keep_last n (ys ++ (x ∷ []))
keep_last-step n ys x =
    ap (keep_last n) (sym (drop-append m ys (x ∷ []) (omega arith)))
    ∙ drop-drop (length (drop m (ys ++ (x ∷ []))) - n) m (ys ++ (x ∷ []))
    ∙ ap (λ k. drop k (ys ++ (x ∷ [])))
        (omega (arith, length-append ys (x ∷ []), length-drop m (ys ++ (x ∷ []))))
  where
    m : ℕ
    m = length ys - n

push_all_from :
    (xs : List ℕ) {w : PpsWindow} (before : List ℕ)
    → IsValid w
    → copy_snapshot w ≡ keep_last (size w) before
    → copy_snapshot (push_all w xs) ≡ keep_last (size w) (before ++ xs)
unfolding push_all
push_all_from [] before v e = e ∙ ap (keep_last _) (sym (append-nil before))
push_all_from (x ∷ xs) {w} before v e =
    push_all_from xs (before ++ (x ∷ [])) (push-IsValid x v) next
    ∙ rw (size-push, append_assoc) refl
  where
    next : copy_snapshot (push w x) ≡ keep_last (size (push w x)) (before ++ (x ∷ []))
    next = rw size-push (
        copy_snapshot-push x v
        ∙ ap (λ l. keep_last (size w) (l ++ (x ∷ []))) e
        ∙ keep_last-step (size w) before x)

size-new : (n : ℕ) → size (new n) ≡ n
unfolding new
size-new n = length-replicate n _

pub new-IsValid : (n : ℕ) → 0 < n → IsValid (new n)
unfolding new
new-IsValid n pos = omega (arith, length-replicate n (let z : ℕ = 0 in z))

-- From a new window of a size above 0, whatever is pushed, the snapshot is the last `size` of the
-- rates, oldest first.
pub copy_snapshot-push_all :
    (n : ℕ) (xs : List ℕ) → 0 < n → copy_snapshot (push_all (new n) xs) ≡ keep_last n xs
unfolding new copy_snapshot
copy_snapshot-push_all n xs pos =
    push_all_from xs [] (new-IsValid n pos) start_empty ∙ ap (λ k. keep_last k xs) (size-new n)
  where
    start_empty : copy_snapshot (new n) ≡ keep_last (size (new n)) []
    start_empty = sym (ap (λ k. drop k []) {y = 0} (omega arith))
