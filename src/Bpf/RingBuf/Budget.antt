-- ===== src/Bpf/RingBuf/Budget.antt =====
-- What one drain delivers.
use mathlib.Core.List.{append-nil, append_assoc}
use k_watch.Prelude.{
  ℕ, zero, suc, ◌+◌, ◌^◌, ◌<◌, ◌≡◌, refl, sym, ◌∙◌, List, [], ◌∷◌, ◌++◌, Bool, true, false, ◌&&◌,
  ltb, leb, if◌then◌else◌, arith, length, take, u64, Bool-cases, inl, inr,
}
use k_watch.Prelude.Text.{Text}
use k_watch.Bpf.RingBuf.{RingBuf, event_size, dispatch_event, drain, consume}

-- the samples that hold a whole event
abbrev pub whole : List Text → List Text
whole [] = []
whole (d ∷ ds) = if ltb (length d) event_size then whole ds else d ∷ whole ds

take-append_cons :
    (n : ℕ) (x : Text) (xs l : List Text)
    → l ++ take (suc n) (x ∷ xs) ≡ (l ++ (x ∷ [])) ++ take n xs
take-append_cons n x xs l = sym (append_assoc l (x ∷ []) (take n xs))

-- with `n` calls left of the budget
drain-delivered :
    (stops : Bool) (n : ℕ) (samples : List Text) (r : RingBuf)
    → r.callback_set ≡ true
    → 0 < r.callback_budget
    → r.callback_budget < 2 ^ 64
    → r.callbacks_this_drain + n ≡ r.callback_budget
    → (drain stops samples r).delivered ≡ r.delivered ++ take n (whole samples)
unfolding drain dispatch_event
drain-delivered stops zero [] r set pos small e = sym (append-nil r.delivered)
drain-delivered stops (suc n) [] r set pos small e = sym (append-nil r.delivered)
drain-delivered stops zero (d ∷ ds) r set pos small e =
    elim (Bool-cases (ltb (length d) event_size)) [
      | inl short ↦
          rw (drain, dispatch_event, short) (drain-delivered stops zero ds r set pos small e)
      | inr long ↦ elim (Bool-cases stops) [
        | inl on ↦ rw (drain, dispatch_event, long, spent, on) (sym (append-nil r.delivered))
        | inr off ↦
            rw (drain, dispatch_event, long, spent, off)
              (drain-delivered stops zero ds
                (record r { dropped_count = u64 (r.dropped_count + 1) }) set pos small e)
      ]
    ]
  where
    spent : (ltb 0 r.callback_budget && leb r.callback_budget r.callbacks_this_drain) ≡ true
    spent = ground arith
drain-delivered stops (suc n) (d ∷ ds) r set pos small e =
    elim (Bool-cases (ltb (length d) event_size)) [
      | inl short ↦
          rw (drain, dispatch_event, short) (drain-delivered stops (suc n) ds r set pos small e)
      | inr long ↦
          rw (drain, dispatch_event, long, left, set)
            (drain-delivered stops n ds
                (record r {
                  callback_set = true;
                  delivered = r.delivered ++ (d ∷ []);
                  callbacks_this_drain = u64 (r.callbacks_this_drain + 1);
                })
                refl pos small (omega arith)
              ∙ sym (take-append_cons n d (whole ds) r.delivered))
    ]
  where
    left : (ltb 0 r.callback_budget && leb r.callback_budget r.callbacks_this_drain) ≡ false
    left = ground arith

-- A drain with a budget from 1 to 2^64 - 1 and a callback: the callback gets the samples that hold
-- a whole event, in order, at most as many as the budget, whether libbpf stops where the budget is
-- spent or goes on.
pub consume-delivered :
    (stops is_error : Bool) (samples : List Text) (budget : ℕ) (r : RingBuf)
    → r.callback_set ≡ true
    → 0 < budget
    → budget < 2 ^ 64
    → (consume stops is_error samples budget r).delivered
      ≡ r.delivered ++ take budget (whole samples)
unfolding consume
consume-delivered stops is_error samples budget r set pos small =
    drain-delivered stops budget samples
      (record r { callback_budget = budget; callbacks_this_drain = 0 }) set pos small (omega arith)
