-- ===== src/Bpf/RingBuf.antt =====
-- bpf/ringbuf.cpp: the callback for the samples of the ring buffer, with its budget. A sample is a
-- list of bytes. `ring_buffer__consume` calls it for the samples that are there, in order; whether it
-- stops where the callback has returned 1 is a parameter.
pub mod Budget
pub mod Tests
use k_watch.Prelude.{
  ℕ, suc, ◌+◌, Option, none, some, List, [], ◌∷◌, ◌++◌, Bool, true, false, not, ◌&&◌, ◌||◌, ltb,
  leb, ◌==◌, if◌then◌else◌, length, u64,
}
use k_watch.Prelude.Text.{Text}

-- `callback_set` is whether the callback is there; `delivered` are the samples it was called with.
pub record RingBuf : Type 0 where
  pub callback_set : Bool
  pub delivered : List Text
  pub error_count : ℕ
  pub dropped_count : ℕ
  pub callback_budget : ℕ
  pub callbacks_this_drain : ℕ

-- sizeof(kwatch_event), with the padding at its end
abbrev pub event_size : ℕ
event_size = 32

-- the return value, and the object
unfoldable pub dispatch_event : Text → RingBuf → ℕ × RingBuf
dispatch_event sample r =
    if ltb (length sample) event_size
    then (0, r)
    else if ltb 0 r.callback_budget && leb r.callback_budget r.callbacks_this_drain
    then (1, record r { dropped_count = u64 (r.dropped_count + 1) })
    else (
      0,
      record r {
        delivered = if r.callback_set then r.delivered ++ (sample ∷ []) else r.delivered;
        callbacks_this_drain = u64 (r.callbacks_this_drain + 1);
      },
    )

-- the calls of one drain
unfoldable pub drain : Bool → List Text → RingBuf → RingBuf
unfolding dispatch_event
drain stops [] r = r
drain stops (sample ∷ rest) r =
    let (ret, r') = dispatch_event sample r in
    let more = drain stops rest r' in if ret == 0 || not stops then more else r'

-- `is_error`: `ring_buffer__consume` returned an error that is not EINTR
unfoldable pub consume : Bool → Bool → List Text → ℕ → RingBuf → RingBuf
unfolding drain
consume stops is_error samples budget r =
    let d = drain stops samples (record r { callback_budget = budget; callbacks_this_drain = 0 }) in
    record d {
      callback_budget = 0;
      error_count = if is_error then u64 (d.error_count + 1) else d.error_count;
    }
