-- ===== src/Bpf/RingBuf/Tests.antt =====
-- A drain of three samples, one of them too short, with a budget of one.
use k_watch.Prelude.{◌≡◌, refl, [], ◌∷◌, ◌++◌, true, false, take, replicate, arith}
use k_watch.Prelude.Text.{Text}
use k_watch.Bpf.RingBuf.{RingBuf, consume}
use k_watch.Bpf.RingBuf.Budget.{whole, consume-delivered}

abbrev event_a : Text
event_a = replicate 32 1

abbrev event_b : Text
event_b = replicate 32 2

abbrev idle : RingBuf
idle = record {
  callback_set = true;
  delivered = [];
  error_count = 0;
  dropped_count = 0;
  callback_budget = 0;
  callbacks_this_drain = 0;
}

consume_run :
    consume false false ((7 ∷ []) ∷ event_a ∷ event_b ∷ event_a ∷ []) 1 idle
    ≡ record idle { delivered = event_a ∷ []; dropped_count = 2; callbacks_this_drain = 1 }
unfolding consume
consume_run = refl

consume-delivered_example :
    (consume false false ((7 ∷ []) ∷ event_a ∷ event_b ∷ []) 1 idle).delivered
    ≡ [] ++ take 1 (whole ((7 ∷ []) ∷ event_a ∷ event_b ∷ []))
consume-delivered_example =
    consume-delivered false false ((7 ∷ []) ∷ event_a ∷ event_b ∷ []) 1 idle refl (omega arith)
      (omega arith)
