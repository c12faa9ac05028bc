-- ===== src/Core/FlowTracker/Blocked.antt =====
-- Only `tick_and_get_blocks` blocks a source.
use k_watch.Prelude.{
  ℕ, ◌≡◌, ap, sym, ◌∙◌, Option, none, some, List, true, arith, Assoc, find, find-insert, holds, at,
}
use k_watch.Bpf.Shared.{Event}
use k_watch.Core.FlowTracker.{
  FlowMapEntry, FlowAggregate, FlowTracker, IpStats, no_stats, note_event, process_event, decay,
  take_aggregate, process_flow_snapshot,
}
use k_watch.Core.FlowTracker.Blocks.{is_blocked_ip}
use k_watch.Core.FlowTracker.Snapshot.{taken, over, find-process_flow_snapshot}

taken_blocked :
    (threshold generation window now_ns ip : ℕ) (m : Assoc IpStats) (o : Option FlowAggregate)
    → holds
        (λ s. s.is_blocked)
        (over (decay window now_ns generation) (taken threshold generation ip m o))
      ≡ true
    → holds (λ s. s.is_blocked) (find ip m) ≡ true
unfolding take_aggregate decay
taken_blocked threshold generation window now_ns ip m none h = ground arith
taken_blocked threshold generation window now_ns ip m (some a) h = ground arith

pub process_flow_snapshot-blocked :
    (t : FlowTracker) (es : List FlowMapEntry) (now_ns ip : ℕ)
    → is_blocked_ip (process_flow_snapshot t es now_ns) ip ≡ true
    → is_blocked_ip t ip ≡ true
process_flow_snapshot-blocked t es now_ns ip h =
    taken_blocked t.syn_threshold _ t.syn_window_ns now_ns ip t.ip_stats _
      (ap (holds (λ s. s.is_blocked)) (sym (find-process_flow_snapshot t es now_ns ip)) ∙ h)

pub process_event-blocked :
    (t : FlowTracker) (e : Event) (ip : ℕ)
    → is_blocked_ip (process_event t e) ip ≡ true
    → is_blocked_ip t ip ≡ true
unfolding process_event note_event
process_event-blocked t e ip h =
    ground (
      arith,
      h,
      find-insert e.src_ip ip (note_event e (at no_stats e.src_ip t.ip_stats)) t.ip_stats,
    )
