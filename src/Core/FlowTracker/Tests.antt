-- ===== src/Core/FlowTracker/Tests.antt =====
-- core/flow_tracker.cpp on inputs like those of tests/unit/flow_tracker_test.cpp, and the theorems
-- at them.
use k_watch.Prelude.{
  ℕ, ◌+◌, ◌*◌, ◌<◌, ◌≤◌, ◌≢◌, none, ◌≡◌, refl, some, List, [], ◌∷◌, true, false, if◌then◌else◌,
  arith, find, insert, elem, holds, map_values,
}
use k_watch.Core.FlowTracker.{
  FlowMapEntry, IpStats, FlowTracker, no_stats, new, next_generation, is_live, add_entry,
  fresh_aggregate, merge_aggregate, aggregate, take_aggregate, take_aggregates, decay,
  process_flow_snapshot, evict_idle, tick_and_get_blocks, get_expired_blocks,
}
use k_watch.Core.FlowTracker.Places.{lookup_src}
use k_watch.Core.FlowTracker.Aggregate.{Summarises, aggregate_lem}
use k_watch.Core.FlowTracker.Snapshot.{process_flow_snapshot-live, process_flow_snapshot-quiet}
use k_watch.Core.FlowTracker.Blocks.{
  to_block, has_expired, is_blocked_ip, tick_and_get_blocks_lem, get_expired_blocks_lem,
}
use k_watch.Core.FlowTracker.Trace.{Op, snapshot, tick, expire, run, IsValid, run-IsValid}
use k_watch.Core.FlowTracker.Cycle.{IsBefore, block_cycle}

abbrev source : ℕ
source = 0x01010101

abbrev at_s : ℕ → ℕ
at_s n = n * 1_000_000_000

abbrev flow : ℕ → ℕ → ℕ → FlowMapEntry
flow dport syn ack = record {
  key = record { src_ip = source; dst_ip = 9; sport = 7; dport = dport; protocol = 6 };
  stats = record {
    syn_count = syn;
    ack_count = ack;
    first_seen_ns = at_s 1;
    last_seen_ns = at_s 2;
  };
}

abbrev two_flows : List FlowMapEntry
two_flows = flow 80 1 0 ∷ flow 81 2 1 ∷ []

-- two SYNs unmatched, at a threshold of 2
abbrev flood : List Op
flood = snapshot two_flows (at_s 2) ∷ tick (at_s 2) ∷ []

abbrev flagged : FlowTracker
flagged = process_flow_snapshot (new 2 10 true 300) two_flows (at_s 2)

flood_is_blocked :
    ((tick_and_get_blocks flagged (at_s 2)).1 ≡ source ∷ [])
    × ((get_expired_blocks (run (new 2 10 true 300) flood) (at_s 301)).1 ≡ [])
    × ((get_expired_blocks (run (new 2 10 true 300) flood) (at_s 302)).1 ≡ source ∷ [])
unfolding run new process_flow_snapshot tick_and_get_blocks get_expired_blocks evict_idle aggregate
    is_live add_entry fresh_aggregate merge_aggregate take_aggregates take_aggregate decay find
    insert map_values
flood_is_blocked = (refl, refl, refl)

abbrev entry : IpStats
entry = record no_stats { syn_count = 3; ack_count = 1; last_event_ns = at_s 2; is_flagged = true }

abbrev tracker : FlowTracker
tracker = record {
  syn_threshold = 2;
  syn_window_ns = at_s 10;
  auto_block_enabled = true;
  auto_block_ttl_ns = at_s 300;
  flows = [];
  ip_stats = (source, entry) ∷ [];
  snapshot_generation = 4;
}

aggregate_lem_example : Summarises source two_flows (
    lookup_src source
      (aggregate (at_s 10) (at_s 2) two_flows (record { index = []; scratch = [] })).scratch)
unfolding is_live
aggregate_lem_example = aggregate_lem (at_s 10) (at_s 2) source two_flows (omega arith)

process_flow_snapshot-live_example :
    find source (process_flow_snapshot tracker two_flows (at_s 2)).ip_stats
    ≡ some (record entry { snapshot_generation = 5 })
unfolding is_live find
process_flow_snapshot-live_example =
    process_flow_snapshot-live tracker two_flows (at_s 2) source {e = flow 80 1 0}
      {rest = flow 81 2 1 ∷ []} (omega arith) refl

process_flow_snapshot-quiet_example :
    let after = find source (process_flow_snapshot tracker [] (at_s 20)).ip_stats in
    (find source tracker.ip_stats ≡ none → after ≡ none)
    × ((s : IpStats)
        → find source tracker.ip_stats ≡ some s
        → (s.snapshot_generation ≡ next_generation 4 → after ≡ some s)
          × (s.is_blocked ≡ true → after ≡ some s)
          × (s.snapshot_generation ≢ next_generation 4
              → s.is_blocked ≡ false
              → (s.last_event_ns ≡ 0
                  → after ≡ some (record s { syn_count = 0; ack_count = 0; is_flagged = false }))
                × (s.last_event_ns + at_s 10 < at_s 20
                    → after ≡ some (record s { syn_count = 0; ack_count = 0; is_flagged = false }))
                × (s.last_event_ns ≢ 0 → at_s 20 ≤ s.last_event_ns + at_s 10 → after ≡ some s)))
process_flow_snapshot-quiet_example =
    process_flow_snapshot-quiet tracker [] (at_s 20) source tt refl

tick_and_get_blocks_lem_example :
    let (t', ips) = tick_and_get_blocks tracker (at_s 3) in
    (elem source ips ≡ holds (to_block true) (find source tracker.ip_stats))
    × (is_blocked_ip t' source ≡ (if elem source ips then true else is_blocked_ip tracker source))
unfolding find
tick_and_get_blocks_lem_example = tick_and_get_blocks_lem tracker (at_s 3) source (refl, tt)

get_expired_blocks_lem_example :
    let (t', ips) = get_expired_blocks tracker (at_s 3) in
    (elem source ips ≡ holds (has_expired (at_s 300) (at_s 3)) (find source tracker.ip_stats))
    × (is_blocked_ip t' source ≡ (if elem source ips then false else is_blocked_ip tracker source))
    × (holds (λ s. s.is_flagged) (find source t'.ip_stats) ≡ (
        if elem source ips
        then false
        else holds (λ s. s.is_flagged) (find source tracker.ip_stats)))
unfolding find
get_expired_blocks_lem_example = get_expired_blocks_lem tracker (at_s 3) source (refl, tt)

run-IsValid_example : IsValid (run (new 2 10 true 300) flood)
run-IsValid_example = run-IsValid 2 10 true 300 flood

abbrev within : List Op
within = snapshot two_flows (at_s 100) ∷ tick (at_s 200) ∷ expire (at_s 301) ∷ []

tracker-IsValid : IsValid tracker
unfolding find
tracker-IsValid = record { distinct = (refl, tt); blocked_flagged = λ ip. ground arith }

block_cycle_example :
    let t = run (tick_and_get_blocks tracker (at_s 2)).0 within in
    (is_blocked_ip t source ≡ true)
    × ((elem source (get_expired_blocks t (at_s 302)).1 ≡ true)
        × (is_blocked_ip (get_expired_blocks t (at_s 302)).0 source ≡ false))
unfolding tick_and_get_blocks IsBefore elem
block_cycle_example =
    block_cycle tracker source (at_s 2) (at_s 302) within tracker-IsValid refl
      (tt, (tt, (refl, tt))) (omega arith)
