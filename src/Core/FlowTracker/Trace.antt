-- ===== src/Core/FlowTracker/Trace.antt =====
-- A tracker over any sequence of calls.
use k_watch.Prelude.{
  ℕ, ◌≡◌, refl, sym, ap, subst, ◌∙◌, Option, none, some, List, [], ◌∷◌, Bool, false, not, ◌&&◌,
  arith, Assoc, find, at, find-insert, holds, Distinct, Distinct-insert, Distinct-map_values,
  map_values, find-map_values, find-retain_where, Distinct-retain_where,
}
use k_watch.Bpf.Shared.{Event}
use k_watch.Core.FlowTracker.{
  FlowMapEntry, FlowAggregate, IpStats, FlowTracker, no_stats, note_event, new, process_event,
  take_aggregate, decay, process_flow_snapshot, keeps_stats, evict_idle, tick_and_get_blocks,
  get_expired_blocks,
}
use k_watch.Core.FlowTracker.Blocks.{block_loop_lem, blocking, expire_loop_lem, expiring}
use k_watch.Core.FlowTracker.Snapshot.{
  process_flow_snapshot-Distinct, find-process_flow_snapshot, taken, over, generation,
}

-- The calls of the dashboard's loop.
pub data Op : Type 0 where
  event : Event → Op
  snapshot : List FlowMapEntry → ℕ → Op
  tick : ℕ → Op
  expire : ℕ → Op

unfoldable pub apply : FlowTracker → Op → FlowTracker
apply t (event e) = process_event t e
apply t (snapshot es now_ns) = process_flow_snapshot t es now_ns
apply t (tick now_ns) = (tick_and_get_blocks t now_ns).0
apply t (expire now_ns) = (get_expired_blocks t now_ns).0

unfoldable pub run : FlowTracker → List Op → FlowTracker
unfolding apply
run t [] = t
run t (op ∷ ops) = run (apply t op) ops

-- blocked without a flag
abbrev pub is_stray : IpStats → Bool
is_stray s = s.is_blocked && not s.is_flagged

-- No source has two entries, and every blocked source is flagged.
pub record IsValid (t : FlowTracker) : Type 0 where
  pub distinct : Distinct t.ip_stats
  pub blocked_flagged : (ip : ℕ) → holds is_stray (find ip t.ip_stats) ≡ false

process_event-IsValid : (t : FlowTracker) (e : Event) → IsValid t → IsValid (process_event t e)
unfolding process_event
process_event-IsValid t e v = record {
  distinct = Distinct-insert e.src_ip _ t.ip_stats v.distinct;
  blocked_flagged = λ ip. ground (
    arith,
    find-insert e.src_ip ip (note_event e (at no_stats e.src_ip t.ip_stats)) t.ip_stats,
    v.blocked_flagged ip,
    v.blocked_flagged e.src_ip,
  );
}

taken_stray :
    (threshold generation window now_ns ip : ℕ) (m : Assoc IpStats) (o : Option FlowAggregate)
    → holds is_stray (find ip m) ≡ false
    → holds is_stray (over (decay window now_ns generation) (taken threshold generation ip m o))
      ≡ false
unfolding take_aggregate decay
taken_stray threshold generation window now_ns ip m none h = ground arith
taken_stray threshold generation window now_ns ip m (some a) h = ground arith

snapshot-IsValid :
    (t : FlowTracker) (es : List FlowMapEntry) (now_ns : ℕ)
    → IsValid t
    → IsValid (process_flow_snapshot t es now_ns)
snapshot-IsValid t es now_ns v = record {
  distinct = process_flow_snapshot-Distinct t es now_ns v.distinct;
  blocked_flagged = λ ip.
      ap (holds is_stray) (find-process_flow_snapshot t es now_ns ip)
      ∙ taken_stray t.syn_threshold _ t.syn_window_ns now_ns ip t.ip_stats _ (v.blocked_flagged ip);
}

tick-IsValid : (t : FlowTracker) (now_ns : ℕ) → IsValid t → IsValid (tick_and_get_blocks t now_ns).0
unfolding tick_and_get_blocks evict_idle
tick-IsValid t now_ns v = record {
  distinct = ground (
    arith,
    block_loop_lem t.auto_block_enabled now_ns t.ip_stats,
    d,
    Distinct-retain_where (keeps_stats now_ns)
        (map_values (blocking t.auto_block_enabled now_ns) t.ip_stats) d,
  );
  blocked_flagged = λ ip. ground (
    arith,
    block_loop_lem t.auto_block_enabled now_ns t.ip_stats,
    find-map_values (blocking t.auto_block_enabled now_ns) ip t.ip_stats,
    find-retain_where (keeps_stats now_ns) ip
        (map_values (blocking t.auto_block_enabled now_ns) t.ip_stats) d,
    v.blocked_flagged ip,
  );
}
  where
    d : Distinct (map_values (blocking t.auto_block_enabled now_ns) t.ip_stats)
    d = Distinct-map_values (blocking t.auto_block_enabled now_ns) t.ip_stats v.distinct

expire-IsValid :
    (t : FlowTracker) (now_ns : ℕ) → IsValid t → IsValid (get_expired_blocks t now_ns).0
unfolding get_expired_blocks
expire-IsValid t now_ns v = record {
  distinct =
      subst Distinct (sym (expire_loop_lem t.auto_block_ttl_ns now_ns t.ip_stats).0)
        (Distinct-map_values (expiring t.auto_block_ttl_ns now_ns) t.ip_stats v.distinct);
  blocked_flagged = λ ip. ground (
    arith,
    expire_loop_lem t.auto_block_ttl_ns now_ns t.ip_stats,
    find-map_values (expiring t.auto_block_ttl_ns now_ns) ip t.ip_stats,
    v.blocked_flagged ip,
  );
}

pub apply-IsValid : (t : FlowTracker) (op : Op) → IsValid t → IsValid (apply t op)
unfolding apply
apply-IsValid t (event e) v = process_event-IsValid t e v
apply-IsValid t (snapshot es now_ns) v = snapshot-IsValid t es now_ns v
apply-IsValid t (tick now_ns) v = tick-IsValid t now_ns v
apply-IsValid t (expire now_ns) v = expire-IsValid t now_ns v

pub run_from-IsValid : (ops : List Op) {t : FlowTracker} → IsValid t → IsValid (run t ops)
unfolding run
run_from-IsValid [] v = v
run_from-IsValid (op ∷ ops) {t} v = run_from-IsValid ops (apply-IsValid t op v)

-- After any calls in any order, a new tracker has no source twice, and each source that it holds
-- blocked is flagged.
pub run-IsValid :
    (threshold window : ℕ) (auto_block : Bool) (ttl : ℕ) (ops : List Op)
    → IsValid (run (new threshold window auto_block ttl) ops)
unfolding new find
run-IsValid threshold window auto_block ttl ops =
    run_from-IsValid ops (record { distinct = tt; blocked_flagged = λ ip. refl })
