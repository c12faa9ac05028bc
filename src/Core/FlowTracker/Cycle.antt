-- ===== src/Core/FlowTracker/Cycle.antt =====
-- How long a source stays blocked.
use k_watch.Prelude.{
  ℕ, ◌+◌, ◌≤◌, ◌≡◌, refl, ap, sym, subst, ◌∙◌, Option, none, some, List, [], ◌∷◌, Bool, true, false,
  ◌&&◌, ◌==◌, ltb, arith, All, Assoc, find, find-insert, map_values, find-map_values,
  find-retain_where, Distinct-map_values, holds, at, elem, u64,
}
use k_watch.Bpf.Shared.{Event}
use k_watch.Core.FlowTracker.{
  FlowAggregate, FlowTracker, IpStats, no_stats, note_event, process_event, decay, take_aggregate,
  process_flow_snapshot, keeps_stats, evict_idle, tick_and_get_blocks, get_expired_blocks,
}
use k_watch.Core.FlowTracker.Blocks.{
  is_blocked_ip, block_loop_lem, blocking, expire_loop_lem, expiring, tick_and_get_blocks-start,
  get_expired_blocks_lem,
}
use k_watch.Core.FlowTracker.Snapshot.{taken, over, find-process_flow_snapshot}
use k_watch.Core.FlowTracker.Trace.{
  Op, event, snapshot, tick, expire, apply, run, IsValid, apply-IsValid,
}

-- blocked since `start`
abbrev pub since : ℕ → IpStats → Bool
since start s = s.is_blocked && s.block_start_ns == start

abbrev pub blocked_since : ℕ → ℕ → FlowTracker → Bool
blocked_since start ip t = holds (since start) (find ip t.ip_stats)

-- The call does not ask for expired blocks at `limit` or later.
unfoldable pub IsBefore : ℕ → Op → Type 0
IsBefore limit (event e) = Unit {0}
IsBefore limit (snapshot es now_ns) = Unit {0}
IsBefore limit (tick now_ns) = Unit {0}
IsBefore limit (expire now_ns) = ltb now_ns limit ≡ true

taken_since :
    (start threshold generation window now_ns ip : ℕ) (m : Assoc IpStats) (o : Option FlowAggregate)
    → holds (since start) (find ip m) ≡ true
    → holds
        (since start)
        (over (decay window now_ns generation) (taken threshold generation ip m o))
      ≡ true
unfolding take_aggregate decay
taken_since start threshold generation window now_ns ip m none h = ground arith
taken_since start threshold generation window now_ns ip m (some a) h = ground arith

process_event-since :
    (start ip : ℕ) (t : FlowTracker) (e : Event)
    → blocked_since start ip t ≡ true
    → blocked_since start ip (process_event t e) ≡ true
unfolding process_event note_event
process_event-since start ip t e h =
    ground (
      arith,
      h,
      find-insert e.src_ip ip (note_event e (at no_stats e.src_ip t.ip_stats)) t.ip_stats,
    )

tick-since :
    (start ip : ℕ) (t : FlowTracker) (now_ns : ℕ)
    → IsValid t
    → blocked_since start ip t ≡ true
    → blocked_since start ip (tick_and_get_blocks t now_ns).0 ≡ true
unfolding tick_and_get_blocks evict_idle
tick-since start ip t now_ns v h = ground (
  arith,
  block_loop_lem t.auto_block_enabled now_ns t.ip_stats,
  find-map_values (blocking t.auto_block_enabled now_ns) ip t.ip_stats,
  find-retain_where (keeps_stats now_ns) ip
      (map_values (blocking t.auto_block_enabled now_ns) t.ip_stats)
      (Distinct-map_values (blocking t.auto_block_enabled now_ns) t.ip_stats v.distinct),
)

expire-since :
    (start ip : ℕ) (t : FlowTracker) (now_ns : ℕ)
    → ltb now_ns (u64 (start + t.auto_block_ttl_ns)) ≡ true
    → blocked_since start ip t ≡ true
    → blocked_since start ip (get_expired_blocks t now_ns).0 ≡ true
unfolding get_expired_blocks
expire-since start ip t now_ns early h = ground (
  arith,
  expire_loop_lem t.auto_block_ttl_ns now_ns t.ip_stats,
  find-map_values (expiring t.auto_block_ttl_ns now_ns) ip t.ip_stats,
)

apply-ttl : (t : FlowTracker) (op : Op) → (apply t op).auto_block_ttl_ns ≡ t.auto_block_ttl_ns
unfolding apply process_event process_flow_snapshot tick_and_get_blocks evict_idle
    get_expired_blocks
apply-ttl t (event e) = refl
apply-ttl t (snapshot es now_ns) = refl
apply-ttl t (tick now_ns) = refl
apply-ttl t (expire now_ns) = refl

apply-since :
    (start ip : ℕ) (t : FlowTracker) (op : Op)
    → IsValid t
    → IsBefore (u64 (start + t.auto_block_ttl_ns)) op
    → blocked_since start ip t ≡ true
    → blocked_since start ip (apply t op) ≡ true
unfolding apply IsBefore
apply-since start ip t (event e) v b h = process_event-since start ip t e h
apply-since start ip t (snapshot es now_ns) v b h =
    ap (holds (since start)) (find-process_flow_snapshot t es now_ns ip)
    ∙ taken_since start t.syn_threshold _ t.syn_window_ns now_ns ip t.ip_stats _ h
apply-since start ip t (tick now_ns) v b h = tick-since start ip t now_ns v h
apply-since start ip t (expire now_ns) v b h = expire-since start ip t now_ns b h

-- A state of a run: the time to live is `ttl`, and the source is blocked since `start`.
record Blocked (ttl start ip : ℕ) (t : FlowTracker) : Type 0 where
  valid : IsValid t
  same_ttl : t.auto_block_ttl_ns ≡ ttl
  blocked : blocked_since start ip t ≡ true

apply-Blocked :
    (ttl start ip : ℕ) (t : FlowTracker) (op : Op)
    → IsBefore (u64 (start + ttl)) op
    → Blocked ttl start ip t
    → Blocked ttl start ip (apply t op)
apply-Blocked ttl start ip t op b h = record {
  valid = apply-IsValid t op h.valid;
  same_ttl = apply-ttl t op ∙ h.same_ttl;
  blocked =
      apply-since start ip t op h.valid
        (subst (λ n. IsBefore (u64 (start + n)) op) (sym h.same_ttl) b) h.blocked;
}

run-Blocked :
    (ttl start ip : ℕ) (ops : List Op) (t : FlowTracker)
    → All (IsBefore (u64 (start + ttl))) ops
    → Blocked ttl start ip t
    → Blocked ttl start ip (run t ops)
unfolding run
run-Blocked ttl start ip [] t b h = h
run-Blocked ttl start ip (op ∷ ops) t (b, bs) h =
    run-Blocked ttl start ip ops (apply t op) bs (apply-Blocked ttl start ip t op b h)

is_blocked-since :
    (start ip : ℕ) (t : FlowTracker) → blocked_since start ip t ≡ true → is_blocked_ip t ip ≡ true
is_blocked-since start ip t h = ground arith

-- The first call at the limit or later releases it.
Blocked-released :
    (ttl start ip later : ℕ) (t : FlowTracker)
    → u64 (start + ttl) ≤ later
    → Blocked ttl start ip t
    → (elem ip (get_expired_blocks t later).1 ≡ true)
      × (is_blocked_ip (get_expired_blocks t later).0 ip ≡ false)
Blocked-released ttl start ip later t late h =
    ground (arith, h.blocked, h.same_ttl, get_expired_blocks_lem t later ip h.valid.distinct)

-- A source that tick_and_get_blocks returns, of a tracker with no source twice and each blocked
-- source flagged: it stays blocked over any calls, in any order, of which none asks for expired
-- blocks at the time of the block plus the time to live, modulo 2^64, or later; and a
-- get_expired_blocks then, at that time or later, returns it, and leaves it not blocked.
pub block_cycle :
    (t : FlowTracker) (ip now_ns later : ℕ) (ops : List Op)
    → IsValid t
    → elem ip (tick_and_get_blocks t now_ns).1 ≡ true
    → All (IsBefore (u64 (now_ns + t.auto_block_ttl_ns))) ops
    → u64 (now_ns + t.auto_block_ttl_ns) ≤ later
    → let t' = run (tick_and_get_blocks t now_ns).0 ops in
      (is_blocked_ip t' ip ≡ true)
      × ((elem ip (get_expired_blocks t' later).1 ≡ true)
          × (is_blocked_ip (get_expired_blocks t' later).0 ip ≡ false))
unfolding apply
block_cycle t ip now_ns later ops v h before late = (
  is_blocked-since now_ns ip (run (tick_and_get_blocks t now_ns).0 ops) after.blocked,
  Blocked-released t.auto_block_ttl_ns now_ns ip later (run (tick_and_get_blocks t now_ns).0 ops)
      late after,
)
  where
    after : Blocked t.auto_block_ttl_ns now_ns ip (run (tick_and_get_blocks t now_ns).0 ops)
    after = run-Blocked t.auto_block_ttl_ns now_ns ip ops _ before (record {
      valid = apply-IsValid t (tick now_ns) v;
      same_ttl = apply-ttl t (tick now_ns);
      blocked = ground (arith, tick_and_get_blocks-start t now_ns ip v.distinct h);
    })
