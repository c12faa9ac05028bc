-- ===== src/Core/FlowTracker.antt =====
-- core/flow_tracker.{h,cpp}: SYN and ACK counts per source, the flag of a SYN flood, and automatic
-- blocking. The vectors that the methods return by reference are cleared when a method starts, so
-- they are results here; logging is left out.
pub mod Places
pub mod Aggregate
pub mod Snapshot
pub mod Blocks
pub mod Trace
pub mod Cycle
pub mod Blocked
pub mod Tests
use k_watch.Prelude.{
  ℕ, suc, ◌+◌, ◌-◌, ◌*◌, ◌/◌, Option, none, some, List, [], ◌∷◌, ◌++◌, Bool, true, false, not, ◌&&◌,
  ◌||◌, ltb, leb, ◌==◌, if◌then◌else◌, length, get_elem?, set, Assoc, find, insert, at, map_values,
  retain_where, u32, u64, seconds_ns,
}
use k_watch.Bpf.Shared.{Event, FlowKey, FlowStats}

pub record FlowMapEntry : Type 0 where
  pub key : FlowKey
  pub stats : FlowStats

pub record FlowAggregate : Type 0 where
  pub src_ip : ℕ
  pub syn_count : ℕ
  pub ack_count : ℕ
  pub last_seen_ns : ℕ

pub record IpStats : Type 0 where
  pub syn_count : ℕ
  pub ack_count : ℕ
  pub last_event_ns : ℕ
  pub block_start_ns : ℕ
  pub snapshot_generation : ℕ
  pub is_flagged : Bool
  pub is_blocked : Bool
  pub last_ttl : ℕ

-- `IpStats{}`
abbrev pub no_stats : IpStats
no_stats = record {
  syn_count = 0;
  ack_count = 0;
  last_event_ns = 0;
  block_start_ns = 0;
  snapshot_generation = 0;
  is_flagged = false;
  is_blocked = false;
  last_ttl = 0;
}

-- `flows` is keyed by the four numbers of the C++ `FlowKey`, which nothing here computes with.
pub record FlowTracker : Type 0 where
  pub syn_threshold : ℕ
  pub syn_window_ns : ℕ
  pub auto_block_enabled : Bool
  pub auto_block_ttl_ns : ℕ
  pub flows : List (FlowKey × FlowStats)
  pub ip_stats : Assoc IpStats
  pub snapshot_generation : ℕ

abbrev pub max_flows : ℕ
max_flows = 65536

abbrev pub max_ip_stats : ℕ
max_ip_stats = 16384

abbrev pub flow_idle_ttl_ns : ℕ
flow_idle_ttl_ns = 60 * 1_000_000_000

-- the constructor
unfoldable pub new : ℕ → ℕ → Bool → ℕ → FlowTracker
new threshold window auto_block block_ttl = record {
  syn_threshold = threshold;
  syn_window_ns = seconds_ns window;
  auto_block_enabled = auto_block;
  auto_block_ttl_ns = seconds_ns block_ttl;
  flows = [];
  ip_stats = [];
  snapshot_generation = 0;
}

pub note_event : Event → IpStats → IpStats
note_event e s =
    let t = if e.ttl == 0 then s else record s { last_ttl = e.ttl } in
    if ltb t.last_event_ns e.ts_ns then record t { last_event_ns = e.ts_ns } else t

unfoldable pub process_event : FlowTracker → Event → FlowTracker
unfolding note_event
process_event t e = record t {
  ip_stats = insert e.src_ip (note_event e (at no_stats e.src_ip t.ip_stats)) t.ip_stats;
}

-- The three tests that `continue` in the first loop of `process_flow_snapshot`, negated.
pub is_live : ℕ → ℕ → FlowMapEntry → Bool
is_live window now_ns e =
    if not (e.key.protocol == 6) || e.stats.last_seen_ns == 0
    then false
    else if ltb e.stats.last_seen_ns now_ns && ltb window (now_ns - e.stats.last_seen_ns)
    then false
    else if not (e.stats.first_seen_ns == 0)
        && (ltb e.stats.first_seen_ns now_ns && ltb window (now_ns - e.stats.first_seen_ns))
    then false
    else true

-- `aggregate_index` and `aggregate_scratch`
pub record Aggregates : Type 0 where
  pub index : Assoc ℕ
  pub scratch : List FlowAggregate

pub fresh_aggregate : FlowMapEntry → FlowAggregate
fresh_aggregate e = record {
  src_ip = e.key.src_ip;
  syn_count = e.stats.syn_count;
  ack_count = e.stats.ack_count;
  last_seen_ns = e.stats.last_seen_ns;
}

pub merge_aggregate : FlowMapEntry → FlowAggregate → FlowAggregate
merge_aggregate e a = record a {
  syn_count = u32 (a.syn_count + e.stats.syn_count);
  ack_count = u32 (a.ack_count + e.stats.ack_count);
  last_seen_ns =
      if ltb a.last_seen_ns e.stats.last_seen_ns then e.stats.last_seen_ns else a.last_seen_ns;
}

-- `aggregate_scratch[i]`, changed in place
abbrev pub update_at : (FlowAggregate → FlowAggregate) → ℕ → List FlowAggregate → List FlowAggregate
update_at f i scratch = elim (get_elem? scratch i) [ none ↦ scratch | some a ↦ set scratch i (f a) ]

pub add_entry : Aggregates → FlowMapEntry → Aggregates
add_entry g e = elim (find e.key.src_ip g.index) [
  | none ↦ record {
    index = insert e.key.src_ip (length g.scratch) g.index;
    scratch = g.scratch ++ (fresh_aggregate e ∷ []);
  }
  | some i ↦ record g { scratch = update_at (merge_aggregate e) i g.scratch }
]

pub aggregate : ℕ → ℕ → List FlowMapEntry → Aggregates → Aggregates
aggregate window now_ns [] g = g
aggregate window now_ns (e ∷ es) g =
    aggregate window now_ns es (if is_live window now_ns e then add_entry g e else g)

-- `++snapshot_generation`, which passes over 0
abbrev pub next_generation : ℕ → ℕ
next_generation g = if u64 (g + 1) == 0 then 1 else u64 (g + 1)

pub unmatched : ℕ → ℕ → ℕ
unmatched syn ack = if ltb ack syn then syn - ack else 0

-- the body of the second loop
pub take_aggregate : ℕ → ℕ → FlowAggregate → IpStats → IpStats
unfolding unmatched
take_aggregate threshold generation a s = record s {
  syn_count = a.syn_count;
  ack_count = a.ack_count;
  last_event_ns = a.last_seen_ns;
  snapshot_generation = generation;
  is_flagged =
      if not s.is_flagged && leb threshold (unmatched a.syn_count a.ack_count)
      then true
      else s.is_flagged;
}

pub take_aggregates : ℕ → ℕ → List FlowAggregate → Assoc IpStats → Assoc IpStats
take_aggregates threshold generation [] m = m
take_aggregates threshold generation (a ∷ rest) m =
    take_aggregates threshold generation rest
      (insert a.src_ip (take_aggregate threshold generation a (at no_stats a.src_ip m)) m)

-- the body of the third loop
pub decay : ℕ → ℕ → ℕ → IpStats → IpStats
decay window now_ns generation s =
    if s.snapshot_generation == generation || s.is_blocked
    then s
    else if s.last_event_ns == 0
        || (ltb s.last_event_ns now_ns && ltb window (now_ns - s.last_event_ns))
    then record s { syn_count = 0; ack_count = 0; is_flagged = false }
    else s

unfoldable pub process_flow_snapshot : FlowTracker → List FlowMapEntry → ℕ → FlowTracker
process_flow_snapshot t entries now_ns =
    let g = aggregate t.syn_window_ns now_ns entries (record { index = []; scratch = [] }) in
    let generation = next_generation t.snapshot_generation in
    let taken = take_aggregates t.syn_threshold generation g.scratch t.ip_stats in
    record t {
      ip_stats = map_values (λ ip s. decay t.syn_window_ns now_ns generation s) taken;
      snapshot_generation = generation;
    }

-- `now_ns > ….last_seen_ns + kFlowIdleTtlNs`
abbrev pub is_idle : ℕ → ℕ → Bool
is_idle now_ns last_ns = ltb (u64 (last_ns + flow_idle_ttl_ns)) now_ns

-- the loop that erases the idle flows
retain_flows : ℕ → List (FlowKey × FlowStats) → List (FlowKey × FlowStats)
retain_flows now_ns [] = []
retain_flows now_ns ((k, s) ∷ l) =
    let rest = retain_flows now_ns l in
    if is_idle now_ns s.last_seen_ns then rest else (k, s) ∷ rest

evict_flows : ℕ → List (FlowKey × FlowStats) → List (FlowKey × FlowStats)
unfolding retain_flows
evict_flows now_ns flows =
    let kept = if ltb (max_flows / 2) (length flows) then retain_flows now_ns flows else flows in
    if ltb max_flows (length kept) then [] else kept

abbrev pub keeps_stats : ℕ → IpStats → Bool
keeps_stats now_ns s =
    if is_idle now_ns s.last_event_ns && (not s.is_flagged && not s.is_blocked) then false else true

unfoldable pub evict_idle : FlowTracker → ℕ → FlowTracker
unfolding evict_flows
evict_idle t now_ns = record t {
  flows = evict_flows now_ns t.flows;
  ip_stats =
      if ltb max_ip_stats (length t.ip_stats)
      then retain_where (keeps_stats now_ns) t.ip_stats
      else t.ip_stats;
}

-- the loop of `tick_and_get_blocks`: the entries, and `block_scratch`
unfoldable pub block_loop : Bool → ℕ → Assoc IpStats → Assoc IpStats × List ℕ
block_loop auto_block now_ns [] = ([], [])
block_loop auto_block now_ns ((ip, s) ∷ m) =
    let (m', ips) = block_loop auto_block now_ns m in
    if s.is_flagged && (not s.is_blocked && auto_block)
    then ((ip, record s { is_blocked = true; block_start_ns = now_ns }) ∷ m', ip ∷ ips)
    else ((ip, s) ∷ m', ips)

unfoldable pub tick_and_get_blocks : FlowTracker → ℕ → FlowTracker × List ℕ
unfolding block_loop
tick_and_get_blocks t now_ns =
    let (m, ips) = block_loop t.auto_block_enabled now_ns t.ip_stats in
    (evict_idle (record t { ip_stats = m }) now_ns, ips)

-- the loop of `get_expired_blocks`: the entries, and `unblock_scratch`
unfoldable pub expire_loop : ℕ → ℕ → Assoc IpStats → Assoc IpStats × List ℕ
expire_loop ttl_ns now_ns [] = ([], [])
expire_loop ttl_ns now_ns ((ip, s) ∷ m) =
    let (m', ips) = expire_loop ttl_ns now_ns m in
    if s.is_blocked && leb (u64 (s.block_start_ns + ttl_ns)) now_ns
    then (
      (ip, record s { is_blocked = false; is_flagged = false; syn_count = 0; ack_count = 0 }) ∷ m',
      ip ∷ ips,
    )
    else ((ip, s) ∷ m', ips)

unfoldable pub get_expired_blocks : FlowTracker → ℕ → FlowTracker × List ℕ
unfolding expire_loop
get_expired_blocks t now_ns =
    let (m, ips) = expire_loop t.auto_block_ttl_ns now_ns t.ip_stats in
    (record t { ip_stats = m }, ips)
