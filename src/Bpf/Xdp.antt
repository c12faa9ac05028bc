-- ===== src/Bpf/Xdp.antt =====
-- bpf/kwatch.bpf.c: `xdp_kwatch_prog` for one packet, over the maps that it reads and changes. What
-- the kernel's helpers return (random number, clock, whether the ring buffer has room) is input.
pub mod Verdict
pub mod Flows
pub mod Tests
use k_watch.Prelude.{
  ℕ, ◌+◌, ◌-◌, ◌<◌, Option, none, some, List, [], ◌∷◌, ◌++◌, Bool, true, false, not, ◌&&◌, ltb,
  ◌==◌, if◌then◌else◌, bit_and, u32, u64,
}
use k_watch.Bpf.Shared.{Event, FlowKey, FlowStats, should_emit_event}
use k_watch.Bpf.Maps.{BpfMap}
use k_watch.Bpf.Packet.{
  Frame, Packet, Parsed, ignore, count_only, packet, L4, no_l4, parse, event_l4, flow_l4, ◌>>=◌,
}

-- `sample_n` and `syn_window_ns` are the program's read-only data. `blacklist` is the answer of the
-- lookup in the LPM trie for a prefix length and an address: it finds any prefix of the address up to
-- that length.
pub record Env : Type 0 where
  pub fields_exist : Bool
  pub sample_n : ℕ
  pub syn_window_ns : ℕ
  pub random : ℕ
  pub now_ns : ℕ
  pub event_ns : ℕ
  pub has_room : Bool
  pub blacklist : ℕ → ℕ → Bool

pub data Action : Type 0 where
  aborted pass drop : Action

abbrev pub is_set : ℕ → ℕ → Bool
is_set flags bit = not (bit_and flags bit == 0)

unfoldable pub event_of : Env → Packet → ℕ → L4 → Event
event_of env p action l = record {
  ts_ns = env.event_ns;
  src_ip = p.src_ip;
  dst_ip = p.dst_ip;
  sport = l.sport;
  dport = l.dport;
  protocol = p.proto;
  tcp_flags = l.tcp_flags;
  ttl = p.ttl;
  action = action;
  icmp_type = l.icmp_type;
  icmp_code = l.icmp_code;
}

unfoldable pub flow_key : Packet → L4 → FlowKey
flow_key p l = record {
  src_ip = p.src_ip;
  dst_ip = p.dst_ip;
  sport = l.sport;
  dport = l.dport;
  protocol = p.proto;
}

unfoldable pub new_stats : Env → ℕ → FlowStats
new_stats env tcp_flags = record {
  syn_count = if is_set tcp_flags 0x02 then 1 else 0;
  ack_count = if is_set tcp_flags 0x10 then 1 else 0;
  first_seen_ns = env.now_ns;
  last_seen_ns = env.now_ns;
}

-- the counts start again when the flow has lasted longer than the window
restart_window : Env → FlowStats → FlowStats
restart_window env s =
    if ltb 0 env.syn_window_ns
      && (ltb s.first_seen_ns env.now_ns && ltb env.syn_window_ns (env.now_ns - s.first_seen_ns))
    then record s { first_seen_ns = env.now_ns; syn_count = 0; ack_count = 0 }
    else s

unfoldable pub touch_stats : Env → ℕ → FlowStats → FlowStats
unfolding restart_window
touch_stats env tcp_flags s =
    let r = restart_window env s in
    record r {
      syn_count = if is_set tcp_flags 0x02 then u32 (r.syn_count + 1) else r.syn_count;
      ack_count = if is_set tcp_flags 0x10 then u32 (r.ack_count + 1) else r.ack_count;
      last_seen_ns = env.now_ns;
    }

module _ (counts : BpfMap ℕ ℕ) where
  unfoldable pub inc_count : counts.Map → ℕ → counts.Map
  inc_count m proto = elim (counts.lookup m proto) [
    | some cnt ↦ counts.store m proto (u64 (cnt + 1))
    | none ↦ counts.update_noexist m proto 1
  ]

  unfoldable pub inc_ringbuf_drop : counts.Map → counts.Map
  inc_ringbuf_drop m = elim (counts.lookup m 0) [
    | some cnt ↦ counts.store m 0 (u64 (cnt + 1))
    | none ↦ m
  ]

module _ (flows : BpfMap FlowKey FlowStats) where
  -- the accounting of a flow, and whether it is new
  unfoldable pub account_flow : Env → FlowKey → ℕ → flows.Map → flows.Map × Bool
  unfolding new_stats touch_stats
  account_flow env key tcp_flags m = elim (flows.lookup m key) [
    | none ↦ (flows.update_noexist m key (new_stats env tcp_flags), true)
    | some s ↦ (flows.store m key (touch_stats env tcp_flags s), false)
  ]

module _ (counts : BpfMap ℕ ℕ) (flows : BpfMap FlowKey FlowStats) where
  pub record State : Type 0 where
    pub pkt_counts : counts.Map
    pub ringbuf_drops : counts.Map
    pub flow_state : flows.Map
    pub events : List Event

  -- The fields behind the IP header are read once a slot of the ring buffer is reserved.
  unfoldable pub emit_event : Frame → Env → Packet → ℕ → Bool → State → Option State
  unfolding event_of
  emit_event b env p action is_new s =
      if not (should_emit_event env.sample_n env.random is_new)
      then some s
      else if not env.has_room
      then some (record s { ringbuf_drops = inc_ringbuf_drop counts s.ringbuf_drops })
      else (do
        l ← event_l4 b p
        some (record s { events = s.events ++ (event_of env p action l ∷ []) }))

  unfoldable pub drop_packet : Frame → Env → Packet → State → Option (Action × State)
  drop_packet b env p s = do
    s' ← emit_event b env p 1 true (record s { pkt_counts = inc_count counts s.pkt_counts 0xFFFF })
    some (drop, s')

  unfoldable pub pass_packet : Frame → Env → Packet → State → Option (Action × State)
  pass_packet b env p s = do
    l ← flow_l4 b p
    let (m, is_new) = account_flow flows env (flow_key p l) l.tcp_flags s.flow_state
    s' ←
        emit_event b env p 0 is_new
          (record s { pkt_counts = inc_count counts s.pkt_counts p.proto; flow_state = m })
    some (pass, s')

  unfoldable pub handle : Frame → Env → Parsed → State → Option (Action × State)
  handle b env ignore s = some (pass, s)
  handle b env (count_only k) s =
      some (pass, record s { pkt_counts = inc_count counts s.pkt_counts k })
  handle b env (packet p) s =
      if env.blacklist 32 p.src_ip then drop_packet b env p s else pass_packet b env p s

  unfoldable pub xdp_kwatch_prog : Frame → Env → State → Option (Action × State)
  xdp_kwatch_prog b env s =
      if not env.fields_exist then some (aborted, s) else (do r ← parse b; handle b env r s)
