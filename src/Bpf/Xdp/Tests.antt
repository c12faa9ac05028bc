-- ===== src/Bpf/Xdp/Tests.antt =====
-- The kernel program over concrete maps and frames, and the theorems there.
use k_watch.Prelude.{
  ℕ, ◌+◌, ◌≡◌, ◌≢◌, ◌↔◌, refl, Option, none, some, List, [], ◌∷◌, ◌++◌, Bool, true, false, ◌&&◌,
  ◌==◌, ==_iff, if◌then◌else◌, arith, u64, length,
}
use k_watch.Bpf.Shared.{Event, FlowKey, FlowStats, should_emit_event}
use k_watch.Bpf.Maps.{BpfMap, IsHash, IsStable}
use k_watch.Bpf.Packet.{
  Frame, packet, parse, parse_l2, parse_l3, parse_ipv4, load_be16, load32, event_l4, flow_l4,
  load_tcp,
}
use k_watch.Bpf.Packet.Frames.{Addresses, Ipv4, ethernet, ipv4, fields, parse-ethernet-ipv4}
use k_watch.Bpf.Xdp.{
  Env, drop, State, touch_stats, new_stats, account_flow, xdp_kwatch_prog, handle, pass_packet,
  emit_event, flow_key, inc_count,
}
use k_watch.Bpf.Xdp.Verdict.{verdict, xdp_kwatch_prog-verdict, xdp_kwatch_prog-drop_effects}
use k_watch.Bpf.Xdp.Flows.{IsFresh, account_flow_lem}

-- a map as a function
module _ {K V : Type 0} (eq : K → K → Bool) where
  abbrev put : (K → Option V) → K → V → K → Option V
  put m k v j = if eq k j then some v else m j

  abbrev fun_map : BpfMap K V
  fun_map = record {
    Map = K → Option V;
    lookup = λ m k. m k;
    store = put;
    update_noexist = λ m k v. elim (m k) [ some w ↦ m | none ↦ put m k v ];
  }

module _ {K V : Type 0} (eq : K → K → Bool) (eq_iff : (a b : K) → (eq a b ≡ true) ↔ (a ≡ b)) where
  put_self : (m : K → Option V) (k : K) (v : V) → put eq m k v k ≡ some v
  put_self m k v = ground (arith, (eq_iff k k).1 refl)

  put_ne : (m : K → Option V) (k j : K) (v : V) → k ≢ j → put eq m k v j ≡ m j
  put_ne m k j v ne = ground (arith, eq_iff k j)

  fun_map-IsHash : IsHash (fun_map {V = V} eq)
  fun_map-IsHash = record {
    lookup-store_self = λ m k v w e. put_self m k v;
    lookup-store_ne = λ m k j v ne. put_ne m k j v ne;
    update_noexist_there = λ m k v w e. ground arith;
    update_noexist_adds = λ m k v w e f. ground (arith, put_self m k v);
  }

  fun_map-IsStable : IsStable (fun_map {V = V} eq)
  fun_map-IsStable = record { update_noexist_ne = λ m k j v ne. ground (arith, put_ne m k j v ne) }

abbrev key_eq : FlowKey → FlowKey → Bool
key_eq a b =
    a.src_ip == b.src_ip
    && (a.dst_ip == b.dst_ip
        && (a.sport == b.sport && (a.dport == b.dport && a.protocol == b.protocol)))

key_eq_iff : (a b : FlowKey) → (key_eq a b ≡ true) ↔ (a ≡ b)
key_eq_iff a b = (λ h. ground arith, λ h. ground arith)

abbrev counts : BpfMap ℕ ℕ
counts = fun_map ◌==◌

abbrev flows : BpfMap FlowKey FlowStats
flows = fun_map key_eq

abbrev env : Env
env = record {
  fields_exist = true;
  sample_n = 100;
  syn_window_ns = 10_000_000_000;
  random = 7;
  now_ns = 30_000_000_000;
  event_ns = 30_000_000_001;
  has_room = true;
  blacklist = λ prefix ip. prefix == 32 && ip == 0x0100007F;
}

abbrev start : State counts flows
start = record {
  pkt_counts = λ k. if k == 0xFFFF then some 4 else none;
  ringbuf_drops = λ k. if k == 0 then some 0 else none;
  flow_state = λ k. none;
  events = [];
}

abbrev macs : Addresses
macs = record {
  a0 = 1;
  a1 = 2;
  a2 = 3;
  a3 = 4;
  a4 = 5;
  a5 = 6;
  a6 = 7;
  a7 = 8;
  a8 = 9;
  a9 = 10;
  a10 = 11;
  a11 = 12;
}

-- a TCP segment from 127.0.0.`last`
abbrev header : ℕ → Ipv4
header last = record {
  ihl = 5;
  tos = 0;
  len_hi = 0;
  len_lo = 40;
  id_hi = 0;
  id_lo = 1;
  frag_hi = 0;
  frag_lo = 0;
  ttl = 64;
  protocol = 6;
  check_hi = 0;
  check_lo = 0;
  s0 = 127;
  s1 = 0;
  s2 = 0;
  s3 = last;
  d0 = 127;
  d1 = 0;
  d2 = 0;
  d3 = 9;
}

abbrev syn_segment : List ℕ
syn_segment =
    0x12 ∷ 0x34 ∷ 0 ∷ 80 ∷ 0 ∷ 0 ∷ 0 ∷ 0 ∷ 0 ∷ 0 ∷ 0 ∷ 0 ∷ 0x50 ∷ 0x02 ∷ 0 ∷ 0 ∷ 0 ∷ 0 ∷ 0 ∷ 0 ∷ []

abbrev frame : ℕ → Frame
frame last = ethernet macs 0x08 0x00 (ipv4 (header last) syn_segment)

parse-ethernet-ipv4_example : parse (frame 1) ≡ some (packet (fields (header 1) 14))
parse-ethernet-ipv4_example =
    parse-ethernet-ipv4 macs (header 1) syn_segment (omega arith) (omega arith) (omega arith)

-- A run of the program: a SYN from 127.0.0.2 is passed, counted, and starts a flow.
syn_is_passed :
    elim (xdp_kwatch_prog counts flows (frame 2) env start) [
      | none ↦ false
      | some (a, s) ↦
          length s.events == 1 && elim (s.pkt_counts 6) [ none ↦ false | some c ↦ c == 1 ]
    ]
    ≡ true
unfolding xdp_kwatch_prog handle pass_packet emit_event account_flow flow_key parse parse_l2
    parse_l3 parse_ipv4 load_be16 load32 flow_l4 event_l4 load_tcp inc_count should_emit_event
    new_stats
syn_is_passed = refl

xdp_kwatch_prog-verdict_example :
    (s' : State counts flows) × (xdp_kwatch_prog counts flows (frame 1) env start
      ≡ some (verdict (frame 1) env, s'))
xdp_kwatch_prog-verdict_example = xdp_kwatch_prog-verdict counts flows (frame 1) env start

xdp_kwatch_prog-drop_effects_example :
    (s' : State counts flows) × (xdp_kwatch_prog counts flows (frame 1) env start ≡ some (drop, s'))
    × (s'.flow_state ≡ start.flow_state)
    × ((c : ℕ) → start.pkt_counts 0xFFFF ≡ some c → s'.pkt_counts 0xFFFF ≡ some (u64 (c + 1)))
    × ((k : ℕ) → 0xFFFF ≢ k → s'.pkt_counts k ≡ start.pkt_counts k)
    × (env.has_room ≡ true
        → (e : Event) × (s'.events ≡ [] ++ (e ∷ [])) × (e.action ≡ 1) × (e.src_ip ≡ 0x0100007F))
    × (env.has_room ≡ false → s'.events ≡ [])
xdp_kwatch_prog-drop_effects_example =
    xdp_kwatch_prog-drop_effects counts flows (frame 1) env start {p = fields (header 1) 14}
      (fun_map-IsHash ◌==◌ ==_iff) (fun_map-IsStable ◌==◌ ==_iff) refl parse-ethernet-ipv4_example
      refl

abbrev seen : FlowStats
seen = record {
  syn_count = 3;
  ack_count = 1;
  first_seen_ns = 25_000_000_000;
  last_seen_ns = 26_000_000_000;
}

abbrev one_flow : FlowKey
one_flow = record { src_ip = 1; dst_ip = 2; sport = 3; dport = 4; protocol = 6 }

abbrev held : FlowKey → Option FlowStats
held = put key_eq (λ k. none) one_flow seen

account_flow_lem_example :
    let (m', is_new) = account_flow flows env one_flow 2 held in
    ((s : FlowStats)
      → m' one_flow ≡ some s
      → IsFresh env.syn_window_ns s × (s.last_seen_ns ≡ env.now_ns))
    × (is_new ≡ false
        → (s : FlowStats) × (held one_flow ≡ some s) × (m' one_flow ≡ some (touch_stats env 2 s)))
    × (is_new ≡ true → held one_flow ≡ none)
    × ((j : FlowKey) → is_new ≡ false → one_flow ≢ j → m' j ≡ held j)
account_flow_lem_example =
    account_flow_lem flows (fun_map-IsHash key_eq key_eq_iff) env one_flow 2 held (omega arith)
      (λ s e. ground arith)
