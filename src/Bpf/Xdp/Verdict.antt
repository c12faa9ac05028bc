-- ===== src/Bpf/Xdp/Verdict.antt =====
-- What the kernel program decides for each packet, and what it leaves behind.
use k_watch.Prelude.{
  ℕ, ◌≡◌, ◌≢◌, refl, Option, none, some, [], ◌∷◌, ◌++◌, Bool, true, false, not, if◌then◌else◌,
  arith, Bool-cases, Option-cases, inl, inr, ap, ◌∙◌, ◌+◌, u64,
}
use k_watch.Bpf.Shared.{Event, FlowKey, FlowStats, should_emit_event}
use k_watch.Bpf.Maps.{BpfMap, IsHash, IsStable}
use k_watch.Bpf.Packet.{
  Frame, Packet, Parsed, ignore, count_only, packet, L4, parse, event_l4, flow_l4, ◌>>=◌,
}
use k_watch.Bpf.Packet.Safety.{parse_in, event_l4_in, flow_l4_in}
use k_watch.Bpf.Xdp.{
  Env, Action, aborted, pass, drop, State, inc_count, inc_ringbuf_drop, event_of, emit_event,
  flow_key, account_flow, drop_packet, pass_packet, handle, xdp_kwatch_prog,
}

-- The decision: only an IPv4 packet from a blacklisted source is dropped.
abbrev pub verdict_of : Env → Option Parsed → Action
verdict_of env none = pass
verdict_of env (some ignore) = pass
verdict_of env (some (count_only k)) = pass
verdict_of env (some (packet p)) = if env.blacklist 32 p.src_ip then drop else pass

abbrev pub verdict : Frame → Env → Action
verdict b env = if env.fields_exist then verdict_of env (parse b) else aborted

present : {A : Type 0} (o : Option A) → o ≢ none → (a : A) × (o ≡ some a)
present none h = absurd (h refl)
present (some a) h = (a, refl)

module _ (counts : BpfMap ℕ ℕ) (hash : IsHash counts) (t : counts.Map) (k : ℕ) where
  -- A counter that is there goes up by one, modulo 2^64.
  pub inc_count_self :
      (c : ℕ)
      → counts.lookup t k ≡ some c
      → counts.lookup (inc_count counts t k) k ≡ some (u64 (c + 1))
  unfolding inc_count
  inc_count_self c e = ground (arith, hash.lookup-store_self t k (u64 (c + 1)) c e)

  -- The other counters are kept.
  pub inc_count-ne :
      IsStable counts → (j : ℕ) → k ≢ j → counts.lookup (inc_count counts t k) j ≡ counts.lookup t j
  unfolding inc_count
  inc_count-ne stable j ne = elim (Option-cases (counts.lookup t k)) [
    | inl e ↦ rw (e, inc_count) (stable.update_noexist_ne t k j 1 ne)
    | inr (c, e) ↦ rw (e, inc_count) (hash.lookup-store_ne t k j (u64 (c + 1)) ne)
  ]

module _ (counts : BpfMap ℕ ℕ) (flows : BpfMap FlowKey FlowStats) (b : Frame) (env : Env) where
  -- the state after `emit_event`, with the fields that it read
  pub emitted : Packet → ℕ → Bool → State counts flows → L4 → State counts flows
  emitted p action is_new s l =
      if not (should_emit_event env.sample_n env.random is_new)
      then s
      else if not env.has_room
      then record s { ringbuf_drops = inc_ringbuf_drop counts s.ringbuf_drops }
      else record s { events = s.events ++ (event_of env p action l ∷ []) }

  emit_event_lem :
      (p : Packet) (action : ℕ) (is_new : Bool) (s : State counts flows) {l : L4}
      → event_l4 b p ≡ some l
      → emit_event counts flows b env p action is_new s ≡ some (emitted p action is_new s l)
  unfolding emit_event emitted
  emit_event_lem p action is_new s e = ground arith

  -- The state that an accepted packet leaves, with the fields `l` of its flow key and the fields `f`
  -- of its event.
  pub passed : Packet → State counts flows → L4 → L4 → State counts flows
  passed p s l f =
      let (m, is_new) = account_flow flows env (flow_key p l) l.tcp_flags s.flow_state in
      emitted p 0 is_new
        (record s { pkt_counts = inc_count counts s.pkt_counts p.proto; flow_state = m }) f

  pub dropped : Packet → State counts flows → L4 → State counts flows
  dropped p s f =
      emitted p 1 true (record s { pkt_counts = inc_count counts s.pkt_counts 0xFFFF }) f

  pass_packet_lem :
      (p : Packet) (s : State counts flows) {l f : L4}
      → flow_l4 b p ≡ some l
      → event_l4 b p ≡ some f
      → pass_packet counts flows b env p s ≡ some (pass, passed p s l f)
  unfolding pass_packet passed
  pass_packet_lem p s {l} {f} e g =
      ap (λ o. o >>= accept) e ∙ ap (λ o. o >>= λ s'. some (pass, s')) (emit_event_lem p 0 _ _ g)
    where
      accept : L4 → Option (Action × State counts flows)
      accept l =
          let (m, is_new) = account_flow flows env (flow_key p l) l.tcp_flags s.flow_state in
          emit_event counts flows b env p 0 is_new
            (record s { pkt_counts = inc_count counts s.pkt_counts p.proto; flow_state = m })
          >>= λ s'. some (pass, s')

  drop_packet_lem :
      (p : Packet) (s : State counts flows) {f : L4}
      → event_l4 b p ≡ some f
      → drop_packet counts flows b env p s ≡ some (drop, dropped p s f)
  unfolding drop_packet dropped
  drop_packet_lem p s g = ap (λ o. o >>= λ s'. some (drop, s')) (emit_event_lem p 1 true _ g)

  -- A packet whose headers are read as IPv4, from a blacklisted source: it is dropped and counted
  -- under 0xFFFF, its event is emitted as that of a new flow, and no flow is accounted.
  pub xdp_kwatch_prog-drop :
      (s : State counts flows) {p : Packet}
      → env.fields_exist ≡ true
      → parse b ≡ some (packet p)
      → env.blacklist 32 p.src_ip ≡ true
      → (f : L4) × (event_l4 b p ≡ some f)
        × (xdp_kwatch_prog counts flows b env s ≡ some (drop, dropped p s f))
  unfolding xdp_kwatch_prog handle
  xdp_kwatch_prog-drop s {p} on e black =
      let (f, g) = present (event_l4 b p) (event_l4_in b p) in
      (f, g, ground (arith, drop_packet_lem p s g))

  pub xdp_kwatch_prog-pass :
      (s : State counts flows) {p : Packet}
      → env.fields_exist ≡ true
      → parse b ≡ some (packet p)
      → env.blacklist 32 p.src_ip ≡ false
      → (l f : L4) × (flow_l4 b p ≡ some l)
        × (event_l4 b p ≡ some f)
        × (xdp_kwatch_prog counts flows b env s ≡ some (pass, passed p s l f))
  unfolding xdp_kwatch_prog handle
  xdp_kwatch_prog-pass s {p} on e white =
      let (l, d) = present (flow_l4 b p) (flow_l4_in b p) in
      let (f, g) = present (event_l4 b p) (event_l4_in b p) in
      (l, f, d, g, ground (arith, pass_packet_lem p s d g))

  -- Whatever the frame, the maps and the kernel's answers, the program reads only inside the frame
  -- and returns; it drops exactly the IPv4 packets whose source the lookup in the blacklist finds
  -- with prefix length 32, which a shorter prefix of it answers too, aborts exactly without the
  -- context's fields, and passes all else.
  pub xdp_kwatch_prog-verdict :
      (s : State counts flows)
      → (s' : State counts flows) × (xdp_kwatch_prog counts flows b env s
          ≡ some (verdict b env, s'))
  unfolding xdp_kwatch_prog handle
  xdp_kwatch_prog-verdict s = elim (Bool-cases env.fields_exist) [
    | inr off ↦ (s, ground arith)
    | inl on ↦ of_parsed on (parse b) refl
  ]
    where
      of_parsed :
          env.fields_exist ≡ true
          → (r : Option Parsed) → parse b ≡ r
          → (s' : State counts flows) × (xdp_kwatch_prog counts flows b env s
              ≡ some (verdict b env, s'))
      of_parsed on none e = absurd (parse_in b e)
      of_parsed on (some ignore) e = (s, ground arith)
      of_parsed on (some (count_only k)) e =
          (record s { pkt_counts = inc_count counts s.pkt_counts k }, ground arith)
      of_parsed on (some (packet p)) e = elim (Bool-cases (env.blacklist 32 p.src_ip)) [
        | inl black ↦
            let (f, g, h) = xdp_kwatch_prog-drop s on e black in (dropped p s f, ground (arith, h))
        | inr white ↦
            let (l, f, d, g, h) = xdp_kwatch_prog-pass s on e white in
            (passed p s l f, ground (arith, h))
      ]

  -- A dropped packet, whatever the sample rate and the random number: no flow is accounted; the
  -- counter 0xFFFF goes up by one modulo 2^64 (if it was there) and every other counter is kept;
  -- and where the ring buffer has room one event is appended, with action 1 and the packet's
  -- source, else the events are kept. For a packet that is read as IPv4 from a blacklisted source,
  -- and counters with the documented behaviour of a hash map that is not an LRU map.
  pub xdp_kwatch_prog-drop_effects :
      (s : State counts flows) {p : Packet}
      → IsHash counts
      → IsStable counts
      → env.fields_exist ≡ true
      → parse b ≡ some (packet p)
      → env.blacklist 32 p.src_ip ≡ true
      → (s' : State counts flows) × (xdp_kwatch_prog counts flows b env s ≡ some (drop, s'))
        × (s'.flow_state ≡ s.flow_state)
        × ((c : ℕ)
            → counts.lookup s.pkt_counts 0xFFFF ≡ some c
            → counts.lookup s'.pkt_counts 0xFFFF ≡ some (u64 (c + 1)))
        × ((k : ℕ) → 0xFFFF ≢ k → counts.lookup s'.pkt_counts k ≡ counts.lookup s.pkt_counts k)
        × (env.has_room ≡ true
            → (e : Event) × (s'.events ≡ s.events ++ (e ∷ []))
              × (e.action ≡ 1)
              × (e.src_ip ≡ p.src_ip))
        × (env.has_room ≡ false → s'.events ≡ s.events)
  unfolding dropped emitted should_emit_event event_of
  xdp_kwatch_prog-drop_effects s {p} hash stable on e black =
      let (f, g, h) = xdp_kwatch_prog-drop s on e black in
      (
        dropped p s f,
        h,
        ground arith,
        λ c there. ground (arith, inc_count_self counts hash s.pkt_counts 0xFFFF c there),
        λ k ne. ground (arith, inc_count-ne counts hash s.pkt_counts 0xFFFF stable k ne),
        λ room. (event_of env p 1 f, ground arith, refl, refl),
        λ full. ground arith,
      )
