-- ===== src/Bpf/Xdp/Flows.antt =====
-- The accounting of SYNs and ACKs per flow.
use k_watch.Prelude.{
  ℕ, ◌+◌, ◌-◌, ◌<◌, ◌≤◌, ◌^◌, ◌≡◌, ◌≢◌, ap, sym, subst, ◌∙◌, Option, none, some, true, false, arith,
  Option-cases, inl, inr, if◌then◌else◌,
}
use k_watch.Bpf.Shared.{FlowKey, FlowStats}
use k_watch.Bpf.Maps.{BpfMap, IsHash}
use k_watch.Bpf.Xdp.{Env, is_set, new_stats, touch_stats, account_flow}

-- What user space relies on: a flow was first seen no longer than the window before it was last
-- seen, and not after.
pub record IsFresh (window : ℕ) (s : FlowStats) : Type 0 where
  pub ordered : s.first_seen_ns ≤ s.last_seen_ns
  pub within : s.last_seen_ns - s.first_seen_ns ≤ window

abbrev pub AllFresh : ℕ → Option FlowStats → Type 0
AllFresh window none = Unit
AllFresh window (some s) = IsFresh window s

-- A packet of a flow that is there, with a window above 0 and a clock that does not run back: the
-- flow is fresh, was last seen now, and within the window its counts, while below 2^32 - 1, go up
-- by its flags, and past the window they start again with this packet.
pub touch_stats_lem :
    (env : Env) (flags : ℕ) (s : FlowStats)
    → 0 < env.syn_window_ns
    → s.first_seen_ns ≤ env.now_ns
    → let t = touch_stats env flags s in
      let syn : ℕ = if is_set flags 0x02 then 1 else 0 in
      let ack : ℕ = if is_set flags 0x10 then 1 else 0 in
      IsFresh env.syn_window_ns t
      × (t.last_seen_ns ≡ env.now_ns)
      × (env.now_ns - s.first_seen_ns ≤ env.syn_window_ns
          → s.syn_count + 1 < 2 ^ 32
          → s.ack_count + 1 < 2 ^ 32
          → (t.syn_count ≡ s.syn_count + syn)
            × (t.ack_count ≡ s.ack_count + ack)
            × (t.first_seen_ns ≡ s.first_seen_ns))
      × (env.syn_window_ns < env.now_ns - s.first_seen_ns
          → (t.syn_count ≡ syn) × (t.ack_count ≡ ack) × (t.first_seen_ns ≡ env.now_ns))
unfolding touch_stats
touch_stats_lem env flags s w clock =
    (ground arith, ground arith, λ h p q. ground arith, λ h. ground arith)

some_eq : {a b : FlowStats} → some a ≡ some b → a ≡ b
some_eq e = cc

module _ (flows : BpfMap FlowKey FlowStats) (hash : IsHash flows) (env : Env) (key : FlowKey)
    (flags : ℕ) (m : flows.Map) (w : 0 < env.syn_window_ns) where
  account_flow_new :
      flows.lookup m key ≡ none
      → account_flow flows env key flags m
        ≡ (flows.update_noexist m key (new_stats env flags), true)
  unfolding account_flow
  account_flow_new e = rw (e, account_flow)

  account_flow_old :
      {s : FlowStats}
      → flows.lookup m key ≡ some s
      → account_flow flows env key flags m ≡ (flows.store m key (touch_stats env flags s), false)
  unfolding account_flow
  account_flow_old e = rw (e, account_flow)

  stored :
      (s : FlowStats)
      → flows.lookup m key ≡ some s
      → flows.lookup (flows.store m key (touch_stats env flags s)) key
        ≡ some (touch_stats env flags s)
  stored s e = hash.lookup-store_self m key (touch_stats env flags s) s e

  new_stats-IsFresh :
      IsFresh env.syn_window_ns (new_stats env flags)
      × ((new_stats env flags).last_seen_ns ≡ env.now_ns)
  unfolding new_stats
  new_stats-IsFresh = ground arith

  abbrev IsCurrent : FlowStats → Type 0
  IsCurrent s = IsFresh env.syn_window_ns s × (s.last_seen_ns ≡ env.now_ns)

  IsCurrent-if_new :
      flows.lookup m key ≡ none
      → (s : FlowStats) → flows.lookup (account_flow flows env key flags m).0 key ≡ some s
      → IsCurrent s
  IsCurrent-if_new e s at_key = subst IsCurrent (sym same) new_stats-IsFresh
    where
      same : s ≡ new_stats env flags
      same =
          hash.update_noexist_adds m key (new_stats env flags) s e
            (sym (ap (λ r. flows.lookup r.0 key) (account_flow_new e)) ∙ at_key)

  IsCurrent-if_old :
      {s : FlowStats}
      → flows.lookup m key ≡ some s
      → s.first_seen_ns ≤ env.now_ns
      → (t : FlowStats) → flows.lookup (account_flow flows env key flags m).0 key ≡ some t
      → IsCurrent t
  IsCurrent-if_old {s} e clock t at_key =
      let touched = touch_stats_lem env flags s w clock in
      subst IsCurrent
        (some_eq
          (sym (stored s e) ∙ sym (ap (λ r. flows.lookup r.0 key) (account_flow_old e)) ∙ at_key))
        (touched.0, touched.1)

  -- After the accounting of a packet the flow's entry, if the map has one, is fresh and was last
  -- seen now; the packet's flow is new if and only if the map had no entry; and the entries of all
  -- other flows are kept where the flow was not new. For a map with the kernel's documented
  -- behaviour, a window above 0 and an entry that was not first seen after now.
  pub account_flow_lem :
      (old : (s : FlowStats) → flows.lookup m key ≡ some s → s.first_seen_ns ≤ env.now_ns)
      → let (m', is_new) = account_flow flows env key flags m in
        ((s : FlowStats)
          → flows.lookup m' key ≡ some s
          → IsFresh env.syn_window_ns s × (s.last_seen_ns ≡ env.now_ns))
        × (is_new ≡ false
            → (s : FlowStats) × (flows.lookup m key ≡ some s)
              × (flows.lookup m' key ≡ some (touch_stats env flags s)))
        × (is_new ≡ true → flows.lookup m key ≡ none)
        × ((j : FlowKey) → is_new ≡ false → key ≢ j → flows.lookup m' j ≡ flows.lookup m j)
  account_flow_lem old = elim (Option-cases (flows.lookup m key)) [
    | inl e ↦ (
      IsCurrent-if_new e,
      λ h. ground (arith, account_flow_new e),
      λ h. e,
      λ j h. ground (arith, account_flow_new e),
    )
    | inr (s, e) ↦ (
      IsCurrent-if_old e (old s e),
      λ h. (s, e, ap (λ r. flows.lookup r.0 key) (account_flow_old e) ∙ stored s e),
      λ h. ground (arith, account_flow_old e),
      λ j h ne.
          ap (λ r. flows.lookup r.0 j) (account_flow_old e)
          ∙ hash.lookup-store_ne m key j (touch_stats env flags s) ne,
    )
  ]
