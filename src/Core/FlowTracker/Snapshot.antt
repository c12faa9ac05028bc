-- ===== src/Core/FlowTracker/Snapshot.antt =====
-- What `process_flow_snapshot` makes of the entry of a source, with and without live flows.
use k_watch.Prelude.{
  ℕ, ◌+◌, ◌-◌, ◌<◌, ◌≤◌, ◌≡◌, ◌≢◌, refl, true, false, ap, subst, ◌∙◌, Option, none, some, List, [],
  ◌∷◌, ◌||◌, leb, arith, Assoc, find, insert, at, find-insert, find-map_values, Distinct,
  Distinct-insert, Distinct-map_values, All, u32,
}
use k_watch.Core.FlowTracker.{
  FlowMapEntry, FlowAggregate, IpStats, FlowTracker, no_stats, aggregate, unmatched, take_aggregate,
  take_aggregates, decay, next_generation, process_flow_snapshot,
}
use k_watch.Core.FlowTracker.Places.{DistinctSrc, lookup_src}
use k_watch.Core.FlowTracker.Aggregate.{
  flows_of, total_syn, total_ack, latest_seen, InRange, Summarises, aggregate_lem,
  aggregate-IsIndexed, none_yet,
}

module _ (threshold generation : ℕ) where
  abbrev pub taken : ℕ → Assoc IpStats → Option FlowAggregate → Option IpStats
  taken ip m none = find ip m
  taken ip m (some a) = some (take_aggregate threshold generation a (at no_stats ip m))

  find-take_aggregates :
      (ip : ℕ) (l : List FlowAggregate) (m : Assoc IpStats)
      → DistinctSrc l
      → find ip (take_aggregates threshold generation l m) ≡ taken ip m (lookup_src ip l)
  unfolding take_aggregates
  find-take_aggregates ip [] m d = refl
  find-take_aggregates ip (a ∷ l) m (n, d) = ground (
    arith,
    find-take_aggregates ip l
        (insert a.src_ip (take_aggregate threshold generation a (at no_stats a.src_ip m)) m) d,
    find-insert a.src_ip ip (take_aggregate threshold generation a (at no_stats a.src_ip m)) m,
  )

  take_aggregates-Distinct :
      (l : List FlowAggregate) (m : Assoc IpStats)
      → Distinct m
      → Distinct (take_aggregates threshold generation l m)
  unfolding take_aggregates
  take_aggregates-Distinct [] m d = d
  take_aggregates-Distinct (a ∷ l) m d =
      take_aggregates-Distinct l _ (Distinct-insert a.src_ip _ m d)

abbrev pub over : (IpStats → IpStats) → Option IpStats → Option IpStats
over f none = none
over f (some s) = some (f s)

module _ (t : FlowTracker) (es : List FlowMapEntry) (now_ns : ℕ) where
  abbrev pub gathered : List FlowAggregate
  gathered = (aggregate t.syn_window_ns now_ns es (record { index = []; scratch = [] })).scratch

  abbrev pub generation : ℕ
  generation = next_generation t.snapshot_generation

  pub find-process_flow_snapshot :
      (ip : ℕ)
      → find ip (process_flow_snapshot t es now_ns).ip_stats
        ≡ over
            (decay t.syn_window_ns now_ns generation)
            (taken t.syn_threshold generation ip t.ip_stats (lookup_src ip gathered))
  unfolding process_flow_snapshot
  find-process_flow_snapshot ip = ground (
    arith,
    find-map_values (λ ip s. decay t.syn_window_ns now_ns generation s) ip
        (take_aggregates t.syn_threshold generation gathered t.ip_stats),
    find-take_aggregates t.syn_threshold generation ip gathered t.ip_stats
        (aggregate-IsIndexed t.syn_window_ns now_ns es none_yet).distinct,
  )

  pub process_flow_snapshot-Distinct :
      Distinct t.ip_stats → Distinct (process_flow_snapshot t es now_ns).ip_stats
  unfolding process_flow_snapshot
  process_flow_snapshot-Distinct d =
      Distinct-map_values _ _ (take_aggregates-Distinct _ _ _ t.ip_stats d)

  -- A source with live flows: its counts are the sums modulo 2^32 over them, it was last seen at
  -- the latest of their times, and it is flagged if it was flagged or at least syn_threshold of
  -- its SYNs are unmatched. For counts that are 32-bit words.
  pub process_flow_snapshot-live :
      (ip : ℕ) {e : FlowMapEntry} {rest : List FlowMapEntry}
      → All InRange es
      → flows_of t.syn_window_ns now_ns ip es ≡ e ∷ rest
      → let old = at no_stats ip t.ip_stats in
        let syn = u32 (total_syn (e ∷ rest)) in
        let ack = u32 (total_ack (e ∷ rest)) in
        find ip (process_flow_snapshot t es now_ns).ip_stats
        ≡ some (record old {
          syn_count = syn;
          ack_count = ack;
          last_event_ns = latest_seen e.stats.last_seen_ns rest;
          snapshot_generation = next_generation t.snapshot_generation;
          is_flagged = old.is_flagged || leb t.syn_threshold (syn - ack);
        })
  unfolding take_aggregate decay unmatched
  process_flow_snapshot-live ip {e} {rest} h live =
      find-process_flow_snapshot ip
      ∙ ap
          (λ o.
            over (decay t.syn_window_ns now_ns generation)
              (taken t.syn_threshold generation ip t.ip_stats o))
          (subst (λ l. Summarises ip l (lookup_src ip gathered)) live
            (aggregate_lem t.syn_window_ns now_ns ip es h))
      ∙ ground arith

  -- what the third loop does to an entry
  decay_lem :
      (s : IpStats)
      → let cleared = record s { syn_count = 0; ack_count = 0; is_flagged = false } in
        let after = decay t.syn_window_ns now_ns generation s in
        (s.snapshot_generation ≡ generation → after ≡ s)
        × (s.is_blocked ≡ true → after ≡ s)
        × (s.snapshot_generation ≢ generation
            → s.is_blocked ≡ false
            → (s.last_event_ns ≡ 0 → after ≡ cleared)
              × (s.last_event_ns + t.syn_window_ns < now_ns → after ≡ cleared)
              × (s.last_event_ns ≢ 0 → now_ns ≤ s.last_event_ns + t.syn_window_ns → after ≡ s))
  unfolding decay
  decay_lem s = (
    λ g. ground (arith, g),
    λ b. ground (arith, b),
    λ g b. (
      λ l. ground (arith, g, b, l),
      λ l. ground (arith, g, b, l),
      λ n l. ground (arith, g, b, n, l),
    ),
  )

  quiet_decay :
      (ip : ℕ)
      → All InRange es
      → flows_of t.syn_window_ns now_ns ip es ≡ []
      → find ip (process_flow_snapshot t es now_ns).ip_stats
        ≡ over (decay t.syn_window_ns now_ns generation) (find ip t.ip_stats)
  quiet_decay ip h quiet =
      find-process_flow_snapshot ip
      ∙ ap
          (λ o.
            over (decay t.syn_window_ns now_ns generation)
              (taken t.syn_threshold generation ip t.ip_stats o))
          (subst (λ l. Summarises ip l (lookup_src ip gathered)) quiet
            (aggregate_lem t.syn_window_ns now_ns ip es h))

  -- A source with no live flow gets no entry. An entry that it has is kept if it is of this
  -- snapshot's generation or blocked; else its counts and its flag are cleared if it has no event
  -- or its last event lies more than the SYN window back, and it is kept if not. For counts that
  -- are 32-bit words.
  pub process_flow_snapshot-quiet :
      (ip : ℕ)
      → All InRange es
      → flows_of t.syn_window_ns now_ns ip es ≡ []
      → let after = find ip (process_flow_snapshot t es now_ns).ip_stats in
        (find ip t.ip_stats ≡ none → after ≡ none)
        × ((s : IpStats)
            → find ip t.ip_stats ≡ some s
            → (s.snapshot_generation ≡ next_generation t.snapshot_generation → after ≡ some s)
              × (s.is_blocked ≡ true → after ≡ some s)
              × (s.snapshot_generation ≢ next_generation t.snapshot_generation
                  → s.is_blocked ≡ false
                  → (s.last_event_ns ≡ 0
                      → after
                        ≡ some (record s { syn_count = 0; ack_count = 0; is_flagged = false }))
                    × (s.last_event_ns + t.syn_window_ns < now_ns
                        → after
                          ≡ some (record s { syn_count = 0; ack_count = 0; is_flagged = false }))
                    × (s.last_event_ns ≢ 0
                        → now_ns ≤ s.last_event_ns + t.syn_window_ns
                        → after ≡ some s)))
  process_flow_snapshot-quiet ip h quiet = (
    λ e. decayed ∙ ap (over step) e,
    λ s e. (
      λ g. decayed ∙ ap (over step) e ∙ ap some ((decay_lem s).0 g),
      λ b. decayed ∙ ap (over step) e ∙ ap some ((decay_lem s).1 b),
      λ g b. (
        λ l. decayed ∙ ap (over step) e ∙ ap some (((decay_lem s).2 g b).0 l),
        λ l. decayed ∙ ap (over step) e ∙ ap some (((decay_lem s).2 g b).1 l),
        λ n l. decayed ∙ ap (over step) e ∙ ap some (((decay_lem s).2 g b).2 n l),
      ),
    ),
  )
    where
      step : IpStats → IpStats
      step = decay t.syn_window_ns now_ns generation

      decayed :
          find ip (process_flow_snapshot t es now_ns).ip_stats ≡ over step (find ip t.ip_stats)
      decayed = quiet_decay ip h quiet
