-- ===== src/Core/FlowTracker/Aggregate.antt =====
-- The first loop of `process_flow_snapshot` gathers, for each source, the sums over its live flows.
use k_watch.Prelude.{
  ℕ, ◌+◌, ◌<◌, ◌^◌, ◌≡◌, refl, sym, subst, find, ◌∙◌, Option, none, some, List, [], ◌∷◌, ◌&&◌, ltb,
  ◌==◌, if◌then◌else◌, arith, All, u32, Bool-cases, inl, inr,
}
use k_watch.Core.FlowTracker.{
  FlowMapEntry, FlowAggregate, Aggregates, fresh_aggregate, merge_aggregate, aggregate, is_live,
}
use k_watch.Core.FlowTracker.Places.{
  IsIndexed, lookup_src, joined, add_entry-IsIndexed, lookup_src-add_entry,
}

-- the live flows of a source
abbrev pub flows_of : ℕ → ℕ → ℕ → List FlowMapEntry → List FlowMapEntry
flows_of window now_ns ip [] = []
flows_of window now_ns ip (e ∷ es) =
    let rest = flows_of window now_ns ip es in
    if is_live window now_ns e && e.key.src_ip == ip then e ∷ rest else rest

abbrev pub total_syn : List FlowMapEntry → ℕ
total_syn [] = 0
total_syn (e ∷ es) = e.stats.syn_count + total_syn es

abbrev pub total_ack : List FlowMapEntry → ℕ
total_ack [] = 0
total_ack (e ∷ es) = e.stats.ack_count + total_ack es

abbrev pub latest_seen : ℕ → List FlowMapEntry → ℕ
latest_seen n [] = n
latest_seen n (e ∷ es) =
    latest_seen (if ltb n e.stats.last_seen_ns then e.stats.last_seen_ns else n) es

-- The counts of a map entry are 32-bit words.
abbrev pub InRange : FlowMapEntry → Type 0
InRange e = (e.stats.syn_count < 2 ^ 32) × (e.stats.ack_count < 2 ^ 32)

-- The aggregate of these flows: none of no flow, else the sums modulo 2^32 and the latest time.
abbrev pub Summarises : ℕ → List FlowMapEntry → Option FlowAggregate → Type 0
Summarises ip [] o = o ≡ none
Summarises ip (e ∷ es) o =
    o
    ≡ some (record {
      src_ip = ip;
      syn_count = u32 (total_syn (e ∷ es));
      ack_count = u32 (total_ack (e ∷ es));
      last_seen_ns = latest_seen e.stats.last_seen_ns es;
    })

joined_all : List FlowMapEntry → Option FlowAggregate → Option FlowAggregate
joined_all [] o = o
joined_all (e ∷ es) o = joined_all es (some (joined e o))

module _ (window now_ns : ℕ) where
  pub aggregate-IsIndexed :
      (es : List FlowMapEntry) {g : Aggregates}
      → IsIndexed g
      → IsIndexed (aggregate window now_ns es g)
  unfolding aggregate
  aggregate-IsIndexed [] v = v
  aggregate-IsIndexed (e ∷ es) v = elim (Bool-cases (is_live window now_ns e)) [
    | inl h ↦ rw h (aggregate-IsIndexed es (add_entry-IsIndexed e v))
    | inr h ↦ rw h (aggregate-IsIndexed es v)
  ]

  lookup_src-aggregate :
      (ip : ℕ) (es : List FlowMapEntry) {g : Aggregates}
      → IsIndexed g
      → lookup_src ip (aggregate window now_ns es g).scratch
        ≡ joined_all (flows_of window now_ns ip es) (lookup_src ip g.scratch)
  unfolding aggregate joined_all
  lookup_src-aggregate ip [] v = refl
  lookup_src-aggregate ip (e ∷ es) v = ground (
    arith,
    lookup_src-aggregate ip es (add_entry-IsIndexed e v),
    lookup_src-aggregate ip es v,
    lookup_src-add_entry e ip v,
  )

summed : FlowAggregate → List FlowMapEntry → FlowAggregate
summed a es = record {
  src_ip = a.src_ip;
  syn_count = u32 (a.syn_count + total_syn es);
  ack_count = u32 (a.ack_count + total_ack es);
  last_seen_ns = latest_seen a.last_seen_ns es;
}

joined_all-some :
    (es : List FlowMapEntry) (a : FlowAggregate)
    → a.syn_count < 2 ^ 32
    → a.ack_count < 2 ^ 32
    → joined_all es (some a) ≡ some (summed a es)
unfolding joined_all summed merge_aggregate
joined_all-some [] a p q = ground arith
joined_all-some (e ∷ es) a p q =
    joined_all-some es (merge_aggregate e a) (omega arith) (omega arith) ∙ ground arith

flows_of-src :
    (window now_ns ip : ℕ) (es : List FlowMapEntry)
    → All (λ e. e.key.src_ip ≡ ip) (flows_of window now_ns ip es)
flows_of-src window now_ns ip [] = tt
flows_of-src window now_ns ip (e ∷ es) = ground (arith, flows_of-src window now_ns ip es)

flows_of-InRange :
    (window now_ns ip : ℕ) (es : List FlowMapEntry)
    → All InRange es
    → All InRange (flows_of window now_ns ip es)
flows_of-InRange window now_ns ip [] h = tt
flows_of-InRange window now_ns ip (e ∷ es) (p, h) =
    ground (arith, p, flows_of-InRange window now_ns ip es h)

pub none_yet : IsIndexed (record { index = []; scratch = [] })
unfolding find
none_yet = record { places = λ ip. refl; distinct = tt }

joined_all-Summarises :
    (ip : ℕ) (es : List FlowMapEntry)
    → All (λ e. e.key.src_ip ≡ ip) es
    → All InRange es
    → Summarises ip es (joined_all es none)
unfolding joined_all fresh_aggregate summed
joined_all-Summarises ip [] s h = refl
joined_all-Summarises ip (e ∷ es) (s, ss) (p, h) =
    joined_all-some es (fresh_aggregate e) p.0 p.1 ∙ ground arith

-- However the flows are ordered, the vector has for each source the sums modulo 2^32 of the SYN
-- and ACK counts of its live flows and the latest time it was seen, and nothing for a source that
-- has none. For counts that are 32-bit words.
pub aggregate_lem :
    (window now_ns ip : ℕ) (es : List FlowMapEntry)
    → All InRange es
    → Summarises ip
        (flows_of window now_ns ip es)
        (lookup_src ip (aggregate window now_ns es (record { index = []; scratch = [] })).scratch)
aggregate_lem window now_ns ip es h =
    subst (Summarises ip (flows_of window now_ns ip es))
      (sym (lookup_src-aggregate window now_ns ip es none_yet))
      (joined_all-Summarises ip (flows_of window now_ns ip es) (flows_of-src window now_ns ip es)
        (flows_of-InRange window now_ns ip es h))
