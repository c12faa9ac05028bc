-- ===== src/Core/FlowTracker/Places.antt =====
-- `aggregate_index` and `aggregate_scratch`: the index says where the vector has the aggregate of a
-- source, and one entry changes the aggregate of its source alone.
use k_watch.Prelude.{
  ℕ, zero, suc, ◌≡◌, refl, sym, ap, subst, ◌∙◌, Option, none, some, List, [], ◌∷◌, ◌++◌, ◌==◌,
  if◌then◌else◌, arith, length, find, find-insert, Option-cases, inl, inr,
}
use k_watch.Core.FlowTracker.{
  FlowMapEntry, FlowAggregate, Aggregates, fresh_aggregate, merge_aggregate, update_at, add_entry,
}

-- the aggregate of a source, and its place
abbrev pub lookup_src : ℕ → List FlowAggregate → Option FlowAggregate
lookup_src ip [] = none
lookup_src ip (a ∷ l) = if a.src_ip == ip then some a else lookup_src ip l

abbrev pub next_place : Option ℕ → Option ℕ
next_place none = none
next_place (some i) = some (suc i)

abbrev pub position : ℕ → List FlowAggregate → Option ℕ
position ip [] = none
position ip (a ∷ l) = if a.src_ip == ip then some 0 else next_place (position ip l)

-- No source has two aggregates.
abbrev pub DistinctSrc : List FlowAggregate → Type 0
DistinctSrc [] = Unit
DistinctSrc (a ∷ l) = (lookup_src a.src_ip l ≡ none) × DistinctSrc l

-- The index says where the vector has a source, and the vector has it once.
pub record IsIndexed (g : Aggregates) : Type 0 where
  pub places : (ip : ℕ) → find ip g.index ≡ position ip g.scratch
  pub distinct : DistinctSrc g.scratch

-- an aggregate with one more flow
abbrev pub joined : FlowMapEntry → Option FlowAggregate → FlowAggregate
joined e none = fresh_aggregate e
joined e (some a) = merge_aggregate e a

lookup_src-none : (ip : ℕ) (l : List FlowAggregate) → position ip l ≡ none → lookup_src ip l ≡ none
lookup_src-none ip [] h = refl
lookup_src-none ip (a ∷ l) h = ground (arith, lookup_src-none ip l)

position-none : (ip : ℕ) (l : List FlowAggregate) → lookup_src ip l ≡ none → position ip l ≡ none
position-none ip [] h = refl
position-none ip (a ∷ l) h = ground (arith, position-none ip l)

update_at-suc :
    (f : FlowAggregate → FlowAggregate) (i : ℕ) (a : FlowAggregate) (l : List FlowAggregate)
    → update_at f (suc i) (a ∷ l) ≡ a ∷ update_at f i l
update_at-suc f i a l = ground arith

module _ (e : FlowMapEntry) where
  lookup_src-append :
      (ip : ℕ) (l : List FlowAggregate)
      → position e.key.src_ip l ≡ none
      → lookup_src ip (l ++ (fresh_aggregate e ∷ []))
        ≡ (if e.key.src_ip == ip then some (fresh_aggregate e) else lookup_src ip l)
  unfolding fresh_aggregate
  lookup_src-append ip [] h = refl
  lookup_src-append ip (a ∷ l) h = ground (arith, lookup_src-append ip l)

  position-append :
      (ip : ℕ) (l : List FlowAggregate)
      → position e.key.src_ip l ≡ none
      → position ip (l ++ (fresh_aggregate e ∷ []))
        ≡ (if e.key.src_ip == ip then some (length l) else position ip l)
  unfolding fresh_aggregate
  position-append ip [] h = refl
  position-append ip (a ∷ l) h = ground (arith, position-append ip l)

  DistinctSrc-append :
      (l : List FlowAggregate)
      → position e.key.src_ip l ≡ none
      → DistinctSrc l
      → DistinctSrc (l ++ (fresh_aggregate e ∷ []))
  DistinctSrc-append [] h d = (refl, tt)
  DistinctSrc-append (a ∷ l) h (n, d) =
      ground (arith, lookup_src-append a.src_ip l, DistinctSrc-append l)

  src_ip-merge : (a : FlowAggregate) → (merge_aggregate e a).src_ip ≡ a.src_ip
  unfolding merge_aggregate
  src_ip-merge a = refl

  position-update_at :
      (ip i : ℕ) (l : List FlowAggregate)
      → position ip (update_at (merge_aggregate e) i l) ≡ position ip l
  position-update_at ip i [] = refl
  position-update_at ip zero (a ∷ l) = ground (arith, src_ip-merge a)
  position-update_at ip (suc i) (a ∷ l) =
      ap (position ip) (update_at-suc (merge_aggregate e) i a l)
      ∙ ap (λ p. if a.src_ip == ip then some 0 else next_place p) (position-update_at ip i l)

  lookup_src-update_at :
      (ip i : ℕ) (l : List FlowAggregate)
      → position e.key.src_ip l ≡ some i
      → lookup_src ip (update_at (merge_aggregate e) i l)
        ≡ (if e.key.src_ip == ip then some (joined e (lookup_src ip l)) else lookup_src ip l)
  lookup_src-update_at ip i [] h = ground arith
  lookup_src-update_at ip zero (a ∷ l) h =
      ground (arith, src_ip-merge a, position_zero (position e.key.src_ip l))
    where
      position_zero : (o : Option ℕ) → next_place o ≡ some 0 → ⊥
      position_zero none q = ground arith
      position_zero (some k) q = ground arith
  lookup_src-update_at ip (suc i) (a ∷ l) h =
      ap (lookup_src ip) (update_at-suc (merge_aggregate e) i a l)
      ∙ ground (arith, lookup_src-update_at ip i l, position_suc (position e.key.src_ip l))
    where
      position_suc : (o : Option ℕ) → next_place o ≡ some (suc i) → o ≡ some i
      position_suc none q = ground arith
      position_suc (some k) q = ground arith

  DistinctSrc-update_at :
      (i : ℕ) (l : List FlowAggregate)
      → DistinctSrc l
      → DistinctSrc (update_at (merge_aggregate e) i l)
  DistinctSrc-update_at i [] d = tt
  DistinctSrc-update_at zero (a ∷ l) d = rw (src_ip-merge a) d
  DistinctSrc-update_at (suc i) (a ∷ l) (n, d) =
      subst DistinctSrc (sym (update_at-suc (merge_aggregate e) i a l)) (
        lookup_src-none a.src_ip (update_at (merge_aggregate e) i l)
            (position-update_at a.src_ip i l ∙ position-none a.src_ip l n),
        DistinctSrc-update_at i l d,
      )

  pub add_entry-IsIndexed : {g : Aggregates} → IsIndexed g → IsIndexed (add_entry g e)
  unfolding add_entry
  add_entry-IsIndexed {g} v = elim (Option-cases (find e.key.src_ip g.index)) [
    | inl h ↦
        rw (h, add_entry)
          (record {
            places = λ ip. ground (
              arith,
              find-insert e.key.src_ip ip (length g.scratch) g.index,
              v.places ip,
              position-append ip g.scratch (sym (v.places e.key.src_ip) ∙ h),
            );
            distinct = DistinctSrc-append g.scratch (sym (v.places e.key.src_ip) ∙ h) v.distinct;
          })
    | inr (i, h) ↦
        rw (h, add_entry)
          (record {
            places = λ ip. v.places ip ∙ sym (position-update_at ip i g.scratch);
            distinct = DistinctSrc-update_at i g.scratch v.distinct;
          })
  ]

  -- One entry joins the aggregate of its source, and leaves the others alone.
  pub lookup_src-add_entry :
      (ip : ℕ) {g : Aggregates}
      → IsIndexed g
      → lookup_src ip (add_entry g e).scratch ≡ (
          if e.key.src_ip == ip
          then some (joined e (lookup_src ip g.scratch))
          else lookup_src ip g.scratch)
  unfolding add_entry
  lookup_src-add_entry ip {g} v = elim (Option-cases (find e.key.src_ip g.index)) [
    | inl h ↦
        rw (h, add_entry)
          (ground (
            arith,
            lookup_src-append ip g.scratch (sym (v.places e.key.src_ip) ∙ h),
            lookup_src-none ip g.scratch,
            v.places ip,
          ))
    | inr (i, h) ↦
        rw (h, add_entry) (lookup_src-update_at ip i g.scratch (sym (v.places e.key.src_ip) ∙ h))
  ]
