-- ===== src/Cli/Top/Loop/Recent.antt =====
-- The events that the dashboard keeps.
use k_watch.Prelude.{
  ◌+◌, ◌-◌, ◌≤◌, ◌≡◌, ap, sym, ◌∙◌, List, [], ◌∷◌, ◌++◌, true, false, ltb, ◌==◌, length, drop,
  length-append, length-drop, drop-append, drop-drop, arith, Bool-cases, inl, inr,
}
use mathlib.Core.List.{append_assoc, append-nil}
use k_watch.Bpf.Shared.{Event}
use k_watch.Cli.Top.Loop.{Screen, push_recent, on_event, on_events}

-- the last 50 elements
abbrev pub keep_last : List Event → List Event
keep_last es = drop (length es - 50) es

pub length-push_recent :
    (recent : List Event) (e : Event) → length recent ≤ 50 → length (push_recent recent e) ≤ 50
unfolding push_recent
length-push_recent recent e h = elim (Bool-cases (length recent == 50)) [
  | inl k ↦
      rw (push_recent, k)
        (ground (arith, k, length-append (drop 1 recent) (e ∷ []), length-drop 1 recent))
  | inr k ↦ rw (push_recent, k) (ground (arith, k, length-append recent (e ∷ [])))
]

push_recent-keep_last :
    (all : List Event) (e : Event) → push_recent (keep_last all) e ≡ keep_last (all ++ (e ∷ []))
unfolding push_recent
push_recent-keep_last all e = elim (Bool-cases (ltb (length all) 50)) [
  | inl h ↦
      rw (push_recent, small h, all_short h)
        (ap (λ n. drop n (all ++ (e ∷ []))) {x = 0} {y = length (all ++ (e ∷ [])) - 50}
          (ground (arith, h, length-append all (e ∷ []))))
  | inr h ↦
      rw (push_recent, full h)
        (ap (λ r. r ++ (e ∷ [])) (drop-drop 1 (length all - 50) all)
          ∙ sym (drop-append (length all - 50 + 1) all (e ∷ []) (ground (arith, h)))
          ∙ ap (λ n. drop n (all ++ (e ∷ []))) {x = length all - 50 + 1}
              {y = length (all ++ (e ∷ [])) - 50} (ground (arith, h, length-append all (e ∷ []))))
]
  where
    all_short : ltb (length all) 50 ≡ true → keep_last all ≡ all
    all_short h = ap (λ n. drop n all) {x = length all - 50} {y = 0} (ground (arith, h))

    small : ltb (length all) 50 ≡ true → (length (keep_last all) == 50) ≡ false
    small h = ground (arith, h, length-drop (length all - 50) all)

    full : ltb (length all) 50 ≡ false → (length (keep_last all) == 50) ≡ true
    full h = ground (arith, h, length-drop (length all - 50) all)

-- If the recent events are the last 50 of all that were delivered, they are so after more were
-- delivered.
pub on_events-keep_last :
    (es all : List Event) (s : Screen)
    → s.recent_events ≡ keep_last all
    → (on_events es s).recent_events ≡ keep_last (all ++ es)
unfolding on_events on_event
on_events-keep_last [] all s h = h ∙ ap keep_last (sym (append-nil all))
on_events-keep_last (e ∷ es) all s h =
    on_events-keep_last es (all ++ (e ∷ [])) (on_event e s)
      (ap (λ r. push_recent r e) h ∙ push_recent-keep_last all e)
    ∙ ap keep_last (append_assoc all (e ∷ []) es)
