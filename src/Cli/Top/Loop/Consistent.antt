-- ===== src/Cli/Top/Loop/Consistent.antt =====
-- What holds of the dashboard's state between two rounds of its loop.
use k_watch.Prelude.{
  ℕ, ◌+◌, ◌≤◌, ◌≡◌, Option, none, some, List, [], ◌∷◌, Bool, true, false, if◌then◌else◌, length,
  Bool-cases, inl, inr,
}
use k_watch.Prelude.Text.{Text}
use k_watch.Bpf.Shared.{Event}
use k_watch.Bpf.UserMap.{UserMap}
use k_watch.Bpf.UserMap.LpmTrie.{IsLpmTrie, max_entries}
use k_watch.Core.FlowTracker.{FlowMapEntry, FlowTracker, tick_and_get_blocks}
use k_watch.Core.FlowTracker.Trace.{IsValid, event, snapshot, apply, apply-IsValid}
use k_watch.Cli.Blacklist.{LpmKey}
use k_watch.Cli.Top.Sync.{Covers, found, sync_blocks-Covers, sync_blocks-IsValid}
use k_watch.Cli.Top.Loop.{
  Screen, State, TickInput, Wakeup, signal, samples, tick, Wait, interrupted, failed, ready, ends,
  on_event, on_events, tracked, redraw, on_tick, dispatch, top_loop,
}
use k_watch.Cli.Top.Loop.Recent.{length-push_recent}
use k_watch.Cli.Top.Loop.Kept.{keeps_rows, snapshot-Covers, event-Covers, handle_input-kept}
use k_watch.Tui.App.{App, handle_input}

-- The tracker is well formed, each source that it holds blocked is in the kernel's blacklist, and at most
-- 50 events are kept.
pub record Consistent (u : UserMap LpmKey ℕ) (laws : IsLpmTrie u) (s : Screen) (m : u.Map)
    : Type 0 where
  pub valid : IsValid s.tracker
  pub covers : Covers u laws m s.tracker
  pub recent_bound : length s.recent_events ≤ 50

module _ (u : UserMap LpmKey ℕ) (laws : IsLpmTrie u) where
  on_events-Consistent :
      (es : List Event) (s : Screen) (m : u.Map)
      → Consistent u laws s m
      → Consistent u laws (on_events es s) m
  unfolding on_events on_event apply
  on_events-Consistent [] s m c = c
  on_events-Consistent (e ∷ es) s m c = on_events-Consistent es (on_event e s) m (record {
    valid = apply-IsValid s.tracker (event e) c.valid;
    covers = event-Covers u laws s.tracker e m c.covers;
    recent_bound = length-push_recent s.recent_events e c.recent_bound;
  })

  tracked-IsValid :
      (t : FlowTracker) (o : Option (List FlowMapEntry)) (now_ns : ℕ)
      → IsValid t
      → IsValid (tracked t o now_ns)
  unfolding apply
  tracked-IsValid t none now_ns v = v
  tracked-IsValid t (some es) now_ns v = apply-IsValid t (snapshot es now_ns) v

  tracked-Covers :
      (t : FlowTracker) (o : Option (List FlowMapEntry)) (now_ns : ℕ) (m : u.Map)
      → Covers u laws m t
      → Covers u laws m (tracked t o now_ns)
  tracked-Covers t none now_ns m c = c
  tracked-Covers t (some es) now_ns m c = snapshot-Covers u laws t es now_ns m c

module _ (u : UserMap LpmKey ℕ) (laws : IsLpmTrie u) (inet_pton : Text → Option ℕ)
    (all_keys : u.Map → List LpmKey) where
  -- the state of a tick behind its key, and the tracker with the new snapshot
  abbrev pub typed_on : TickInput → Screen → u.Map → App × u.Map
  typed_on i s m = handle_input u inet_pton i.key i.typed s.firewall_rows s.app m

  -- The key deletes no row, and the blacklist has room for what the tick blocks.
  abbrev pub TickFits : TickInput → Screen → u.Map → Type 0
  TickFits i s m =
      (keeps_rows i.key s.app.current_view ≡ true)
      × (laws.size (typed_on i s m).1
            + length (tick_and_get_blocks (tracked s.tracker i.flow_entries i.now_ns) i.now_ns).1
          ≤ max_entries)

  -- so it is at each tick of those that are ready
  unfoldable pub WakeupsFit : List Wakeup → Screen → u.Map → Type 0
  unfolding on_events on_tick
  WakeupsFit [] s m = Unit {0}
  WakeupsFit (signal sig ∷ ws) s m = WakeupsFit ws s m
  WakeupsFit (samples es ∷ ws) s m = WakeupsFit ws (on_events es s) m
  WakeupsFit (tick i ∷ ws) s m =
      TickFits i s m
      × WakeupsFit ws (on_tick u inet_pton all_keys i (s, m)).0
          (on_tick u inet_pton all_keys i (s, m)).1

  -- and of all that `epoll_wait` reports
  unfoldable pub WaitsFit : List Wait → Screen → u.Map → Type 0
  unfolding dispatch WakeupsFit
  WaitsFit [] s m = Unit {0}
  WaitsFit (interrupted ∷ ws) s m = WaitsFit ws s m
  WaitsFit (failed ∷ ws) s m = Unit {0}
  WaitsFit (ready es ∷ ws) s m =
      WakeupsFit es s m
      × WaitsFit ws (dispatch u inet_pton all_keys es (s, m)).1.0
          (dispatch u inet_pton all_keys es (s, m)).1.1

  on_tick-Consistent :
      (i : TickInput) (s : Screen) (m : u.Map)
      → TickFits i s m
      → Consistent u laws s m
      → Consistent u laws
          (on_tick u inet_pton all_keys i (s, m)).0
          (on_tick u inet_pton all_keys i (s, m)).1
  unfolding on_tick redraw
  on_tick-Consistent i s m k c = record {
    valid =
        sync_blocks-IsValid u laws (tracked s.tracker i.flow_entries i.now_ns) i.now_ns
          (typed_on i s m).1 fresh;
    covers =
        sync_blocks-Covers u laws (tracked s.tracker i.flow_entries i.now_ns) i.now_ns
          (typed_on i s m).1 fresh k.1
          (tracked-Covers u laws s.tracker i.flow_entries i.now_ns (typed_on i s m).1 kept);
    recent_bound = c.recent_bound;
  }
    where
      fresh : IsValid (tracked s.tracker i.flow_entries i.now_ns)
      fresh = tracked-IsValid u laws s.tracker i.flow_entries i.now_ns c.valid

      kept : Covers u laws (typed_on i s m).1 s.tracker
      kept = record {
        blocked = λ ip h. found u laws (typed_on i s m).1 ip (
            handle_input-kept u laws inet_pton i.key i.typed s.firewall_rows s.app m (32, ip) k.0
              (c.covers.blocked ip h).0);
      }

  -- the same of a state as a pair
  abbrev Holds : State u inet_pton all_keys → Type 0
  Holds p = Consistent u laws p.0 p.1

  dispatch-Consistent :
      (ws : List Wakeup) (s : Screen) (m : u.Map)
      → WakeupsFit ws s m
      → Consistent u laws s m
      → Holds (dispatch u inet_pton all_keys ws (s, m)).1
  unfolding dispatch WakeupsFit
  dispatch-Consistent [] s m k c = c
  dispatch-Consistent (signal sig ∷ ws) s m ks c = elim (Bool-cases (ends sig)) [
    | inl e ↦ rw (dispatch, e) c
    | inr e ↦ rw (dispatch, e) (dispatch-Consistent ws s m ks c)
  ]
  dispatch-Consistent (samples es ∷ ws) s m ks c =
      dispatch-Consistent ws (on_events es s) m ks (on_events-Consistent u laws es s m c)
  dispatch-Consistent (tick i ∷ ws) s m (k, ks) c =
      dispatch-Consistent ws (on_tick u inet_pton all_keys i (s, m)).0
        (on_tick u inet_pton all_keys i (s, m)).1 ks (on_tick-Consistent i s m k c)

  branch :
      (b c : Bool) (x y z : Bool × State u inet_pton all_keys)
      → Holds x.1
      → Holds y.1
      → Holds z.1
      → Holds (if b then (if c then x else y) else z).1
  branch true true x y z h k l = h
  branch true false x y z h k l = k
  branch false c x y z h k l = l

  -- The loop keeps the state consistent.
  pub top_loop-Consistent :
      (ws : List Wait) (s : Screen) (m : u.Map)
      → WaitsFit ws s m
      → Consistent u laws s m
      → Consistent u laws
          (top_loop u inet_pton all_keys ws (s, m)).1.0
          (top_loop u inet_pton all_keys ws (s, m)).1.1
  unfolding top_loop WaitsFit
  top_loop-Consistent [] s m k c = c
  top_loop-Consistent (failed ∷ ws) s m k c = c
  top_loop-Consistent (interrupted ∷ ws) s m ks c =
      branch s.app.running false (true, (s, m)) (top_loop u inet_pton all_keys ws (s, m))
        (true, (s, m)) c (top_loop-Consistent ws s m ks c) c
  top_loop-Consistent (ready es ∷ ws) s m (k, ks) c =
      branch s.app.running (dispatch u inet_pton all_keys es (s, m)).0
        (true, (dispatch u inet_pton all_keys es (s, m)).1)
        (top_loop u inet_pton all_keys ws (dispatch u inet_pton all_keys es (s, m)).1)
        (true, (s, m)) (dispatch-Consistent es s m k c)
        (top_loop-Consistent ws (dispatch u inet_pton all_keys es (s, m)).1.0
          (dispatch u inet_pton all_keys es (s, m)).1.1 ks (dispatch-Consistent es s m k c))
        c
