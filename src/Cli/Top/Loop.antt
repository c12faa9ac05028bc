-- ===== src/Cli/Top/Loop.antt =====
-- src/cli/commands/top.cpp: the loop of `cmd_top` over what `epoll_wait` reports. The keys, the clock,
-- the signals, the samples and the contents of the kernel's maps are input; `all_keys` are the keys
-- that the loop over the blacklist reads (Cli.Top.Firewall).
pub mod Recent
pub mod Kept
pub mod Consistent
pub mod Ends
pub mod Tests
use k_watch.Prelude.{
  ℕ, suc, ◌+◌, Option, none, some, List, [], ◌∷◌, ◌++◌, Bool, true, false, not, ◌||◌, leb, ◌==◌,
  if◌then◌else◌, length, drop, Assoc, u64,
}
use k_watch.Prelude.Text.{Text}
use k_watch.Bpf.Shared.{Event}
use k_watch.Bpf.UserMap.{UserMap}
use k_watch.Core.FlowTracker.{FlowMapEntry, FlowTracker, process_event, process_flow_snapshot}
use k_watch.Core.PpsWindow.{copy_snapshot}
use k_watch.Cli.Blacklist.{LpmKey}
use k_watch.Cli.Top.{
  ProtocolBreakdown, no_packets, add_counts, current_total, Rates, update_rates, sync_blocks,
}
use k_watch.Cli.Top.Threats.{refresh_threat_snapshot}
use k_watch.Cli.Top.Firewall.{FirewallMeta, firewall_rows_of}
use k_watch.Tui.App.{App, ThreatRow, FirewallRow, Key, handle_input}
use k_watch.Tui.App.Render.{render_app}

-- the variables of `cmd_top` that the loop changes, without the blacklist
pub record Screen : Type 0 where
  pub tracker : FlowTracker
  pub rates : Rates
  pub pps_snapshot : List ℕ
  pub protocol_breakdown : ProtocolBreakdown
  pub recent_events : List Event
  pub event_drop_count : ℕ
  pub threat_rows : List ThreatRow
  pub firewall_rows : List FirewallRow
  pub firewall_meta : Assoc FirewallMeta
  pub app : App

-- What a tick reads: a key and the text at its prompt, the ring buffer's `dropped_count`, the
-- kernel's drops, the entries of the packet counts, the clock, and the flow table, if it was read
-- without an error.
pub record TickInput : Type 0 where
  pub key : Key
  pub typed : Text
  pub dropped_count : ℕ
  pub kernel_drops : Option ℕ
  pub counts : List (ℕ × ℕ)
  pub now_ns : ℕ
  pub flow_entries : Option (List FlowMapEntry)

pub data Wakeup : Type 0 where
  signal : ℕ → Wakeup
  samples : List Event → Wakeup
  tick : TickInput → Wakeup

-- what `epoll_wait` returns: EINTR, another error, or what is ready
pub data Wait : Type 0 where
  interrupted failed : Wait
  ready : List Wakeup → Wait

-- the callback of the ring buffer, on `recent_events`
unfoldable pub push_recent : List Event → Event → List Event
push_recent recent e = (if length recent == 50 then drop 1 recent else recent) ++ (e ∷ [])

unfoldable pub on_event : Event → Screen → Screen
unfolding push_recent
on_event e s = record s {
  tracker = process_event s.tracker e;
  recent_events = push_recent s.recent_events e;
}

unfoldable pub on_events : List Event → Screen → Screen
unfolding on_event
on_events [] s = s
on_events (e ∷ es) s = on_events es (on_event e s)

abbrev pub drops : ℕ → Option ℕ → ℕ
drops n none = n
drops n (some k) = u64 (n + k)

abbrev pub tracked : FlowTracker → Option (List FlowMapEntry) → ℕ → FlowTracker
tracked t none now_ns = t
tracked t (some es) now_ns = process_flow_snapshot t es now_ns

-- SIGINT and SIGTERM, and SIGSEGV, SIGABRT, SIGILL and SIGFPE
unfoldable pub ends : ℕ → Bool
ends sig = sig == 2 || sig == 15 || (sig == 11 || (sig == 6 || (sig == 4 || sig == 8)))

module _ (u : UserMap LpmKey ℕ) (inet_pton : Text → Option ℕ) (all_keys : u.Map → List LpmKey) where
  abbrev pub State : Type 0
  State = Screen × u.Map

  -- what is drawn, by the tracker, the blacklist and the packet counts of the tick
  unfoldable pub redraw : ℕ → ProtocolBreakdown → FlowTracker → u.Map → Screen → Screen
  unfolding firewall_rows_of
  redraw now_ns breakdown tracker m s =
      let (rows, metas) = firewall_rows_of (all_keys m) s.firewall_meta now_ns breakdown.dropped in
      record s {
        tracker = tracker;
        pps_snapshot = copy_snapshot s.rates.pps_win;
        protocol_breakdown = breakdown;
        threat_rows = refresh_threat_snapshot tracker;
        firewall_rows = rows;
        firewall_meta = metas;
        app = render_app rows s.app;
      }

  unfoldable pub on_tick : TickInput → State → State
  unfolding add_counts redraw
  on_tick i (s, m) =
      let (app, m1) = handle_input u inet_pton i.key i.typed s.firewall_rows s.app m in
      let breakdown = add_counts i.counts no_packets in
      let rates = update_rates s.rates (current_total breakdown) in
      let (tracker, m2) = sync_blocks u (tracked s.tracker i.flow_entries i.now_ns) i.now_ns m1 in
      let s1 = record s {
        app = app;
        event_drop_count = drops i.dropped_count i.kernel_drops;
        rates = rates;
      } in
      (redraw i.now_ns breakdown tracker m2 s1, m2)

  -- the loop over what is ready, and whether a signal has ended it
  unfoldable pub dispatch : List Wakeup → State → Bool × State
  unfolding on_events on_tick ends
  dispatch [] (s, m) = (false, (s, m))
  dispatch (signal sig ∷ ws) (s, m) =
      let rest = dispatch ws (s, m) in if ends sig then (true, (s, m)) else rest
  dispatch (samples es ∷ ws) (s, m) = dispatch ws (on_events es s, m)
  dispatch (tick i ∷ ws) (s, m) = dispatch ws (on_tick i (s, m))

  -- `while (running && app.is_running())`, over what each `epoll_wait` returns; whether the loop has
  -- ended, and the state. The loop that has not ended waits on.
  unfoldable pub top_loop : List Wait → State → Bool × State
  unfolding dispatch
  top_loop [] (s, m) = (not s.app.running, (s, m))
  top_loop (interrupted ∷ ws) (s, m) =
      let rest = top_loop ws (s, m) in if s.app.running then rest else (true, (s, m))
  top_loop (failed ∷ ws) (s, m) = (true, (s, m))
  top_loop (ready es ∷ ws) (s, m) =
      let (stop, (s', m')) = dispatch es (s, m) in
      let rest = top_loop ws (s', m') in
      if s.app.running then (if stop then (true, (s', m')) else rest) else (true, (s, m))
