-- ===== src/Cli/Top/Command.antt =====
-- src/cli/commands/top.cpp: the state that `cmd_top` starts its loop with, and the command.
use k_watch.Prelude.{ℕ, Option, List, [], String}
use k_watch.Prelude.Text.{Text}
use k_watch.Bpf.Host.{Host}
use k_watch.Bpf.UserMap.{UserMap}
use k_watch.Core.FlowTracker as FlowTracker
use k_watch.Core.PpsWindow as PpsWindow
use k_watch.Core.PpsWindow.{copy_snapshot}
use k_watch.Cli.Parser.{GlobalOptions}
use k_watch.Cli.Blacklist.{LpmKey}
use k_watch.Cli.Start.{Answers, Exit, start}
use k_watch.Cli.Top.{no_packets, add_counts}
use k_watch.Cli.Top.Threats.{refresh_threat_snapshot}
use k_watch.Cli.Top.Firewall.{firewall_rows_of}
use k_watch.Cli.Top.Loop.{Screen, Wait, top_loop}
use k_watch.Cli.Top.Loop.Consistent.{Consistent}
use k_watch.Tui.App as App
use k_watch.Tui.App.Render.{render_app}

-- The state ahead of the loop, by the entries of the packet counts, the keys of the blacklist and the
-- clock: everything is read and drawn once.
unfoldable pub initial : GlobalOptions → List (ℕ × ℕ) → List LpmKey → ℕ → Screen
unfolding add_counts refresh_threat_snapshot firewall_rows_of render_app
initial globals counts keys now_ns =
    let tracker =
      FlowTracker.new globals.syn_threshold globals.syn_window globals.auto_block
        globals.auto_block_ttl in
    let breakdown = add_counts counts no_packets in
    let (rows, metas) = firewall_rows_of keys [] now_ns breakdown.dropped in
    record {
      tracker = tracker;
      rates = record { last_pkt_total = 0; current_pps = 0; pps_win = PpsWindow.new 60 };
      pps_snapshot = copy_snapshot (PpsWindow.new 60);
      protocol_breakdown = breakdown;
      recent_events = [];
      event_drop_count = 0;
      threat_rows = refresh_threat_snapshot tracker;
      firewall_rows = rows;
      firewall_meta = metas;
      app = render_app rows App.new;
    }

module _ (u : UserMap LpmKey ℕ) (inet_pton : Text → Option ℕ) (all_keys : u.Map → List LpmKey) where
  -- the state behind what the loop has done so far
  abbrev pub session : List Wait → GlobalOptions → List (ℕ × ℕ) → ℕ → u.Map → Screen × u.Map
  session waits globals counts now_ns m =
      (top_loop u inet_pton all_keys waits (initial globals counts (all_keys m) now_ns, m)).1

  unfoldable pub cmd_top :
      (h : Host) (stat_line : ℕ → Option Text) (pid : ℕ) (strerror : ℕ → Text)
      (error_text : ℕ → String)
      → List Wait
      → List (ℕ × ℕ)
      → ℕ
      → u.Map
      → GlobalOptions
      → Answers
      → List Text
      → h.World
      → Option (Exit h stat_line pid strerror error_text)
  unfolding initial top_loop start
  cmd_top h stat_line pid strerror error_text waits counts now_ns m globals a args w =
      start h stat_line pid strerror error_text globals.syn_window
        (top_loop u inet_pton all_keys waits (initial globals counts (all_keys m) now_ns, m)).0
        globals a args w
