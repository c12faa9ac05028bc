-- ===== src/Cli/Top/Loop/Tests.antt =====
-- A flood that the dashboard blocks at its next tick, and the views of it.
use k_watch.Prelude.{
  length, ℕ, ◌≡◌, refl, Option, none, some, List, [], ◌∷◌, true, arith, find, at, elem,
}
use k_watch.Prelude.Text.{Text}
use k_watch.Bpf.UserMap.{UserMap}
use k_watch.Bpf.UserMap.LpmTrie.{same_prefix}
use k_watch.Bpf.UserMap.LpmTrie.LpmList.{lpm_list}
use k_watch.Core.FlowTracker.{FlowTracker, IpStats}
use k_watch.Core.FlowTracker as FlowTracker
use k_watch.Core.FlowTracker.Trace.{run}
use k_watch.Cli.Blacklist.{LpmKey}
use k_watch.Cli.Top.Threats.{
  Sorted, find_row, refresh_threat_snapshot, refresh_threat_snapshot-Sorted,
}
use k_watch.Cli.Top.Firewall.{
  no_meta, refresh_firewall_snapshot, refresh_firewall_snapshot_lem, rows_by, metas_after,
  refreshed_meta, ids,
}
use k_watch.Cli.Top.Loop.{TickInput, signal, tick, Wait, interrupted, ready}
use k_watch.Cli.Top.Loop.Consistent.{Consistent}
use k_watch.Tui.App.{key_down}

abbrev lists : UserMap LpmKey ℕ
lists = lpm_list

abbrev idle : FlowTracker
idle = run (FlowTracker.new 10 10 true 60) []

abbrev flood : IpStats
flood = record FlowTracker.no_stats { syn_count = 30; is_flagged = true }

abbrev flooded : FlowTracker
flooded = record idle { ip_stats = (5, flood) ∷ (6, FlowTracker.no_stats) ∷ [] }

refresh_threat_snapshot-Sorted_example :
    Sorted (refresh_threat_snapshot flooded)
    × (length (refresh_threat_snapshot flooded) ≡ 2)
    × ((find 5 flooded.ip_stats ≡ none → find_row 5 (refresh_threat_snapshot flooded) ≡ none)
        × ((s : IpStats)
            → find 5 flooded.ip_stats ≡ some s
            → find_row 5 (refresh_threat_snapshot flooded)
              ≡ some (record {
                ip = 5;
                syn_count = s.syn_count;
                ack_count = s.ack_count;
                ttl = s.last_ttl;
                flagged = s.is_flagged;
              })))
unfolding find
refresh_threat_snapshot-Sorted_example = refresh_threat_snapshot-Sorted flooded 5 (refl, (refl, tt))

abbrev listed : List (LpmKey × ℕ)
listed = ((32, 5), 1) ∷ ((24, 6), 1) ∷ []

abbrev keys : List LpmKey
keys = (32, 5) ∷ (24, 6) ∷ []

refresh_firewall_snapshot_lem_example :
    (refresh_firewall_snapshot lists 9 listed [] 7 100
      ≡ some (rows_by (metas_after keys [] 7 100) 7 100 keys, metas_after keys [] 7 100))
    × (at no_meta 5 (metas_after keys [] 7 100)
        ≡ refreshed_meta (elem 5 (ids keys)) (at no_meta 5 []) 7 100)
unfolding same_prefix
refresh_firewall_snapshot_lem_example =
    refresh_firewall_snapshot_lem lists 9 listed keys [] 7 100 5 (refl, (refl, refl)) (omega arith)

abbrev quiet : TickInput
quiet = record {
  key = key_down;
  typed = [];
  dropped_count = 0;
  kernel_drops = none;
  counts = [];
  now_ns = 1000;
  flow_entries = none;
}

abbrev waits : List Wait
waits = interrupted ∷ ready (tick quiet ∷ []) ∷ ready (signal 15 ∷ []) ∷ []

abbrev no_address : Text → Option ℕ
no_address t = none

abbrev no_keys : List (LpmKey × ℕ) → List LpmKey
no_keys m = []
