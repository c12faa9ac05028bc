-- ===== src/Core/FlowSnapshot.antt =====
-- core/flow_snapshot.h: the copy of the kernel's flow table that the tracker is given.
pub mod Refresh
pub mod Tests
use k_watch.Prelude.{
  ℕ, Option, none, some, List, [], ◌∷◌, map, Bool, not, ◌&&◌, ◌==◌, if◌then◌else◌,
}
use k_watch.Bpf.Shared.{FlowKey, FlowStats}
use k_watch.Bpf.UserMap.{UserMap, scan_loop}
use k_watch.Core.FlowTracker.{FlowMapEntry}

abbrev pub entry_of : FlowKey × FlowStats → FlowMapEntry
entry_of (k, s) = record { key = k; stats = s }

module _ (flow_state : UserMap FlowKey FlowStats) where
  -- whether there is no error, and the entries: `errno` is its value behind the loop
  abbrev pub refreshed : ℕ → Option (List (FlowKey × FlowStats)) → Option (Bool × List FlowMapEntry)
  refreshed errno none = none
  refreshed errno (some es) = some (not (not (errno == 0) && not (errno == 2)), map entry_of es)

  -- The entries of an earlier call are cleared. `fuel` bounds the loop over the map.
  unfoldable pub refresh : ℕ → ℕ → flow_state.Map → Option (Bool × List FlowMapEntry)
  refresh fuel errno m = refreshed errno (scan_loop flow_state fuel m none)
