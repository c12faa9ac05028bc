-- ===== src/Core/FlowSnapshot/Refresh.antt =====
-- What the tracker is given.
use k_watch.Prelude.{ℕ, true, ◌<◌, ◌≡◌, refl, none, some, List, map, length}
use k_watch.Bpf.Shared.{FlowKey, FlowStats}
use k_watch.Bpf.UserMap.{UserMap}
use k_watch.Bpf.UserMap.Scan.{Chain, entries, scan_loop-Chain}
use k_watch.Core.FlowSnapshot.{entry_of, refresh}

-- Where the kernel gives the keys `ks` one after another, from the first, and then ENOENT (2), a
-- fuel above their number is enough, refresh succeeds, and its entries are those of the keys whose
-- lookup succeeds, in this order.
pub refresh_lem :
    (u : UserMap FlowKey FlowStats) (fuel : ℕ) (m : u.Map) (ks : List FlowKey)
    → Chain u m none ks
    → length ks < fuel
    → refresh u fuel 2 m ≡ some (true, map entry_of (entries u m ks))
unfolding refresh
refresh_lem u fuel m ks c h = rw (refresh, scan_loop-Chain u fuel m none ks c h) refl
