-- ===== src/Cli/Blacklist/Listing.antt =====
-- What `list` prints.
use k_watch.Prelude.{
  ℕ, ◌<◌, ◌≡◌, refl, Option, none, some, List, [], ◌∷◌, map, true, length, String,
}
use k_watch.Prelude.Text.{Text}
use k_watch.Bpf.UserMap.{UserMap}
use k_watch.Bpf.UserMap.Scan.{Chain, entries, scan_loop-Chain}
use k_watch.Cli.Blacklist.{LpmKey, Access, get_blacklist_fd, line, cmd_list}

-- list on an interface whose owner is alive and whose map opens: where the kernel gives the keys
-- `ks` one after another, from the first, a fuel above their number is enough, the status is 0,
-- and a line with address and prefix length is printed for each key whose lookup succeeds, in this
-- order.
pub cmd_list_lem :
    (inet_ntop : ℕ → Option Text) (u : UserMap LpmKey ℕ) (fuel : ℕ) (a : Access) (if_name : String)
    (m : u.Map) (ks : List LpmKey)
    → get_blacklist_fd a ≡ true
    → Chain u m none ks
    → length ks < fuel
    → cmd_list inet_ntop u fuel a (if_name ∷ []) m
      ≡ some (0, map (line inet_ntop u) (entries u m ks))
unfolding cmd_list
cmd_list_lem ntop u fuel a if_name m ks e c h =
    rw (cmd_list, e, scan_loop-Chain u fuel m none ks c h) refl
