-- ===== src/Cli/Stats.antt =====
-- cli/commands/stats.cpp: `stats`, which prints the packet counters of an interface.
pub mod Tests
pub mod Rows
use k_watch.Prelude.{
  ℕ, zero, suc, Option, none, some, List, [], ◌∷◌, ◌++◌, map, Bool, ◌==◌, if◌then◌else◌, String,
}
use k_watch.Prelude.Text.{Text, codes}
use k_watch.Util.Numbers.{to_string}
use k_watch.Bpf.UserMap.{UserMap, scan_loop}
use k_watch.Cli.Blacklist.{Access, get_blacklist_fd}

unfoldable pub proto_name : ℕ → Text
proto_name key =
    if key == 1
    then codes "ICMP"
    else if key == 6
    then codes "TCP"
    else if key == 17
    then codes "UDP"
    else if key == 0xFFFF
    then codes "DROPPED"
    else codes "Other (" ++ to_string key ++ (b')' ∷ [])

-- two tabs stand between name and count
unfoldable pub row : ℕ × ℕ → Text
unfolding proto_name
row (key, value) = proto_name key ++ (9 ∷ 9 ∷ to_string value)

module _ (counts : UserMap ℕ ℕ) where
  abbrev pub rows : Option (List (ℕ × ℕ)) → Option (ℕ × List Text)
  rows none = none
  rows (some es) = some (0, map row es)

  -- The owner and the pinned map are looked at as in `get_blacklist_fd`. The iteration starts behind
  -- the key 0.
  unfoldable pub cmd_stats : ℕ → Access → List String → counts.Map → Option (ℕ × List Text)
  unfolding row
  cmd_stats fuel a [] m = some (64, [])
  cmd_stats fuel a (if_name ∷ []) m =
      if get_blacklist_fd a then rows (scan_loop counts fuel m (some 0)) else some (65, [])
  cmd_stats fuel a (if_name ∷ arg ∷ args) m = some (64, [])
