-- ===== src/Cli/Stats/Rows.antt =====
-- Which counters `stats` prints.
use k_watch.Prelude.{
  ℕ, ◌<◌, ◌≡◌, refl, ◌∙◌, Option, none, some, List, [], ◌∷◌, ◌++◌, map, true, length, String,
}
use k_watch.Bpf.UserMap.{UserMap}
use k_watch.Bpf.UserMap.Scan.{Chain, entries, scan_loop-Chain}
use k_watch.Cli.Blacklist.{Access, get_blacklist_fd}
use k_watch.Cli.Stats.{row, cmd_stats}

module _ (u : UserMap ℕ ℕ) where
  Chain-behind :
      (m : u.Map) (prev : Option ℕ) (before after : List ℕ) (k : ℕ)
      → Chain u m prev (before ++ (k ∷ after))
      → Chain u m (some k) after
  Chain-behind m prev [] after k (e, c) = c
  Chain-behind m prev (j ∷ before) after k (e, c) = Chain-behind m (some j) before after k c

  Chain-first :
      (m : u.Map) (prev : Option ℕ) (ks : List ℕ)
      → u.next_key m prev ≡ u.next_key m none
      → Chain u m none ks
      → Chain u m prev ks
  Chain-first m prev [] e c = e ∙ c
  Chain-first m prev (k ∷ ks) e (h, c) = (e ∙ h, c)

  cmd_stats-Chain :
      (fuel : ℕ) (a : Access) (if_name : String) (m : u.Map) (ks : List ℕ)
      → get_blacklist_fd a ≡ true
      → Chain u m (some 0) ks
      → length ks < fuel
      → cmd_stats u fuel a (if_name ∷ []) m ≡ some (0, map row (entries u m ks))
  unfolding cmd_stats
  cmd_stats-Chain fuel a if_name m ks e c h =
      rw (cmd_stats, e, scan_loop-Chain u fuel m (some 0) ks c h) refl

  -- Where the key 0 is not in the map, so that the kernel starts again from the first key, stats
  -- prints a row for every counter: the kernel gives the keys `ks`, a fuel above their number is
  -- enough, and the status is 0. The owner is alive and the map opens.
  pub cmd_stats-all :
      (fuel : ℕ) (a : Access) (if_name : String) (m : u.Map) (ks : List ℕ)
      → get_blacklist_fd a ≡ true
      → u.next_key m (some 0) ≡ u.next_key m none
      → Chain u m none ks
      → length ks < fuel
      → cmd_stats u fuel a (if_name ∷ []) m ≡ some (0, map row (entries u m ks))
  cmd_stats-all fuel a if_name m ks e first c h =
      cmd_stats-Chain fuel a if_name m ks e (Chain-first m (some 0) ks first c) h

  -- Where the key 0 is in the map, stats prints only the counters that the kernel gives behind it:
  -- the row of the key 0 and the rows of the keys before it are left out. The owner is alive, the
  -- map opens, and the fuel is above the number of the keys behind.
  pub cmd_stats-zero :
      (fuel : ℕ) (a : Access) (if_name : String) (m : u.Map) (before after : List ℕ)
      → get_blacklist_fd a ≡ true
      → Chain u m none (before ++ (0 ∷ after))
      → length after < fuel
      → cmd_stats u fuel a (if_name ∷ []) m ≡ some (0, map row (entries u m after))
  cmd_stats-zero fuel a if_name m before after e c h =
      cmd_stats-Chain fuel a if_name m after e (Chain-behind m none before after 0 c) h
