-- ===== src/Cli/Stats/Tests.antt =====
-- `stats` over lists of counters.
use k_watch.Prelude.{ℕ, ◌≡◌, refl, some, [], ◌∷◌, map, true, arith, ◌==◌}
use k_watch.Util.Result.{ok}
use k_watch.Bpf.UserMap.{UserMap}
use k_watch.Bpf.UserMap.Scan.{entries}
use k_watch.Bpf.UserMap.ListMap.{list_map}
use k_watch.Cli.Blacklist.{Access, get_blacklist_fd}
use k_watch.Cli.Stats.{row, cmd_stats}
use k_watch.Cli.Stats.Rows.{cmd_stats-zero}

abbrev owned : Access
owned = record {
  owner = ok (record { pid = 12; start_time_ticks = 7 });
  is_alive = λ o. true;
  opened = true;
}

abbrev numbers : UserMap ℕ ℕ
numbers = list_map (λ a b. a == b)

cmd_stats-zero_example :
    cmd_stats numbers 3 owned ("lo" ∷ []) ((6, 40) ∷ (0, 1) ∷ (17, 2) ∷ [])
    ≡ some (0, map row (entries numbers ((6, 40) ∷ (0, 1) ∷ (17, 2) ∷ []) (17 ∷ [])))
unfolding get_blacklist_fd
cmd_stats-zero_example =
    cmd_stats-zero numbers 3 owned "lo" ((6, 40) ∷ (0, 1) ∷ (17, 2) ∷ []) (6 ∷ []) (17 ∷ []) refl
      (refl, (refl, (refl, refl))) (omega arith)
