-- ===== src/Cli/Detach/Tests.antt =====
-- An owner that goes at the third look, and an interface with a program in SKB mode.
use k_watch.Prelude.{ℕ, ◌≡◌, refl, [], ◌∷◌, Bool, true, false, ltb, ◌==◌, if◌then◌else◌}
use k_watch.Util.Result.{ok}
use k_watch.Cli.Detach.{Host, cmd_detach}

abbrev until_third : ℕ → Bool
until_third i = ltb i 2

abbrev host : Host
host = record {
  if_index = 1;
  owner = ok (record { pid = 12; start_time_ticks = 7 });
  signals = record {
    alive_first = true;
    term = 0;
    alive_after_term = until_third;
    kill = 0;
    alive_after_kill = λ i. false;
  };
  cleanup = ok true;
  detach_xdp = λ flag. if flag == 2 then 0 else 2;
}

detach_run : cmd_detach host ("lo" ∷ []) ≡ 0
unfolding cmd_detach
detach_run = refl
