-- ===== src/Util/UniqueFd/Tests.antt =====
-- An object that is reset, moved and destroyed.
use k_watch.Prelude.{some, [], ◌∷◌}
use k_watch.Util.UniqueFd.{constructs, resets, destroys, moves, run}
use k_watch.Util.UniqueFd.Owned.{Accounted, no_descriptors, run-Accounted}

run-Accounted_example :
    Accounted
      (run (constructs (some 3) ∷ resets 0 (some 4) ∷ moves 0 ∷ destroys 1 ∷ []) no_descriptors)
run-Accounted_example =
    run-Accounted (constructs (some 3) ∷ resets 0 (some 4) ∷ moves 0 ∷ destroys 1 ∷ [])
