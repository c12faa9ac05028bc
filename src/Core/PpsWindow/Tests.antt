-- ===== src/Core/PpsWindow/Tests.antt =====
-- core/pps_window.cpp on the inputs of tests/unit/pps_window_test.cpp, and the theorems at them.
use k_watch.Prelude.{◌≡◌, refl, [], ◌∷◌, arith}
use k_watch.Core.PpsWindow.{PpsWindow, new, push, copy_loop, copy_snapshot, get_snapshot}
use k_watch.Core.PpsWindow.{sum_loop, current_average}
use k_watch.Core.PpsWindow.Snapshot.{IsValid, push_all, copy_snapshot-push_all}

-- 40 has overwritten 10
abbrev wrapped : PpsWindow
wrapped = record { window = 40 ∷ 20 ∷ 30 ∷ []; head = 1; count = 3 }

push_three : push_all (new 3) (10 ∷ 20 ∷ 30 ∷ 40 ∷ []) ≡ wrapped
unfolding push_all new push
push_three = refl

wrapped_snapshot : get_snapshot wrapped ≡ 20 ∷ 30 ∷ 40 ∷ []
unfolding get_snapshot copy_loop
wrapped_snapshot = refl

wrapped_average : current_average wrapped ≡ 30
unfolding current_average sum_loop
wrapped_average = refl

wrapped-IsValid : IsValid wrapped
wrapped-IsValid = omega arith

copy_snapshot-push_all_example :
    copy_snapshot (push_all (new 3) (10 ∷ 20 ∷ 30 ∷ 40 ∷ [])) ≡ 20 ∷ 30 ∷ 40 ∷ []
copy_snapshot-push_all_example = copy_snapshot-push_all 3 (10 ∷ 20 ∷ 30 ∷ 40 ∷ []) (omega arith)
