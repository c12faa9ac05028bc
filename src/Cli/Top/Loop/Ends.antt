-- ===== src/Cli/Top/Loop/Ends.antt =====
-- When the loop of the dashboard ends.
use k_watch.Prelude.{ℕ, ◌≡◌, refl, Option, List, [], ◌∷◌, Bool, true, false, ◌||◌, arith}
use k_watch.Prelude.Text.{Text}
use k_watch.Bpf.UserMap.{UserMap}
use k_watch.Cli.Blacklist.{LpmKey}
use k_watch.Cli.Top.Loop.{
  State, Wakeup, signal, samples, tick, Wait, interrupted, failed, ready, ends, on_events, on_tick,
  dispatch, top_loop,
}

-- a wait that ends the loop: an error, or a batch with a signal that does
unfoldable pub has_end : List Wakeup → Bool
unfolding ends
has_end [] = false
has_end (signal sig ∷ ws) = ends sig || has_end ws
has_end (samples es ∷ ws) = has_end ws
has_end (tick i ∷ ws) = has_end ws

unfoldable pub is_last : Wait → Bool
unfolding has_end
is_last interrupted = false
is_last failed = true
is_last (ready ws) = has_end ws

unfoldable pub any_last : List Wait → Bool
unfolding is_last
any_last [] = false
any_last (w ∷ ws) = is_last w || any_last ws

module _ (u : UserMap LpmKey ℕ) (inet_pton : Text → Option ℕ) (all_keys : u.Map → List LpmKey) where
  dispatch-has_end :
      (ws : List Wakeup) (p : State u inet_pton all_keys)
      → (dispatch u inet_pton all_keys ws p).0 ≡ has_end ws
  unfolding dispatch has_end
  dispatch-has_end [] p = refl
  dispatch-has_end (signal sig ∷ ws) p = ground (arith, dispatch-has_end ws p)
  dispatch-has_end (samples es ∷ ws) (s, m) = dispatch-has_end ws (on_events es s, m)
  dispatch-has_end (tick i ∷ ws) (s, m) =
      dispatch-has_end ws (on_tick u inet_pton all_keys i (s, m))

  pub top_loop-any_last :
      (ws : List Wait) (p : State u inet_pton all_keys)
      → any_last ws ≡ true
      → (top_loop u inet_pton all_keys ws p).0 ≡ true
  unfolding top_loop any_last is_last
  top_loop-any_last [] (s, m) h = cc
  top_loop-any_last (failed ∷ ws) (s, m) h = refl
  top_loop-any_last (interrupted ∷ ws) (s, m) h = ground (arith, h, top_loop-any_last ws (s, m))
  top_loop-any_last (ready es ∷ ws) (s, m) h = ground (
    arith,
    h,
    dispatch-has_end es (s, m),
    top_loop-any_last ws (dispatch u inet_pton all_keys es (s, m)).1,
  )
