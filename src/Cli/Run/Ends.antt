-- ===== src/Cli/Run/Ends.antt =====
-- That a signal ends `cmd_run`.
use k_watch.Prelude.{
  ℕ, ◌≡◌, ◌≢◌, refl, ap, ap₂, ◌∙◌, Option, some, List, [], ◌∷◌, Bool, true, false, ◌||◌, ◌&&◌, ◌==◌,
  String, arith,
}
use k_watch.Prelude.Text.{Text}
use k_watch.Util.Result.{ok}
use k_watch.Bpf.Host.{Host}
use k_watch.Bpf.Attach.{XdpAttach, new, attach, detach}
use k_watch.Bpf.Cleanup.{pin_path_for_iface, owner_pid_path_for_iface}
use k_watch.Bpf.Skeleton.{Skeleton, pin, unpin}
use k_watch.Bpf.Skeleton.Load.{open_and_load}
use k_watch.Cli.Parser.{GlobalOptions}
use k_watch.Cli.Start.{Answers, start_attached, leave}
use k_watch.Cli.Start.Release.{
  pinned_skeleton, fresh_skeleton, released, unpin-released, start-attached,
}
use k_watch.Cli.Run.{
  Ready, signal, samples, tick, Wait, interrupted, failed, ready, dispatch, run_loop, cmd_run,
  default_syn_window_seconds,
}

-- SIGINT or SIGTERM among what is ready
unfoldable pub has_end : List Ready → Bool
has_end [] = false
has_end (signal sig ∷ ws) = (sig == 2 || sig == 15) || has_end ws
has_end (samples es ∷ ws) = has_end ws
has_end (tick ∷ ws) = has_end ws

-- some `epoll_wait` fails or reports such a signal
unfoldable pub any_last : List Wait → Bool
unfolding has_end
any_last [] = false
any_last (interrupted ∷ ws) = any_last ws
any_last (failed ∷ ws) = true
any_last (ready es ∷ ws) = has_end es || any_last ws

dispatch-has_end : (ws : List Ready) → (dispatch ws).0 ≡ has_end ws
unfolding dispatch has_end
dispatch-has_end [] = refl
dispatch-has_end (signal sig ∷ ws) = ground (arith, dispatch-has_end ws)
dispatch-has_end (samples es ∷ ws) = dispatch-has_end ws
dispatch-has_end (tick ∷ ws) = dispatch-has_end ws

run_loop-any_last : (ws : List Wait) → (run_loop ws).0 ≡ any_last ws
unfolding run_loop any_last
run_loop-any_last [] = refl
run_loop-any_last (interrupted ∷ ws) = run_loop-any_last ws
run_loop-any_last (failed ∷ ws) = refl
run_loop-any_last (ready es ∷ ws) = ground (arith, dispatch-has_end es, run_loop-any_last ws)

-- The signals, the timer, the ring buffer and epoll are there.
abbrev pub all_ok : Answers → Bool
all_ok a = a.signals_ok && (a.timer_ok && (a.ringbuf_ok && a.epoll_ok))

module _ (h : Host) (stat_line : ℕ → Option Text) (pid : ℕ) (strerror : ℕ → Text)
    (error_text : ℕ → String) where
  start_attached-ends :
      (a : Answers) (if_name : Text) (name : String) (x : XdpAttach) (n : ℕ)
      (p : Skeleton × h.World)
      → all_ok a ≡ true
      → start_attached h stat_line pid strerror error_text a true
          (pin_path_for_iface if_name)
          p
          (ok name, n, x)
        ≡ some
            (leave h stat_line pid strerror error_text 0 (unpin h (pin_path_for_iface if_name) p) x)
  unfolding start_attached
  start_attached-ends a if_name name x n p ok_all = ground (arith, ok_all)

  -- A run with one argument that has loaded, pinned and attached the program, and whose signals,
  -- timer, ring buffer and epoll are there: once epoll_wait fails for another reason than a signal
  -- handler or reports SIGINT or SIGTERM, it ends with status 0, everything released and the link
  -- closed.
  pub cmd_run-ends :
      (waits : List Wait) (globals : GlobalOptions) (a : Answers) (if_name : Text) (w wp : h.World)
      (k n : ℕ) (mode : String) (x : XdpAttach)
      → a.if_index ≢ 0
      → (open_and_load strerror globals.sample_n default_syn_window_seconds a.libbpf).result
        ≡ ok (fresh_skeleton k)
      → pin h stat_line pid
          (pin_path_for_iface if_name)
          (owner_pid_path_for_iface if_name)
          (fresh_skeleton k)
          w
        ≡ (ok tt, (pinned_skeleton k if_name, wp))
      → attach error_text a.link_create a.prog_ok globals.xdp_mode new ≡ (ok mode, n, x)
      → all_ok a ≡ true
      → any_last waits ≡ true
      → cmd_run h stat_line pid strerror error_text waits globals a (if_name ∷ []) w
        ≡ some (0, released h k if_name wp, detach x)
  unfolding cmd_run
  cmd_run-ends waits globals a if_name w wp k n mode x ne loaded pinned attached ok_all ended =
      start-attached h stat_line pid strerror error_text default_syn_window_seconds
        (run_loop waits).0 globals a if_name w wp k ne loaded pinned
      ∙ ap₂
          (λ b r.
            start_attached h stat_line pid strerror error_text a b (pin_path_for_iface if_name)
              (pinned_skeleton k if_name, wp) r)
          (run_loop-any_last waits ∙ ended) attached
      ∙ start_attached-ends a if_name mode x n (pinned_skeleton k if_name, wp) ok_all
      ∙ ap (λ v. some (0, v, detach x)) (unpin-released h k if_name wp)
