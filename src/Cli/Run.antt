-- ===== src/Cli/Run.antt =====
-- src/cli/commands/run.cpp: the loop of `cmd_run` over what `epoll_wait` reports, and the command.
pub mod Ends
mod Tests
use k_watch.Prelude.{
  ℕ, Option, none, some, List, [], ◌∷◌, ◌++◌, Bool, true, false, not, ◌||◌, ◌&&◌, ◌==◌,
  if◌then◌else◌, length, String,
}
use k_watch.Prelude.Text.{Text, codes}
use k_watch.Util.Result.{Result, ok, err}
use k_watch.Bpf.Shared.{Event}
use k_watch.Bpf.Host.{Host}
use k_watch.Bpf.Attach.{XdpAttach, new, LinkCreate, attach, detach}
use k_watch.Bpf.Cleanup.{pin_path_for_iface, owner_pid_path_for_iface}
use k_watch.Bpf.Skeleton.{Skeleton, pin, Pinned, unpin, destruct}
use k_watch.Bpf.Skeleton.Load.{Libbpf, open_and_load, Loaded}
use k_watch.Cli.Parser.{GlobalOptions}
use k_watch.Cli.Start.{Answers, Exit, start}

-- `kDefaultSynWindowSeconds`
abbrev pub default_syn_window_seconds : ℕ
default_syn_window_seconds = 10

pub data Ready : Type 0 where
  signal : ℕ → Ready
  samples : List Event → Ready
  tick : Ready

pub data Wait : Type 0 where
  interrupted failed : Wait
  ready : List Ready → Wait

-- the loop over what is ready: whether SIGINT or SIGTERM has ended it, and the events printed
unfoldable pub dispatch : List Ready → Bool × List Event
dispatch [] = (false, [])
dispatch (signal sig ∷ ws) =
    let rest = dispatch ws in if sig == 2 || sig == 15 then (true, []) else rest
dispatch (samples es ∷ ws) = let (stop, out) = dispatch ws in (stop, es ++ out)
dispatch (tick ∷ ws) = dispatch ws

-- `while (running)`, over what each `epoll_wait` returns: whether the loop has ended, and the events
-- printed
unfoldable pub run_loop : List Wait → Bool × List Event
unfolding dispatch
run_loop [] = (false, [])
run_loop (interrupted ∷ ws) = run_loop ws
run_loop (failed ∷ ws) = (true, [])
run_loop (ready es ∷ ws) =
    let (stop, out) = dispatch es in
    let (ended, more) = run_loop ws in if stop then (true, out) else (ended, out ++ more)

-- `waits` are what each `epoll_wait` returns.
module _ (h : Host) (stat_line : ℕ → Option Text) (pid : ℕ) (strerror : ℕ → Text)
    (error_text : ℕ → String) where
  unfoldable pub cmd_run :
      List Wait
      → GlobalOptions
      → Answers
      → List Text
      → h.World
      → Option (Exit h stat_line pid strerror error_text)
  unfolding run_loop start
  cmd_run waits globals a args w =
      start h stat_line pid strerror error_text default_syn_window_seconds (run_loop waits).0
        globals a args w
