-- ===== src/Cli/Start.antt =====
-- How `cmd_run` (src/cli/commands/run.cpp) and `cmd_top` (src/cli/commands/top.cpp) start, and what they
-- give back; the loop between is a parameter. What the calls of the kernel and of libbpf answer is
-- input. Objects are destroyed where the function returns: the XDP link is closed, and the skeleton is
-- unpinned, if it is pinned, and destroyed. The dashboard's `init` always succeeds.
pub mod Release
use k_watch.Prelude.{
  ℕ, Option, none, some, List, [], ◌∷◌, ◌++◌, Bool, true, false, not, ◌||◌, ◌&&◌, ◌==◌,
  if◌then◌else◌, length, String,
}
use k_watch.Prelude.Text.{Text, codes}
use k_watch.Util.Result.{Result, ok, err}
use k_watch.Bpf.Shared.{Event}
use k_watch.Bpf.Host.{Host}
use k_watch.Bpf.Attach.{XdpAttach, new, LinkCreate, attach, detach}
use k_watch.Bpf.Cleanup.{pin_path_for_iface, owner_pid_path_for_iface}
use k_watch.Bpf.Skeleton.{Skeleton, pin, Pinned, unpin, destruct}
use k_watch.Bpf.Skeleton.Load.{Libbpf, open_and_load, Loaded}
use k_watch.Cli.Parser.{GlobalOptions}

-- What the calls answer: `if_nametoindex`, libbpf, `bpf_link_create`, and whether the signals, the
-- timer, the ring buffer and epoll are there.
pub record Answers : Type 0 where
  pub if_index : ℕ
  pub libbpf : Libbpf
  pub link_create : LinkCreate
  pub prog_ok : Bool
  pub signals_ok : Bool
  pub timer_ok : Bool
  pub ringbuf_ok : Bool
  pub epoll_ok : Bool

-- `EPERM` and `EACCES`
abbrev pub permission_status : ℕ → ℕ
permission_status e = if e == 1 || e == 13 then 77 else 69

module _ (h : Host) (stat_line : ℕ → Option Text) (pid : ℕ) (strerror : ℕ → Text)
    (error_text : ℕ → String) where
  -- the exit status, the host and the link where the command has returned
  abbrev pub Exit : Type 0
  Exit = ℕ × h.World × XdpAttach

  -- a return: the link is closed, then the skeleton is destroyed
  abbrev pub leave : ℕ → Skeleton × h.World → XdpAttach → Exit
  leave status p x = (status, (destruct h p).1, detach x)

  -- behind the attachment; `none` while the loop has not ended
  unfoldable pub start_attached :
      Answers → Bool → Text → Skeleton × h.World → Result String × ℕ × XdpAttach → Option Exit
  unfolding unpin destruct detach
  start_attached a ended pin_path p (err e, attach_err, x) =
      some (leave (permission_status attach_err) p x)
  start_attached a ended pin_path p (ok mode, attach_err, x) =
      if not (a.signals_ok) || (not (a.timer_ok) || (not (a.ringbuf_ok) || not (a.epoll_ok)))
      then some (leave 125 p x)
      else if ended
      then some (leave 0 (unpin h pin_path p) x)
      else none

  unfoldable pub start_pinned :
      GlobalOptions → Answers → Bool → Text → Pinned h stat_line pid → Option Exit
  unfolding attach start_attached
  start_pinned globals a ended pin_path (err e, p) = some (leave 69 p new)
  start_pinned globals a ended pin_path (ok u, p) =
      start_attached a ended pin_path p
        (attach error_text a.link_create a.prog_ok globals.xdp_mode new)

  -- the objects that a failed load has destroyed
  abbrev pub destroy_all : List ℕ → h.World → h.World
  destroy_all [] w = w
  destroy_all (k ∷ ks) w = destroy_all ks (h.destroy w k)

  abbrev pub start_loaded :
      GlobalOptions → Answers → Bool → Text → Result Skeleton → ℕ → List ℕ → h.World → Option Exit
  start_loaded globals a ended if_name (err e) load_err destroyed w =
      some (permission_status load_err, destroy_all destroyed w, new)
  start_loaded globals a ended if_name (ok s) load_err destroyed w =
      start_pinned globals a ended (pin_path_for_iface if_name)
        (pin h stat_line pid (pin_path_for_iface if_name) (owner_pid_path_for_iface if_name) s w)

  -- `syn_window` is what the program is loaded with, and `ended` tells whether the loop ends.
  unfoldable pub start : ℕ → Bool → GlobalOptions → Answers → List Text → h.World → Option Exit
  unfolding open_and_load pin start_pinned
  start syn_window ended globals a [] w = some (64, w, new)
  start syn_window ended globals a (if_name ∷ []) w =
      let l = open_and_load strerror globals.sample_n syn_window a.libbpf in
      if a.if_index == 0
      then some (65, w, new)
      else start_loaded globals a ended if_name l.result l.err_out l.destroyed w
  start syn_window ended globals a (if_name ∷ other ∷ args) w = some (64, w, new)
