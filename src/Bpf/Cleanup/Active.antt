-- ===== src/Bpf/Cleanup/Active.antt =====
-- `cleanup_stale_state` where the interface has an owner that is alive.
use k_watch.Prelude.{ℕ, ◌≡◌, refl, Option, true}
use k_watch.Prelude.Text.{Text}
use k_watch.Util.Result.{err}
use k_watch.Bpf.Host.{Host}
use k_watch.Bpf.Cleanup.{cleanup_stale_state, is_active, owner_at, owner_pid_path_for_iface}

module _ (h : Host) (stat_line : ℕ → Option Text) where
  pub cleanup_stale_state-active :
      (if_name : Text) (w : h.World)
      → is_active h stat_line (owner_at h stat_line w (owner_pid_path_for_iface if_name)) ≡ true
      → cleanup_stale_state h stat_line if_name w ≡ (err "active owner exists", w)
  unfolding cleanup_stale_state
  cleanup_stale_state-active if_name w a = rw (cleanup_stale_state, a) refl
