-- ===== src/Bpf/Skeleton/Tests.antt =====
-- A pin of `eth0` on the host of the tests.
use k_watch.Prelude.{ℕ, ◌≡◌, refl, ap, Option, some, List, [], ◌∷◌, true, false, arith, get_elem?}
use k_watch.Prelude.Text.{Text, codes, equal}
use k_watch.Util.Result.{ok, err, is_ok}
use k_watch.Util.Numbers.{scan, stoul}
use k_watch.Bpf.Host.{Node, file}
use k_watch.Bpf.Host.ListHost.{list_host, list_host-IsHost, lookup, remove, names}
use k_watch.Bpf.PinState.{
  Stat, read_owner_state, is_owner_alive, read_proc_stat, parse_stat_line, tokens, start_time,
  after_paren, split_word, field_loop, current_owner_state,
}
use k_watch.Bpf.PinState.OwnerFile.{fscanf_owner}
use k_watch.Bpf.Cleanup.{
  cleanup_stale_state, is_dot, pin_path_for_iface, owner_pid_path_for_iface, is_active, owner_at,
}
use k_watch.Bpf.Skeleton.{
  Skeleton, before_slash, parent_dir, only_dots, directory_is_empty, ensure_dir,
  ensure_owner_pid_parent, write_owner_line, write_owner_pid_file, prepare_dir, reclaim,
  pin_objects, pin,
}
use k_watch.Bpf.Skeleton.Owned.{Running, pin_iface, cleanup_stale_state-pin}
use k_watch.Bpf.Skeleton.Rollback.{pin-active}

abbrev eth0 : Text
eth0 = codes "eth0"

-- a sleeping process, started at 7
abbrev stat_line : ℕ → Option Text
stat_line pid = some (codes "12 (kwatch) S 0 0 0 0 0 0 0 0 0 0 0 0 0 0 0 0 0 0 7 0")

abbrev stat : Stat
stat = record { state = b'S'; start_time_ticks = 7 }

abbrev fresh : Skeleton
fresh = record { skel = some 3; pinned_path = []; owner_pid_path = [] }

this_process-Running : Running stat_line 12 stat
unfolding read_proc_stat parse_stat_line tokens start_time after_paren split_word field_loop scan
    stoul
this_process-Running = record {
  has_stat = refl;
  not_zombie = ground arith;
  pid_pos = ground arith;
  pid_bound = omega arith;
  start_pos = ground arith;
  start_bound = omega arith;
}

pinned-ok : (pin_iface list_host stat_line 12 eth0 fresh []).0 ≡ ok tt
unfolding pin pin_objects reclaim prepare_dir write_owner_pid_file write_owner_line ensure_dir
    ensure_owner_pid_parent parent_dir before_slash lookup remove names equal read_owner_state
    fscanf_owner scan current_owner_state read_proc_stat parse_stat_line tokens start_time
    after_paren split_word field_loop stoul is_owner_alive only_dots directory_is_empty is_dot
pinned-ok = refl

cleanup_stale_state-pin_example :
    cleanup_stale_state list_host stat_line eth0
      (pin_iface list_host stat_line 12 eth0 fresh []).1.1
    ≡ (err "active owner exists", (pin_iface list_host stat_line 12 eth0 fresh []).1.1)
cleanup_stale_state-pin_example =
    cleanup_stale_state-pin list_host list_host-IsHost stat_line 12 stat this_process-Running eth0
      fresh [] tt pinned-ok

abbrev owned_files : List (Text × Node)
owned_files = (owner_pid_path_for_iface eth0, file (codes "12 7\n")) ∷ []

abbrev other_path : Text
other_path = codes "/etc/hosts"

owned_files-active :
    is_active list_host stat_line
      (owner_at list_host stat_line owned_files (owner_pid_path_for_iface eth0))
    ≡ true
unfolding lookup equal read_owner_state fscanf_owner scan read_proc_stat parse_stat_line tokens
    start_time after_paren split_word field_loop stoul is_owner_alive
owned_files-active = refl

pin-active_example :
    (is_ok
        (pin list_host stat_line 12
          (pin_path_for_iface eth0)
          (owner_pid_path_for_iface eth0)
          fresh
          owned_files).0
      ≡ false)
    × ((pin list_host stat_line 12
          (pin_path_for_iface eth0)
          (owner_pid_path_for_iface eth0)
          fresh
          owned_files).1.0
        ≡ fresh)
    × (list_host.node
          (pin list_host stat_line 12
            (pin_path_for_iface eth0)
            (owner_pid_path_for_iface eth0)
            fresh
            owned_files).1.1
          other_path
        ≡ list_host.node owned_files other_path)
pin-active_example =
    pin-active list_host list_host-IsHost stat_line 12 (pin_path_for_iface eth0)
      (owner_pid_path_for_iface eth0) fresh owned_files other_path
      (λ e. ground (arith, ap (λ s. get_elem? s 1) e))
      (λ e. ground (arith, ap (λ s. get_elem? s 1) e)) owned_files-active
