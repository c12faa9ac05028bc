-- ===== src/Bpf/Cleanup/Tests.antt =====
-- What a dead process left of the interface `eth0` on the host of the tests, and its removal.
use k_watch.Prelude.{ℕ, ◌≡◌, refl, ap, Option, none, List, [], ◌∷◌, arith, get_elem?, true}
use k_watch.Prelude.Text.{Text, codes, equal}
use k_watch.Util.Result.{ok}
use k_watch.Util.Numbers.{scan}
use k_watch.Bpf.Host.{Node, directory, file, pinned_map, entry_path}
use k_watch.Bpf.Host.ListHost.{list_host, list_host-IsHost, lookup, remove, names}
use k_watch.Bpf.PinState.{read_owner_state, is_owner_alive, read_proc_stat}
use k_watch.Bpf.PinState.OwnerFile.{fscanf_owner}
use k_watch.Bpf.Cleanup.{
  cleanup_stale_state, unlink_entries, remove_dir_entries, remove_dir, clean_dir, clean_pin,
  clean_owner, is_dot, pin_path_for_iface, owner_state_dir_for_iface, owner_pid_path_for_iface,
}
use k_watch.Bpf.Cleanup.Frame.{Foreign, cleanup_stale_state-frame}
use k_watch.Bpf.Cleanup.Clears.{Cleared, cleanup_stale_state-Clears}

abbrev eth0 : Text
eth0 = codes "eth0"

abbrev no_process : ℕ → Option Text
no_process pid = none

abbrev left : List (Text × Node)
left =
    (owner_pid_path_for_iface eth0, file (codes "9 7\n"))
    ∷ (owner_state_dir_for_iface eth0, directory)
    ∷ (pin_path_for_iface eth0, directory)
    ∷ (entry_path (pin_path_for_iface eth0) (codes "flow_map"), pinned_map)
    ∷ (entry_path (pin_path_for_iface (codes "lo")) (codes "flow_map"), pinned_map)
    ∷ []

left-cleaned : (cleanup_stale_state list_host no_process eth0 left).0 ≡ ok true
unfolding cleanup_stale_state unlink_entries remove_dir_entries remove_dir clean_dir clean_pin
    clean_owner is_dot lookup remove names equal read_owner_state is_owner_alive read_proc_stat
    fscanf_owner scan
left-cleaned = refl

cleanup_stale_state-Clears_example :
    Cleared list_host eth0 (cleanup_stale_state list_host no_process eth0 left).1
cleanup_stale_state-Clears_example =
    cleanup_stale_state-Clears list_host no_process eth0 left true list_host-IsHost left-cleaned

abbrev other_map : Text
other_map = entry_path (pin_path_for_iface (codes "lo")) (codes "flow_map")

other_map-Foreign : Foreign eth0 other_map
other_map-Foreign = record {
  not_owner_file = λ e. ground (arith, ap (λ s. get_elem? s 1) e);
  not_owner_dir = λ e. ground (arith, ap (λ s. get_elem? s 1) e);
  not_pin_dir = λ e. ground (arith, ap (λ s. get_elem? s 19) e);
  not_pin_entry = record { not_entry = λ name e. ground (arith, ap (λ s. get_elem? s 19) e) };
}

cleanup_stale_state-frame_example :
    list_host.node (cleanup_stale_state list_host no_process eth0 left).1 other_map
    ≡ list_host.node left other_map
cleanup_stale_state-frame_example =
    cleanup_stale_state-frame list_host list_host-IsHost no_process eth0 left other_map
      other_map-Foreign
