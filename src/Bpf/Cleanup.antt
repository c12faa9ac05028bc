-- ===== src/Bpf/Cleanup.antt =====
-- src/bpf/pin_state.cpp: the paths of an interface, and the removal of what a process that died has
-- left of them. The calls on the file system and the lines of `/proc/<pid>/stat` are parameters.
pub mod Active
pub mod Frame
pub mod Clears
pub mod Tests
use k_watch.Prelude.{
  ℕ, Option, none, some, List, [], ◌∷◌, ◌++◌, Bool, true, false, not, ◌&&◌, ◌||◌, ◌==◌,
  if◌then◌else◌, ◌⊎◌, inl, inr,
}
use k_watch.Prelude.Text.{Text, codes, equal}
use k_watch.Util.Result.{Result, ok, err}
use k_watch.Bpf.Host.{Host, Call, entry_path, enoent, enotempty}
use k_watch.Bpf.PinState.{OwnerState, read_owner_state, is_owner_alive}
use k_watch.Bpf.PinState.OwnerFile.{scan_file}

abbrev pub pin_path_for_iface : Text → Text
pin_path_for_iface if_name = codes "/sys/fs/bpf/kwatch_" ++ if_name

abbrev pub owner_state_dir_for_iface : Text → Text
owner_state_dir_for_iface if_name = codes "/run/kwatch/" ++ if_name

abbrev pub owner_pid_path_for_iface : Text → Text
owner_pid_path_for_iface if_name = owner_state_dir_for_iface if_name ++ codes "/owner.pid"

-- `strcmp(entry->d_name, ".") == 0 || strcmp(entry->d_name, "..") == 0`
unfoldable pub is_dot : Text → Bool
is_dot name = equal name (codes ".") || equal name (codes "..")

module _ (h : Host) where
  -- a step that went on, with whether it changed something, or that returned
  abbrev pub Step : Type 0
  Step = Result Bool × h.World

  -- the `readdir` loop, with the names left
  unfoldable pub unlink_entries : Text → List Text → h.World → Result (Unit {0}) × h.World
  unfolding is_dot
  unlink_entries dir_path [] w = (ok tt, w)
  unlink_entries dir_path (name ∷ names) w =
      let skipped = unlink_entries dir_path names w in
      let (e, w') = h.unlink w (entry_path dir_path name) in
      let gone = unlink_entries dir_path names w' in
      if is_dot name
      then skipped
      else if not (e == 0) && not (e == enoent)
      then (err "unlink entry failed", w')
      else gone

  abbrev pub remove_listed : Text → h.World → List Text ⊎ ℕ → Result (Unit {0}) × h.World
  remove_listed dir_path w (inr e) = if e == enoent then (ok tt, w) else (err "open dir failed", w)
  remove_listed dir_path w (inl names) = unlink_entries dir_path names w

  unfoldable pub remove_dir_entries : Text → h.World → Result (Unit {0}) × h.World
  unfolding unlink_entries
  remove_dir_entries dir_path w = remove_listed dir_path w (h.read_dir w dir_path)

  -- `if (rmdir(path) == 0) changed = true; else if (errno != ENOENT && errno != ENOTEMPTY) return …`
  unfoldable pub remove_dir : Text → Result Bool → Bool → h.World → Step
  remove_dir path failed changed w =
      let (e, w') = h.rmdir w path in
      if e == 0
      then (ok true, w')
      else if not (e == enoent) && not (e == enotempty)
      then (failed, w')
      else (ok changed, w')

  -- behind `remove_dir_entries`
  unfoldable pub clean_dir : Text → Bool → Result (Unit {0}) × h.World → Step
  unfolding remove_dir
  clean_dir pin_path changed (err e, w) = (err e, w)
  clean_dir pin_path changed (ok u, w) = remove_dir pin_path (err "pin dir remove failed") changed w

  unfoldable pub clean_pin : Text → Step → Step
  unfolding remove_dir_entries clean_dir
  clean_pin pin_path (err e, w) = (err e, w)
  clean_pin pin_path (ok changed, w) = clean_dir pin_path changed (remove_dir_entries pin_path w)

  unfoldable pub clean_owner : Text → Text → h.World → Step
  unfolding remove_dir
  clean_owner owner_pid_path owner_state_dir w =
      let (e, w') = h.unlink w owner_pid_path in
      let removed = remove_dir owner_state_dir (err "owner dir remove failed") (e == 0) w' in
      if not (e == 0) && not (e == enoent) then (err "owner file unlink failed", w') else removed

  module _ (stat_line : ℕ → Option Text) where
    abbrev pub owner_at : h.World → Text → Result OwnerState
    owner_at w path = read_owner_state (scan_file (h.read_file w path))

    -- `owner.is_ok() && is_owner_alive(owner.value())`
    abbrev pub is_active : Result OwnerState → Bool
    is_active (ok owner) = is_owner_alive stat_line owner
    is_active (err e) = false

    unfoldable pub cleanup_stale_state : Text → h.World → Step
    unfolding clean_pin clean_owner
    cleanup_stale_state if_name w =
        let owner = owner_at w (owner_pid_path_for_iface if_name) in
        let cleaned =
          clean_pin (pin_path_for_iface if_name) (
            clean_owner (owner_pid_path_for_iface if_name) (owner_state_dir_for_iface if_name) w) in
        if is_active owner then (err "active owner exists", w) else cleaned
