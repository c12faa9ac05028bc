-- ===== src/Bpf/Cleanup/Frame.antt =====
-- What `cleanup_stale_state` leaves alone.
use k_watch.Prelude.{
  ℕ, ◌≡◌, ◌≢◌, refl, ◌∙◌, Option, List, [], ◌∷◌, Bool, ◌==◌, ◌⊎◌, inl, inr, arith,
}
use k_watch.Prelude.Text.{Text}
use k_watch.Util.Result.{Result, ok, err}
use k_watch.Bpf.Host.{Host, IsHost, Outside, entry_path}
use k_watch.Bpf.Cleanup.{
  unlink_entries, remove_listed, remove_dir_entries, remove_dir, clean_dir, clean_pin, clean_owner,
  cleanup_stale_state, Step, pin_path_for_iface, owner_state_dir_for_iface,
  owner_pid_path_for_iface,
}

-- The path is none of those that the interface's state has.
pub record Foreign (if_name q : Text) : Type 0 where
  pub not_owner_file : q ≢ owner_pid_path_for_iface if_name
  pub not_owner_dir : q ≢ owner_state_dir_for_iface if_name
  pub not_pin_dir : q ≢ pin_path_for_iface if_name
  pub not_pin_entry : Outside (pin_path_for_iface if_name) q

module _ (h : Host) (laws : IsHost h) where
  pub unlink_entries-frame :
      (dir_path : Text) (names : List Text) (w : h.World) (q : Text)
      → Outside dir_path q
      → h.node (unlink_entries h dir_path names w).1 q ≡ h.node w q
  unfolding unlink_entries
  unlink_entries-frame dir_path [] w q o = refl
  unlink_entries-frame dir_path (name ∷ names) w q o = ground (
    arith,
    unlink_entries-frame dir_path names w q o,
    unlink_entries-frame dir_path names (h.unlink w (entry_path dir_path name)).1 q o,
    laws.unlink_frame w (entry_path dir_path name) q (o.not_entry name),
  )

  remove_listed-frame :
      (dir_path : Text) (w : h.World) (q : Text) (r : List Text ⊎ ℕ)
      → Outside dir_path q
      → h.node (remove_listed h dir_path w r).1 q ≡ h.node w q
  remove_listed-frame dir_path w q (inr e) o = ground arith
  remove_listed-frame dir_path w q (inl names) o = unlink_entries-frame dir_path names w q o

  pub remove_dir_entries-frame :
      (dir_path : Text) (w : h.World) (q : Text)
      → Outside dir_path q
      → h.node (remove_dir_entries h dir_path w).1 q ≡ h.node w q
  unfolding remove_dir_entries
  remove_dir_entries-frame dir_path w q o =
      remove_listed-frame dir_path w q (h.read_dir w dir_path) o

  pub remove_dir-frame :
      (path : Text) (failed : Result Bool) (changed : Bool) (w : h.World) (q : Text)
      → q ≢ path
      → h.node (remove_dir h path failed changed w).1 q ≡ h.node w q
  unfolding remove_dir
  remove_dir-frame path failed changed w q ne = ground (arith, laws.rmdir_frame w path q ne)

  clean_dir-frame :
      (pin_path : Text) (changed : Bool) (s : Result (Unit {0}) × h.World) (q : Text)
      → q ≢ pin_path
      → h.node (clean_dir h pin_path changed s).1 q ≡ h.node s.1 q
  unfolding clean_dir
  clean_dir-frame pin_path changed (err e, w) q ne = refl
  clean_dir-frame pin_path changed (ok u, w) q ne =
      remove_dir-frame pin_path (err "pin dir remove failed") changed w q ne

  pub clean_pin-frame :
      (pin_path : Text) (s : Step h) (q : Text)
      → q ≢ pin_path
      → Outside pin_path q
      → h.node (clean_pin h pin_path s).1 q ≡ h.node s.1 q
  unfolding clean_pin
  clean_pin-frame pin_path (err e, w) q ne o = refl
  clean_pin-frame pin_path (ok changed, w) q ne o =
      clean_dir-frame pin_path changed (remove_dir_entries h pin_path w) q ne
      ∙ remove_dir_entries-frame pin_path w q o

  clean_owner-frame :
      (file dir : Text) (w : h.World) (q : Text)
      → q ≢ file
      → q ≢ dir
      → h.node (clean_owner h file dir w).1 q ≡ h.node w q
  unfolding clean_owner
  clean_owner-frame file dir w q nf nd = ground (
    arith,
    laws.unlink_frame w file q nf,
    remove_dir-frame dir (err "owner dir remove failed") ((h.unlink w file).0 == 0)
        (h.unlink w file).1 q nd,
  )

  -- Whatever comes of cleanup_stale_state, a path that is not the interface's owner file, its
  -- owner directory, its pin directory or an entry of that one has the node that it had. The file
  -- system keeps what it documents.
  pub cleanup_stale_state-frame :
      (stat_line : ℕ → Option Text) (if_name : Text) (w : h.World) (q : Text)
      → Foreign if_name q
      → h.node (cleanup_stale_state h stat_line if_name w).1 q ≡ h.node w q
  unfolding cleanup_stale_state
  cleanup_stale_state-frame stat_line if_name w q f = ground (
    arith,
    clean_pin-frame (pin_path_for_iface if_name)
          (clean_owner h (owner_pid_path_for_iface if_name) (owner_state_dir_for_iface if_name) w) q
          f.not_pin_dir f.not_pin_entry
        ∙ clean_owner-frame (owner_pid_path_for_iface if_name) (owner_state_dir_for_iface if_name) w
            q f.not_owner_file f.not_owner_dir,
  )
