-- ===== src/Bpf/Skeleton.antt =====
-- src/bpf/skeleton.cpp: the object that owns the loaded BPF program, pins its maps and writes the
-- owner file of the interface. The calls on the file system, `/proc/<pid>/stat` and `getpid` are
-- parameters. What is only logged is left out, but for the text of a failed load, which is in Load.
pub mod Load
pub mod Rollback
pub mod Owned
pub mod Tests
use k_watch.Prelude.{
  ℕ, Option, none, some, List, [], ◌∷◌, Bool, true, false, not, ◌&&◌, ◌==◌, if◌then◌else◌, ◌⊎◌, inl,
  inr,
}
use k_watch.Prelude.Text.{Text, codes, equal}
use k_watch.Util.Result.{Result, ok, err}
use k_watch.Bpf.Host.{Host, Call, eexist}
use k_watch.Bpf.PinState.{OwnerState, current_owner_state}
use k_watch.Bpf.PinState.OwnerFile.{owner_line}
use k_watch.Bpf.Cleanup.{is_dot, owner_at, is_active}

-- `skel` is the object's handle, `none` for a null pointer.
pub record Skeleton : Type 0 where
  pub skel : Option ℕ
  pub pinned_path : Text
  pub owner_pid_path : Text

-- `path.substr(0, path.rfind('/'))`, empty where there is no slash
abbrev pub front_of : ℕ → Option Text → Option Text
front_of c (some s) = some (c ∷ s)
front_of c none = if c == b'/' then some [] else none

unfoldable pub before_slash : Text → Option Text
before_slash [] = none
before_slash (c ∷ s) = front_of c (before_slash s)

abbrev pub or_empty : Option Text → Text
or_empty none = []
or_empty (some s) = s

unfoldable pub parent_dir : Text → Text
unfolding before_slash
parent_dir path = or_empty (before_slash path)

abbrev pub is_empty : Text → Bool
is_empty [] = true
is_empty (c ∷ s) = false

-- the `readdir` loop of `directory_is_empty`
unfoldable pub only_dots : List Text → Bool
unfolding is_dot
only_dots [] = true
only_dots (name ∷ names) = if is_dot name then only_dots names else false

module _ (h : Host) where
  -- A directory that does not open counts as empty.
  abbrev pub empty_listing : List Text ⊎ ℕ → Bool
  empty_listing (inr e) = true
  empty_listing (inl names) = only_dots names

  unfoldable pub directory_is_empty : h.World → Text → Bool
  unfolding only_dots
  directory_is_empty w path = empty_listing (h.read_dir w path)

  unfoldable pub ensure_dir : Text → h.World → Result (Unit {0}) × h.World
  ensure_dir path w =
      let (e, w') = h.mkdir w path in
      if e == 0
      then (ok tt, w')
      else if not (e == eexist)
      then (err "mkdir failed", w')
      else if not (h.is_dir w' path)
      then (err "path is not a directory", w')
      else (ok tt, w')

  abbrev pub ensure_owner_dir : Text → Result (Unit {0}) × h.World → Result (Unit {0}) × h.World
  ensure_owner_dir owner_dir (err e, w) = (err e, w)
  ensure_owner_dir owner_dir (ok u, w) =
      if is_empty owner_dir then (err "owner state dir missing", w) else ensure_dir owner_dir w

  unfoldable pub ensure_owner_pid_parent : Text → h.World → Result (Unit {0}) × h.World
  unfolding ensure_dir parent_dir
  ensure_owner_pid_parent owner_pid_path w =
      ensure_owner_dir (parent_dir owner_pid_path) (ensure_dir (codes "/run/kwatch") w)

  -- `unlink(path)`, its result ignored
  abbrev pub unlinked : Text → h.World → h.World
  unlinked path w = (h.unlink w path).1

  unfoldable pub write_owner_line : Text → OwnerState → h.World → Result (Unit {0}) × h.World
  write_owner_line path owner w =
      let (e, w1) = h.open_file w path in
      let (p, w2) = h.print_file w1 path (owner_line owner) in
      let (c, w3) = h.close_file w2 path in
      if not (e == 0)
      then (err "owner file open failed", w1)
      else if not (p == 0)
      then (err "owner file write failed", unlinked path w3)
      else if not (c == 0)
      then (err "owner file close failed", unlinked path w3)
      else (ok tt, w3)

  abbrev pub write_owner : Text → Result OwnerState → h.World → Result (Unit {0}) × h.World
  write_owner path (err e) w = (err e, w)
  write_owner path (ok owner) w = write_owner_line path owner w

  -- `pid` is what `getpid` returns.
  unfoldable pub write_owner_pid_file :
      (ℕ → Option Text) → ℕ → Text → h.World → Result (Unit {0}) × h.World
  unfolding write_owner_line
  write_owner_pid_file stat_line pid path w = write_owner path (current_owner_state stat_line pid) w

  abbrev pub if_skel : Option ℕ → h.World → h.World → h.World
  if_skel none w v = v
  if_skel (some k) w v = w

  unfoldable pub unpin : Text → Skeleton × h.World → Skeleton × h.World
  unfolding parent_dir
  unpin path (s, w) =
      let maps = h.unpin_maps w path in
      let file = unlinked s.owner_pid_path maps in
      let owner_dir = parent_dir s.owner_pid_path in
      let dir = if not (is_empty owner_dir) then (h.rmdir file owner_dir).1 else file in
      let owner = if not (is_empty s.owner_pid_path) then dir else maps in
      let w' = if_skel s.skel (h.rmdir owner path).1 w in
      let s' = record s { pinned_path = []; owner_pid_path = [] } in
      (if equal s.pinned_path path then s' else s, w')

  unfoldable pub destruct : Skeleton × h.World → Skeleton × h.World
  unfolding unpin
  destruct (s, w) = elim s.skel [
    | none ↦ (s, w)
    | some k ↦
        let (s1, w1) =
          if not (is_empty s.pinned_path) then unpin s.pinned_path (s, w) else (s, w) in
        (record s1 { skel = none }, h.destroy w1 k)
  ]

-- the new object, and `other`
unfoldable pub move : Skeleton → Skeleton × Skeleton
move other = (other, record { skel = none; pinned_path = []; owner_pid_path = [] })

module _ (h : Host) where
  -- `*this = std::move(other)` of two objects: `this`, `other` and the world
  unfoldable pub move_assign : Skeleton → Skeleton → h.World → Skeleton × Skeleton × h.World
  unfolding destruct
  move_assign this other w = (
    other,
    record { skel = none; pinned_path = []; owner_pid_path = [] },
    (destruct h (this, w)).1,
  )

module _ (h : Host) (stat_line : ℕ → Option Text) (pid : ℕ) where
  -- `if (created_dir && directory_is_empty(path)) rmdir(path);`
  unfoldable pub remove_created : Bool → Text → h.World → h.World
  unfolding directory_is_empty
  remove_created created_dir path w =
      if created_dir && directory_is_empty h w path then (h.rmdir w path).1 else w

  -- the pin directory, and whether it was made
  unfoldable pub prepare_dir : Text → h.World → Result Bool × h.World
  prepare_dir path w =
      let (e, w') = h.mkdir w path in
      if e == 0
      then (ok true, w')
      else if not (e == eexist)
      then (err "mkdir failed", w')
      else if not (h.is_dir w' path)
      then (err "pin path is not a directory", w')
      else (ok false, w')

  -- what a process that died has left
  unfoldable pub reclaim : Text → Text → Result OwnerState → h.World → h.World
  unfolding directory_is_empty
  reclaim path owner_pid_file (ok owner) w = unlinked h owner_pid_file (h.unpin_maps w path)
  reclaim path owner_pid_file (err e) w =
      if not (directory_is_empty h w path) then h.unpin_maps w path else w

  abbrev pub Pinned : Type 0
  Pinned = Result (Unit {0}) × (Skeleton × h.World)

  -- behind a step that failed with the maps pinned
  unfoldable pub roll_back : Bool → Text → h.World → h.World
  unfolding remove_created
  roll_back created_dir path w = remove_created created_dir path (h.unpin_maps w path)

  abbrev pub finish_pin : Text → Text → Skeleton → Bool → Result (Unit {0}) × h.World → Pinned
  finish_pin path owner_pid_file s created_dir (err e, w) =
      (err e, (s, roll_back created_dir path w))
  finish_pin path owner_pid_file s created_dir (ok u, w) =
      (ok tt, (record s { pinned_path = path; owner_pid_path = owner_pid_file }, w))

  abbrev pub write_pin : Text → Text → Skeleton → Bool → Result (Unit {0}) × h.World → Pinned
  write_pin path owner_pid_file s created_dir (err e, w) =
      (err e, (s, roll_back created_dir path w))
  write_pin path owner_pid_file s created_dir (ok u, w) =
      finish_pin path owner_pid_file s created_dir
        (write_owner_pid_file h stat_line pid owner_pid_file w)

  unfoldable pub pin_objects : Text → Text → Skeleton → Bool → h.World → Pinned
  unfolding remove_created roll_back ensure_owner_pid_parent write_owner_pid_file
  pin_objects path owner_pid_file s created_dir w =
      let (e, w') = h.pin_maps w path in
      let written =
        write_pin path owner_pid_file s created_dir (ensure_owner_pid_parent h owner_pid_file w') in
      if not (e == 0) then (err "pin failed", (s, remove_created created_dir path w')) else written

  abbrev pub pin_dir : Text → Text → Skeleton → Result Bool × h.World → Pinned
  pin_dir path owner_pid_file s (err e, w) = (err e, (s, w))
  pin_dir path owner_pid_file s (ok created_dir, w) =
      let owner = owner_at h stat_line w owner_pid_file in
      let pinned =
        pin_objects path owner_pid_file s created_dir (reclaim path owner_pid_file owner w) in
      if is_active h stat_line owner
      then (err "active owner exists", (s, if created_dir then (h.rmdir w path).1 else w))
      else pinned

  abbrev pub pin_skel : Option ℕ → Text → Text → Skeleton → Result Bool × h.World → h.World → Pinned
  pin_skel none path owner_pid_file s r w = (err "Skeleton is null", (s, w))
  pin_skel (some k) path owner_pid_file s r w = pin_dir path owner_pid_file s r

  unfoldable pub pin : Text → Text → Skeleton → h.World → Pinned
  unfolding prepare_dir pin_objects reclaim
  pin path owner_pid_file s w = pin_skel s.skel path owner_pid_file s (prepare_dir path w) w
