-- ===== src/Bpf/Skeleton/Owned.antt =====
-- What a pin that succeeds has written, and what it is to another process.
use k_watch.Prelude.{
  ℕ, ◌^◌, ◌<◌, ◌≡◌, ◌≢◌, refl, ap, sym, subst, ◌∙◌, Option, none, some, Bool, true, false, not,
  ◌==◌, arith,
}
use k_watch.Prelude.Text.{Text}
use k_watch.Util.Result.{Result, ok, err, by_refusal}
use k_watch.Bpf.Host.{Call, Host, IsHost}
use k_watch.Bpf.PinState.{
  OwnerState, Stat, read_owner_state, read_proc_stat, is_owner_alive, current_owner_state,
}
use k_watch.Bpf.PinState.OwnerFile.{scan_file, owner_line, read_owner_state-owner_line}
use k_watch.Bpf.Cleanup.{
  cleanup_stale_state, owner_at, is_active, pin_path_for_iface, owner_pid_path_for_iface,
}
use k_watch.Bpf.Cleanup.Active.{cleanup_stale_state-active}
use k_watch.Bpf.Skeleton.{
  Skeleton, Pinned, pin, pin_skel, pin_dir, pin_objects, write_pin, finish_pin,
  write_owner_pid_file, write_owner_line, prepare_dir, reclaim, ensure_owner_pid_parent,
}

-- The process of this number is alive, and no zombie: its line in `/proc` has a start time of 64 bits
-- that is not 0, and the number is an `int`.
pub record Running (stat_line : ℕ → Option Text) (pid : ℕ) (stat : Stat) : Type 0 where
  pub has_stat : read_proc_stat stat_line pid ≡ ok stat
  pub not_zombie : stat.state ≢ b'Z'
  pub pid_pos : pid ≢ 0
  pub pid_bound : pid < 2 ^ 31
  pub start_pos : stat.start_time_ticks ≢ 0
  pub start_bound : stat.start_time_ticks < 2 ^ 64

module _ (h : Host) (stat_line : ℕ → Option Text) (pid : ℕ) where
  -- the pin of an interface
  abbrev pub pin_iface : Text → Skeleton → h.World → Pinned h stat_line pid
  pin_iface if_name s w =
      pin h stat_line pid (pin_path_for_iface if_name) (owner_pid_path_for_iface if_name) s w

zero_of : (e : ℕ) → not (e == 0) ≡ false → e ≡ 0
zero_of e h = ground arith

module _ (h : Host) (laws : IsHost h) (stat_line : ℕ → Option Text) (pid : ℕ) (stat : Stat)
    (alive : Running stat_line pid stat) where
  abbrev self : OwnerState
  self = record { pid = pid; start_time_ticks = stat.start_time_ticks }

  -- The file at the path names this process.
  abbrev Names : Text → h.World → Type 0
  Names path w = owner_at h stat_line w path ≡ ok self

  write_owner_line-Names :
      (path : Text) (w : h.World) (u : Unit {0})
      → (write_owner_line h path self w).0 ≡ ok u
      → Names path (write_owner_line h path self w).1
  unfolding write_owner_line
  write_owner_line-Names path w u =
      by_refusal (Names path) (not ((h.open_file w path).0 == 0)) "owner file open failed" _ _ u
        (λ a. by_refusal (Names path) (not (printed.0 == 0)) "owner file write failed" _ _ u (λ b.
          by_refusal (Names path) (not (closed.0 == 0)) "owner file close failed" _ _ u (λ c r.
            ap (λ t. read_owner_state (scan_file t))
              (laws.read-write w path (owner_line self) (zero_of _ a) (zero_of _ b) (zero_of _ c))
            ∙ read_owner_state-owner_line self alive.pid_pos alive.pid_bound alive.start_pos
                alive.start_bound)))
    where
      printed : Call h.World
      printed = h.print_file (h.open_file w path).1 path (owner_line self)

      closed : Call h.World
      closed = h.close_file printed.1 path

  write_owner_pid_file_lem :
      (path : Text) (w : h.World)
      → write_owner_pid_file h stat_line pid path w ≡ write_owner_line h path self w
  unfolding write_owner_pid_file current_owner_state
  write_owner_pid_file_lem path w =
      rw (write_owner_pid_file, current_owner_state, alive.has_stat) refl

  -- The object and the world that a pin is to leave.
  abbrev Done : Text → Text → Skeleton → Skeleton × h.World → Type 0
  Done path file s t =
      (t.0 ≡ record s { pinned_path = path; owner_pid_path = file }) × Names file t.1

  finish_pin-Done :
      (path file : Text) (s : Skeleton) (c : Bool) (r : Result (Unit {0}) × h.World) (u : Unit {0})
      → (r.0 ≡ ok u → Names file r.1)
      → (finish_pin h stat_line pid path file s c r).0 ≡ ok u
      → Done path file s (finish_pin h stat_line pid path file s c r).1
  finish_pin-Done path file s c (err e, w) u k r = cc
  finish_pin-Done path file s c (ok v, w) u k r = (refl, k refl)

  write_pin-Done :
      (path file : Text) (s : Skeleton) (c : Bool) (r : Result (Unit {0}) × h.World) (u : Unit {0})
      → (write_pin h stat_line pid path file s c r).0 ≡ ok u
      → Done path file s (write_pin h stat_line pid path file s c r).1
  write_pin-Done path file s c (err e, w) u r = cc
  write_pin-Done path file s c (ok v, w) u r =
      finish_pin-Done path file s c (write_owner_pid_file h stat_line pid file w) u
        (subst (λ x. x.0 ≡ ok u → Names file x.1) (sym (write_owner_pid_file_lem file w))
          (write_owner_line-Names file w u))
        r

  pin_dir-Done :
      (path file : Text) (s : Skeleton) (r : Result Bool × h.World) (u : Unit {0})
      → (pin_dir h stat_line pid path file s r).0 ≡ ok u
      → Done path file s (pin_dir h stat_line pid path file s r).1
  unfolding pin_objects
  pin_dir-Done path file s (err e, w) u r = cc
  pin_dir-Done path file s (ok c, w) u r =
      by_refusal (Done path file s) (is_active h stat_line (owner_at h stat_line w file))
        "active owner exists" _ _ u
        (λ a.
          by_refusal (Done path file s)
            (not (
              (h.pin_maps (reclaim h stat_line pid path file (owner_at h stat_line w file) w)
                path).0
              == 0))
            "pin failed" _ _ u
            (λ b. write_pin-Done path file s c (ensure_owner_pid_parent h file _) u))
        r

  pin_skel-Done :
      (k : Option ℕ) (path file : Text) (s : Skeleton) (d : Result Bool × h.World) (w : h.World)
      (u : Unit {0})
      → (pin_skel h stat_line pid k path file s d w).0 ≡ ok u
      → Done path file s (pin_skel h stat_line pid k path file s d w).1
  pin_skel-Done none path file s d w u r = cc
  pin_skel-Done (some k) path file s d w u r = pin_dir-Done path file s d u r

  pub pin-owner :
      (path file : Text) (s : Skeleton) (w : h.World) (u : Unit {0})
      → (pin h stat_line pid path file s w).0 ≡ ok u
      → ((pin h stat_line pid path file s w).1.0
          ≡ record s { pinned_path = path; owner_pid_path = file })
        × (owner_at h stat_line (pin h stat_line pid path file s w).1.1 file
            ≡ ok (record { pid = pid; start_time_ticks = stat.start_time_ticks }))
  unfolding pin
  pin-owner path file s w u r =
      pin_skel-Done s.skel path file s (prepare_dir h stat_line pid path w) w u r

  self-alive : is_owner_alive stat_line self ≡ true
  unfolding is_owner_alive
  self-alive = rw (is_owner_alive, alive.has_stat) (ground (arith, alive.not_zombie))

  -- After a pin that succeeds, by a running process that is no zombie, whose number is an int
  -- above 0 and whose start time is not 0 and has 64 bits: cleanup_stale_state of that interface
  -- fails and changes nothing, while the process is as it was. The file system keeps what it
  -- documents.
  pub cleanup_stale_state-pin :
      (if_name : Text) (s : Skeleton) (w : h.World) (u : Unit {0})
      → (pin_iface h stat_line pid if_name s w).0 ≡ ok u
      → cleanup_stale_state h stat_line if_name (pin_iface h stat_line pid if_name s w).1.1
        ≡ (err "active owner exists", (pin_iface h stat_line pid if_name s w).1.1)
  cleanup_stale_state-pin if_name s w u r =
      cleanup_stale_state-active h stat_line if_name (pin_iface h stat_line pid if_name s w).1.1 (
        ap (is_active h stat_line)
          (pin-owner (pin_path_for_iface if_name) (owner_pid_path_for_iface if_name) s w u r).1
        ∙ self-alive)
