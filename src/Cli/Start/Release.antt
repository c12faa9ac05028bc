-- ===== src/Cli/Start/Release.antt =====
-- What a command gives back.
use k_watch.Prelude.{
  ℕ, ◌≡◌, ◌≢◌, refl, ap, sym, ◌∙◌, subst, Option, none, some, [], ◌∷◌, ◌++◌, Bool, true, false, not,
  ◌||◌, ◌&&◌, ◌==◌, if◌then◌else◌, String, arith,
}
use k_watch.Prelude.Text.{Text, codes, equal_refl}
use k_watch.Util.Result.{Result, ok, err}
use k_watch.Bpf.Host.{Host}
use k_watch.Bpf.Attach.{XdpAttach, new, attach, detach}
use k_watch.Bpf.Cleanup.{pin_path_for_iface, owner_state_dir_for_iface, owner_pid_path_for_iface}
use k_watch.Bpf.Skeleton.{Skeleton, before_slash, parent_dir, pin, unpin, destruct}
use k_watch.Bpf.Skeleton.Load.{open_and_load}
use k_watch.Cli.Parser.{GlobalOptions}
use k_watch.Cli.Start.{
  Answers, permission_status, start_attached, start_pinned, start_loaded, start, Exit, leave,
}

before_slash-owner_file : (d : Text) → before_slash (d ++ codes "/owner.pid") ≡ some d
unfolding before_slash
before_slash-owner_file [] = refl
before_slash-owner_file (c ∷ d) = rw (before_slash, before_slash-owner_file d) refl

parent_dir-owner_file :
    (if_name : Text)
    → parent_dir (owner_pid_path_for_iface if_name) ≡ owner_state_dir_for_iface if_name
unfolding parent_dir
parent_dir-owner_file if_name =
    rw (parent_dir, before_slash-owner_file (owner_state_dir_for_iface if_name)) refl

-- the object of an interface that is pinned
abbrev pub pinned_skeleton : ℕ → Text → Skeleton
pinned_skeleton k if_name = record {
  skel = some k;
  pinned_path = pin_path_for_iface if_name;
  owner_pid_path = owner_pid_path_for_iface if_name;
}

module _ (h : Host) where
  -- The maps are unpinned, then the owner file and its directory are removed, then the pin directory,
  -- then the object is destroyed.
  abbrev pub released : ℕ → Text → h.World → h.World
  released k if_name w =
      let w1 = h.unpin_maps w (pin_path_for_iface if_name) in
      let w2 = (h.unlink w1 (owner_pid_path_for_iface if_name)).1 in
      let w3 = (h.rmdir w2 (owner_state_dir_for_iface if_name)).1 in
      h.destroy (h.rmdir w3 (pin_path_for_iface if_name)).1 k

  destruct-released :
      (k : ℕ) (if_name : Text) (w : h.World)
      → (destruct h (pinned_skeleton k if_name, w)).1 ≡ released k if_name w
  unfolding destruct unpin
  destruct-released k if_name w = rw (destruct, unpin, parent_dir-owner_file if_name) refl

  pub unpin-released :
      (k : ℕ) (if_name : Text) (w : h.World)
      → (destruct h (unpin h (pin_path_for_iface if_name) (pinned_skeleton k if_name, w))).1
        ≡ released k if_name w
  unfolding destruct unpin
  unpin-released k if_name w =
      rw (unpin, equal_refl (pin_path_for_iface if_name), parent_dir-owner_file if_name) refl

some_injective : {A : Type 0} {a b : A} → some a ≡ some b → a ≡ b
some_injective e = cc

module _ (h : Host) (stat_line : ℕ → Option Text) (pid : ℕ) (strerror : ℕ → Text)
    (error_text : ℕ → String) (k : ℕ) (if_name : Text) (w : h.World) where
  -- What the pin has left is given back, and the link is closed.
  abbrev GivenBack : Exit h stat_line pid strerror error_text → Type 0
  GivenBack e = (e.1 ≡ released h k if_name w) × (e.2.link_fd ≡ none)

  by_return :
      (b c : Bool) (x y e : Exit h stat_line pid strerror error_text)
      → GivenBack x
      → GivenBack y
      → (if b then some x else if c then some y else none) ≡ some e
      → GivenBack e
  by_return true c x y e p q r = subst GivenBack (some_injective r) p
  by_return false true x y e p q r = subst GivenBack (some_injective r) q
  by_return false false x y e p q r = cc

  left :
      (status : ℕ) (x : XdpAttach)
      → GivenBack
          (leave h stat_line pid strerror error_text status (pinned_skeleton k if_name, w) x)
  unfolding detach
  left status x = (destruct-released h k if_name w, refl)

  start_attached-GivenBack :
      (a : Answers) (ended : Bool) (r : Result String × ℕ × XdpAttach)
      (e : Exit h stat_line pid strerror error_text)
      → start_attached h stat_line pid strerror error_text a ended
          (pin_path_for_iface if_name)
          (pinned_skeleton k if_name, w)
          r
        ≡ some e
      → GivenBack e
  unfolding start_attached detach
  start_attached-GivenBack a ended (err m, attach_err, x) e r =
      subst GivenBack (some_injective r) (left (permission_status attach_err) x)
  start_attached-GivenBack a ended (ok mode, attach_err, x) e r =
      by_return
        (not (a.signals_ok) || (not (a.timer_ok) || (not (a.ringbuf_ok) || not (a.epoll_ok)))) ended
        _ _ e (left 125 x) (unpin-released h k if_name w, refl) r

-- The status of what comes of the attachment: 77 for EPERM and EACCES and 69 for another error, 125
-- where one of the signals, the timer, the ring buffer and epoll is missing, and else 0.
abbrev pub ends_with : Answers → Result String × ℕ × XdpAttach → ℕ
ends_with a (err m, attach_err, x) = if attach_err == 1 || attach_err == 13 then 77 else 69
ends_with a (ok mode, attach_err, x) =
    if a.signals_ok && (a.timer_ok && (a.ringbuf_ok && a.epoll_ok)) then 0 else 125

module _ (h : Host) (stat_line : ℕ → Option Text) (pid : ℕ) (strerror : ℕ → Text)
    (error_text : ℕ → String) where
  by_status :
      (b c : Bool) (x y e : Exit h stat_line pid strerror error_text)
      → (if b then some x else if c then some y else none) ≡ some e
      → e.0 ≡ (if b then x.0 else y.0)
  by_status true c x y e r = ap (λ e. e.0) (sym (some_injective r))
  by_status false true x y e r = ap (λ e. e.0) (sym (some_injective r))
  by_status false false x y e r = cc

  none_missing :
      (s t r p : Bool)
      → ◌≡◌ {A = ℕ}
          (if not s || (not t || (not r || not p)) then 125 else 0)
          (if s && (t && (r && p)) then 0 else 125)
  none_missing s t r p = ground arith

  start_attached-ends_with :
      (a : Answers) (ended : Bool) (pin_path : Text) (p : Skeleton × h.World)
      (r : Result String × ℕ × XdpAttach) (e : Exit h stat_line pid strerror error_text)
      → start_attached h stat_line pid strerror error_text a ended pin_path p r ≡ some e
      → e.0 ≡ ends_with a r
  unfolding start_attached
  start_attached-ends_with a ended pin_path p (err m, attach_err, x) e r =
      ap (λ e. e.0) (sym (some_injective r))
  start_attached-ends_with a ended pin_path p (ok mode, attach_err, x) e r =
      by_status
        (not (a.signals_ok) || (not (a.timer_ok) || (not (a.ringbuf_ok) || not (a.epoll_ok)))) ended
        _ _ e r
      ∙ none_missing a.signals_ok a.timer_ok a.ringbuf_ok a.epoll_ok

-- a skeleton that was loaded
abbrev pub fresh_skeleton : ℕ → Skeleton
fresh_skeleton k = record { skel = some k; pinned_path = []; owner_pid_path = [] }

module _ (h : Host) (stat_line : ℕ → Option Text) (pid : ℕ) (strerror : ℕ → Text)
    (error_text : ℕ → String) where
  -- A command that has pinned goes on with the attachment.
  pub start-attached :
      (syn_window : ℕ) (ended : Bool) (globals : GlobalOptions) (a : Answers) (if_name : Text)
      (w wp : h.World) (k : ℕ)
      → a.if_index ≢ 0
      → (open_and_load strerror globals.sample_n syn_window a.libbpf).result ≡ ok (fresh_skeleton k)
      → pin h stat_line pid
          (pin_path_for_iface if_name)
          (owner_pid_path_for_iface if_name)
          (fresh_skeleton k)
          w
        ≡ (ok tt, (pinned_skeleton k if_name, wp))
      → start h stat_line pid strerror error_text syn_window ended globals a (if_name ∷ []) w
        ≡ start_attached h stat_line pid strerror error_text a ended
            (pin_path_for_iface if_name)
            (pinned_skeleton k if_name, wp)
            (attach error_text a.link_create a.prog_ok globals.xdp_mode new)
  unfolding start start_pinned
  start-attached syn_window ended globals a if_name w wp k ne loaded pinned =
      rw (start, index, loaded, start_loaded, pinned) refl
    where
      index : (a.if_index == 0) ≡ false
      index = ground arith

  -- run or top with one argument whose interface is there, whose program is loaded and whose maps
  -- are pinned, where it ends: the status is 77 if the attachment failed with EPERM or EACCES, 69
  -- if with another error, 125 if it succeeded and the signals, the timer, the ring buffer or
  -- epoll is missing, and else 0; and in each case the maps are unpinned, the owner file, its
  -- directory and the pin directory are removed, in this order and once, then the program is
  -- destroyed, and the object of the XDP link holds none.
  pub start-released :
      (syn_window : ℕ) (ended : Bool) (globals : GlobalOptions) (a : Answers) (if_name : Text)
      (w wp : h.World) (k : ℕ) (e : Exit h stat_line pid strerror error_text)
      → a.if_index ≢ 0
      → (open_and_load strerror globals.sample_n syn_window a.libbpf).result ≡ ok (fresh_skeleton k)
      → pin h stat_line pid
          (pin_path_for_iface if_name)
          (owner_pid_path_for_iface if_name)
          (fresh_skeleton k)
          w
        ≡ (ok tt, (pinned_skeleton k if_name, wp))
      → start h stat_line pid strerror error_text syn_window ended globals a (if_name ∷ []) w
        ≡ some e
      → (e.0 ≡ ends_with a (attach error_text a.link_create a.prog_ok globals.xdp_mode new))
        × ((e.1 ≡ released h k if_name wp) × (e.2.link_fd ≡ none))
  start-released syn_window ended globals a if_name w wp k e ne loaded pinned r = (
    start_attached-ends_with h stat_line pid strerror error_text a ended
        (pin_path_for_iface if_name) (pinned_skeleton k if_name, wp) attached e returned,
    start_attached-GivenBack h stat_line pid strerror error_text k if_name wp a ended attached e
        returned,
  )
    where
      attached : Result String × ℕ × XdpAttach
      attached = attach error_text a.link_create a.prog_ok globals.xdp_mode new

      returned :
          start_attached h stat_line pid strerror error_text a ended
            (pin_path_for_iface if_name)
            (pinned_skeleton k if_name, wp)
            attached
          ≡ some e
      returned = sym (start-attached syn_window ended globals a if_name w wp k ne loaded pinned) ∙ r
