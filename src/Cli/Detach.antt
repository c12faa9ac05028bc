-- ===== src/Cli/Detach.antt =====
-- cli/commands/detach.cpp: stopping the owner of an interface and detaching its programs. What the
-- host does is input.
pub mod Gone
pub mod Exit
pub mod Tests
use k_watch.Prelude.{
  ℕ, zero, suc, ◌+◌, ◌-◌, ◌/◌, Option, none, some, List, [], ◌∷◌, Bool, true, false, not, ◌&&◌,
  ◌||◌, ltb, ◌==◌, if◌then◌else◌, String, same,
}
use k_watch.Util.Result.{Result, ok, err}
use k_watch.Bpf.PinState.{OwnerState}

abbrev pub eperm : ℕ
eperm = 1

abbrev pub enoent : ℕ
enoent = 2

abbrev pub esrch : ℕ
esrch = 3

abbrev pub eacces : ℕ
eacces = 13

abbrev pub enodev : ℕ
enodev = 19

abbrev pub einval : ℕ
einval = 22

abbrev pub enolink : ℕ
enolink = 67

abbrev pub eopnotsupp : ℕ
eopnotsupp = 95

abbrev pub is_ignorable_detach_error : ℕ → Bool
is_ignorable_detach_error e =
    e == einval || (e == enoent || (e == enodev || (e == eopnotsupp || e == enolink)))

abbrev pub is_permission : ℕ → Bool
is_permission e = e == eperm || e == eacces

-- `alive i` is what `is_owner_alive` says at its `i`-th call from here on.
unfoldable pub poll_loop : ℕ → (ℕ → Bool) → Bool
poll_loop zero alive = not (alive 0)
poll_loop (suc n) alive =
    let later = poll_loop n (λ i. alive (suc i)) in if not (alive 0) then true else later

-- a step of the loop waits 100000 microseconds
unfoldable pub wait_for_owner_exit : (ℕ → Bool) → ℕ → Bool
unfolding poll_loop
wait_for_owner_exit alive timeout_us = poll_loop ((timeout_us + 99999) / 100000) alive

-- The signals' results: 0, or the error number.
pub record Signals : Type 0 where
  pub alive_first : Bool
  pub term : ℕ
  pub alive_after_term : ℕ → Bool
  pub kill : ℕ
  pub alive_after_kill : ℕ → Bool

abbrev pub signal_error : ℕ → Result Bool
signal_error e = if is_permission e then err "permission" else err "signal failed"

unfoldable pub kill_owner : Signals → Result Bool
unfolding wait_for_owner_exit
kill_owner s =
    if not (s.kill == 0) && not (s.kill == esrch)
    then signal_error s.kill
    else if not (wait_for_owner_exit s.alive_after_kill 1000000)
    then err "owner still alive"
    else ok true

unfoldable pub stop_owner_process : Signals → Result Bool
unfolding kill_owner wait_for_owner_exit
stop_owner_process s =
    if not s.alive_first
    then ok false
    else if not (s.term == 0)
    then (if s.term == esrch then ok false else signal_error s.term)
    else if wait_for_owner_exit s.alive_after_term 2000000
    then ok true
    else kill_owner s

-- the loop over the modes, with the error number that `detach_xdp` returned in each, 0 for success:
-- whether it ended for a lack of permission, whether a program was detached, and the first error that
-- is not ignored
pub record Detached : Type 0 where
  pub denied : Bool
  pub detached : Bool
  pub first_error : ℕ

abbrev pub note_error : ℕ → ℕ → ℕ
note_error e first_error =
    if not (e == 0) && (not (is_ignorable_detach_error e) && first_error == 0)
    then e
    else first_error

unfoldable pub detach_loop : (ℕ → ℕ) → List ℕ → Bool → ℕ → Detached
detach_loop detach_xdp [] detached first_error = record {
  denied = false;
  detached = detached;
  first_error = first_error;
}
detach_loop detach_xdp (flag ∷ flags) detached first_error =
    let e = detach_xdp flag in
    let next = detach_loop detach_xdp flags (detached || e == 0) (note_error e first_error) in
    if e == 0
    then next
    else if is_permission e
    then record { denied = true; detached = detached; first_error = first_error }
    else next

-- HW, DRV and SKB mode, and no flag
abbrev pub detach_flags : List ℕ
detach_flags = 8 ∷ 4 ∷ 2 ∷ 0 ∷ []

abbrev pub status_of_detached : Detached → ℕ
status_of_detached d = if d.denied then 77 else if not (d.first_error == 0) then 69 else 0

-- `cleanup_stale_state`'s result, and what follows
unfoldable pub clean_and_detach : Result Bool → (ℕ → ℕ) → ℕ
unfolding detach_loop
clean_and_detach (err e) detach_xdp = 69
clean_and_detach (ok changed) detach_xdp =
    status_of_detached (detach_loop detach_xdp detach_flags false 0)

abbrev pub status_of_stop_error : String → ℕ
status_of_stop_error e = if same e "permission" then 77 else 69

-- What the host answers for the interface; `if_index` is 0 for a name that is not there.
pub record Host : Type 0 where
  pub if_index : ℕ
  pub owner : Result OwnerState
  pub signals : Signals
  pub cleanup : Result Bool
  pub detach_xdp : ℕ → ℕ

abbrev pub stop_recorded : Host → Result Bool
stop_recorded h = elim h.owner [ err e ↦ ok false | ok o ↦ stop_owner_process h.signals ]

unfoldable pub cmd_detach : Host → List String → ℕ
unfolding stop_owner_process clean_and_detach
cmd_detach h [] = 64
cmd_detach h (if_name ∷ []) = if h.if_index == 0 then 65 else elim (stop_recorded h) [
  | err e ↦ status_of_stop_error e
  | ok stopped ↦ clean_and_detach h.cleanup h.detach_xdp
]
cmd_detach h (if_name ∷ arg ∷ args) = 64
