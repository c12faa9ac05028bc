-- ===== src/Cli/Detach/Gone.antt =====
-- When the owner of an interface has gone.
use k_watch.Prelude.{
  ℕ, zero, suc, ◌≡◌, refl, ◌∙◌, if◌then◌else◌, ap, Bool, true, false, not, ◌&&◌, ◌||◌, ◌==◌, arith,
}
use k_watch.Util.Result.{Result, ok, err, is_ok}
use k_watch.Bpf.PinState.{OwnerState}
use k_watch.Cli.Detach.{
  poll_loop, wait_for_owner_exit, Signals, signal_error, kill_owner, stop_owner_process, Host,
  stop_recorded,
}

-- one of the first polls, or the one behind them, says that the owner has gone
abbrev pub gone_within : ℕ → (ℕ → Bool) → Bool
gone_within zero alive = not (alive 0)
gone_within (suc n) alive = gone_within n alive || not (alive (suc n))

gone_within-suc :
    (n : ℕ) (alive : ℕ → Bool)
    → gone_within (suc n) alive ≡ (not (alive 0) || gone_within n (λ i. alive (suc i)))
gone_within-suc zero alive = refl
gone_within-suc (suc n) alive = ground (arith, gone_within-suc n alive)

poll_loop-gone_within : (n : ℕ) (alive : ℕ → Bool) → poll_loop n alive ≡ gone_within n alive
unfolding poll_loop
poll_loop-gone_within zero alive = refl
poll_loop-gone_within (suc n) alive =
    ground (arith, poll_loop-gone_within n (λ i. alive (suc i)), gone_within-suc n alive)

-- The owner has gone: it was not alive, or SIGTERM finds no process, or it goes within 20 polls of
-- SIGTERM and one more, or SIGKILL is sent or finds no process and it goes within 10 polls and one more.
abbrev pub has_gone : Signals → Bool
has_gone s =
    not s.alive_first
    || (s.term == 3
        || (s.term == 0
            && (gone_within 20 s.alive_after_term
                || ((s.kill == 0 || s.kill == 3) && gone_within 10 s.alive_after_kill))))

wait_2s : (alive : ℕ → Bool) → wait_for_owner_exit alive 2000000 ≡ gone_within 20 alive
unfolding wait_for_owner_exit
wait_2s alive = poll_loop-gone_within 20 alive

wait_1s : (alive : ℕ → Bool) → wait_for_owner_exit alive 1000000 ≡ gone_within 10 alive
unfolding wait_for_owner_exit
wait_1s alive = poll_loop-gone_within 10 alive

signal_error-is_ok : (e : ℕ) → is_ok (signal_error e) ≡ false
signal_error-is_ok e = ground arith

kill_cases :
    (sent none_there gone : Bool) (r : Result Bool)
    → is_ok r ≡ false
    → is_ok (
        if not sent && not none_there
        then r
        else if not gone
        then err "owner still alive"
        else ok true)
      ≡ ((sent || none_there) && gone)
kill_cases true t true r h = refl
kill_cases true t false r h = refl
kill_cases false true true r h = refl
kill_cases false true false r h = refl
kill_cases false false g r h = h

stop_cases :
    (alive sent none_there gone killed : Bool) (r k : Result Bool)
    → is_ok r ≡ false
    → is_ok k ≡ killed
    → is_ok (
        if not alive
        then ok false
        else if not sent
        then (if none_there then ok false else r)
        else if gone
        then ok true
        else k)
      ≡ (not alive || ((not sent && none_there) || (sent && (gone || killed))))
stop_cases false s t g d r k h e = refl
stop_cases true false true g d r k h e = refl
stop_cases true false false g d r k h e = h
stop_cases true true t true d r k h e = ground arith
stop_cases true true t false d r k h e = e

kill_owner-is_ok :
    (s : Signals)
    → is_ok (kill_owner s) ≡ ((s.kill == 0 || s.kill == 3) && gone_within 10 s.alive_after_kill)
unfolding kill_owner wait_for_owner_exit
kill_owner-is_ok s =
    kill_cases (s.kill == 0) (s.kill == 3) (wait_for_owner_exit s.alive_after_kill 1000000)
      (signal_error s.kill) (signal_error-is_ok s.kill)
    ∙ ap (λ w. (s.kill == 0 || s.kill == 3) && w) (wait_1s s.alive_after_kill)

term_apart :
    (alive gone : Bool) (t : ℕ)
    → (not alive || ((not (t == 0) && t == 3) || (t == 0 && gone)))
      ≡ (not alive || (t == 3 || (t == 0 && gone)))
term_apart alive gone t = ground arith

-- `stop_owner_process` as a test
stop_owner_process-has_gone : (s : Signals) → is_ok (stop_owner_process s) ≡ has_gone s
unfolding stop_owner_process wait_for_owner_exit
stop_owner_process-has_gone s =
    stop_cases s.alive_first (s.term == 0) (s.term == 3)
      (wait_for_owner_exit s.alive_after_term 2000000) killed (signal_error s.term) (kill_owner s)
      (signal_error-is_ok s.term) (kill_owner-is_ok s)
    ∙ ap
        (λ w.
          not s.alive_first
          || ((not (s.term == 0) && s.term == 3) || (s.term == 0 && (w || killed))))
        (wait_2s s.alive_after_term)
    ∙ term_apart s.alive_first (gone_within 20 s.alive_after_term || killed) s.term
  where
    killed : Bool
    killed = (s.kill == 0 || s.kill == 3) && gone_within 10 s.alive_after_kill

-- no owner is recorded, or it has gone
abbrev pub is_free : Result OwnerState → Signals → Bool
is_free (err e) s = true
is_free (ok o) s = has_gone s

pub stop_recorded-is_free : (h : Host) → is_ok (stop_recorded h) ≡ is_free h.owner h.signals
stop_recorded-is_free h = by_owner h.owner
  where
    by_owner :
        (o : Result OwnerState)
        → is_ok (elim o as (λ o. Result Bool) [
          | err e ↦ ok false
          | ok p ↦ stop_owner_process h.signals
        ])
          ≡ is_free o h.signals
    by_owner (err e) = refl
    by_owner (ok p) = stop_owner_process-has_gone h.signals
