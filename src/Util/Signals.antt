-- ===== src/Util/Signals.antt =====
-- util/signals.cpp: SIGINT and SIGTERM through a descriptor. What `sigprocmask`, `signalfd` and `read`
-- answer is input.
use k_watch.Prelude.{ℕ, Option, none, some, Bool, not, ◌==◌, if◌then◌else◌}
use k_watch.Util.Result.{Result, ok, err}
use k_watch.Util.UniqueFd.{Descriptors, reset}

-- The handler's descriptor is the object `sfd` among the owners of descriptors. The mask holds SIGINT
-- and SIGTERM; `masked` tells whether it was set.
abbrev pub with_signalfd : ℕ → Option ℕ → Descriptors → Result (Unit {0}) × Descriptors
with_signalfd sfd none d = (err "signalfd failed", d)
with_signalfd sfd (some fd) d = (ok tt, reset sfd (some fd) d)

unfoldable pub init : ℕ → Bool → Option ℕ → Descriptors → Result (Unit {0}) × Descriptors
unfolding reset
init sfd masked signalfd d =
    if not masked then (err "sigprocmask failed", d) else with_signalfd sfd signalfd d

-- `sizeof(struct signalfd_siginfo)`
abbrev pub siginfo_size : ℕ
siginfo_size = 128

-- the signal, or `none` for -1, where `read` did not give a whole `signalfd_siginfo`
unfoldable pub read_signal : ℕ → ℕ → Option ℕ
read_signal size signo = if not (size == siginfo_size) then none else some signo
