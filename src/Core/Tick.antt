-- ===== src/Core/Tick.antt =====
-- core/tick.cpp: the timer of the dashboard and of `run`. What the calls on the timer answer is input.
use k_watch.Prelude.{
  ℕ, ◌+◌, ◌*◌, ◌/◌, ◌%◌, ◌<◌, ◌≡◌, ◌≢◌, Option, none, some, List, [], ◌∷◌, Bool, not, ◌==◌,
  if◌then◌else◌, arith,
}
use k_watch.Util.Result.{Result, ok, err}

-- `tfd` is `none` for -1; `value` is `it_value` and `it_interval`, in seconds and nanoseconds, and
-- `closed` are the descriptors that the object has closed.
pub record TickTimer : Type 0 where
  pub tfd : Option ℕ
  pub value : ℕ × ℕ
  pub closed : List ℕ

abbrev pub new : TickTimer
new = record { tfd = none; value = (0, 0); closed = [] }

-- `interval_ns / 1000000000` and `interval_ns % 1000000000`
unfoldable pub split_interval : ℕ → ℕ × ℕ
split_interval hz =
    let interval_ns = 1_000_000_000 / hz in
    (interval_ns / 1_000_000_000, interval_ns % 1_000_000_000)

abbrev pub with_timerfd : ℕ → Option ℕ → Bool → TickTimer → Result (Unit {0}) × TickTimer
with_timerfd hz none set t = (err "timerfd_create failed", record t { tfd = none })
with_timerfd hz (some fd) set t =
    if not set
    then (err "timerfd_settime failed", record t { tfd = none; closed = fd ∷ t.closed })
    else (ok tt, record t { tfd = some fd; value = split_interval hz })

-- `hz` is 0 where the source's is not above 0.
unfoldable pub init : ℕ → Option ℕ → Bool → TickTimer → Result (Unit {0}) × TickTimer
unfolding split_interval
init hz timerfd set t = if hz == 0 then (err "Invalid hz", t) else with_timerfd hz timerfd set t

-- the destructor
unfoldable pub destroy : TickTimer → TickTimer
destroy t = elim (t.tfd) [ none ↦ t | some fd ↦ record t { tfd = none; closed = fd ∷ t.closed } ]

-- The two parts make up the interval, and the nanoseconds are below a second, as the kernel asks for.
pub split_interval_lem :
    (hz : ℕ)
    → hz ≢ 0
    → ((split_interval hz).0 * 1_000_000_000 + (split_interval hz).1 ≡ 1_000_000_000 / hz)
      × ((split_interval hz).1 < 1_000_000_000)
unfolding split_interval
split_interval_lem hz h = (omega arith, omega arith)
