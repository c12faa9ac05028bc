-- ===== src/Demo/Scenarios.antt =====
-- src/demo/ping_flood.cpp, syn_flood.cpp and udp_storm.cpp. A system call is its error number, 0 for
-- success; `clock i` are the seconds since the start, in round `i` of the loop, and `sent i` tells
-- whether `sendto` succeeds in it. The rate, which only sets the pause of a round, is above 0.
use k_watch.Prelude.{
  ℕ, zero, suc, ◌+◌, Option, none, some, List, [], ◌∷◌, Bool, true, false, not, ◌&&◌, ◌||◌, leb,
  ◌==◌, if◌then◌else◌, u16,
}
use k_watch.Prelude.Text.{Text}
use k_watch.Cli.Demo.{DemoConfig, Ran, finished, denied, broken, validate_target}
use k_watch.Demo.Packets.{syn_datagram, next_port, ping_packet, udp_payload}

abbrev pub and_sent : Text → Option (Ran × List Text) → Option (Ran × List Text)
and_sent p none = none
and_sent p (some (r, ps)) = some (r, p ∷ ps)

module _ {S : Type 0} (build : S → Text × S) (is_strict : Bool) (clock : ℕ → ℕ) (sent : ℕ → Bool)
    (duration_s : ℕ) where
  -- `while (true)`, in round `i`: a round that fails to send ends a scenario that checks it; `none`
  -- where the fuel is used up
  unfoldable pub flood_loop : ℕ → ℕ → S → Option (Ran × List Text)
  flood_loop zero i s = none
  flood_loop (suc f) i s =
      let (p, s') = build s in
      let rest = flood_loop f (i + 1) s' in
      if leb duration_s (clock i)
      then some (finished, [])
      else if is_strict && not (sent i)
      then some (broken, p ∷ [])
      else and_sent p rest

-- `EPERM` and `EACCES` have a message of their own.
abbrev pub errno_ran : ℕ → Ran
errno_ran e = if e == 1 || e == 13 then denied else broken

abbrev pub or_zero : Option ℕ → ℕ
or_zero none = 0
or_zero (some a) = a

module _ (inet_pton : Text → Option ℕ) (clock : ℕ → ℕ) (sent : ℕ → Bool) (fuel : ℕ) where
  -- The target is an address where it is used, so `or_zero` does not come to 0 for want of one.
  unfoldable pub run_ping_flood : ℕ → DemoConfig → Option (Ran × List Text)
  unfolding validate_target flood_loop ping_packet
  run_ping_flood socket cfg =
      let flood =
        flood_loop (λ seq. (ping_packet seq, u16 (seq + 1))) false clock sent cfg.duration_s fuel 0
          0 in
      if not (validate_target inet_pton cfg.target_ip cfg.override_safety)
      then some (broken, [])
      else if not (socket == 0)
      then some (errno_ran socket, [])
      else flood

  unfoldable pub run_syn_flood : ℕ → ℕ → DemoConfig → Option (Ran × List Text)
  unfolding validate_target flood_loop syn_datagram next_port
  run_syn_flood socket setsockopt cfg =
      let flood =
        flood_loop
          (λ port.
            (syn_datagram (or_zero (inet_pton cfg.target_ip)) port cfg.target_port, next_port port))
          true clock sent cfg.duration_s fuel 0 1024 in
      if not (validate_target inet_pton cfg.target_ip cfg.override_safety)
      then some (broken, [])
      else if not (socket == 0)
      then some (errno_ran socket, [])
      else if not (setsockopt == 0)
      then some (errno_ran setsockopt, [])
      else flood

  unfoldable pub run_udp_storm : ℕ → DemoConfig → Option (Ran × List Text)
  unfolding validate_target flood_loop
  run_udp_storm socket cfg =
      let flood =
        flood_loop {S = Unit {0}} (λ u. (udp_payload, u)) false clock sent cfg.duration_s fuel 0
          tt in
      if not (validate_target inet_pton cfg.target_ip cfg.override_safety)
      then some (broken, [])
      else if not (socket == 0)
      then some (broken, [])
      else flood
