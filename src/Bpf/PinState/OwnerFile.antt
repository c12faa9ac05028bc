-- ===== src/Bpf/PinState/OwnerFile.antt =====
-- The content of the owner file: what `fprintf(fp, "%d %llu\n", …)` of src/bpf/skeleton.cpp writes,
-- and what `fscanf(fp, "%ld %llu", …)` of src/bpf/pin_state.cpp reads, as the C standard has it.
use k_watch.Prelude.{
  ℕ, ◌+◌, ◌-◌, ◌%◌, ◌^◌, ◌<◌, ◌≡◌, ◌≢◌, refl, Option, none, some, [], ◌∷◌, ◌++◌, false, ltb,
  if◌then◌else◌, arith, drop, length,
}
use k_watch.Prelude.Text.{Text}
use k_watch.Util.Result.{ok}
use k_watch.Util.Numbers.{Scan, scan, to_string}
use k_watch.Util.Numbers.RoundTrip.{scan-to_string_append}
use k_watch.Bpf.PinState.{OwnerState, OwnerScan, read_owner_state}

-- `%ld` stops at the largest `long`.
abbrev pub as_long : ℕ → ℕ
as_long n = if ltb n (2 ^ 63) then n else 2 ^ 63 - 1

-- `%llu` negates in 64 bits, and stops at the largest value.
abbrev pub as_long_long : Scan → ℕ
as_long_long r =
    if ltb r.magnitude (2 ^ 64)
    then if r.negative then (2 ^ 64 - r.magnitude) % 2 ^ 64 else r.magnitude
    else 2 ^ 64 - 1

abbrev pub scan_start : Scan → Option Scan → OwnerScan
scan_start p none = record {
  scanned = 1;
  pid_negative = p.negative;
  pid = as_long p.magnitude;
  start_time = 0;
}
scan_start p (some r) = record {
  scanned = 2;
  pid_negative = p.negative;
  pid = as_long p.magnitude;
  start_time = as_long_long r;
}

abbrev pub scan_pid : Text → Option Scan → OwnerScan
scan_pid t none = record { scanned = 0; pid_negative = false; pid = 0; start_time = 0 }
scan_pid t (some p) = scan_start p (scan (drop p.pos t) 0)

unfoldable pub fscanf_owner : Text → OwnerScan
fscanf_owner t = scan_pid t (scan t 0)

-- `"%d %llu\n"`
abbrev pub owner_line : OwnerState → Text
owner_line owner = to_string owner.pid ++ (32 ∷ (to_string owner.start_time_ticks ++ (10 ∷ [])))

abbrev pub scan_file : Option Text → Option OwnerScan
scan_file none = none
scan_file (some t) = some (fscanf_owner t)

drop-append_length : (s t : Text) → drop (length s) (s ++ t) ≡ t
drop-append_length [] t = refl
drop-append_length (c ∷ s) t = drop-append_length s t

scan-space : (t : Text) → scan (32 ∷ t) 0 ≡ scan t 1
unfolding scan
scan-space t = refl

zero_add : (n : ℕ) → 0 + n ≡ n
zero_add n = omega arith

pub fscanf_owner-owner_line :
    (owner : OwnerState)
    → owner.pid < 2 ^ 31
    → owner.start_time_ticks < 2 ^ 64
    → fscanf_owner (owner_line owner) ≡ record {
      scanned = 2;
      pid_negative = false;
      pid = owner.pid;
      start_time = owner.start_time_ticks;
    }
unfolding fscanf_owner
fscanf_owner-owner_line owner h k =
    rw
      (
        scan-to_string_append owner.pid 32 (to_string owner.start_time_ticks ++ (10 ∷ [])) 0 refl,
        scan_pid,
        zero_add (length (to_string owner.pid)),
        drop-append_length (to_string owner.pid)
            (32 ∷ (to_string owner.start_time_ticks ++ (10 ∷ []))),
        scan-space (to_string owner.start_time_ticks ++ (10 ∷ [])),
        scan-to_string_append owner.start_time_ticks 10 [] 1 refl,
      )
      (ground arith)

-- What the owner of an interface writes into the owner file, a process number above 0 that is an
-- `int` and a 64-bit start time that is not 0, is read back as that owner.
pub read_owner_state-owner_line :
    (owner : OwnerState)
    → owner.pid ≢ 0
    → owner.pid < 2 ^ 31
    → owner.start_time_ticks ≢ 0
    → owner.start_time_ticks < 2 ^ 64
    → read_owner_state (scan_file (some (owner_line owner))) ≡ ok owner
unfolding read_owner_state
read_owner_state-owner_line owner a b c d = rw (fscanf_owner-owner_line owner b d) (ground arith)
