-- ===== src/Prelude/Words.antt =====
-- Unsigned machine words as native numbers, with their wrap-around written out.
use Prim.Native.Nat.{ℕ, ◌+◌, ◌-◌, ◌*◌, ◌%◌, ◌^◌}

-- `static_cast<uint16_t>`, `<uint32_t>` and `<uint64_t>`
abbrev pub u16 : ℕ → ℕ
u16 n = n % 2 ^ 16

abbrev pub u32 : ℕ → ℕ
u32 n = n % 2 ^ 32

abbrev pub u64 : ℕ → ℕ
u64 n = n % 2 ^ 64

-- `a - b` on `uint64_t`
abbrev pub sub64 : ℕ → ℕ → ℕ
sub64 a b = u64 (a + 2 ^ 64 - b)

-- a `uint32_t` of seconds in nanoseconds
abbrev pub seconds_ns : ℕ → ℕ
seconds_ns s = u64 (s * 1_000_000_000)
