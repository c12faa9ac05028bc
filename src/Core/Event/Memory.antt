-- ===== src/Core/Event/Memory.antt =====
-- Reading an event back from the memory that the kernel program filled.
use k_watch.Prelude.{ℕ, ◌+◌, ◌*◌, ◌/◌, ◌%◌, ◌^◌, ◌≡◌, [], ◌∷◌, ◌++◌, arith}
use k_watch.Prelude.Text.{Text}
use k_watch.Util.Result.{ok}
use k_watch.Bpf.Shared.{Event}
use k_watch.Core.Event.{parse_ringbuf_event}

-- `struct kwatch_event` in memory on a machine that stores the low byte first, with six bytes of
-- padding. Each cell is a byte where the fields fit their types.
abbrev pub memory : Event → Text
memory e =
    e.ts_ns % 2 ^ 8
    ∷ e.ts_ns / 2 ^ 8 % 2 ^ 8
    ∷ e.ts_ns / 2 ^ 16 % 2 ^ 8
    ∷ e.ts_ns / 2 ^ 24 % 2 ^ 8
    ∷ e.ts_ns / 2 ^ 32 % 2 ^ 8
    ∷ e.ts_ns / 2 ^ 40 % 2 ^ 8
    ∷ e.ts_ns / 2 ^ 48 % 2 ^ 8
    ∷ e.ts_ns / 2 ^ 56
    ∷ e.src_ip % 2 ^ 8
    ∷ e.src_ip / 2 ^ 8 % 2 ^ 8
    ∷ e.src_ip / 2 ^ 16 % 2 ^ 8
    ∷ e.src_ip / 2 ^ 24
    ∷ e.dst_ip % 2 ^ 8
    ∷ e.dst_ip / 2 ^ 8 % 2 ^ 8
    ∷ e.dst_ip / 2 ^ 16 % 2 ^ 8
    ∷ e.dst_ip / 2 ^ 24
    ∷ e.sport % 2 ^ 8
    ∷ e.sport / 2 ^ 8
    ∷ e.dport % 2 ^ 8
    ∷ e.dport / 2 ^ 8
    ∷ e.protocol
    ∷ e.tcp_flags
    ∷ e.ttl
    ∷ e.action
    ∷ e.icmp_type
    ∷ e.icmp_code
    ∷ 0
    ∷ 0
    ∷ 0
    ∷ 0
    ∷ 0
    ∷ 0
    ∷ []

split16 : (n : ℕ) → n % 2 ^ 8 + 2 ^ 8 * (n / 2 ^ 8) ≡ n
split16 n = omega arith

split32 :
    (n : ℕ)
    → n % 2 ^ 8 + 2 ^ 8 * (n / 2 ^ 8 % 2 ^ 8) + 2 ^ 16 * (n / 2 ^ 16 % 2 ^ 8 + 2 ^ 8 * (n / 2 ^ 24))
      ≡ n
split32 n = omega arith

split64 :
    (n : ℕ)
    → n % 2 ^ 8
        + 2 ^ 8 * (n / 2 ^ 8 % 2 ^ 8)
        + 2 ^ 16 * (n / 2 ^ 16 % 2 ^ 8 + 2 ^ 8 * (n / 2 ^ 24 % 2 ^ 8))
        + 2 ^ 32
          * (n / 2 ^ 32 % 2 ^ 8
              + 2 ^ 8 * (n / 2 ^ 40 % 2 ^ 8)
              + 2 ^ 16 * (n / 2 ^ 48 % 2 ^ 8 + 2 ^ 8 * (n / 2 ^ 56)))
      ≡ n
split64 n = omega arith

-- An event laid out in memory, with anything behind it, is read back with all its fields.
pub parse_ringbuf_event-memory :
    (e : Event) (rest : Text) → parse_ringbuf_event (memory e ++ rest) ≡ ok e
unfolding parse_ringbuf_event
parse_ringbuf_event-memory e rest =
    ground
      (arith, split64 e.ts_ns, split32 e.src_ip, split32 e.dst_ip, split16 e.sport, split16 e.dport)
