-- ===== src/Core/Event.antt =====
-- core/event_formatter.h: the text of an event. A text is a list of bytes; the addresses' texts come
-- from util/ipv4.cpp.
pub mod Memory
pub mod Tests
use k_watch.Prelude.{
  ℕ, ◌+◌, ◌*◌, ◌^◌, Option, none, some, List, [], ◌∷◌, ◌++◌, Bool, true, false, not, ltb, ◌==◌,
  if◌then◌else◌, length, get_or, drop, bit_and,
}
use k_watch.Prelude.Text.{Text, codes}
use k_watch.Util.Result.{Result, ok, err}
use k_watch.Util.Numbers.{to_string}
use k_watch.Util.Ipv4.{format}
use k_watch.Bpf.Shared.{Event}
use k_watch.Bpf.RingBuf.{event_size}

pub data EventOutputFormat : Type 0 where
  text json : EventOutputFormat

abbrev byte : Text → ℕ → ℕ
byte b i = get_or b i 0

-- words in memory, with the low byte first
abbrev word16 : Text → ℕ → ℕ
word16 b i = byte b i + 2 ^ 8 * byte b (i + 1)

abbrev word32 : Text → ℕ → ℕ
word32 b i = word16 b i + 2 ^ 16 * word16 b (i + 2)

abbrev word64 : Text → ℕ → ℕ
word64 b i = word32 b i + 2 ^ 32 * word32 b (i + 4)

-- The places of the fields follow from the declaration of `kwatch_event`.
unfoldable pub parse_ringbuf_event : Text → Result Event
parse_ringbuf_event b =
    if ltb (length b) event_size
    then err "event buffer too small"
    else ok (record {
      ts_ns = word64 b 0;
      src_ip = word32 b 8;
      dst_ip = word32 b 12;
      sport = word16 b 16;
      dport = word16 b 18;
      protocol = byte b 20;
      tcp_flags = byte b 21;
      ttl = byte b 22;
      action = byte b 23;
      icmp_type = byte b 24;
      icmp_code = byte b 25;
    })

unfoldable pub event_proto_name : ℕ → Text
event_proto_name protocol =
    if protocol == 1
    then codes "ICMP"
    else if protocol == 6
    then codes "TCP"
    else if protocol == 17
    then codes "UDP"
    else codes "OTHER"

abbrev pub flag_char : ℕ → ℕ → ℕ → Text
flag_char flags bit c = if not (bit_and flags bit == 0) then c ∷ [] else []

abbrev pub or_dash : Text → Text
or_dash [] = b'-' ∷ []
or_dash (c ∷ s) = c ∷ s

unfoldable pub format_tcp_flags : ℕ → Text
format_tcp_flags flags = or_dash (
    flag_char flags 0x02 b'S'
    ++ (flag_char flags 0x10 b'A'
        ++ (flag_char flags 0x08 b'P' ++ (flag_char flags 0x01 b'F' ++ flag_char flags 0x04 b'R'))))

abbrev pub concat : List Text → Text
concat [] = []
concat (s ∷ l) = s ++ concat l

-- a double quote
abbrev quote : Text
quote = 34 ∷ []

module _ (inet_ntop : ℕ → Option Text) where
  -- `"name":` and a number, with the comma ahead
  abbrev number_field : Text → ℕ → Text
  number_field name n = concat ((b',' ∷ []) ∷ quote ∷ name ∷ quote ∷ (b':' ∷ []) ∷ to_string n ∷ [])

  abbrev string_field : Text → Text → Text
  string_field name s = concat (quote ∷ name ∷ quote ∷ (b':' ∷ []) ∷ quote ∷ s ∷ quote ∷ [])

  unfoldable pub format_json : Event → Text → Text
  format_json e timestamp = concat (
      (b'{' ∷ [])
      ∷ string_field (codes "ts") timestamp
      ∷ number_field (codes "ts_ns") e.ts_ns
      ∷ (b',' ∷ [])
      ∷ string_field (codes "src_ip") (format inet_ntop e.src_ip)
      ∷ (b',' ∷ [])
      ∷ string_field (codes "dst_ip") (format inet_ntop e.dst_ip)
      ∷ number_field (codes "sport") e.sport
      ∷ number_field (codes "dport") e.dport
      ∷ number_field (codes "protocol") e.protocol
      ∷ number_field (codes "tcp_flags") e.tcp_flags
      ∷ number_field (codes "icmp_type") e.icmp_type
      ∷ number_field (codes "icmp_code") e.icmp_code
      ∷ number_field (codes "ttl") e.ttl
      ∷ (b',' ∷ [])
      ∷ string_field (codes "action") (if e.action == 1 then codes "drop" else codes "pass")
      ∷ (b'}' ∷ [])
      ∷ [])

  unfoldable pub format_text : Event → Text → Text
  unfolding event_proto_name format_tcp_flags
  format_text e timestamp = concat (
      timestamp
      ∷ codes " "
      ∷ event_proto_name e.protocol
      ∷ codes " "
      ∷ format inet_ntop e.src_ip
      ∷ codes ":"
      ∷ to_string e.sport
      ∷ codes " -> "
      ∷ format inet_ntop e.dst_ip
      ∷ codes ":"
      ∷ to_string e.dport
      ∷ codes " flags="
      ∷ format_tcp_flags e.tcp_flags
      ∷ codes " ttl="
      ∷ to_string e.ttl
      ∷ (if e.protocol == 1
          then concat
              (codes " type=" ∷ to_string e.icmp_type ∷ codes " code=" ∷ to_string e.icmp_code ∷ [])
          else [])
      ∷ [])

  unfoldable pub format_event : Event → EventOutputFormat → Text → Text
  unfolding format_json format_text
  format_event e json timestamp = format_json e timestamp
  format_event e text timestamp = format_text e timestamp

  unfoldable pub parse_and_format_event : Text → EventOutputFormat → Text → Result Text
  unfolding parse_ringbuf_event format_event
  parse_and_format_event bytes f timestamp = elim (parse_ringbuf_event bytes) [
    | err e ↦ err e
    | ok e ↦ ok (format_event e f timestamp)
  ]
