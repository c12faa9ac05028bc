-- ===== src/Core/Event/Tests.antt =====
-- The events of tests/unit/event_formatter_test.cpp, with a stand-in for `inet_ntop`.
use k_watch.Prelude.{ℕ, ◌≡◌, refl, Option, some}
use k_watch.Prelude.Text.{Text, codes}
use k_watch.Util.Numbers.{to_string}
use k_watch.Bpf.Shared.{Event}
use k_watch.Core.Event.{text, format_tcp_flags, format_event}
use k_watch.Util.Ipv4.{format}

abbrev tcp_event : Event
tcp_event = record {
  ts_ns = 123456789;
  src_ip = 16777343;
  dst_ip = 7;
  sport = 12345;
  dport = 443;
  protocol = 6;
  tcp_flags = 0x12;
  ttl = 64;
  action = 0;
  icmp_type = 0;
  icmp_code = 0;
}

abbrev dotted : ℕ → Option Text
dotted a = some (codes "x")

syn_ack : format_tcp_flags 0x12 ≡ codes "SA"
unfolding format_tcp_flags
syn_ack = refl

no_flags : format_tcp_flags 0 ≡ codes "-"
unfolding format_tcp_flags
no_flags = refl

tcp_text :
    format_event dotted tcp_event text (codes "12:00:00")
    ≡ codes "12:00:00 TCP x:12345 -> x:443 flags=SA ttl=64"
unfolding format_event to_string format
tcp_text = refl
