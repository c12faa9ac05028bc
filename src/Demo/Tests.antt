-- ===== src/Demo/Tests.antt =====
-- A flood of two datagrams, and checksums of short messages.
use k_watch.Prelude.{
  ℕ, zero, suc, ◌/◌, ◌%◌, ◌≡◌, ◌≢◌, Option, some, [], ◌∷◌, ◌++◌, Bool, true, arith,
}
use k_watch.Prelude.Text.{Text}
use k_watch.Bpf.Packet.{packet, parse, flow_l4, no_l4}
use k_watch.Bpf.Packet.Frames.{Addresses}
use k_watch.Demo.Checksum.{checksum, csum, csum_loop}
use k_watch.Demo.Checksum.Order.{checksum-csum}
use k_watch.Demo.Packets.{
  ip_check, tcp_check, ip_header, tcp_header, pseudo_header, le16, ping_packet,
}
use k_watch.Demo.Sums.{packet_sums}
use k_watch.Demo.Kernel.{syn_frame, syn_packet, parse-syn_frame}

abbrev ip : ℕ
ip = 0x0100007f

abbrev resolve : Text → Option ℕ
resolve t = some ip

abbrev clock : ℕ → ℕ
clock i = elim i [ zero ↦ 0 | suc k ↦ elim k [ zero ↦ 4 | suc j ↦ 5 ] ]

abbrev always : ℕ → Bool
always i = true

abbrev macs : Addresses
macs = record {
  a0 = 0;
  a1 = 1;
  a2 = 2;
  a3 = 3;
  a4 = 4;
  a5 = 5;
  a6 = 6;
  a7 = 7;
  a8 = 8;
  a9 = 9;
  a10 = 10;
  a11 = 11;
}

parse-syn_frame_example :
    (parse (syn_frame macs ip 1024 80) ≡ some (packet (syn_packet ip)))
    × (flow_l4 (syn_frame macs ip 1024 80) (syn_packet ip)
        ≡ some (record no_l4 { sport = 1024; dport = 80; tcp_flags = 2 }))
parse-syn_frame_example = parse-syn_frame macs ip 1024 80 (omega arith) (omega arith) (omega arith)

packet_sums_example :
    (csum (ip_header (le16 (ip_check ip)) ip) ≡ 0)
    × (csum (pseudo_header ip ++ tcp_header 1024 80 (le16 (tcp_check ip 1024 80))) ≡ 0)
    × (checksum (ping_packet 7) ≡ 0)
packet_sums_example = packet_sums ip 1024 80 7 (omega arith) (omega arith) (omega arith)

short-ne : csum_loop (1 ∷ 2 ∷ 3 ∷ []) ≢ 0
unfolding csum_loop
short-ne e = omega arith

checksum-csum_example :
    (checksum (1 ∷ 2 ∷ 3 ∷ []) / 256 ≡ csum (1 ∷ 2 ∷ 3 ∷ []) % 256)
    × (checksum (1 ∷ 2 ∷ 3 ∷ []) % 256 ≡ csum (1 ∷ 2 ∷ 3 ∷ []) / 256)
checksum-csum_example = checksum-csum (1 ∷ 2 ∷ 3 ∷ []) (ground arith) (omega arith) short-ne
