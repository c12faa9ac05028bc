-- ===== src/Demo/Kernel.antt =====
-- A datagram of syn_flood.cpp on the wire, read by the kernel program.
use k_watch.Prelude.{ℕ, ◌^◌, ◌<◌, ◌≡◌, some, List, arith}
use k_watch.Bpf.Packet.{
  packet, load_be16, load32, parse_ipv4, parse_l3, parse_l2, parse, load_tcp, flow_l4, no_l4,
  Packet,
}
use k_watch.Bpf.Packet.Frames.{Addresses, ethernet}
use k_watch.Demo.Packets.{syn_datagram}

abbrev pub syn_frame : Addresses → ℕ → ℕ → ℕ → List ℕ
syn_frame m daddr source dest = ethernet m 0x08 0x00 (syn_datagram daddr source dest)

-- what the kernel reads of it: from 127.0.0.1, with the time to live 255
abbrev pub syn_packet : ℕ → Packet
syn_packet daddr = record { l4 = 34; proto = 6; ttl = 255; src_ip = 0x0100007f; dst_ip = daddr }

-- A datagram of syn_flood behind an Ethernet header, with a 32-bit address and 16-bit ports, is
-- read by the kernel program as a TCP packet from 127.0.0.1 to that address with the time to live
-- 255, and its flow has these ports and the flag SYN alone.
pub parse-syn_frame :
    (m : Addresses) (daddr source dest : ℕ)
    → daddr < 2 ^ 32
    → source < 65536
    → dest < 65536
    → (parse (syn_frame m daddr source dest) ≡ some (packet (syn_packet daddr)))
      × (flow_l4 (syn_frame m daddr source dest) (syn_packet daddr)
          ≡ some (record no_l4 { sport = source; dport = dest; tcp_flags = 2 }))
unfolding syn_datagram parse parse_l2 parse_l3 parse_ipv4 load_be16 load32 flow_l4 load_tcp
parse-syn_frame m daddr source dest a b c = (ground arith, ground arith)
