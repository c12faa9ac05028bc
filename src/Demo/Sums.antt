-- ===== src/Demo/Sums.antt =====
-- The checksums of the packets that are sent.
use k_watch.Prelude.{ℕ, ◌<◌, ◌≡◌, refl, [], ◌∷◌, ◌++◌, arith, replicate}
use k_watch.Prelude.Text.{Text}
use k_watch.Demo.Checksum.{checksum, csum}
use k_watch.Demo.Checksum.Fill.{csum-filled, checksum-filled}
use k_watch.Demo.Packets.{
  ip_check, tcp_check, ip_header, tcp_header, pseudo_header, le16, be16, loopback, address_bytes,
  ping_packet,
}

abbrev tcp_front : ℕ → ℕ → ℕ → Text
tcp_front daddr source dest =
    pseudo_header daddr
    ++ (be16 source ++ (be16 dest ++ (0 ∷ 0 ∷ 0 ∷ 0 ∷ 0 ∷ 0 ∷ 0 ∷ 0 ∷ 80 ∷ 2 ∷ 22 ∷ 208 ∷ [])))

ip_check-sum : (daddr : ℕ) → csum (ip_header (le16 (ip_check daddr)) daddr) ≡ 0
unfolding ip_check
ip_check-sum daddr =
    csum-filled (69 ∷ 0 ∷ 0 ∷ 40 ∷ 212 ∷ 49 ∷ 0 ∷ 0 ∷ 255 ∷ 6 ∷ [])
      (loopback ++ address_bytes daddr) (ground arith) (ground arith) refl (omega arith)

tcp_check-sum :
    (daddr source dest : ℕ)
    → source < 65536
    → dest < 65536
    → csum (pseudo_header daddr ++ tcp_header source dest (le16 (tcp_check daddr source dest))) ≡ 0
unfolding tcp_check
tcp_check-sum daddr source dest a b =
    csum-filled (tcp_front daddr source dest) (0 ∷ 0 ∷ []) (ground arith) (ground arith) refl
      (omega arith)

ping_packet-sum : (seq : ℕ) → seq < 65536 → checksum (ping_packet seq) ≡ 0
unfolding ping_packet
ping_packet-sum seq a =
    checksum-filled (8 ∷ 0 ∷ []) ((4 ∷ 210 ∷ []) ++ (be16 seq ++ replicate 56 0)) (ground arith)
      (ground arith) refl

-- With ports and a sequence number of 16 bits, whatever the address: the IP header of a datagram
-- of syn_flood, its TCP header behind the pseudo header, and a packet of ping_flood each sum up to
-- the checksum 0, with the checksum that was computed filled in.
pub packet_sums :
    (daddr source dest seq : ℕ)
    → source < 65536
    → dest < 65536
    → seq < 65536
    → (csum (ip_header (le16 (ip_check daddr)) daddr) ≡ 0)
      × (csum (pseudo_header daddr ++ tcp_header source dest (le16 (tcp_check daddr source dest)))
          ≡ 0)
      × (checksum (ping_packet seq) ≡ 0)
packet_sums daddr source dest seq a b c =
    (ip_check-sum daddr, tcp_check-sum daddr source dest a b, ping_packet-sum seq c)
