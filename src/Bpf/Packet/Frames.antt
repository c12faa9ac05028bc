-- ===== src/Bpf/Packet/Frames.antt =====
-- Frames as a sender lays them out, and what the kernel program reads from them.
use k_watch.Prelude.{ℕ, ◌+◌, ◌*◌, ◌<◌, ◌≤◌, ◌≡◌, some, List, ◌∷◌, arith, length}
use k_watch.Bpf.Packet.{
  Frame, Packet, packet, load_be16, load32, parse_ipv4, parse_l3, parse_l2, parse,
}

-- the twelve bytes of the Ethernet addresses
pub record Addresses : Type 0 where
  pub a0 : ℕ
  pub a1 : ℕ
  pub a2 : ℕ
  pub a3 : ℕ
  pub a4 : ℕ
  pub a5 : ℕ
  pub a6 : ℕ
  pub a7 : ℕ
  pub a8 : ℕ
  pub a9 : ℕ
  pub a10 : ℕ
  pub a11 : ℕ

-- An Ethernet header of the EtherType `hi lo`, and what follows it.
abbrev pub ethernet : Addresses → ℕ → ℕ → List ℕ → Frame
ethernet m hi lo rest =
    m.a0 ∷ m.a1 ∷ m.a2 ∷ m.a3 ∷ m.a4 ∷ m.a5 ∷ m.a6 ∷ m.a7 ∷ m.a8 ∷ m.a9 ∷ m.a10 ∷ m.a11 ∷ hi ∷ lo
    ∷ rest

-- the bytes of an IPv4 header that stand between the fields that are read
pub record Ipv4 : Type 0 where
  pub ihl : ℕ
  pub tos : ℕ
  pub len_hi : ℕ
  pub len_lo : ℕ
  pub id_hi : ℕ
  pub id_lo : ℕ
  pub frag_hi : ℕ
  pub frag_lo : ℕ
  pub ttl : ℕ
  pub protocol : ℕ
  pub check_hi : ℕ
  pub check_lo : ℕ
  pub s0 : ℕ
  pub s1 : ℕ
  pub s2 : ℕ
  pub s3 : ℕ
  pub d0 : ℕ
  pub d1 : ℕ
  pub d2 : ℕ
  pub d3 : ℕ

-- The twenty bytes of the header, and what follows: options, if `ihl` is above 5, and the payload.
abbrev pub ipv4 : Ipv4 → List ℕ → List ℕ
ipv4 h rest =
    (64 + h.ihl)
    ∷ h.tos
    ∷ h.len_hi
    ∷ h.len_lo
    ∷ h.id_hi
    ∷ h.id_lo
    ∷ h.frag_hi
    ∷ h.frag_lo
    ∷ h.ttl
    ∷ h.protocol
    ∷ h.check_hi
    ∷ h.check_lo
    ∷ h.s0
    ∷ h.s1
    ∷ h.s2
    ∷ h.s3
    ∷ h.d0
    ∷ h.d1
    ∷ h.d2
    ∷ h.d3
    ∷ rest

-- an address as the program holds it: the first byte lowest
abbrev pub address : ℕ → ℕ → ℕ → ℕ → ℕ
address b0 b1 b2 b3 = b0 + 256 * b1 + 65536 * b2 + 16777216 * b3

-- the fields of the header, with the transport header at offset `l3 + ihl * 4`
abbrev pub fields : Ipv4 → ℕ → Packet
fields h l3 = record {
  l4 = l3 + h.ihl * 4;
  proto = h.protocol;
  ttl = h.ttl;
  src_ip = address h.s0 h.s1 h.s2 h.s3;
  dst_ip = address h.d0 h.d1 h.d2 h.d3;
}

-- A frame with an IPv4 header whose length is at least five words and fits the frame: the program
-- reads the protocol, the time to live and both addresses, and finds the transport header behind
-- the options.
pub parse-ethernet-ipv4 :
    (m : Addresses) (h : Ipv4) (rest : List ℕ)
    → 5 ≤ h.ihl
    → h.ihl < 16
    → h.ihl * 4 ≤ 20 + length rest
    → parse (ethernet m 0x08 0x00 (ipv4 h rest)) ≡ some (packet (fields h 14))
unfolding parse parse_l2 parse_l3 parse_ipv4 load_be16 load32
parse-ethernet-ipv4 m h rest lo hi room = ground arith

-- The same of a frame with one VLAN tag, of either kind: an IPv4 header whose length is at least
-- five words and fits the frame is read with its protocol, time to live and addresses, and the
-- transport header is found behind the options.
pub parse-vlan-ipv4 :
    (m : Addresses) (tag_hi tag_lo : ℕ) (h : Ipv4) (rest : List ℕ)
    → 5 ≤ h.ihl
    → h.ihl < 16
    → h.ihl * 4 ≤ 20 + length rest
    → (parse (ethernet m 0x81 0x00 (tag_hi ∷ tag_lo ∷ 0x08 ∷ 0x00 ∷ ipv4 h rest))
        ≡ some (packet (fields h 18)))
      × (parse (ethernet m 0x88 0xA8 (tag_hi ∷ tag_lo ∷ 0x08 ∷ 0x00 ∷ ipv4 h rest))
          ≡ some (packet (fields h 18)))
unfolding parse parse_l2 parse_l3 parse_ipv4 load_be16 load32
parse-vlan-ipv4 m tag_hi tag_lo h rest lo hi room = (ground arith, ground arith)
