-- ===== src/Bpf/Packet.antt =====
-- bpf/kwatch.bpf.c, the part that reads the frame. Pointers are offsets into the bytes between
-- `data` and `data_end`; a read outside them is `none`. The header sizes and field offsets are those
-- of the wire formats; addresses are loaded as a little-endian host does.
pub mod Safety
pub mod Frames
use k_watch.Prelude.{
  ℕ, ◌+◌, ◌*◌, ◌/◌, ◌%◌, Option, none, some, List, Bool, true, false, not, ◌||◌, ltb, leb, ◌==◌,
  if◌then◌else◌, length, get_elem?,
}

infixl 5 ◌>>=◌
abbrev pub ◌>>=◌ : {A B : Type 0} → Option A → (A → Option B) → Option B
none >>= f = none
some a >>= f = f a

abbrev pub Frame : Type 0
Frame = List ℕ

-- a big-endian field after `bpf_ntohs`
unfoldable pub load_be16 : Frame → ℕ → Option ℕ
load_be16 b p = do hi ← get_elem? b p; lo ← get_elem? b (p + 1); some (hi * 256 + lo)

unfoldable pub load32 : Frame → ℕ → Option ℕ
load32 b p = do
  b0 ← get_elem? b p
  b1 ← get_elem? b (p + 1)
  b2 ← get_elem? b (p + 2)
  b3 ← get_elem? b (p + 3)
  some (b0 + 256 * b1 + 65536 * b2 + 16777216 * b3)

-- ETH_P_IP, ETH_P_IPV6, ETH_P_ARP, ETH_P_8021Q, ETH_P_8021AD, IPPROTO_*
abbrev pub eth_p_ip : ℕ
eth_p_ip = 0x0800

abbrev pub eth_p_ipv6 : ℕ
eth_p_ipv6 = 0x86DD

abbrev pub eth_p_arp : ℕ
eth_p_arp = 0x0806

abbrev pub eth_p_8021q : ℕ
eth_p_8021q = 0x8100

abbrev pub eth_p_8021ad : ℕ
eth_p_8021ad = 0x88A8

abbrev pub ipproto_icmp : ℕ
ipproto_icmp = 1

abbrev pub ipproto_tcp : ℕ
ipproto_tcp = 6

abbrev pub ipproto_udp : ℕ
ipproto_udp = 17

-- What the program has read when it comes to the blacklist.
pub record Packet : Type 0 where
  pub l4 : ℕ
  pub proto : ℕ
  pub ttl : ℕ
  pub src_ip : ℕ
  pub dst_ip : ℕ

-- `ignore`: XDP_PASS at once. `count_only k`: `inc_count(k)`, then XDP_PASS.
pub data Parsed : Type 0 where
  ignore : Parsed
  count_only : ℕ → Parsed
  packet : Packet → Parsed

unfoldable pub parse_ipv4 : Frame → ℕ → Option Parsed
parse_ipv4 b l3 = if ltb (length b) (l3 + 20) then some ignore else (do
  vihl ← get_elem? b l3
  let ihl = vihl % 16
  let l4 = l3 + ihl * 4
  if not (vihl / 16 == 4)
      then some ignore
      else if ltb ihl 5
      then some ignore
      else if ltb (length b) l4
      then some ignore
      else (do
        proto ← get_elem? b (l3 + 9)
        src ← load32 b (l3 + 12)
        dst ← load32 b (l3 + 16)
        ttl ← get_elem? b (l3 + 8)
        some (packet (record { l4 = l4; proto = proto; ttl = ttl; src_ip = src; dst_ip = dst }))))

unfoldable pub parse_l3 : Frame → ℕ → ℕ → Option Parsed
parse_l3 b eth_type l3 =
    if not (eth_type == eth_p_ip)
    then (if eth_type == eth_p_ipv6
        then some (count_only 0x86DD)
        else if eth_type == eth_p_arp
        then some (count_only 0x0806)
        else some ignore)
    else parse_ipv4 b l3

-- a frame with the EtherType that its Ethernet header has: one VLAN tag is passed over
unfoldable pub parse_l2 : Frame → ℕ → Option Parsed
parse_l2 b eth_type =
    if eth_type == eth_p_8021q || eth_type == eth_p_8021ad
    then (if ltb (length b) (14 + 4)
        then some ignore
        else (do inner ← load_be16 b (14 + 2); parse_l3 b inner (14 + 4)))
    else parse_l3 b eth_type 14

unfoldable pub parse : Frame → Option Parsed
parse b =
    if ltb (length b) 14 then some ignore else (do eth_type ← load_be16 b 12; parse_l2 b eth_type)

-- The fields behind the IP header that the program reads where there is room for the header.
pub record L4 : Type 0 where
  pub sport : ℕ
  pub dport : ℕ
  pub tcp_flags : ℕ
  pub icmp_type : ℕ
  pub icmp_code : ℕ

abbrev pub no_l4 : L4
no_l4 = record { sport = 0; dport = 0; tcp_flags = 0; icmp_type = 0; icmp_code = 0 }

unfoldable pub load_tcp : Frame → ℕ → Option L4
load_tcp b l4 =
    if leb (l4 + 20) (length b)
    then (do
      sport ← load_be16 b l4
      dport ← load_be16 b (l4 + 2)
      flags ← get_elem? b (l4 + 13)
      some (record no_l4 { sport = sport; dport = dport; tcp_flags = flags }))
    else some no_l4

unfoldable pub load_udp : Frame → ℕ → Option L4
load_udp b l4 =
    if leb (l4 + 8) (length b)
    then (do
      sport ← load_be16 b l4
      dport ← load_be16 b (l4 + 2)
      some (record no_l4 { sport = sport; dport = dport }))
    else some no_l4

unfoldable pub load_icmp : Frame → ℕ → Option L4
load_icmp b l4 =
    if leb (l4 + 8) (length b)
    then (do
      type ← get_elem? b l4
      code ← get_elem? b (l4 + 1)
      some (record no_l4 { icmp_type = type; icmp_code = code }))
    else some no_l4

-- the fields of an event, as `emit_event` reads them
unfoldable pub event_l4 : Frame → Packet → Option L4
event_l4 b p =
    if p.proto == ipproto_tcp
    then load_tcp b p.l4
    else if p.proto == ipproto_udp
    then load_udp b p.l4
    else if p.proto == ipproto_icmp
    then load_icmp b p.l4
    else some no_l4

-- the fields of a flow key, and the TCP flags
unfoldable pub flow_l4 : Frame → Packet → Option L4
flow_l4 b p =
    if p.proto == ipproto_tcp
    then load_tcp b p.l4
    else if p.proto == ipproto_udp
    then load_udp b p.l4
    else some no_l4
