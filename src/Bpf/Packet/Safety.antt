-- ===== src/Bpf/Packet/Safety.antt =====
-- No read of the kernel program leaves the frame.
use k_watch.Prelude.{
  ℕ, zero, suc, ◌+◌, ◌<◌, ◌≢◌, refl, dec_lt, Option, none, some, [], ◌∷◌, arith, length, get_elem?,
}
use k_watch.Bpf.Packet.{
  Frame, Packet, load_be16, load32, parse_ipv4, parse_l3, parse_l2, parse, load_tcp, load_udp,
  load_icmp, event_l4, flow_l4, ◌>>=◌,
}

get_elem?_in : (b : Frame) (p : ℕ) → p < length b → get_elem? b p ≢ none
get_elem?_in [] p h = elim h [ ]
get_elem?_in (x ∷ b) zero h = ground arith
get_elem?_in (x ∷ b) (suc p) h = get_elem?_in b p (omega arith)

load_be16_in : (b : Frame) (p : ℕ) → p + 1 < length b → load_be16 b p ≢ none
unfolding load_be16
load_be16_in b p h = ground (arith, get_elem?_in b p, get_elem?_in b (p + 1))

load32_in : (b : Frame) (p : ℕ) → p + 3 < length b → load32 b p ≢ none
unfolding load32
load32_in b p h = ground (
  arith,
  get_elem?_in b p,
  get_elem?_in b (p + 1),
  get_elem?_in b (p + 2),
  get_elem?_in b (p + 3),
)

parse_ipv4_in : (b : Frame) (l3 : ℕ) → parse_ipv4 b l3 ≢ none
unfolding parse_ipv4
parse_ipv4_in b l3 = ground (
  arith,
  get_elem?_in b l3,
  get_elem?_in b (l3 + 9),
  load32_in b (l3 + 12),
  load32_in b (l3 + 16),
  get_elem?_in b (l3 + 8),
)

parse_l3_in : (b : Frame) (eth_type l3 : ℕ) → parse_l3 b eth_type l3 ≢ none
unfolding parse_l3
parse_l3_in b eth_type l3 = ground (arith, parse_ipv4_in b l3)

bind_in :
    {A B : Type 0} (m : Option A) (f : A → Option B)
    → m ≢ none
    → ((a : A) → f a ≢ none)
    → (m >>= f) ≢ none
bind_in none f h k = absurd (h refl)
bind_in (some a) f h k = k a

parse_l2_in : (b : Frame) (eth_type : ℕ) → parse_l2 b eth_type ≢ none
unfolding parse_l2
parse_l2_in b eth_type = elim (dec_lt (length b) (14 + 4)) [
  | yes short ↦ ground (arith, parse_l3_in b eth_type 14)
  | no long ↦ ground (
    arith,
    parse_l3_in b eth_type 14,
    bind_in (load_be16 b (14 + 2)) (λ inner. parse_l3 b inner (14 + 4))
        (load_be16_in b (14 + 2) (omega arith)) (λ inner. parse_l3_in b inner (14 + 4)),
  )
]

-- Whatever the bytes of a frame and its length, reading the headers up to IPv4 stays inside it.
pub parse_in : (b : Frame) → parse b ≢ none
unfolding parse
parse_in b = elim (dec_lt (length b) 14) [
  | yes short ↦ ground arith
  | no long ↦ ground (
    arith,
    bind_in (load_be16 b 12) (parse_l2 b) (load_be16_in b 12 (omega arith)) (parse_l2_in b),
  )
]

load_tcp_in : (b : Frame) (l4 : ℕ) → load_tcp b l4 ≢ none
unfolding load_tcp
load_tcp_in b l4 =
    ground (arith, load_be16_in b l4, load_be16_in b (l4 + 2), get_elem?_in b (l4 + 13))

load_udp_in : (b : Frame) (l4 : ℕ) → load_udp b l4 ≢ none
unfolding load_udp
load_udp_in b l4 = ground (arith, load_be16_in b l4, load_be16_in b (l4 + 2))

load_icmp_in : (b : Frame) (l4 : ℕ) → load_icmp b l4 ≢ none
unfolding load_icmp
load_icmp_in b l4 = ground (arith, get_elem?_in b l4, get_elem?_in b (l4 + 1))

-- Reading the fields of an event stays inside the frame, and so does reading those of a flow key.
pub event_l4_in : (b : Frame) (p : Packet) → event_l4 b p ≢ none
unfolding event_l4
event_l4_in b p = ground (arith, load_tcp_in b p.l4, load_udp_in b p.l4, load_icmp_in b p.l4)

pub flow_l4_in : (b : Frame) (p : Packet) → flow_l4 b p ≢ none
unfolding flow_l4
flow_l4_in b p = ground (arith, load_tcp_in b p.l4, load_udp_in b p.l4)
