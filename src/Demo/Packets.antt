-- ===== src/Demo/Packets.antt =====
-- The packets of src/demo/ping_flood.cpp, syn_flood.cpp and udp_storm.cpp, as bytes.
use k_watch.Prelude.{ℕ, ◌+◌, ◌/◌, ◌%◌, [], ◌∷◌, ◌++◌, ◌==◌, if◌then◌else◌, u16, replicate}
use k_watch.Prelude.Text.{Text}
use k_watch.Demo.Checksum.{checksum, csum}

-- a 16-bit field after `htons`, and one that is stored as the host has it
abbrev pub be16 : ℕ → Text
be16 n = (n / 256) ∷ (n % 256) ∷ []

abbrev pub le16 : ℕ → Text
le16 n = (n % 256) ∷ (n / 256) ∷ []

-- the bytes of `sin_addr.s_addr`, the lowest first
abbrev pub address_bytes : ℕ → Text
address_bytes a = (a % 256) ∷ (a / 256 % 256) ∷ (a / 65536 % 256) ∷ (a / 16777216 % 256) ∷ []

abbrev pub loopback : Text
loopback = 127 ∷ 0 ∷ 0 ∷ 1 ∷ []

-- `ihl` 5 and `version` 4, `tos`, `tot_len` 40, `id` 54321, `frag_off`, `ttl`, `protocol`, `check`,
-- `saddr`, `daddr`
abbrev pub ip_header : Text → ℕ → Text
ip_header check daddr =
    (69 ∷ 0 ∷ 0 ∷ 40 ∷ 212 ∷ 49 ∷ 0 ∷ 0 ∷ 255 ∷ 6 ∷ [])
    ++ (check ++ (loopback ++ address_bytes daddr))

-- `source`, `dest`, `seq`, `ack_seq`, `doff` 5, the flags with only `syn` set, `window` 5840, `check`,
-- `urg_ptr`
abbrev pub tcp_header : ℕ → ℕ → Text → Text
tcp_header source dest check =
    be16 source
    ++ (be16 dest
        ++ ((0 ∷ 0 ∷ 0 ∷ 0 ∷ 0 ∷ 0 ∷ 0 ∷ 0 ∷ 80 ∷ 2 ∷ 22 ∷ 208 ∷ []) ++ (check ++ (0 ∷ 0 ∷ []))))

-- the pseudo header: both addresses, `placeholder`, `protocol` and `tcp_length` 20
abbrev pub pseudo_header : ℕ → Text
pseudo_header daddr = loopback ++ (address_bytes daddr ++ (0 ∷ 6 ∷ 0 ∷ 20 ∷ []))

unfoldable pub ip_check : ℕ → ℕ
unfolding csum
ip_check daddr = csum (ip_header (0 ∷ 0 ∷ []) daddr)

unfoldable pub tcp_check : ℕ → ℕ → ℕ → ℕ
unfolding csum
tcp_check daddr source dest = csum (pseudo_header daddr ++ tcp_header source dest (0 ∷ 0 ∷ []))

-- the 40 bytes that are sent
unfoldable pub syn_datagram : ℕ → ℕ → ℕ → Text
unfolding ip_check tcp_check
syn_datagram daddr source dest =
    ip_header (le16 (ip_check daddr)) daddr
    ++ tcp_header source dest (le16 (tcp_check daddr source dest))

-- `sport_base++`, and back to 1024 where it wraps
unfoldable pub next_port : ℕ → ℕ
next_port sport_base = if u16 (sport_base + 1) == 0 then 1024 else u16 (sport_base + 1)

-- `type` ICMP_ECHO, `code`, `checksum`, `id` 1234, `sequence`, and 56 zeros
abbrev pub echo : Text → ℕ → Text
echo check seq = (8 ∷ 0 ∷ []) ++ (check ++ ((4 ∷ 210 ∷ []) ++ (be16 seq ++ replicate 56 0)))

unfoldable pub ping_packet : ℕ → Text
unfolding checksum
ping_packet seq = echo (be16 (checksum (echo (0 ∷ 0 ∷ []) seq))) seq

abbrev pub udp_payload : Text
udp_payload = replicate 1024 b'A'
