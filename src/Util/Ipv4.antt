-- ===== src/Util/Ipv4.antt =====
-- util/ipv4.cpp: addresses and prefixes as text. `inet_pton` (an address in network byte order, as a
-- 32-bit number) and `inet_ntop` are parameters.
pub mod Cidr
pub mod Tests
use k_watch.Prelude.{
  ℕ, zero, suc, ◌+◌, Option, none, some, List, [], ◌∷◌, Bool, not, ◌&&◌, ◌||◌, ltb, ◌==◌,
  if◌then◌else◌, length, take, drop, value_or,
}
use k_watch.Prelude.Text.{Text, codes}
use k_watch.Util.Result.{Result, ok, err}
use k_watch.Util.Numbers.{Scan, stoi}

-- `std::string::find` of a character
unfoldable pub find_char : ℕ → Text → Option ℕ
find_char c [] = none
find_char c (d ∷ s) =
    let rest = find_char c s in
    if d == c then some 0 else elim rest [ none ↦ none | some i ↦ some (suc i) ]

-- the part after the slash; `stoi` throws where it is `none`
unfoldable pub prefix_of : ℕ → Text → Result (ℕ × ℕ)
prefix_of ip part = elim (stoi part) [
  | none ↦ err "Invalid prefix in CIDR"
  | some r ↦
      if not (r.pos == length part)
      then err "Invalid prefix in CIDR"
      else if (r.negative && ltb 0 r.magnitude) || ltb 32 r.magnitude
      then err "Prefix out of range"
      else ok (ip, r.magnitude)
]

module _ (inet_pton : Text → Option ℕ) where
  unfoldable pub parse : Text → Result ℕ
  parse ip = elim (inet_pton ip) [ none ↦ err "Invalid IPv4 address format" | some a ↦ ok a ]

  -- an address without a slash
  unfoldable pub parse_host : Text → Result (ℕ × ℕ)
  unfolding parse
  parse_host cidr = elim (parse cidr) [ ok a ↦ ok (a, 32) | err e ↦ err "Invalid CIDR format" ]

  unfoldable pub parse_parts : Text → Text → Result (ℕ × ℕ)
  unfolding parse prefix_of
  parse_parts ip_part prefix_part = elim (parse ip_part) [
    | err e ↦ err "Invalid IP in CIDR"
    | ok ip ↦ prefix_of ip prefix_part
  ]

  unfoldable pub parse_cidr : Text → Result (ℕ × ℕ)
  unfolding find_char parse_host parse_parts
  parse_cidr cidr = elim (find_char b'/' cidr) [
    | none ↦ parse_host cidr
    | some slash_pos ↦ parse_parts (take slash_pos cidr) (drop (suc slash_pos) cidr)
  ]

-- `inet_ntop` prints an address, or fails
module _ (inet_ntop : ℕ → Option Text) where
  unfoldable pub format : ℕ → Text
  format ip = value_or (codes "<invalid>") (inet_ntop ip)
