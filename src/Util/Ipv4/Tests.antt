-- ===== src/Util/Ipv4/Tests.antt =====
-- `parse_cidr` on the inputs of tests/unit/ipv4_test.cpp, with stand-ins for `inet_pton` and
-- `inet_ntop` that print an address as one decimal number.
use k_watch.Prelude.{
  ℕ, ◌^◌, ◌<◌, ◌≡◌, refl, Option, none, some, [], ◌∷◌, ◌++◌, true, ltb, ◌==◌, if◌then◌else◌, arith,
  length, All,
}
use k_watch.Prelude.Text.{Text, codes}
use k_watch.Util.Result.{ok, err}
use k_watch.Util.Numbers.{stoi, stoul, to_string, is_digit}
use k_watch.Util.Numbers.RoundTrip.{stoul-to_string, to_string-AllDigits}
use k_watch.Util.Ipv4.{find_char, parse_cidr, format}
use k_watch.Util.Ipv4.Cidr.{IsInet, parse_cidr-format}

-- a whole number below 2^32
abbrev pub read_word : Text → Option (ℕ × ℕ) → Option ℕ
read_word s none = none
read_word s (some (n, pos)) =
    if pos == length s then (if ltb n (2 ^ 32) then some n else none) else none

abbrev pub pton : Text → Option ℕ
pton s = read_word s (stoul s)

abbrev pub ntop : ℕ → Option Text
ntop a = some (to_string a)

digits-no_slash : (s : Text) → All (λ c. is_digit c ≡ true) s → find_char b'/' s ≡ none
unfolding find_char
digits-no_slash [] d = refl
digits-no_slash (c ∷ s) (d, ds) = ground (arith, digits-no_slash s ds)

inet_reads : (a : ℕ) (s : Text) → a < 2 ^ 32 → ntop a ≡ some s → pton s ≡ some a
inet_reads a s h e = ground (arith, stoul-to_string a)

inet_no_slash : (a : ℕ) (s : Text) → ntop a ≡ some s → find_char b'/' s ≡ none
inet_no_slash a s e = ground (arith, digits-no_slash (to_string a) (to_string-AllDigits a))

inet_below : (a : ℕ) (s : Text) → pton s ≡ some a → a < 2 ^ 32
inet_below a s e = ground arith

pub inet : IsInet pton ntop
inet = record {
  reads = inet_reads;
  no_slash = inet_no_slash;
  prints = λ a h e. ground arith;
  below = inet_below;
}

parse_cidr_slash : parse_cidr pton (codes "10/8") ≡ ok (10, 8)
unfolding parse_cidr stoul stoi
parse_cidr_slash = refl

parse_cidr_no_slash : parse_cidr pton (codes "10") ≡ ok (10, 32)
unfolding parse_cidr stoul
parse_cidr_no_slash = refl

parse_cidr_out_of_range : parse_cidr pton (codes "10/33") ≡ err "Prefix out of range"
unfolding parse_cidr stoul stoi
parse_cidr_out_of_range = refl

parse_cidr_trailing : parse_cidr pton (codes "10/8junk") ≡ err "Invalid prefix in CIDR"
unfolding parse_cidr stoul stoi
parse_cidr_trailing = refl

parse_cidr_missing_prefix : parse_cidr pton (codes "10/") ≡ err "Invalid prefix in CIDR"
unfolding parse_cidr stoul stoi
parse_cidr_missing_prefix = refl

parse_cidr-format_example : parse_cidr pton (format ntop 10 ++ (b'/' ∷ to_string 8)) ≡ ok (10, 8)
parse_cidr-format_example = parse_cidr-format pton ntop inet 10 8 (omega arith) (omega arith)
