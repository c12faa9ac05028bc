-- ===== src/Util/Numbers.antt =====
-- `std::stoul` and `std::stoi` in base 10 and `std::to_string`, as the C++ standard has them: white
-- space, a sign and digits are read, and the number of characters read is returned; no digits and a
-- value out of range throw, which is `none`.
pub mod RoundTrip
use k_watch.Prelude.{
  ℕ, zero, suc, ◌+◌, ◌-◌, ◌*◌, ◌/◌, ◌%◌, ◌^◌, Option, none, some, List, [], ◌∷◌, ◌++◌, Bool, true,
  false, ◌&&◌, ◌||◌, ltb, leb, ◌==◌, if◌then◌else◌, u64,
}
use k_watch.Prelude.Text.{Text}

abbrev pub is_digit : ℕ → Bool
is_digit c = leb b'0' c && leb c b'9'

-- `isspace` in the C locale
abbrev pub is_space : ℕ → Bool
is_space c = c == 32 || (leb 9 c && leb c 13)

pub record Scan : Type 0 where
  pub negative : Bool
  pub magnitude : ℕ
  pub pos : ℕ

-- the digits from here on: their value after `n`, and the place where they end
unfoldable pub scan_digits : Text → ℕ → ℕ → ℕ × ℕ
scan_digits [] n pos = (n, pos)
scan_digits (c ∷ s) n pos =
    let rest = scan_digits s (n * 10 + (c - 48)) (pos + 1) in if is_digit c then rest else (n, pos)

-- A number starts with a digit.
scan_unsigned : Text → Bool → ℕ → Option Scan
unfolding scan_digits
scan_unsigned [] negative pos = none
scan_unsigned (c ∷ s) negative pos =
    let (n, end) = scan_digits (c ∷ s) 0 pos in
    if is_digit c then some (record { negative = negative; magnitude = n; pos = end }) else none

scan_signed : Text → ℕ → Option Scan
unfolding scan_unsigned
scan_signed [] pos = none
scan_signed (c ∷ s) pos =
    if c == b'-'
    then scan_unsigned s true (pos + 1)
    else if c == b'+'
    then scan_unsigned s false (pos + 1)
    else scan_unsigned (c ∷ s) false pos

unfoldable pub scan : Text → ℕ → Option Scan
unfolding scan_signed
scan [] pos = none
scan (c ∷ s) pos =
    let rest = scan s (pos + 1) in if is_space c then rest else scan_signed (c ∷ s) pos

-- `unsigned long` has 64 bits, and a minus sign negates in it.
abbrev as_unsigned : Option Scan → Option (ℕ × ℕ)
as_unsigned none = none
as_unsigned (some r) =
    if ltb r.magnitude (2 ^ 64)
    then some (if r.negative then u64 (2 ^ 64 - r.magnitude) else r.magnitude, r.pos)
    else none

unfoldable pub stoul : Text → Option (ℕ × ℕ)
unfolding scan
stoul s = as_unsigned (scan s 0)

-- The sign, the magnitude and the end of an `int`.
abbrev as_int : Option Scan → Option Scan
as_int none = none
as_int (some r) =
    if leb r.magnitude (if r.negative then 2 ^ 31 else 2 ^ 31 - 1) then some r else none

unfoldable pub stoi : Text → Option Scan
unfolding scan
stoi s = as_int (scan s 0)

-- the decimal digits; a fuel above `n` is enough
unfoldable pub digits : ℕ → ℕ → Text
digits zero n = []
digits (suc f) n =
    let front = digits f (n / 10) in
    if ltb n 10 then (48 + n) ∷ [] else front ++ ((48 + n % 10) ∷ [])

unfoldable pub to_string : ℕ → Text
unfolding digits
to_string n = digits (suc n) n
