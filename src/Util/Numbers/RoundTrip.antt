-- ===== src/Util/Numbers/RoundTrip.antt =====
-- What `to_string` prints, `stoul` and `stoi` read back whole.
use mathlib.Core.List.{append-nil}
use k_watch.Prelude.{
  ℕ, zero, suc, ◌+◌, ◌-◌, ◌*◌, ◌/◌, ◌%◌, ◌^◌, ◌<◌, ◌≤◌, ◌≡◌, ◌≢◌, refl, ap, sym, ◌∙◌, none, some,
  [], ◌∷◌, ◌++◌, true, false, ltb, arith, length, All, All-append, Bool-cases, inl, inr,
}
use k_watch.Prelude.Text.{Text}
use k_watch.Util.Numbers.{
  is_digit, scan_digits, scan_unsigned, scan_signed, scan, stoul, stoi, digits, to_string,
}

-- the value of digits, after `n`
abbrev value : Text → ℕ → ℕ
value [] n = n
value (c ∷ s) n = value s (n * 10 + (c - 48))

abbrev AllDigits : Text → Type 0
AllDigits = All (λ c. is_digit c ≡ true)

scan_digits-append :
    (s t : Text) (n pos : ℕ)
    → AllDigits s
    → scan_digits (s ++ t) n pos ≡ scan_digits t (value s n) (pos + length s)
unfolding scan_digits
scan_digits-append [] t n pos d = ap (scan_digits t n) (omega arith)
scan_digits-append (c ∷ s) t n pos (d, ds) = ground (
  arith,
  scan_digits-append s t (n * 10 + (c - 48)) (pos + 1) ds,
  ap (scan_digits t (value s (n * 10 + (c - 48)))) {x = pos + 1 + length s}
      {y = pos + suc (length s)} (omega arith),
)

value-append : (s t : Text) (n : ℕ) → value (s ++ t) n ≡ value t (value s n)
value-append [] t n = refl
value-append (c ∷ s) t n = value-append s t (n * 10 + (c - 48))

digits-AllDigits : (f n : ℕ) → AllDigits (digits f n)
unfolding digits
digits-AllDigits zero n = tt
digits-AllDigits (suc f) n = elim (Bool-cases (ltb n 10)) [
  | inl h ↦ rw h (ground arith, tt)
  | inr h ↦ rw h (
      All-append (λ c. is_digit c ≡ true) (digits f (n / 10)) _ (digits-AllDigits f (n / 10))
        (ground arith, tt))
]

value-digits : (f n : ℕ) → n < f → value (digits f n) 0 ≡ n
unfolding digits
value-digits zero n h = elim h [ ]
value-digits (suc f) n h = elim (Bool-cases (ltb n 10)) [
  | inl lt ↦ rw lt (omega arith)
  | inr ge ↦ rw ge (value-append (digits f (n / 10)) _ 0 ∙ ground (arith, value-digits f (n / 10)))
]

-- A text of digits is read whole.
scan-AllDigits :
    (s : Text)
    → s ≢ []
    → AllDigits s
    → scan s 0 ≡ some (record { negative = false; magnitude = value s 0; pos = length s })
unfolding scan scan_signed scan_unsigned
scan-AllDigits [] ne d = absurd (ne refl)
scan-AllDigits (c ∷ s) ne (d, ds) =
    ground (arith, d, whole (scan_digits-append (c ∷ s) [] 0 0 (d, ds)))
  where
    whole :
        scan_digits ((c ∷ s) ++ []) 0 0 ≡ scan_digits [] (value (c ∷ s) 0) (0 + length (c ∷ s))
        → scan_digits (c ∷ s) 0 0 ≡ (value (c ∷ s) 0, length (c ∷ s))
    whole e = ap (λ t. scan_digits t 0 0) (sym (append-nil (c ∷ s))) ∙ e ∙ ground arith

digits-ne-nil : (f n : ℕ) → digits (suc f) n ≢ []
unfolding digits
digits-ne-nil f n h = elim (Bool-cases (ltb n 10)) [
  | inl lt ↦ ground arith
  | inr ge ↦ ground (arith, not_last (digits f (n / 10)) (48 + n % 10))
]
  where
    not_last : (s : Text) (c : ℕ) → s ++ (c ∷ []) ≢ []
    not_last [] c e = cc
    not_last (x ∷ s) c e = cc

pub to_string-ne-nil : (n : ℕ) → to_string n ≢ []
unfolding to_string
to_string-ne-nil n = digits-ne-nil n n

pub scan-to_string :
    (n : ℕ)
    → scan (to_string n) 0
      ≡ some (record { negative = false; magnitude = n; pos = length (to_string n) })
unfolding to_string
scan-to_string n =
    scan-AllDigits (digits (suc n) n) (digits-ne-nil n n) (digits-AllDigits (suc n) n)
    ∙ ap
        (λ (v : ℕ).
          some (record { negative = false; magnitude = v; pos = length (digits (suc n) n) }))
        (value-digits (suc n) n (omega arith))

-- What is printed of a 64-bit word, `stoul` reads back, up to its end.
pub stoul-to_string : (n : ℕ) → n < 2 ^ 64 → stoul (to_string n) ≡ some (n, length (to_string n))
unfolding stoul
stoul-to_string n h = ground (arith, scan-to_string n)

-- A number above the 64-bit words throws.
pub stoul-to_string_above : (n : ℕ) → 2 ^ 64 ≤ n → stoul (to_string n) ≡ none
unfolding stoul
stoul-to_string_above n h = ground (arith, scan-to_string n)

-- What is printed of a number below 2^31, `stoi` reads back, up to its end.
pub stoi-to_string :
    (n : ℕ)
    → n < 2 ^ 31
    → stoi (to_string n)
      ≡ some (record { negative = false; magnitude = n; pos = length (to_string n) })
unfolding stoi
stoi-to_string n h = ground (arith, scan-to_string n)

pub to_string-AllDigits : (n : ℕ) → All (λ c. is_digit c ≡ true) (to_string n)
unfolding to_string
to_string-AllDigits n = digits-AllDigits (suc n) n

-- Digits are read up to what is no digit.
scan-AllDigits_append :
    (s : Text) (c : ℕ) (t : Text) (pos : ℕ)
    → s ≢ []
    → AllDigits s
    → is_digit c ≡ false
    → scan (s ++ (c ∷ t)) pos
      ≡ some (record { negative = false; magnitude = value s 0; pos = pos + length s })
unfolding scan scan_signed scan_unsigned scan_digits
scan-AllDigits_append [] c t pos ne d h = absurd (ne refl)
scan-AllDigits_append (b ∷ s) c t pos ne (d, ds) h = ground (
  arith,
  d,
  scan_digits-append s (c ∷ t) (b - 48) (pos + 1) ds,
  ap (λ p. scan_digits (c ∷ t) (value s (b - 48)) p) {x = pos + 1 + length s}
      {y = pos + suc (length s)} (omega arith),
)

-- A number is read up to what is no digit.
pub scan-to_string_append :
    (n c : ℕ) (t : Text) (pos : ℕ)
    → is_digit c ≡ false
    → scan (to_string n ++ (c ∷ t)) pos
      ≡ some (record { negative = false; magnitude = n; pos = pos + length (to_string n) })
unfolding to_string
scan-to_string_append n c t pos h =
    scan-AllDigits_append (digits (suc n) n) c t pos (digits-ne-nil n n)
      (digits-AllDigits (suc n) n) h
    ∙ ap
        (λ (v : ℕ).
          some (record { negative = false; magnitude = v; pos = pos + length (digits (suc n) n) }))
        (value-digits (suc n) n (omega arith))
