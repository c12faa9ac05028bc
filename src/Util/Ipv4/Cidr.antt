-- ===== src/Util/Ipv4/Cidr.antt =====
-- What `parse_cidr` accepts, and that it reads back what `format` prints.
use k_watch.Prelude.{
  ℕ, suc, ◌^◌, ◌<◌, ◌≤◌, ◌≡◌, ◌≢◌, refl, ap, ◌∙◌, Option, none, some, [], ◌∷◌, ◌++◌, arith, length,
  take, drop, Option-cases, inl, inr,
}
use k_watch.Prelude.Text.{Text}
use k_watch.Util.Result.{Result, ok, err}
use k_watch.Util.Numbers.{to_string}
use k_watch.Util.Numbers.RoundTrip.{stoi-to_string}
use k_watch.Util.Ipv4.{find_char, prefix_of, parse, parse_host, parse_parts, parse_cidr, format}

-- What the standard says of the two conversions: printing an address gives a text without a slash
-- that is read back.
pub record IsInet (pton : Text → Option ℕ) (ntop : ℕ → Option Text) : Type 0 where
  pub reads : (a : ℕ) (s : Text) → a < 2 ^ 32 → ntop a ≡ some s → pton s ≡ some a
  pub no_slash : (a : ℕ) (s : Text) → ntop a ≡ some s → find_char b'/' s ≡ none
  pub prints : (a : ℕ) → a < 2 ^ 32 → ntop a ≢ none
  pub below : (a : ℕ) (s : Text) → pton s ≡ some a → a < 2 ^ 32

-- the prefix length of a result is at most 32
abbrev pub HasPrefix : Result (ℕ × ℕ) → Type 0
HasPrefix (err e) = Unit
HasPrefix (ok (a, n)) = n ≤ 32

prefix_of-HasPrefix : (ip : ℕ) (s : Text) → HasPrefix (prefix_of ip s)
unfolding prefix_of
prefix_of-HasPrefix ip s = ground arith

module _ (pton : Text → Option ℕ) where
  parse_parts-HasPrefix : (s t : Text) → HasPrefix (parse_parts pton s t)
  unfolding parse_parts parse
  parse_parts-HasPrefix s t = elim (Option-cases (pton s)) [
    | inl e ↦ rw (e, HasPrefix, parse_parts, parse) tt
    | inr (a, e) ↦ rw (e, HasPrefix, parse_parts, parse) (prefix_of-HasPrefix a t)
  ]

  parse_host-HasPrefix : (s : Text) → HasPrefix (parse_host pton s)
  unfolding parse_host parse
  parse_host-HasPrefix s = elim (Option-cases (pton s)) [
    | inl e ↦ rw (e, HasPrefix, parse_host, parse) tt
    | inr (a, e) ↦ rw (e, HasPrefix, parse_host, parse) (omega arith)
  ]

  pub parse_cidr-HasPrefix : (s : Text) → HasPrefix (parse_cidr pton s)
  unfolding parse_cidr
  parse_cidr-HasPrefix s = elim (Option-cases (find_char b'/' s)) [
    | inl e ↦ rw (e, HasPrefix, parse_cidr) (parse_host-HasPrefix s)
    | inr (i, e) ↦ rw (e, HasPrefix, parse_cidr) (parse_parts-HasPrefix (take i s) (drop (suc i) s))
  ]

find_char-append :
    (c : ℕ) (s t : Text) → find_char c s ≡ none → find_char c (s ++ (c ∷ t)) ≡ some (length s)
unfolding find_char
find_char-append c [] t h = ground arith
find_char-append c (d ∷ s) t h = ground (arith, find_char-append c s t)

take-append : (s t : Text) → take (length s) (s ++ t) ≡ s
take-append [] t = refl
take-append (c ∷ s) t = ap (λ r. c ∷ r) (take-append s t)

drop-length : (s t : Text) (c : ℕ) → drop (suc (length s)) (s ++ (c ∷ t)) ≡ t
drop-length [] t c = refl
drop-length (d ∷ s) t c = drop-length s t c

prefix_of-to_string : (ip n : ℕ) → n ≤ 32 → prefix_of ip (to_string n) ≡ ok (ip, n)
unfolding prefix_of
prefix_of-to_string ip n h = ground (arith, stoi-to_string n)

parse_cidr-append :
    (pton : Text → Option ℕ) {s : Text} (t : Text) {a : ℕ}
    → find_char b'/' s ≡ none
    → pton s ≡ some a
    → parse_cidr pton (s ++ (b'/' ∷ t)) ≡ prefix_of a t
unfolding parse_cidr parse_parts parse
parse_cidr-append pton {s} t {a} no_slash e =
    rw
      (
        parse_cidr,
        find_char-append b'/' s t no_slash,
        parse_parts,
        parse,
        take-append s (b'/' ∷ t),
        e,
        ap (prefix_of a) (drop-length s t b'/'),
      )
      refl

module _ (pton : Text → Option ℕ) (ntop : ℕ → Option Text) (inet : IsInet pton ntop) where
  -- An address of 32 bits as format prints it, a slash and the decimal prefix length, at most 32:
  -- parse_cidr reads back the address and the length. inet_ntop prints such an address without a
  -- slash, and inet_pton reads it back. So each line of `kwatch list` is an argument of `kwatch
  -- unblock` that names the same entry.
  pub parse_cidr-format :
      (a n : ℕ)
      → a < 2 ^ 32
      → n ≤ 32
      → parse_cidr pton (format ntop a ++ (b'/' ∷ to_string n)) ≡ ok (a, n)
  unfolding format
  parse_cidr-format a n h k = elim (Option-cases (ntop a)) [
    | inl e ↦ absurd (inet.prints a h e)
    | inr (s, e) ↦ rw e (
        parse_cidr-append pton (to_string n) (inet.no_slash a s e) (inet.reads a s h e)
        ∙ prefix_of-to_string a n k)
  ]
