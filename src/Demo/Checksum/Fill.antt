-- ===== src/Demo/Checksum/Fill.antt =====
-- A message with its checksum filled in has the checksum 0.
use k_watch.Prelude.{
  ℕ, ◌+◌, ◌-◌, ◌*◌, ◌/◌, ◌%◌, ◌<◌, ◌≤◌, ◌≡◌, refl, [], ◌∷◌, ◌++◌, u16, arith, All, All-append,
  length,
}
use k_watch.Prelude.Text.{Text}
use k_watch.Demo.Checksum.{add_word, checksum_loop, checksum, csum_loop, fold_sum, csum}

abbrev pub Bytes : Text → Type 0
Bytes = All (λ b. b < 256)

-- the sum of the big-endian words
unfoldable pub be_sum : Text → ℕ
be_sum [] = 0
be_sum (a ∷ []) = a * 256
be_sum (a ∷ b ∷ s) = a * 256 + b + be_sum s

-- The accumulator of `checksum` is the sum modulo 0xffff, and is not 0.
pub checksum_loop_lem :
    (s : Text) (acc : ℕ)
    → Bytes s
    → 0 < acc
    → acc ≤ 0xffff
    → (0 < checksum_loop acc s)
      × (checksum_loop acc s ≤ 0xffff)
      × (checksum_loop acc s % 0xffff ≡ (acc + be_sum s) % 0xffff)
unfolding checksum_loop add_word be_sum
checksum_loop_lem [] acc d lo hi = ground arith
checksum_loop_lem (a ∷ []) acc d lo hi = ground arith
checksum_loop_lem (a ∷ b ∷ s) acc (da, (db, d)) lo hi =
    ground (arith, checksum_loop_lem s (add_word acc (a * 256 + b)) d)

-- The folded sum is the sum modulo 0xffff, and 0 only for 0.
pub fold_sum_lem :
    (n : ℕ)
    → n < 4294967296
    → (u16 (fold_sum n) % 0xffff ≡ n % 0xffff) × (0 < n → 0 < u16 (fold_sum n))
unfolding fold_sum
fold_sum_lem n h = (omega arith, λ p. omega arith)

-- a message with a field of two bytes between two parts
abbrev pub with_field : Text → ℕ → ℕ → Text → Text
with_field pre x y post = pre ++ (x ∷ y ∷ post)

csum_loop-field :
    (pre : Text) (x y : ℕ) (post : Text)
    → length pre % 2 ≡ 0
    → csum_loop (with_field pre x y post) ≡ csum_loop pre + (x + y * 256) + csum_loop post
unfolding csum_loop
csum_loop-field [] x y post e = omega arith
csum_loop-field (a ∷ []) x y post e = omega arith
csum_loop-field (a ∷ b ∷ s) x y post e = omega (arith, csum_loop-field s x y post (omega arith))

be_sum-field :
    (pre : Text) (x y : ℕ) (post : Text)
    → length pre % 2 ≡ 0
    → be_sum (with_field pre x y post) ≡ be_sum pre + (x * 256 + y) + be_sum post
unfolding be_sum
be_sum-field [] x y post e = omega arith
be_sum-field (a ∷ []) x y post e = omega arith
be_sum-field (a ∷ b ∷ s) x y post e = omega (arith, be_sum-field s x y post (omega arith))

pub csum_loop_bound : (s : Text) → Bytes s → csum_loop s ≤ 65535 * length s
unfolding csum_loop
csum_loop_bound [] d = omega arith
csum_loop_bound (a ∷ []) (d, u) = omega arith
csum_loop_bound (a ∷ b ∷ s) (da, (db, d)) = omega (arith, csum_loop_bound s d)

Bytes-field :
    (pre : Text) (x y : ℕ) (post : Text)
    → Bytes pre
    → Bytes post
    → x < 256
    → y < 256
    → Bytes (with_field pre x y post)
Bytes-field pre x y post d e a b = All-append (λ b. b < 256) pre (x ∷ y ∷ post) d (a, (b, e))

-- A sum and its checksum add up to 0.
csum_zero :
    (n c m : ℕ)
    → n < 4294901760
    → c ≡ 0xffff - u16 (fold_sum n)
    → m ≡ n + c
    → 0xffff - u16 (fold_sum m) ≡ 0
unfolding fold_sum
csum_zero n c m h e f =
    omega (arith, (fold_sum_lem n bound).0, (fold_sum_lem n bound).1, fold_sum_lem m sum_bound)
  where
    bound : n < 4294967296
    bound = omega arith

    sum_bound : m < 4294967296
    sum_bound = omega arith

-- The same of the other algorithm.
acc_zero :
    (a n c b m : ℕ)
    → 0 < a
    → a ≤ 0xffff
    → a % 0xffff ≡ (0xffff + n) % 0xffff
    → c ≡ 0xffff - u16 a
    → 0 < b
    → b ≤ 0xffff
    → b % 0xffff ≡ (0xffff + m) % 0xffff
    → m ≡ n + c
    → 0xffff - u16 b ≡ 0
acc_zero a n c b m la ha ea ec lb hb eb em = omega arith

-- the message with the checksum of the message that has 0 in its field
abbrev pub filled_csum : Text → Text → Text
filled_csum pre post =
    with_field pre (csum (with_field pre 0 0 post) % 256) (csum (with_field pre 0 0 post) / 256)
      post

abbrev pub filled_checksum : Text → Text → Text
filled_checksum pre post =
    with_field pre (checksum (with_field pre 0 0 post) / 256)
      (checksum (with_field pre 0 0 post) % 256) post

pub csum-filled :
    (pre post : Text)
    → Bytes pre
    → Bytes post
    → length pre % 2 ≡ 0
    → length pre + length post < 65534
    → csum (filled_csum pre post) ≡ 0
unfolding csum
csum-filled pre post d e even room =
    csum_zero (csum_loop (with_field pre 0 0 post)) c (csum_loop (filled_csum pre post))
      (omega
        (arith, csum_loop-field pre 0 0 post even, csum_loop_bound pre d, csum_loop_bound post e))
      refl
      (omega (
        arith,
        csum_loop-field pre 0 0 post even,
        csum_loop-field pre (c % 256) (c / 256) post even,
      ))
  where
    c : ℕ
    c = csum (with_field pre 0 0 post)

checksum-high : (s : Text) → checksum s / 256 < 256
unfolding checksum
checksum-high s = omega arith

pub checksum-filled :
    (pre post : Text)
    → Bytes pre
    → Bytes post
    → length pre % 2 ≡ 0
    → checksum (filled_checksum pre post) ≡ 0
unfolding checksum
checksum-filled pre post d e even =
    acc_zero (checksum_loop 0xffff zeros) (be_sum zeros) c (checksum_loop 0xffff filled)
      (be_sum filled) empty.0 empty.1 empty.2 refl full.0 full.1 full.2
      (omega
        (arith, be_sum-field pre 0 0 post even, be_sum-field pre (c / 256) (c % 256) post even))
  where
    c : ℕ
    c = checksum (with_field pre 0 0 post)

    zeros : Text
    zeros = with_field pre 0 0 post

    filled : Text
    filled = filled_checksum pre post

    empty :
        (0 < checksum_loop 0xffff zeros)
        × (checksum_loop 0xffff zeros ≤ 0xffff)
        × (checksum_loop 0xffff zeros % 0xffff ≡ (0xffff + be_sum zeros) % 0xffff)
    empty =
        checksum_loop_lem zeros 0xffff (Bytes-field pre 0 0 post d e (omega arith) (omega arith))
          (omega arith) (omega arith)

    full :
        (0 < checksum_loop 0xffff filled)
        × (checksum_loop 0xffff filled ≤ 0xffff)
        × (checksum_loop 0xffff filled % 0xffff ≡ (0xffff + be_sum filled) % 0xffff)
    full =
        checksum_loop_lem filled 0xffff
          (Bytes-field pre (c / 256) (c % 256) post d e (checksum-high zeros) (omega arith))
          (omega arith) (omega arith)
