-- ===== src/Demo/Checksum/Order.antt =====
-- The two checksums of one message are stored as the same bytes.
use k_watch.Prelude.{
  ℕ, ◌+◌, ◌-◌, ◌*◌, ◌/◌, ◌%◌, ◌<◌, ◌≤◌, ◌≡◌, ◌≢◌, refl, [], ◌∷◌, u16, arith, length,
}
use k_watch.Prelude.Text.{Text}
use k_watch.Demo.Checksum.{checksum_loop, checksum, csum_loop, fold_sum, csum}
use k_watch.Demo.Checksum.Fill.{Bytes, be_sum, checksum_loop_lem, fold_sum_lem, csum_loop_bound}

-- A big-endian word is 256 times the little-endian one modulo 0xffff.
be_sum-csum_loop : (s : Text) → Bytes s → be_sum s % 0xffff ≡ (256 * csum_loop s) % 0xffff
unfolding be_sum csum_loop
be_sum-csum_loop [] d = refl
be_sum-csum_loop (a ∷ []) d = omega arith
be_sum-csum_loop (a ∷ b ∷ s) (da, (db, d)) = omega (arith, be_sum-csum_loop s d)

swapped :
    (n m r a : ℕ)
    → m % 0xffff ≡ (256 * n) % 0xffff
    → r ≤ 0xffff
    → 0 < r
    → r % 0xffff ≡ n % 0xffff
    → 0 < a
    → a ≤ 0xffff
    → a % 0xffff ≡ (0xffff + m) % 0xffff
    → (0xffff - u16 a ≡ (0xffff - r) % 256 * 256 + (0xffff - r) / 256)
swapped n m r a e hr lr er la ha ea = omega arith

-- Of a message of bytes, shorter than 65536 and not all 0: the checksum of ping_flood, which is
-- stored with its high byte first, and the one of syn_flood, which is stored with its low byte
-- first, are the same two bytes.
pub checksum-csum :
    (s : Text)
    → Bytes s
    → length s < 65536
    → csum_loop s ≢ 0
    → (checksum s / 256 ≡ csum s % 256) × (checksum s % 256 ≡ csum s / 256)
unfolding checksum csum
checksum-csum s d room ne = (omega (arith, swap), omega (arith, swap))
  where
    acc :
        (0 < checksum_loop 0xffff s)
        × (checksum_loop 0xffff s ≤ 0xffff)
        × (checksum_loop 0xffff s % 0xffff ≡ (0xffff + be_sum s) % 0xffff)
    acc = checksum_loop_lem s 0xffff d (omega arith) (omega arith)

    folded :
        (u16 (fold_sum (csum_loop s)) % 0xffff ≡ csum_loop s % 0xffff)
        × (0 < csum_loop s → 0 < u16 (fold_sum (csum_loop s)))
    folded = fold_sum_lem (csum_loop s) (omega (arith, csum_loop_bound s d))

    swap :
        0xffff - u16 (checksum_loop 0xffff s)
        ≡ (0xffff - u16 (fold_sum (csum_loop s))) % 256 * 256
          + (0xffff - u16 (fold_sum (csum_loop s))) / 256
    swap =
        swapped (csum_loop s) (be_sum s) (u16 (fold_sum (csum_loop s))) (checksum_loop 0xffff s)
          (be_sum-csum_loop s d) (omega arith) (folded.1 (omega arith)) folded.0 acc.0 acc.1 acc.2
