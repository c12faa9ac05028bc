-- ===== src/Demo/Checksum.antt =====
-- The Internet checksum of src/demo/ping_flood.cpp (`checksum`, over big-endian words) and of
-- src/demo/syn_flood.cpp (`csum`, over the words as a little-endian host loads them).
pub mod Fill
pub mod Order
use k_watch.Prelude.{ℕ, ◌+◌, ◌-◌, ◌*◌, ◌/◌, ◌%◌, [], ◌∷◌, ltb, if◌then◌else◌, u16}
use k_watch.Prelude.Text.{Text}

-- `acc += word; if (acc > 0xffff) acc -= 0xffff;`
unfoldable pub add_word : ℕ → ℕ → ℕ
add_word acc word = if ltb 0xffff (acc + word) then acc + word - 0xffff else acc + word

-- the loop over the pairs of bytes, and an odd byte
unfoldable pub checksum_loop : ℕ → Text → ℕ
unfolding add_word
checksum_loop acc [] = acc
checksum_loop acc (a ∷ []) = add_word acc (a * 256)
checksum_loop acc (a ∷ b ∷ s) = checksum_loop (add_word acc (a * 256 + b)) s

-- `~acc` in 16 bits; `htons` of it stands in memory with its high byte first
unfoldable pub checksum : Text → ℕ
unfolding checksum_loop
checksum s = 0xffff - u16 (checksum_loop 0xffff s)

unfoldable pub csum_loop : Text → ℕ
csum_loop [] = 0
csum_loop (a ∷ []) = a
csum_loop (a ∷ b ∷ s) = a + b * 256 + csum_loop s

-- the two foldings of `sum`
unfoldable pub fold_sum : ℕ → ℕ
fold_sum sum = let once = sum / 65536 + sum % 65536 in once + once / 65536

-- `~sum` in 16 bits, which stands in memory with its low byte first
unfoldable pub csum : Text → ℕ
unfolding csum_loop fold_sum
csum s = 0xffff - u16 (fold_sum (csum_loop s))
