-- ===== src/Redisdb/Log/Fragments.antt =====
-- The fragments that LogWriter::AddRecord writes (redisdb/db/logwriter.cc): their contents, their types
-- and their places in the blocks.
use cpp_swiss_army_knife.Common.{ℕ, ◌+◌, ◌-◌, ◌*◌, ◌/◌, ◌%◌, ◌^◌, ◌<◌, ◌≡◌, ap, ◌∙◌, bit_or, arith}
use cpp_swiss_army_knife.Common.Bits.{bit_or_shifted}
use cpp_swiss_army_knife.Redisdb.Log.{k_mask_delta, mask, unmask}

-- x << 17 of a 32-bit word, and its rotation.
rotated :
    (crc : ℕ)
    → crc < 2 ^ 32
    → bit_or (crc / 2 ^ 15) (crc * 2 ^ 17 % 2 ^ 32) ≡ crc / 2 ^ 15 + crc % 2 ^ 15 * 2 ^ 17
rotated crc h =
    let e : crc * 2 ^ 17 % 2 ^ 32 ≡ crc % 2 ^ 15 * 2 ^ 17 = omega arith in
    rw (e) (bit_or_shifted 17 (crc / 2 ^ 15) (crc % 2 ^ 15) (omega arith))

rotated_back :
    (rot : ℕ)
    → rot < 2 ^ 32
    → bit_or (rot / 2 ^ 17) (rot * 2 ^ 15 % 2 ^ 32) ≡ rot / 2 ^ 17 + rot % 2 ^ 17 * 2 ^ 15
rotated_back rot h =
    let e : rot * 2 ^ 15 % 2 ^ 32 ≡ rot % 2 ^ 17 * 2 ^ 15 = omega arith in
    rw (e) (bit_or_shifted 15 (rot / 2 ^ 17) (rot % 2 ^ 17) (omega arith))

mask_value :
    (crc : ℕ)
    → crc < 2 ^ 32
    → mask crc ≡ (crc / 2 ^ 15 + crc % 2 ^ 15 * 2 ^ 17 + k_mask_delta) % 2 ^ 32
unfolding mask
mask_value crc h = ap (λ (t : ℕ). (t + k_mask_delta) % 2 ^ 32) (rotated crc h)

pub unmask-mask : (crc : ℕ) → crc < 2 ^ 32 → unmask (mask crc) ≡ crc
unfolding unmask
unmask-mask crc h =
    let r : ℕ = crc / 2 ^ 15 + crc % 2 ^ 15 * 2 ^ 17 in
    let e : (mask crc + (2 ^ 32 - k_mask_delta)) % 2 ^ 32 ≡ r = omega (arith, mask_value crc h) in
    rw (e) (rotated_back r (omega arith) ∙ omega arith)
