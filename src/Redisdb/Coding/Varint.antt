-- ===== src/Redisdb/Coding/Varint.antt =====
-- The variable-length encodings of redisdb/db/coding.cc: what they write, and that it reads back.
use mathlib.Core.WellFounded.{Acc}
use native.Mathlib.Nat.{pow-suc, mod-eq_of_lt}
use native.Mathlib.Numerals.{towards_suc}
use cpp_swiss_army_knife.Common.{
  ◌≡◌, refl, sym, ap, ◌∙◌, ℕ, zero, suc, ◌+◌, ◌*◌, ◌/◌, ◌%◌, ◌^◌, ◌≤◌, ◌<◌, bit_or, bit_and, List,
  [], ◌∷◌, ◌++◌, some, length, ltb, if◌then◌else◌, arith,
}
use cpp_swiss_army_knife.Common.Bits.{
  bit_and_127, bit_and_128, bit_or_128, bit_or_shifted, zero-bit_or,
}
use cpp_swiss_army_knife.Common.Order.{lt_wf}
use cpp_swiss_army_knife.Redisdb.Coding.{
  encode_varint32, encode_varint64, encode_varint64_loop, varint_length, varint_length_loop,
  get_varint_loop, get_varint32_ptr, get_varint32_ptr_fallback, get_varint32, get_varint64,
  get_varint64_ptr,
}
use cpp_swiss_army_knife.Redisdb.Coding.Fixed.{IsBytes}

-- Groups of seven bits, the lowest first, the top bit set on all but the last; for v < 128 ^ (k + 1).
unfoldable pub groups : ℕ → ℕ → List ℕ
groups zero v = v ∷ []
groups (suc k) v =
    let rest = groups k (v / 128) in if ltb v 128 then v ∷ [] else (v % 128 + 128) ∷ rest

pub groups-IsBytes : (k v : ℕ) → v < 128 ^ suc k → IsBytes (groups k v)
unfolding groups
groups-IsBytes zero v h = omega arith
groups-IsBytes (suc k) v h =
    let p : 128 ^ suc (suc k) ≡ 128 ^ suc k * 128 = pow-suc 128 (suc k) in
    ground (arith, groups-IsBytes k (v / 128) (omega arith))

pub length-groups : (k v : ℕ) → (1 ≤ length (groups k v)) × (length (groups k v) ≤ suc k)
unfolding groups
length-groups zero v = omega arith
length-groups (suc k) v = ground (arith, length-groups k (v / 128))

pub encode_varint32-groups : (v : ℕ) → v < 2 ^ 32 → encode_varint32 v ≡ groups 4 v
unfolding encode_varint32 groups
encode_varint32-groups v h =
    ground (
      arith,
      bit_or_128 v,
      bit_or_128 (v / 2 ^ 7),
      bit_or_128 (v / 2 ^ 14),
      bit_or_128 (v / 2 ^ 21),
    )

masked_group : (v : ℕ) → bit_or (bit_and v 127) 128 % 256 ≡ v % 128 + 128
masked_group v = bit_or_128 (bit_and v 127) ∙ omega (arith, bit_and_127 v)

encode_varint64_loop-groups :
    (k v : ℕ) (w : Acc ◌<◌ v) → v < 128 ^ suc k → encode_varint64_loop v w ≡ groups k v
unfolding encode_varint64_loop groups
encode_varint64_loop-groups zero v (Acc.intro _ smaller) h = ground arith
encode_varint64_loop-groups (suc k) v (Acc.intro _ smaller) h =
    let p : 128 ^ suc (suc k) ≡ 128 ^ suc k * 128 = pow-suc 128 (suc k) in
    grind (
      arith,
      masked_group v,
      λ (w : Acc ◌<◌ (v / 2 ^ 7)). encode_varint64_loop-groups k (v / 128) w (omega arith),
    )

pub encode_varint64-groups : (v : ℕ) → v < 2 ^ 64 → encode_varint64 v ≡ groups 9 v
unfolding encode_varint64
encode_varint64-groups v h = encode_varint64_loop-groups 9 v (lt_wf.apply v) (omega arith)

shift_seven : (s : ℕ) → 2 ^ (s + 7) ≡ 128 * 2 ^ s
shift_seven s = simp towards_suc (omega arith)

-- The lowest group of w and what is above it, both shifted by s.
lowest_group : (shift v : ℕ) → v % 128 * 2 ^ shift + v / 128 * 2 ^ (shift + 7) ≡ v * 2 ^ shift
lowest_group shift v =
    let above = ap (λ (t : ℕ). v / 128 * t) (shift_seven shift) in
    let parts : v ≡ v % 128 + v / 128 * 128 = omega arith in
    omega (arith, above, ap (λ (t : ℕ). t * 2 ^ shift) parts)

-- One round of the loop on a byte with its top bit set.
more_bytes :
    (bits last b shift result : ℕ) (p : List ℕ)
    → bit_and b 128 ≡ 128
    → shift ≤ last
    → get_varint_loop bits last (b ∷ p) shift result
      ≡ get_varint_loop bits last p
          (shift + 7)
          (bit_or result (bit_and b 127 * 2 ^ shift % 2 ^ bits))
unfolding get_varint_loop
more_bytes bits last b shift result p h hs = rw h (ground arith)

-- One round of the loop, on a last byte and on one with its top bit set.
module _ (bits last shift result : ℕ) (rest : List ℕ) (below : result < 2 ^ shift) where
  joined :
      (g : ℕ)
      → result + g * 2 ^ shift < 2 ^ bits
      → bit_or result (g * 2 ^ shift % 2 ^ bits) ≡ result + g * 2 ^ shift
  joined g fits =
      ap (bit_or result) (mod-eq_of_lt (omega arith)) ∙ bit_or_shifted shift result g below

  last_byte :
      (w : ℕ)
      → w < 128
      → shift ≤ last
      → result + w * 2 ^ shift < 2 ^ bits
      → get_varint_loop bits last (w ∷ rest) shift result ≡ some (result + w * 2 ^ shift, rest)
  unfolding get_varint_loop
  last_byte w hw hs fits = ground (arith, bit_and_128 w, joined w fits)

  inner_byte :
      (g : ℕ)
      → g < 128
      → shift ≤ last
      → result + g * 2 ^ shift < 2 ^ bits
      → get_varint_loop bits last ((g + 128) ∷ rest) shift result
        ≡ get_varint_loop bits last rest (shift + 7) (result + g * 2 ^ shift)
  inner_byte g hg hs fits =
      let e : bit_and (g + 128) 127 ≡ g = omega (arith, bit_and_127 (g + 128)) in
      more_bytes bits last (g + 128) shift result rest (omega (arith, bit_and_128 (g + 128))) hs
      ∙ rw (e, joined g fits)

pub get_varint_loop-groups :
    (bits last k w shift result : ℕ) (rest : List ℕ)
    → w < 128 ^ suc k
    → shift + 7 * k ≤ last
    → result < 2 ^ shift
    → result + w * 2 ^ shift < 2 ^ bits
    → get_varint_loop bits last (groups k w ++ rest) shift result
      ≡ some (result + w * 2 ^ shift, rest)
unfolding groups
get_varint_loop-groups bits last zero w shift result rest hw hs hr fits =
    last_byte bits last shift result rest hr w (omega arith) (omega arith) fits
get_varint_loop-groups bits last (suc k) w shift result rest hw hs hr fits =
    let p : 128 ^ suc (suc k) ≡ 128 ^ suc k * 128 = pow-suc 128 (suc k) in
    let low : w % 128 * 2 ^ shift ≤ 127 * 2 ^ shift = grind arith in
    ground (
      arith,
      last_byte bits last shift result rest hr w,
      lowest_group shift w,
      shift_seven shift,
      inner_byte bits last shift result (groups k (w / 128) ++ rest) hr (w % 128),
      get_varint_loop-groups bits last k (w / 128) (shift + 7) (result + w % 128 * 2 ^ shift) rest
          (omega arith),
    )

module _ (v : ℕ) (rest : List ℕ) where
  -- GetVarint64 reads back what EncodeVarint64 writes and leaves the input behind it, for every
  -- 64-bit value and whatever follows.
  pub get_varint64-encode_varint64 :
      v < 2 ^ 64 → get_varint64 (encode_varint64 v ++ rest) ≡ some (v, rest)
  unfolding get_varint64 get_varint64_ptr
  get_varint64-encode_varint64 h = rw (encode_varint64-groups v h) (
      get_varint_loop-groups 64 63 9 v 0 0 rest (omega arith) (omega arith) (omega arith)
        (omega arith)
      ∙ ap (λ (t : ℕ). some (t, rest)) (omega arith))

  fallback-encode_varint32 :
      v < 2 ^ 32 → get_varint32_ptr_fallback (encode_varint32 v ++ rest) ≡ some (v, rest)
  unfolding get_varint32_ptr_fallback
  fallback-encode_varint32 h = rw (encode_varint32-groups v h) (
      get_varint_loop-groups 32 28 4 v 0 0 rest (omega arith) (omega arith) (omega arith)
        (omega arith)
      ∙ ap (λ (t : ℕ). some (t, rest)) (omega arith))

-- The one-byte case in front agrees with the loop.
get_varint32_ptr-fallback :
    (front p : List ℕ)
    → 1 ≤ length front
    → IsBytes front
    → get_varint32_ptr (front ++ p) ≡ get_varint32_ptr_fallback (front ++ p)
unfolding get_varint32_ptr get_varint32_ptr_fallback get_varint_loop
get_varint32_ptr-fallback [] p n h = absurd (omega arith)
get_varint32_ptr-fallback (b ∷ front) p n h =
    ground (arith, zero-bit_or (b * 1 % 2 ^ 32), bit_and_128 b)

-- GetVarint32 reads back what EncodeVarint32 writes and leaves the input behind it, for every
-- 32-bit value and whatever follows.
pub get_varint32-encode_varint32 :
    (v : ℕ) (rest : List ℕ) → v < 2 ^ 32 → get_varint32 (encode_varint32 v ++ rest) ≡ some (v, rest)
unfolding get_varint32 get_varint32_ptr_fallback
get_varint32-encode_varint32 v rest h =
    let e = encode_varint32-groups v h in
    let one : 1 ≤ length (encode_varint32 v) = rw e (length-groups 4 v).0 in
    let bytes : IsBytes (encode_varint32 v) = rw e (groups-IsBytes 4 v (omega arith)) in
    get_varint32_ptr-fallback (encode_varint32 v) rest one bytes ∙ fallback-encode_varint32 v rest h

varint_length_loop-groups :
    (k v : ℕ) (w : Acc ◌<◌ v) (len : ℕ)
    → v < 128 ^ suc k
    → varint_length_loop v w len + 1 ≡ len + length (groups k v)
unfolding varint_length_loop groups
varint_length_loop-groups zero v (Acc.intro _ smaller) len h = ground arith
varint_length_loop-groups (suc k) v (Acc.intro _ smaller) len h =
    let p : 128 ^ suc (suc k) ≡ 128 ^ suc k * 128 = pow-suc 128 (suc k) in
    grind (
      arith,
      λ (w : Acc ◌<◌ (v / 2 ^ 7)). varint_length_loop-groups k (v / 128) w (len + 1) (omega arith),
    )

groups-fuel : (k m v : ℕ) → v < 128 ^ suc k → k ≤ m → groups k v ≡ groups m v
unfolding groups
groups-fuel zero zero v h q = refl
groups-fuel zero (suc m) v h q = ground arith
groups-fuel (suc k) zero v h q = absurd (omega arith)
groups-fuel (suc k) (suc m) v h q =
    let p : 128 ^ suc (suc k) ≡ 128 ^ suc k * 128 = pow-suc 128 (suc k) in
    ground (arith, groups-fuel k m (v / 128) (omega arith))

-- VarintLength counts the bytes of both encodings.
module _ (v : ℕ) where
  -- VarintLength is the number of bytes that EncodeVarint64 writes, for every 64-bit value.
  pub varint_length-encode_varint64 : v < 2 ^ 64 → varint_length v ≡ length (encode_varint64 v)
  unfolding varint_length
  varint_length-encode_varint64 h =
      rw (encode_varint64-groups v h)
        (omega (arith, varint_length_loop-groups 9 v (lt_wf.apply v) 1 (omega arith)))

  pub varint_length-encode_varint32 : v < 2 ^ 32 → varint_length v ≡ length (encode_varint32 v)
  varint_length-encode_varint32 h =
      varint_length-encode_varint64 (omega arith)
      ∙ rw (encode_varint64-groups v (omega arith), encode_varint32-groups v h)
          (ap length (sym (groups-fuel 4 9 v (omega arith) (omega arith))))
