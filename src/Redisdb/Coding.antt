-- ===== src/Redisdb/Coding.antt =====
-- redisdb/db/coding.cc and coding.h: the fixed-width, variable-length and length-prefixed encodings
-- that every file of the store is written in.
--
-- A byte string is a list of numbers below 256, and a pair of pointers p and limit is the list of
-- bytes between them. An encoder returns the bytes that it appends or stores; a decoder returns
-- `none` for nullptr or false, and else the value with the bytes that follow it. Stores to an
-- unsigned char are written `% 2 ^ 8`, and shifts of a w-bit word wrap by `% 2 ^ w`.
pub mod Fixed
pub mod Varint
pub mod Slices
pub mod Progress
pub mod Tests
use mathlib.Core.WellFounded.{Acc}
use mathlib.Core.Logic.{dite}
use cpp_swiss_army_knife.Common.{
  ℕ, zero, suc, ◌+◌, ◌-◌, ◌*◌, ◌/◌, ◌%◌, ◌^◌, ◌<◌, ◌≤◌, bit_and, bit_or, Bool, true, false, List,
  [], ◌∷◌, ◌++◌, Option, none, some, ◌>>=◌, ltb, leb, ◌==◌, if◌then◌else◌, length, take, drop,
  arith, dec_lt,
}
use cpp_swiss_army_knife.Common.Order.{lt_wf}

-- The byte order of the machine that runs the code: what memcpy of a word yields.
pub data ByteOrder : Type 0 where
  little_endian big_endian : ByteOrder

abbrev pub k_little_endian : Bool
k_little_endian = false

-- The object representation of a word of n bytes, and the word of a representation.
unfoldable pub le_bytes : ℕ → ℕ → List ℕ
le_bytes zero v = []
le_bytes (suc n) v = v % 256 ∷ le_bytes n (v / 256)

unfoldable pub be_bytes : ℕ → ℕ → List ℕ
be_bytes zero v = []
be_bytes (suc n) v = be_bytes n (v / 256) ++ v % 256 ∷ []

unfoldable pub le_value : List ℕ → ℕ
le_value [] = 0
le_value (b ∷ bs) = b + 256 * le_value bs

unfoldable pub be_value : ℕ → List ℕ → ℕ
be_value acc [] = acc
be_value acc (b ∷ bs) = be_value (acc * 256 + b) bs

unfoldable pub object_bytes : ByteOrder → ℕ → ℕ → List ℕ
object_bytes little_endian n v = le_bytes n v
object_bytes big_endian n v = be_bytes n v

unfoldable pub object_value : ByteOrder → List ℕ → ℕ
object_value little_endian bs = le_value bs
object_value big_endian bs = be_value 0 bs

-- The shifts of EncodeFixed32 and EncodeFixed64.
unfoldable pub shifted_bytes32 : ℕ → List ℕ
shifted_bytes32 v = v % 256 ∷ v / 2 ^ 8 % 256 ∷ v / 2 ^ 16 % 256 ∷ v / 2 ^ 24 % 256 ∷ []

unfoldable pub shifted_bytes64 : ℕ → List ℕ
shifted_bytes64 v =
    v % 256
    ∷ v / 2 ^ 8 % 256
    ∷ v / 2 ^ 16 % 256
    ∷ v / 2 ^ 24 % 256
    ∷ v / 2 ^ 32 % 256
    ∷ v / 2 ^ 40 % 256
    ∷ v / 2 ^ 48 % 256
    ∷ v / 2 ^ 56 % 256
    ∷ []

-- The word that the shifts of DecodeFixed32 put together; the four parts share no bit.
unfoldable pub joined_word32 : List ℕ → ℕ
joined_word32 (a ∷ b ∷ c ∷ d ∷ rest) =
    bit_or (bit_or (bit_or a (b * 2 ^ 8)) (c * 2 ^ 16)) (d * 2 ^ 24)
joined_word32 _ = 0

-- `kLittleEndian` selects the shifts, and its negation the copy.
unfoldable pub encode_fixed32 : ByteOrder → ℕ → List ℕ
encode_fixed32 host v = if k_little_endian then shifted_bytes32 v else object_bytes host 4 v

unfoldable pub encode_fixed64 : ByteOrder → ℕ → List ℕ
encode_fixed64 host v = if k_little_endian then shifted_bytes64 v else object_bytes host 8 v

-- The callers see to it that 4 or 8 bytes are there.
unfoldable pub decode_fixed32 : ByteOrder → List ℕ → ℕ
decode_fixed32 host p = if k_little_endian then joined_word32 p else object_value host (take 4 p)

unfoldable pub decode_fixed64 : ByteOrder → List ℕ → ℕ
decode_fixed64 host p =
    if k_little_endian
    then bit_or (joined_word32 (drop 4 p) * 2 ^ 32) (joined_word32 p)
    else object_value host (take 8 p)

unfoldable pub put_fixed32 : ByteOrder → List ℕ → ℕ → List ℕ
put_fixed32 host dst v = dst ++ encode_fixed32 host v

unfoldable pub put_fixed64 : ByteOrder → List ℕ → ℕ → List ℕ
put_fixed64 host dst v = dst ++ encode_fixed64 host v

-- A store through an unsigned char pointer.
abbrev pub byte : ℕ → ℕ
byte v = v % 2 ^ 8

unfoldable pub encode_varint32 : ℕ → List ℕ
encode_varint32 v =
    if ltb v (2 ^ 7)
    then byte v ∷ []
    else if ltb v (2 ^ 14)
    then byte (bit_or v 128) ∷ byte (v / 2 ^ 7) ∷ []
    else if ltb v (2 ^ 21)
    then byte (bit_or v 128) ∷ byte (bit_or (v / 2 ^ 7) 128) ∷ byte (v / 2 ^ 14) ∷ []
    else if ltb v (2 ^ 28)
    then byte (bit_or v 128)
      ∷ byte (bit_or (v / 2 ^ 7) 128)
      ∷ byte (bit_or (v / 2 ^ 14) 128)
      ∷ byte (v / 2 ^ 21)
      ∷ []
    else byte (bit_or v 128)
      ∷ byte (bit_or (v / 2 ^ 7) 128)
      ∷ byte (bit_or (v / 2 ^ 14) 128)
      ∷ byte (bit_or (v / 2 ^ 21) 128)
      ∷ byte (v / 2 ^ 28)
      ∷ []

unfoldable pub put_varint32 : List ℕ → ℕ → List ℕ
put_varint32 dst v = dst ++ encode_varint32 v

pub shift_shrinks : (v : ℕ) → 127 < v → v / 2 ^ 7 < v
shift_shrinks v h = omega arith

-- `while (v >= B)`: v falls in each round, so the loop needs no fuel.
pub encode_varint64_loop : (v : ℕ) → Acc ◌<◌ v → List ℕ
encode_varint64_loop v (Acc.intro _ smaller) =
    dite (dec_lt 127 v)
      (λ more.
        byte (bit_or (bit_and v 127) 128)
        ∷ encode_varint64_loop (v / 2 ^ 7) (smaller _ (shift_shrinks v more)))
      (λ _. byte v ∷ [])

unfoldable pub encode_varint64 : ℕ → List ℕ
unfolding encode_varint64_loop lt_wf dec_lt
encode_varint64 v = encode_varint64_loop v (lt_wf.apply v)

unfoldable pub put_varint64 : List ℕ → ℕ → List ℕ
put_varint64 dst v = dst ++ encode_varint64 v

pub varint_length_loop : (v : ℕ) → Acc ◌<◌ v → ℕ → ℕ
varint_length_loop v (Acc.intro _ smaller) len =
    dite (dec_lt 127 v)
      (λ more. varint_length_loop (v / 2 ^ 7) (smaller _ (shift_shrinks v more)) (len + 1))
      (λ _. len)

unfoldable pub varint_length : ℕ → ℕ
unfolding varint_length_loop lt_wf dec_lt
varint_length v = varint_length_loop v (lt_wf.apply v) 1

-- The loop of GetVarint32PtrFallback (a word of 32 bits, shift up to 28) and of GetVarint64Ptr (64
-- bits, shift up to 63).
unfoldable pub get_varint_loop : ℕ → ℕ → List ℕ → ℕ → ℕ → Option (ℕ × List ℕ)
get_varint_loop bits last [] shift result = none
get_varint_loop bits last (b ∷ p) shift result =
    let more =
      get_varint_loop bits last p (shift + 7)
        (bit_or result (bit_and b 127 * 2 ^ shift % 2 ^ bits)) in
    if leb shift last
    then (if bit_and b 128 == 0 then some (bit_or result (b * 2 ^ shift % 2 ^ bits), p) else more)
    else none

unfoldable pub get_varint32_ptr_fallback : List ℕ → Option (ℕ × List ℕ)
get_varint32_ptr_fallback p = get_varint_loop 32 28 p 0 0

unfoldable pub get_varint32_ptr : List ℕ → Option (ℕ × List ℕ)
get_varint32_ptr [] = get_varint32_ptr_fallback []
get_varint32_ptr (b ∷ p) =
    if bit_and b 128 == 0 then some (b, p) else get_varint32_ptr_fallback (b ∷ p)

unfoldable pub get_varint64_ptr : List ℕ → Option (ℕ × List ℕ)
get_varint64_ptr p = get_varint_loop 64 63 p 0 0

-- On failure the input is left as it was.
unfoldable pub get_varint32 : List ℕ → Option (ℕ × List ℕ)
get_varint32 input = get_varint32_ptr input

unfoldable pub get_varint64 : List ℕ → Option (ℕ × List ℕ)
get_varint64 input = get_varint64_ptr input

-- `value.size()` is narrowed to uint32_t.
unfoldable pub put_length_prefixed_slice : List ℕ → List ℕ → List ℕ
put_length_prefixed_slice dst value = put_varint32 dst (length value % 2 ^ 32) ++ value

-- The form over a string_view. Where the prefix is read and the slice is too long the caller gives
-- the input up.
unfoldable pub get_length_prefixed_slice : List ℕ → Option (List ℕ × List ℕ)
get_length_prefixed_slice input = do
  (len, rest) ← get_varint32 input
  if leb len (length rest) then some (take len rest, drop len rest) else none
