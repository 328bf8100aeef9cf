-- ===== src/Redisdb/Coding/Tests.antt =====
-- Runs of the encodings of redisdb/db/coding.cc, and the theorems at concrete inputs.
use cpp_swiss_army_knife.Common.{◌≡◌, refl, [], ◌∷◌, ◌++◌, some, none, dec_lt, length, arith}
use cpp_swiss_army_knife.Common.Order.{lt_wf}
use cpp_swiss_army_knife.Redisdb.Coding.{
  little_endian, big_endian, le_bytes, be_bytes, le_value, be_value, object_bytes, object_value,
  encode_fixed32, encode_fixed64, decode_fixed32, decode_fixed64, encode_varint32, encode_varint64,
  encode_varint64_loop, put_varint32, get_varint_loop, get_varint32_ptr, get_varint32_ptr_fallback,
  get_varint32, get_varint64_ptr, get_varint64, put_length_prefixed_slice, varint_length,
  get_length_prefixed_slice, varint_length_loop,
}
use cpp_swiss_army_knife.Redisdb.Coding.Varint.{
  get_varint64-encode_varint64, varint_length-encode_varint64,
}
use cpp_swiss_army_knife.Redisdb.Coding.Slices.{slice_of, get_length_prefixed_slice-put}

unfoldable pub program : Unit {0}
unfolding le_bytes be_bytes le_value be_value object_bytes object_value encode_fixed32
    encode_fixed64 decode_fixed32 decode_fixed64 encode_varint32 encode_varint64
    encode_varint64_loop put_varint32 get_varint_loop get_varint32_ptr get_varint32_ptr_fallback
    get_varint32 get_varint64_ptr get_varint64 put_length_prefixed_slice varint_length
    get_length_prefixed_slice varint_length_loop lt_wf dec_lt
program = tt

fixed_orders :
    (encode_fixed32 little_endian 0x01020304 ≡ 4 ∷ 3 ∷ 2 ∷ 1 ∷ [])
    × (encode_fixed32 big_endian 0x01020304 ≡ 1 ∷ 2 ∷ 3 ∷ 4 ∷ [])
    × (decode_fixed32 big_endian (1 ∷ 2 ∷ 3 ∷ 4 ∷ 9 ∷ []) ≡ 0x01020304)
unfolding program
fixed_orders = (refl, refl, refl)

varint_runs :
    (encode_varint32 300 ≡ 172 ∷ 2 ∷ [])
    × (encode_varint64 300 ≡ 172 ∷ 2 ∷ [])
    × (varint_length 300 ≡ 2)
    × (get_varint32 (172 ∷ 2 ∷ 7 ∷ []) ≡ some (300, 7 ∷ []))
    × (get_varint64 (172 ∷ []) ≡ none)
unfolding program
varint_runs = (refl, refl, refl, refl, refl)

-- Six bytes with the top bit set are no varint32.
varint32_too_long : get_varint32 (128 ∷ 128 ∷ 128 ∷ 128 ∷ 128 ∷ 1 ∷ []) ≡ none
unfolding program
varint32_too_long = refl

slice_runs :
    (slice_of (5 ∷ 6 ∷ []) ≡ 2 ∷ 5 ∷ 6 ∷ []) × (get_length_prefixed_slice (3 ∷ 5 ∷ 6 ∷ []) ≡ none)
unfolding program
slice_runs = (refl, refl)

get_varint64-encode_varint64_example :
    get_varint64 (encode_varint64 0xffff_ffff_ffff ++ 7 ∷ []) ≡ some (0xffff_ffff_ffff, 7 ∷ [])
get_varint64-encode_varint64_example =
    get_varint64-encode_varint64 0xffff_ffff_ffff (7 ∷ []) (omega arith)

varint_length-encode_varint64_example : varint_length 1000000 ≡ length (encode_varint64 1000000)
varint_length-encode_varint64_example = varint_length-encode_varint64 1000000 (omega arith)

get_length_prefixed_slice-put_example :
    get_length_prefixed_slice (slice_of (1 ∷ 2 ∷ 3 ∷ []) ++ 9 ∷ []) ≡ some (1 ∷ 2 ∷ 3 ∷ [], 9 ∷ [])
get_length_prefixed_slice-put_example =
    get_length_prefixed_slice-put (1 ∷ 2 ∷ 3 ∷ []) (9 ∷ []) (omega arith)
