-- ===== src/Redisdb/Coding/Progress.antt =====
-- The readers of redisdb/db/coding.cc take at least a byte where they succeed.
use cpp_swiss_army_knife.Common.{
  ℕ, ◌+◌, ◌<◌, ◌≡◌, List, [], ◌∷◌, some, bit_or, bit_and, ◌*◌, ◌%◌, ◌^◌, length, length-drop, arith,
  Option-cases, inl, inr,
}
use cpp_swiss_army_knife.Redisdb.Coding.{
  get_varint_loop, get_varint32_ptr, get_varint32_ptr_fallback, get_varint32, get_varint64,
  get_varint64_ptr, get_length_prefixed_slice,
}

get_varint_loop_shorter :
    (bits last : ℕ) (p : List ℕ) (shift result v : ℕ) (rest : List ℕ)
    → get_varint_loop bits last p shift result ≡ some (v, rest)
    → length rest < length p
unfolding get_varint_loop
get_varint_loop_shorter bits last [] shift result v rest h = ground arith
get_varint_loop_shorter bits last (b ∷ p) shift result v rest h = ground (
  arith,
  get_varint_loop_shorter bits last p (shift + 7)
      (bit_or result (bit_and b 127 * 2 ^ shift % 2 ^ bits)) v rest,
)

pub get_varint32_shorter :
    (p : List ℕ) (v : ℕ) (rest : List ℕ) → get_varint32 p ≡ some (v, rest) → length rest < length p
unfolding get_varint32 get_varint32_ptr get_varint32_ptr_fallback
get_varint32_shorter [] v rest h = get_varint_loop_shorter 32 28 [] 0 0 v rest h
get_varint32_shorter (b ∷ p) v rest h =
    ground (arith, get_varint_loop_shorter 32 28 (b ∷ p) 0 0 v rest)

pub get_varint64_shorter :
    (p : List ℕ) (v : ℕ) (rest : List ℕ) → get_varint64 p ≡ some (v, rest) → length rest < length p
unfolding get_varint64 get_varint64_ptr
get_varint64_shorter p v rest h = get_varint_loop_shorter 64 63 p 0 0 v rest h

pub get_length_prefixed_slice_shorter :
    (p s rest : List ℕ) → get_length_prefixed_slice p ≡ some (s, rest) → length rest < length p
unfolding get_length_prefixed_slice
get_length_prefixed_slice_shorter p s rest h = elim (Option-cases (get_varint32 p)) [
  | inl e ↦ ground arith
  | inr ((n, q), e) ↦ ground (arith, get_varint32_shorter p n q e, length-drop n q)
]
