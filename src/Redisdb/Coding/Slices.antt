-- ===== src/Redisdb/Coding/Slices.antt =====
-- The appending writers of redisdb/db/coding.cc, and length-prefixed slices read back.
use native.Mathlib.Nat.{mod-eq_of_lt}
use cpp_swiss_army_knife.Common.{
  ℕ, ◌%◌, ◌^◌, ◌<◌, ◌≡◌, List, [], ◌++◌, some, length, length-append, take-length, drop-length,
  append_assoc, append-nil, sym, ap, ◌∙◌, arith,
}
use cpp_swiss_army_knife.Redisdb.Coding.{
  put_varint32, put_length_prefixed_slice, get_length_prefixed_slice, encode_varint32,
}
use cpp_swiss_army_knife.Redisdb.Coding.Varint.{
  get_varint32-encode_varint32, encode_varint32-groups, groups, length-groups,
}

-- What is appended does not depend on what stands before it.
pub put_varint32-append :
    (dst more : List ℕ) (v : ℕ) → put_varint32 (dst ++ more) v ≡ dst ++ put_varint32 more v
unfolding put_varint32
put_varint32-append dst more v = append_assoc dst more (encode_varint32 v)

pub put_length_prefixed_slice-append :
    (dst more s : List ℕ)
    → put_length_prefixed_slice (dst ++ more) s ≡ dst ++ put_length_prefixed_slice more s
unfolding put_length_prefixed_slice
put_length_prefixed_slice-append dst more s =
    rw (put_varint32-append) (append_assoc dst (put_varint32 more (length s % 2 ^ 32)) s)

abbrev pub slice_of : List ℕ → List ℕ
slice_of s = put_length_prefixed_slice [] s

-- GetLengthPrefixedSlice reads back a slice shorter than 2^32 bytes that PutLengthPrefixedSlice
-- wrote and leaves the input behind it.
pub get_length_prefixed_slice-put :
    (s rest : List ℕ)
    → length s < 2 ^ 32
    → get_length_prefixed_slice (slice_of s ++ rest) ≡ some (s, rest)
unfolding get_length_prefixed_slice put_length_prefixed_slice put_varint32
get_length_prefixed_slice-put s rest h =
    let e : length s % 2 ^ 32 ≡ length s = mod-eq_of_lt h in
    rw (e, append_assoc, get_varint32-encode_varint32 (length s) (s ++ rest) h)
      (rw (length-append, take-length, drop-length) (ground arith))

pub length-slice_of : (s : List ℕ) → length s < length (slice_of s)
unfolding put_length_prefixed_slice put_varint32
length-slice_of s =
    let n : ℕ = length s % 2 ^ 32 in
    let e : encode_varint32 n ≡ groups 4 n = encode_varint32-groups n (omega arith) in
    rw (length-append, e) (omega (arith, length-groups 4 n))

pub put_length_prefixed_slice-slice_of :
    (dst s : List ℕ) → put_length_prefixed_slice dst s ≡ dst ++ slice_of s
put_length_prefixed_slice-slice_of dst s =
    ap (λ d. put_length_prefixed_slice d s) (sym (append-nil dst))
    ∙ put_length_prefixed_slice-append dst [] s
