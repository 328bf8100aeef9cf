-- ===== src/Redisdb/Table/Handles.antt =====
-- The footer of a table file: Footer::EncodeTo and DecodeFrom (redisdb/db/format.cc).
use cpp_swiss_army_knife.Common.{
  ℕ, zero, suc, ◌+◌, ◌-◌, ◌*◌, ◌/◌, ◌%◌, ◌^◌, ◌≤◌, ◌<◌, ◌≡◌, refl, sym, ap, ◌∙◌, false, List, [],
  ◌∷◌, ◌++◌, some, ◌==◌, length, take, drop, replicate, append_assoc, length-append,
  length-replicate, drop-length, bit_or, arith,
}
use cpp_swiss_army_knife.Redisdb.Coding.{
  ByteOrder, encode_fixed32, decode_fixed32, encode_varint64, put_fixed32, put_varint64,
}
use cpp_swiss_army_knife.Redisdb.Coding.Fixed.{decode_fixed32_at, length-encode_fixed32}
use cpp_swiss_army_knife.Redisdb.Coding.Varint.{
  groups, encode_varint64-groups, get_varint64-encode_varint64,
}
use cpp_swiss_army_knife.Redisdb.Table.{
  BlockHandle, unset, encode_handle, decode_handle, Footer, max_encoded_length, encoded_length,
  k_table_magic_number, resized, finish_footer, encode_footer, footer_of, decode_both,
  decode_handles, decode_footer,
}

-- A handle that was set, and fits its fields.
abbrev pub IsHandle : BlockHandle → Type 0
IsHandle h = (h.offset < unset) × (h.size < unset)

abbrev handle_bytes : BlockHandle → List ℕ
handle_bytes h = encode_varint64 h.offset ++ encode_varint64 h.size

length-groups : (k v : ℕ) → length (groups k v) ≤ suc k
unfolding groups
length-groups zero v = omega arith
length-groups (suc k) v = ground (arith, length-groups k (v / 128))

length-handle_bytes : (h : BlockHandle) → IsHandle h → length (handle_bytes h) ≤ 20
length-handle_bytes h b = omega (
  arith,
  length-append (encode_varint64 h.offset) (encode_varint64 h.size),
  ap length (encode_varint64-groups h.offset (omega (arith, b.0))),
  ap length (encode_varint64-groups h.size (omega (arith, b.1))),
  length-groups 9 h.offset,
  length-groups 9 h.size,
)

not_unset : (n : ℕ) → n < unset → (n == unset) ≡ false
not_unset n h = ground arith

encode_handle-bytes :
    (dst : List ℕ) (h : BlockHandle)
    → IsHandle h
    → encode_handle dst h ≡ some (dst ++ handle_bytes h)
unfolding encode_handle put_varint64
encode_handle-bytes dst h b =
    let o = not_unset h.offset b.0 in
    let z = not_unset h.size b.1 in
    rw (o, z) (ap some (append_assoc dst (encode_varint64 h.offset) (encode_varint64 h.size)))

decode_handle-bytes :
    (h : BlockHandle) (rest : List ℕ)
    → IsHandle h
    → decode_handle (handle_bytes h ++ rest) ≡ some (h, rest)
unfolding decode_handle
decode_handle-bytes h rest b =
    let o =
      get_varint64-encode_varint64 h.offset (encode_varint64 h.size ++ rest) (omega (arith, b.0)) in
    let z = get_varint64-encode_varint64 h.size rest (omega (arith, b.1)) in
    ap decode_handle (append_assoc (encode_varint64 h.offset) (encode_varint64 h.size) rest)
    ∙ rw (o, decode_handle) (rw (z) refl)

abbrev handles : Footer → List ℕ
handles f = handle_bytes f.metaindexhandle ++ handle_bytes f.index_handle

abbrev padding : Footer → List ℕ
padding f = replicate (2 * max_encoded_length - length (handles f)) 0

abbrev magic_bytes : ByteOrder → List ℕ
magic_bytes host =
    encode_fixed32 host (k_table_magic_number % 2 ^ 32)
    ++ encode_fixed32 host (k_table_magic_number / 2 ^ 32)

abbrev pub IsFooter : Footer → Type 0
IsFooter f = IsHandle f.metaindexhandle × IsHandle f.index_handle

take_whole : (n : ℕ) (xs : List ℕ) → length xs ≤ n → take n xs ≡ xs
take_whole zero [] h = refl
take_whole (suc n) [] h = refl
take_whole zero (x ∷ xs) h = absurd (omega arith)
take_whole (suc n) (x ∷ xs) h = ap (λ (t : List ℕ). x ∷ t) (take_whole n xs (omega arith))

length-handles : (f : Footer) → IsFooter f → length (handles f) ≤ 40
length-handles f (m, i) = omega (
  arith,
  length-append (handle_bytes f.metaindexhandle) (handle_bytes f.index_handle),
  length-handle_bytes f.metaindexhandle m,
  length-handle_bytes f.index_handle i,
)

length-front : (f : Footer) → IsFooter f → 40 ≡ length (handles f ++ padding f)
length-front f b = omega (
  arith,
  length-append (handles f) (padding f),
  length-handles f b,
  length-replicate {A = ℕ} (2 * max_encoded_length - length (handles f)) 0,
)

module _ (host : ByteOrder) where
  abbrev footer_bytes : Footer → List ℕ
  footer_bytes f = (handles f ++ padding f) ++ magic_bytes host

  finish_footer-bytes : (f : Footer) → IsFooter f → finish_footer host (handles f) ≡ footer_bytes f
  unfolding finish_footer put_fixed32 resized
  finish_footer-bytes f b =
      ap
        (λ (t : List ℕ).
          ((t ++ padding f) ++ encode_fixed32 host (k_table_magic_number % 2 ^ 32))
          ++ encode_fixed32 host (k_table_magic_number / 2 ^ 32))
        (take_whole 40 (handles f) (length-handles f b))
      ∙ append_assoc (handles f ++ padding f) (encode_fixed32 host (k_table_magic_number % 2 ^ 32))
          (encode_fixed32 host (k_table_magic_number / 2 ^ 32))

  length-footer_bytes : (f : Footer) → IsFooter f → length (footer_bytes f) ≡ encoded_length
  length-footer_bytes f b =
      let lo = encode_fixed32 host (k_table_magic_number % 2 ^ 32) in
      let hi = encode_fixed32 host (k_table_magic_number / 2 ^ 32) in
      omega (
        arith,
        length-append (handles f ++ padding f) (lo ++ hi),
        length-append lo hi,
        length-front f b,
        length-encode_fixed32 host (k_table_magic_number % 2 ^ 32),
        length-encode_fixed32 host (k_table_magic_number / 2 ^ 32),
      )

  decode_both-bytes :
      (f : Footer) (rest : List ℕ)
      → IsFooter f
      → decode_both (handles f ++ rest) ≡ some (f.metaindexhandle, f.index_handle)
  unfolding decode_both
  decode_both-bytes f rest (m, i) =
      let first = decode_handle-bytes f.metaindexhandle (handle_bytes f.index_handle ++ rest) m in
      let second = decode_handle-bytes f.index_handle rest i in
      ap decode_both
        (append_assoc (handle_bytes f.metaindexhandle) (handle_bytes f.index_handle) rest)
      ∙ rw (first, decode_both) (rw (second) refl)

  magic_value :
      bit_or (k_table_magic_number / 2 ^ 32 * 2 ^ 32) (k_table_magic_number % 2 ^ 32)
      ≡ k_table_magic_number
  magic_value = refl

  decode_footer-bytes :
      (f : Footer) (rest : List ℕ)
      → IsFooter f
      → decode_footer host (footer_bytes f ++ rest) ≡ footer_of f rest
  unfolding decode_footer decode_handles
  decode_footer-bytes f rest b =
      let front = handles f ++ padding f in
      let lo = encode_fixed32 host (k_table_magic_number % 2 ^ 32) in
      let hi = encode_fixed32 host (k_table_magic_number / 2 ^ 32) in
      let input = footer_bytes f ++ rest in
      let at_lo : input ≡ front ++ (lo ++ (hi ++ rest)) =
        append_assoc front (lo ++ hi) rest
        ∙ ap (λ (t : List ℕ). front ++ t) (append_assoc lo hi rest) in
      let at_hi : input ≡ (front ++ lo) ++ (hi ++ rest) =
        at_lo ∙ sym (append_assoc front lo (hi ++ rest)) in
      let at_handles : input ≡ handles f ++ (padding f ++ (magic_bytes host ++ rest)) =
        append_assoc front (magic_bytes host) rest
        ∙ append_assoc (handles f) (padding f) (magic_bytes host ++ rest) in
      let read_lo : decode_fixed32 host (drop (encoded_length - 8) input)
          ≡ k_table_magic_number % 2 ^ 32 =
        ap (λ (t : List ℕ). decode_fixed32 host (drop 40 t)) at_lo
        ∙ decode_fixed32_at host front (k_table_magic_number % 2 ^ 32) (hi ++ rest) 40
            (length-front f b) (omega arith) in
      let read_hi : decode_fixed32 host (drop (encoded_length - 8 + 4) input)
          ≡ k_table_magic_number / 2 ^ 32 =
        ap (λ (t : List ℕ). decode_fixed32 host (drop 44 t)) at_hi
        ∙ decode_fixed32_at host (front ++ lo) (k_table_magic_number / 2 ^ 32) rest 44
            (omega (
              arith,
              length-front f b,
              length-append front lo,
              length-encode_fixed32 host (k_table_magic_number % 2 ^ 32),
            ))
            (omega arith) in
      let both =
        ap decode_both at_handles
        ∙ decode_both-bytes f (padding f ++ (magic_bytes host ++ rest)) b in
      let behind : drop encoded_length input ≡ rest =
        ap (λ (n : ℕ). drop n input) (sym (length-footer_bytes f b))
        ∙ drop-length (footer_bytes f) rest in
      rw (read_lo, read_hi) (rw (both, decode_handles) (rw (behind) refl))

  -- The footer of a table: for block handles whose fields are below 2^64 - 1, Footer::EncodeTo into
  -- an empty string fails no assert and gives 48 bytes, and DecodeFrom of them, with anything
  -- behind, gives the two handles and what is behind.
  pub decode_footer-encode_footer :
      (f : Footer) (rest : List ℕ)
      → IsFooter f
      → (bytes : List ℕ) × (encode_footer host [] f ≡ some bytes)
        × (length bytes ≡ encoded_length)
        × (decode_footer host (bytes ++ rest) ≡ footer_of f rest)
  unfolding encode_footer
  decode_footer-encode_footer f rest b =
      let first = encode_handle-bytes [] f.metaindexhandle b.0 in
      let second = encode_handle-bytes (handle_bytes f.metaindexhandle) f.index_handle b.1 in
      let end = finish_footer-bytes f b in
      let size = length-footer_bytes f b in
      (footer_bytes f, rw (first, second, end, size) refl, size, decode_footer-bytes f rest b)
