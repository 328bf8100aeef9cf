-- ===== src/Redisdb/WriteBatch/Records.antt =====
-- What a batch built by Put, Delete and append (redisdb/db/writebatch.cc) holds: a header, the count
-- of its updates, and their records in order.
use native.Mathlib.Nat.{mod-eq_of_lt}
use cpp_swiss_army_knife.Common.{
  ℕ, suc, ◌+◌, ◌%◌, ◌^◌, ◌<◌, true, some, leb, ◌≡◌, refl, ap, sym, ◌∙◌, List, [], ◌∷◌, ◌++◌, length,
  drop, length-append, drop_append, drop-length, append_assoc, append-nil, store_at_middle, arith,
}
use cpp_swiss_army_knife.Redisdb.Coding.{
  ByteOrder, little_endian, big_endian, encode_fixed32, put_length_prefixed_slice, object_bytes,
  le_bytes, be_bytes,
}
use cpp_swiss_army_knife.Redisdb.Coding.Fixed.{decode_fixed32-encode_fixed32, length-encode_fixed32}
use cpp_swiss_army_knife.Redisdb.Coding.Slices.{slice_of, put_length_prefixed_slice-slice_of}
use cpp_swiss_army_knife.Redisdb.Format.{type_value, type_deletion, type_code}
use cpp_swiss_army_knife.Redisdb.WriteBatch.{
  header_size, new_batch, count, set_count, put, delete, append_batch,
}

pub data Update : Type 0 where
  put_update : List ℕ → List ℕ → Update
  delete_update : List ℕ → Update

abbrev pub record_of : Update → List ℕ
record_of (put_update key value) = type_code type_value ∷ (slice_of key ++ slice_of value)
record_of (delete_update key) = type_code type_deletion ∷ slice_of key

abbrev pub records : List Update → List ℕ
records [] = []
records (u ∷ us) = record_of u ++ records us

pub records-append : (us vs : List Update) → records (us ++ vs) ≡ records us ++ records vs
records-append [] vs = refl
records-append (u ∷ us) vs =
    rw (records-append us vs) (sym (append_assoc (record_of u) (records us) (records vs)))

abbrev pub run_update : ByteOrder → List ℕ → Update → List ℕ
run_update host rep (put_update key value) = put host rep key value
run_update host rep (delete_update key) = delete host rep key

-- The batch after a list of calls.
abbrev pub run_updates : ByteOrder → List ℕ → List Update → List ℕ
run_updates host rep [] = rep
run_updates host rep (u ∷ us) = run_updates host (run_update host rep u) us

module _ (host : ByteOrder) where
  abbrev pub layout : List ℕ → ℕ → List ℕ → List ℕ
  layout header n body = header ++ (encode_fixed32 host n ++ body)

  module _ (header : List ℕ) (eight : length header ≡ 8) where
    pub count-layout : (n : ℕ) (body : List ℕ) → n < 2 ^ 32 → count host (layout header n body) ≡ n
    unfolding count
    count-layout n body h =
        let e : drop 8 (layout header n body) ≡ encode_fixed32 host n ++ body =
          ap (λ (t : ℕ). drop t (layout header n body)) (sym eight) ∙ drop-length header _ in
        rw e (decode_fixed32-encode_fixed32 host n body h)

    pub set_count-layout :
        (n m : ℕ) (body : List ℕ)
        → m < 2 ^ 32
        → set_count host (layout header n body) m ≡ layout header m body
    unfolding set_count
    set_count-layout n m body h = rw (mod-eq_of_lt h) (
        store_at_middle header (encode_fixed32 host n) (encode_fixed32 host m) body 8 (sym eight)
          (length-encode_fixed32 host n ∙ sym (length-encode_fixed32 host m)))

    pub drop-layout : (n : ℕ) (body : List ℕ) → drop header_size (layout header n body) ≡ body
    drop-layout n body =
        drop_append header (encode_fixed32 host n ++ body) header_size
          (length (encode_fixed32 host n)) (omega (arith, length-encode_fixed32 host n))
        ∙ drop-length (encode_fixed32 host n) body

    layout-append :
        (n : ℕ) (body more : List ℕ) → layout header n body ++ more ≡ layout header n (body ++ more)
    layout-append n body more =
        append_assoc header (encode_fixed32 host n ++ body) more
        ∙ ap (λ t. header ++ t) (append_assoc (encode_fixed32 host n) body more)

    run_update-layout :
        (u : Update) (n : ℕ) (body : List ℕ)
        → n + 1 < 2 ^ 31
        → run_update host (layout header n body) u ≡ layout header (n + 1) (body ++ record_of u)
    unfolding put delete
    run_update-layout (put_update key value) n body h =
        let whole : (n + 1) % 2 ^ 32 ≡ n + 1 = omega arith in
        rw (count-layout n body (omega arith), whole, set_count-layout n (n + 1) body (omega arith))
          (put_length_prefixed_slice-slice_of (put_length_prefixed_slice (start 1) key) value
            ∙ ap (λ t. t ++ slice_of value) (put_length_prefixed_slice-slice_of (start 1) key)
            ∙ simp append_assoc)
      where
        start : ℕ → List ℕ
        start code = layout header (n + 1) body ++ code ∷ []
    run_update-layout (delete_update key) n body h =
        let whole : (n + 1) % 2 ^ 32 ≡ n + 1 = omega arith in
        rw (count-layout n body (omega arith), whole, set_count-layout n (n + 1) body (omega arith))
          (put_length_prefixed_slice-slice_of (layout header (n + 1) body ++ 0 ∷ []) key
            ∙ simp append_assoc)

    pub run_updates-layout :
        (us : List Update) (n : ℕ) (body : List ℕ)
        → n + length us < 2 ^ 31
        → run_updates host (layout header n body) us
          ≡ layout header (n + length us) (body ++ records us)
    run_updates-layout [] n body h =
        let e : n ≡ n + 0 = omega arith in rw append-nil (ap (λ (t : ℕ). layout header t body) e)
    run_updates-layout (u ∷ us) n body h =
        let e : n + 1 + length us ≡ n + suc (length us) = omega arith in
        ap (λ t. run_updates host t us) (run_update-layout u n body (omega arith))
        ∙ run_updates-layout us (n + 1) (body ++ record_of u) (omega arith)
        ∙ ap (λ t. layout header (n + 1 + length us) t)
            (append_assoc body (record_of u) (records us))
        ∙ ap (λ (t : ℕ). layout header t (body ++ records (u ∷ us))) e

abbrev pub zero_header : List ℕ
zero_header = 0 ∷ 0 ∷ 0 ∷ 0 ∷ 0 ∷ 0 ∷ 0 ∷ 0 ∷ []

pub new_batch-layout : (host : ByteOrder) → new_batch ≡ layout host zero_header 0 []
unfolding new_batch encode_fixed32 object_bytes le_bytes be_bytes
new_batch-layout little_endian = refl
new_batch-layout big_endian = refl

unfoldable pub build : ByteOrder → List Update → List ℕ
build host us = run_updates host new_batch us

pub build-layout :
    (host : ByteOrder) (us : List Update)
    → length us < 2 ^ 31
    → build host us ≡ layout host zero_header (length us) (records us)
unfolding build
build-layout host us h = rw (new_batch-layout host) (
    run_updates-layout host zero_header refl us 0 [] (omega arith)
    ∙ ap (λ (t : ℕ). layout host zero_header t (records us)) (omega arith))

pub length-layout :
    (host : ByteOrder) (n : ℕ) (body : List ℕ)
    → length (layout host zero_header n body) ≡ header_size + length body
length-layout host n body =
    omega (arith, length-append (encode_fixed32 host n) body, length-encode_fixed32 host n)

-- WriteBatchInternal::append of two built batches fails no assert and gives the batch built from the
-- updates of the first followed by those of the second, when together they are fewer than 2^31.
pub append_batch-build :
    (host : ByteOrder) (us vs : List Update)
    → length us + length vs < 2 ^ 31
    → append_batch host (build host us) (build host vs) ≡ some (build host (us ++ vs))
unfolding append_batch
append_batch-build host us vs h =
    let n : ℕ = length us in
    let m : ℕ = length vs in
    let both : length (us ++ vs) ≡ n + m = length-append us vs in
    let countable : length (us ++ vs) < 2 ^ 31 = omega arith in
    let whole : (n + m) % 2 ^ 32 ≡ n + m = omega arith in
    let long : leb header_size (length (layout host zero_header m (records vs))) ≡ true =
      ground (arith, length-layout host m (records vs)) in
    rw
      (
        build-layout host us (omega arith),
        build-layout host vs (omega arith),
        build-layout host (us ++ vs) countable,
      )
      (rw
        (
          long,
          count-layout host zero_header refl n (records us) (omega arith),
          count-layout host zero_header refl m (records vs) (omega arith),
          whole,
          set_count-layout host zero_header refl n (n + m) (records us) (omega arith),
          drop-layout host zero_header refl m (records vs),
        )
        (ap some (layout-append host zero_header refl (n + m) (records us) (records vs))
          ∙ rw (both, records-append us vs)))
