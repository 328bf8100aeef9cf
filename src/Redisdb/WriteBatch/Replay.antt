-- ===== src/Redisdb/WriteBatch/Replay.antt =====
-- WriteBatch::Iterate (redisdb/db/writebatch.cc) replays what was written to a batch, and ends on
-- every byte string.
use cpp_swiss_army_knife.Common.{
  ℕ, zero, suc, ◌+◌, ◌%◌, ◌^◌, ◌≤◌, ◌<◌, ◌≡◌, ◌≢◌, refl, ap, ◌∙◌, List, [], ◌∷◌, ◌++◌, length, drop,
  some, none, true, leb, length-append, append_assoc, arith, All, Option-cases, inl, inr,
}
use cpp_swiss_army_knife.Redisdb.Coding.{ByteOrder, encode_fixed32, get_length_prefixed_slice}
use cpp_swiss_army_knife.Redisdb.Coding.Fixed.{length-encode_fixed32}
use cpp_swiss_army_knife.Redisdb.Coding.Slices.{slice_of, get_length_prefixed_slice-put}
use cpp_swiss_army_knife.Redisdb.Coding.Progress.{get_length_prefixed_slice_shorter}
use cpp_swiss_army_knife.Redisdb.Format.{ValueType, type_value, type_deletion}
use cpp_swiss_army_knife.Redisdb.WriteBatch.{header_size, ok, set_contents, iterate_loop, iterate}
use cpp_swiss_army_knife.Redisdb.WriteBatch.Records.{
  Update, put_update, delete_update, records, build, build-layout, count-layout, drop-layout,
  zero_header, layout, length-layout,
}

-- Keys and values whose sizes fit in uint32_t.
abbrev pub Fits : Update → Type 0
Fits (put_update key value) = (length key < 2 ^ 32) × (length value < 2 ^ 32)
Fits (delete_update key) = length key < 2 ^ 32

module _ {M : Type 0} (add : M → ℕ → ValueType → List ℕ → List ℕ → M) where
  -- The calls of MemTable::Add that the updates stand for, with consecutive sequence numbers.
  abbrev pub replay : List Update → ℕ → M → M
  replay [] seq mem = mem
  replay (put_update key value ∷ us) seq mem =
      replay us ((seq + 1) % 2 ^ 64) (add mem seq type_value key value)
  replay (delete_update key ∷ us) seq mem =
      replay us ((seq + 1) % 2 ^ 64) (add mem seq type_deletion key [])

put_slices :
    (key value rest : List ℕ)
    → Fits (put_update key value)
    → get_length_prefixed_slice ((slice_of key ++ slice_of value) ++ rest)
      ≡ some (key, slice_of value ++ rest)
put_slices key value rest fits =
    rw (append_assoc (slice_of key) (slice_of value) rest)
      (get_length_prefixed_slice-put key (slice_of value ++ rest) fits.0)

module _ (host : ByteOrder) {M : Type 0} (add : M → ℕ → ValueType → List ℕ → List ℕ → M) where
  iterate_loop-records :
      (us : List Update) (fuel seq found : ℕ) (mem : M)
      → All Fits us
      → length (records us) ≤ fuel
      → found + length us < 2 ^ 31
      → iterate_loop host add fuel (records us) seq found mem
        ≡ some (record { status = ok; found = found + length us; mem = replay add us seq mem })
  unfolding iterate_loop
  iterate_loop-records [] zero seq found mem fits h k = ground arith
  iterate_loop-records [] (suc fuel) seq found mem fits h k = ground arith
  iterate_loop-records (put_update key value ∷ us) zero seq found mem fits h k =
      absurd (omega arith)
  iterate_loop-records (delete_update key ∷ us) zero seq found mem fits h k = absurd (omega arith)
  iterate_loop-records (put_update key value ∷ us) (suc fuel) seq found mem fits h k =
      let e1 = put_slices key value (records us) fits.0 in
      let e2 = get_length_prefixed_slice-put value (records us) fits.0.1 in
      let size = length-append (slice_of key ++ slice_of value) (records us) in
      rw (e1, iterate_loop)
        (rw (e2, iterate_loop)
          (ground (
            arith,
            iterate_loop-records us fuel ((seq + 1) % 2 ^ 64) ((found + 1) % 2 ^ 32)
                (add mem seq type_value key value) fits.1 (omega arith) (omega arith),
          )))
  iterate_loop-records (delete_update key ∷ us) (suc fuel) seq found mem fits h k =
      let e = get_length_prefixed_slice-put key (records us) fits.0 in
      let size = length-append (slice_of key) (records us) in
      rw (e, iterate_loop)
        (ground (
          arith,
          iterate_loop-records us fuel ((seq + 1) % 2 ^ 64) ((found + 1) % 2 ^ 32)
              (add mem seq type_deletion key []) fits.1 (omega arith) (omega arith),
        ))

  iterate-layout :
      (us : List Update) (seq : ℕ) (mem : M)
      → length us < 2 ^ 31
      → All Fits us
      → iterate host add (layout host zero_header (length us) (records us)) seq mem
        ≡ some (ok, replay add us seq mem)
  unfolding iterate
  iterate-layout us seq mem h fits =
      let n : ℕ = length us in
      let long : 12 ≤ length (layout host zero_header n (records us)) =
        omega (
          arith,
          length-append (encode_fixed32 host n) (records us),
          length-encode_fixed32 host n,
        ) in
      rw
        (
          drop-layout host zero_header refl n (records us),
          iterate_loop-records us (length (records us)) seq 0 mem fits (omega arith) (omega arith),
        )
        (ground (arith, count-layout host zero_header refl n (records us) (omega arith)))

  -- The updates put into a WriteBatch by Put and Delete come back in order from Iterate: for fewer
  -- than 2^31 updates whose keys and values are shorter than 2^32 bytes, Iterate of the built batch
  -- ends with status ok and has called MemTable::Add once per update, with sequence numbers seq,
  -- seq + 1, ... modulo 2^64; and SetContents takes the built batch as it is. It holds on a host of
  -- either byte order and for every function that stands for MemTable::Add.
  pub iterate-build :
      (us : List Update) (seq : ℕ) (mem : M)
      → length us < 2 ^ 31
      → All Fits us
      → (iterate host add (build host us) seq mem ≡ some (ok, replay add us seq mem))
        × (set_contents (build host us) ≡ some (build host us))
  unfolding set_contents
  iterate-build us seq mem h fits =
      let n : ℕ = length us in
      let long : leb header_size (length (layout host zero_header n (records us))) ≡ true =
        ground (arith, length-layout host n (records us)) in
      (
        ap (λ r. iterate host add r seq mem) (build-layout host us h)
            ∙ iterate-layout us seq mem h fits,
        rw (build-layout host us h) (rw long refl),
      )

  iterate_loop_total :
      (fuel : ℕ) (input : List ℕ) (seq found : ℕ) (mem : M)
      → length input ≤ fuel
      → iterate_loop host add fuel input seq found mem ≢ none
  unfolding iterate_loop
  iterate_loop_total zero [] seq found mem h = ground arith
  iterate_loop_total zero (tag ∷ input) seq found mem h = absurd (omega arith)
  iterate_loop_total (suc fuel) [] seq found mem h = ground arith
  iterate_loop_total (suc fuel) (tag ∷ input) seq found mem h =
      elim (Option-cases (get_length_prefixed_slice input)) [
        | inl e ↦ rw (e, iterate_loop) (ground arith)
        | inr ((key, rest), e) ↦
            let shorter = get_length_prefixed_slice_shorter input key rest e in
            let deleted =
              iterate_loop_total fuel rest ((seq + 1) % 2 ^ 64) ((found + 1) % 2 ^ 32)
                (add mem seq type_deletion key []) (omega arith) in
            elim (Option-cases (get_length_prefixed_slice rest)) [
              | inl e' ↦ rw (e, iterate_loop) (rw (e', iterate_loop) (ground arith))
              | inr ((value, rest'), e') ↦
                  let shorter' = get_length_prefixed_slice_shorter rest value rest' e' in
                  let added =
                    iterate_loop_total fuel rest' ((seq + 1) % 2 ^ 64) ((found + 1) % 2 ^ 32)
                      (add mem seq type_value key value) (omega arith) in
                  rw (e, iterate_loop) (rw (e', iterate_loop) (ground arith))
            ]
      ]

  -- Iterate ends on every byte string, well formed or not: the model's fuel, the length of the
  -- batch, is always enough. Its count of records, an int, is taken to wrap where it overflows.
  pub iterate_total : (rep : List ℕ) (seq : ℕ) (mem : M) → iterate host add rep seq mem ≢ none
  unfolding iterate
  iterate_total rep seq mem =
      let input = drop header_size rep in
      ground (arith, iterate_loop_total (length input) input seq 0 mem (omega arith))
