-- ===== src/Redisdb/VersionEdit/Ends.antt =====
-- VersionEdit::DecodeFrom (redisdb/db/versionedit.cc) ends on every byte string: no case of the
-- switch gives input back.
use cpp_swiss_army_knife.Common.{
  ℕ, zero, suc, ◌≤◌, ◌≡◌, ◌≢◌, refl, subst, ◌⊎◌, inl, inr, Bool, true, false, List, Option, some,
  none, ◌>>=◌, if◌then◌else◌, length, arith, Option-cases, ltb, ◌==◌,
}
use cpp_swiss_army_knife.Redisdb.Coding.{get_varint32, get_varint64, get_length_prefixed_slice}
use cpp_swiss_army_knife.Redisdb.Coding.Progress.{
  get_varint32_shorter, get_varint64_shorter, get_length_prefixed_slice_shorter,
}
use cpp_swiss_army_knife.Redisdb.VersionEdit.{
  VersionEdit, Message, Step, failed, parsed, clear, get_level, get_name, get_number, get_pointer,
  get_deleted, get_file, or_fail, decode_field, decode_loop, decode_from, k_num_levels,
}

-- What is left of the input is at most n bytes.
abbrev LeavesAtMost : {X : Type 0} → ℕ → Option (X × List ℕ) → Type 0
LeavesAtMost n none = Unit {0}
LeavesAtMost n (some (a, rest)) = length rest ≤ n

abbrev StepLeaves : ℕ → Step → Type 0
StepLeaves n (failed msg) = Unit {0}
StepLeaves n (parsed e rest) = length rest ≤ n

bind_leaves :
    {X Y : Type 0} (n : ℕ) (o : Option (X × List ℕ)) (f : X × List ℕ → Option (Y × List ℕ))
    → LeavesAtMost n o
    → ((a : X) (rest : List ℕ) → length rest ≤ n → LeavesAtMost n (f (a, rest)))
    → LeavesAtMost n (o >>= f)
bind_leaves n none f h k = tt
bind_leaves n (some (a, rest)) f h k = k a rest h

leaves :
    {X : Type 0} (n : ℕ) (o : Option (X × List ℕ))
    → ((a : X) (rest : List ℕ) → o ≡ some (a, rest) → length rest ≤ n)
    → LeavesAtMost n o
leaves n none h = tt
leaves n (some (a, rest)) h = h a rest refl

module _ (n : ℕ) (input : List ℕ) (below : length input ≤ n) where
  get_varint32_leaves : LeavesAtMost n (get_varint32 input)
  get_varint32_leaves =
      leaves n (get_varint32 input) (λ v rest e. omega (arith, get_varint32_shorter input v rest e))

  get_varint64_leaves : LeavesAtMost n (get_varint64 input)
  get_varint64_leaves =
      leaves n (get_varint64 input) (λ v rest e. omega (arith, get_varint64_shorter input v rest e))

  get_slice_leaves : LeavesAtMost n (get_length_prefixed_slice input)
  get_slice_leaves =
      leaves n (get_length_prefixed_slice input)
        (λ s rest e. omega (arith, get_length_prefixed_slice_shorter input s rest e))

level_leaves :
    (n v : ℕ) (rest : List ℕ) (b : Bool)
    → length rest ≤ n
    → LeavesAtMost {X = ℕ} n (if b then some (v, rest) else none)
level_leaves n v rest true h = h
level_leaves n v rest false h = tt

module _ (n : ℕ) (input : List ℕ) (below : length input ≤ n) (e : VersionEdit) where
  get_level_leaves : LeavesAtMost n (get_level input)
  unfolding get_level
  get_level_leaves =
      bind_leaves n _ _ (get_varint32_leaves n input below)
        (λ v rest h. level_leaves n v rest (ltb v k_num_levels) h)

  get_name_leaves : LeavesAtMost n (get_name e input)
  unfolding get_name
  get_name_leaves = bind_leaves n _ _ (get_slice_leaves n input below) (λ s rest h. h)

  get_number_leaves : (set_to : ℕ → VersionEdit) → LeavesAtMost n (get_number set_to input)
  unfolding get_number
  get_number_leaves set_to = bind_leaves n _ _ (get_varint64_leaves n input below) (λ v rest h. h)

  get_pointer_leaves : LeavesAtMost n (get_pointer e input)
  unfolding get_pointer
  get_pointer_leaves =
      bind_leaves n _ _ get_level_leaves
        (λ l rest h. bind_leaves n _ _ (get_slice_leaves n rest h) (λ s rest' h'. h'))

  get_deleted_leaves : LeavesAtMost n (get_deleted e input)
  unfolding get_deleted
  get_deleted_leaves =
      bind_leaves n _ _ get_level_leaves
        (λ l rest h. bind_leaves n _ _ (get_varint64_leaves n rest h) (λ s rest' h'. h'))

  get_file_leaves : LeavesAtMost n (get_file e input)
  unfolding get_file
  get_file_leaves = bind_leaves n _ _ get_level_leaves (λ l rest h.
      bind_leaves n _ _ (get_varint64_leaves n rest h) (λ number r1 h1.
        bind_leaves n _ _ (get_varint64_leaves n r1 h1) (λ size r2 h2.
          bind_leaves n _ _ (get_slice_leaves n r2 h2)
            (λ s r3 h3. bind_leaves n _ _ (get_slice_leaves n r3 h3) (λ t r4 h4. h4)))))

or_fail_leaves :
    (n : ℕ) (msg : Message) (o : Option (VersionEdit × List ℕ))
    → LeavesAtMost n o
    → StepLeaves n (or_fail msg o)
unfolding or_fail
or_fail_leaves n msg none h = tt
or_fail_leaves n msg (some (e, rest)) h = h

if_leaves :
    (n : ℕ) (b : Bool) (x y : Step)
    → StepLeaves n x
    → StepLeaves n y
    → StepLeaves n (if b then x else y)
if_leaves n true x y hx hy = hx
if_leaves n false x y hx hy = hy

decode_field_leaves :
    (e : VersionEdit) (tag : ℕ) (input : List ℕ)
    → StepLeaves (length input) (decode_field e tag input)
unfolding decode_field
decode_field_leaves e tag input =
    let n = length input in
    let h : length input ≤ n = omega arith in
    let number = λ (msg : Message) (set_to : ℕ → VersionEdit).
      or_fail_leaves n msg _ (get_number_leaves n input h e set_to) in
    if_leaves n (tag == 1) _ _ (or_fail_leaves n _ _ (get_name_leaves n input h e)) (
      if_leaves n (tag == 2) _ _ (number _ _) (
        if_leaves n (tag == 9) _ _ (number _ _) (
          if_leaves n (tag == 3) _ _ (number _ _) (
            if_leaves n (tag == 4) _ _ (number _ _) (
              if_leaves n (tag == 5) _ _ (or_fail_leaves n _ _ (get_pointer_leaves n input h e)) (
                if_leaves n (tag == 6) _ _ (or_fail_leaves n _ _ (get_deleted_leaves n input h e)) (
                  if_leaves n (tag == 7) _ _ (or_fail_leaves n _ _ (get_file_leaves n input h e))
                    tt)))))))

Step-cases :
    (s : Step)
    → ((msg : Message) × (s ≡ failed msg)) ⊎ ((p : VersionEdit × List ℕ) × (s ≡ parsed p.0 p.1))
Step-cases (failed msg) = inl (msg, refl)
Step-cases (parsed e rest) = inr ((e, rest), refl)

decode_loop_total :
    (fuel : ℕ) (e : VersionEdit) (input : List ℕ)
    → length input ≤ fuel
    → decode_loop fuel e input ≢ none
unfolding decode_loop
decode_loop_total zero e input h = elim (Option-cases (get_varint32 input)) [
  | inl q ↦ rw (q, decode_loop) (ground arith)
  | inr ((v, rest), q) ↦ absurd (omega (arith, get_varint32_shorter input v rest q))
]
decode_loop_total (suc fuel) e input h = elim (Option-cases (get_varint32 input)) [
  | inl q ↦ rw (q, decode_loop) (ground arith)
  | inr ((tag, rest), q) ↦ elim (Step-cases (decode_field e tag rest)) [
    | inl (msg, s) ↦ rw (q, decode_loop) (rw (s, decode_loop) (ground arith))
    | inr ((e', rest'), s) ↦
        let shorter = get_varint32_shorter input tag rest q in
        let left = subst (StepLeaves (length rest)) s (decode_field_leaves e tag rest) in
        rw (q, decode_loop)
          (rw (s, decode_loop) (decode_loop_total fuel e' rest' (omega (arith, left))))
  ]
]

-- DecodeFrom ends on every byte string, well formed or not: the model's fuel, the length of the
-- input, is always enough.
pub decode_from_total : (e : VersionEdit) (src : List ℕ) → decode_from e src ≢ none
unfolding decode_from
decode_from_total e src = decode_loop_total (length src) (clear e) src (omega arith)
