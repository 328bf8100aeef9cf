-- ===== src/Redisdb/WritableFile/Append.antt =====
-- append of WritableFile against the bytes of the file and its buffer (redisdb/db/env.h).
use cpp_swiss_army_knife.Common.{
  ℕ, ◌-◌, ◌≤◌, ◌≡◌, refl, sym, ap, ◌∙◌, subst, Bool, true, false, Bool-cases, inl, inr, List, [],
  ◌∷◌, ◌++◌, Option, none, some, ltb, ltb→lt, ◌==◌, length, take, drop, append-nil, append_assoc,
  length-append, length-take, take-append-drop, arith,
}
use cpp_swiss_army_knife.Redisdb.WritableFile.{
  WritableFile, k_writable_file_buffer_size, write_unbuffered, flush_buffer, append_rest, append,
}
use cpp_swiss_army_knife.Redisdb.WritableFile.Appended.{
  Spent, FlushedBy, AppendedBy, append_of, filled_up, append_flush, append_fits,
  flush_buffer-FlushedBy, unbuffered-FlushedBy,
}

nil_of : (xs : List ℕ) → (length xs == 0) ≡ true → xs ≡ []
nil_of [] h = refl
nil_of (x ∷ xs) h = ground arith

-- The write of the data that is left, `rest`, behind the bytes `front` that FlushBuffer wrote.
rest_written :
    (w w2 : WritableFile) (data' front rest : List ℕ) (r : Option (Bool × WritableFile))
    → w.buf ++ data' ≡ front ++ rest
    → w2.written ≡ w.written ++ front
    → Spent w w2
    → FlushedBy w2 rest r
    → AppendedBy w data' r
rest_written w w2 data' front rest none e f s h =
    omega (arith, ap length e, length-append front rest, ap length f, length-append w.written front)
rest_written w w2 data' front rest (some (true, w3)) e f s h = (
  ap (λ (t : List ℕ). w3.written ++ t) h.1
      ∙ append-nil w3.written
      ∙ h.0
      ∙ ap (λ (t : List ℕ). t ++ rest) f
      ∙ append_assoc w.written front rest
      ∙ ap (λ (t : List ℕ). w.written ++ t) (sym e)
      ∙ sym (append_assoc w.written w.buf data'),
  omega (arith, ap length h.1),
  omega arith,
)
rest_written w w2 data' front rest (some (false, w3)) e f s (p, q, split, more, empty, s3) = (
  front ++ p,
  q,
  e ∙ ap (λ (t : List ℕ). front ++ t) split ∙ sym (append_assoc front p q),
  more ∙ ap (λ (t : List ℕ). t ++ p) f ∙ append_assoc w.written front p,
  empty,
  omega arith,
)

rest-AppendedBy :
    (w w2 : WritableFile) (data' front rest : List ℕ)
    → w.buf ++ data' ≡ front ++ rest
    → w2.written ≡ w.written ++ front
    → w2.buf ≡ []
    → Spent w w2
    → AppendedBy w data' (append_rest w2 rest)
unfolding append_rest
rest-AppendedBy w w2 data' front rest e f empty s =
    elim (Bool-cases (ltb (length rest) k_writable_file_buffer_size)) [
      | inl t ↦ rw (t) (
        ap (λ (u : List ℕ). u ++ rest) f
            ∙ append_assoc w.written front rest
            ∙ ap (λ (u : List ℕ). w.written ++ u) (sym e)
            ∙ sym (append_assoc w.written w.buf data'),
        omega (arith, ltb→lt (length rest) k_writable_file_buffer_size t),
        s,
      )
      | inr t ↦ rw (t) (
          rest_written w w2 data' front rest (write_unbuffered w2 rest) e f s
            (unbuffered-FlushedBy w2 rest empty))
    ]

flushed-AppendedBy :
    (w : WritableFile) (data' front rest : List ℕ) (r : Option (Bool × WritableFile))
    → w.buf ++ data' ≡ front ++ rest
    → FlushedBy w front r
    → AppendedBy w data' (append_of rest r)
flushed-AppendedBy w data' front rest none e h =
    omega (arith, ap length e, length-append front rest)
flushed-AppendedBy w data' front rest (some (true, w2)) e h =
    rest-AppendedBy w w2 data' front rest e h.0 h.1 h.2
flushed-AppendedBy w data' front rest (some (false, w2)) e (p, q, split, more, empty, s) =
    (p, q ++ rest, e ∙ ap (λ (t : List ℕ). t ++ rest) split ∙ append_assoc p q rest, more, empty, s)

-- WritableFile::append against a file without a buffer, whatever ::write answers: partial writes,
-- interrupts and errors. With at most 64 KiB in the buffer before, append returns when as many
-- answers of ::write are to come in which it takes bytes as there are bytes in the buffer and the
-- data. If the status is OK then the file with the buffer behind it has grown by exactly the data,
-- and at most 64 KiB are in the buffer; else the file has grown by a part from the start of the old
-- buffer and the data, and the buffer is empty. Each such answer that is used up has made the file
-- grow by at least a byte.
pub append-AppendedBy :
    (w : WritableFile) (data' : List ℕ)
    → length w.buf ≤ k_writable_file_buffer_size
    → AppendedBy w data' (append w data')
append-AppendedBy w data' b =
    let room = k_writable_file_buffer_size - length w.buf in
    let first = take room data' in
    let rest = drop room data' in
    let parts : w.buf ++ data' ≡ (w.buf ++ first) ++ rest =
      ap (λ (t : List ℕ). w.buf ++ t) (sym (take-append-drop room data'))
      ∙ sym (append_assoc w.buf first rest) in
    elim (Bool-cases (length rest == 0)) [
      | inl e ↦
          let whole : w.buf ++ data' ≡ w.buf ++ first =
            parts
            ∙ ap (λ (t : List ℕ). (w.buf ++ first) ++ t) (nil_of rest e)
            ∙ append-nil (w.buf ++ first) in
          subst (AppendedBy w data') (sym (append_fits w data' e)) (
            ap (λ (t : List ℕ). w.written ++ t) (sym whole)
                ∙ sym (append_assoc w.written w.buf data'),
            omega (arith, length-append w.buf first, length-take room data'),
            omega arith,
          )
      | inr e ↦ subst (AppendedBy w data') (sym (append_flush w data' e)) (
          flushed-AppendedBy w data' (w.buf ++ first) rest (flush_buffer (filled_up w data')) parts
            (flush_buffer-FlushedBy (filled_up w data')))
    ]
