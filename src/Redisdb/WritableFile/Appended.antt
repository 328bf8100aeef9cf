-- ===== src/Redisdb/WritableFile/Appended.antt =====
-- What append and FlushBuffer leave in the file (redisdb/db/env.h).
use cpp_swiss_army_knife.Common.{
  ℕ, ◌+◌, ◌-◌, ◌≤◌, ◌<◌, ◌≡◌, refl, sym, subst, Bool, true, false, inl, inr, Option-cases, List, [],
  ◌++◌, Option, none, some, ◌==◌, length, take, drop,
}
use cpp_swiss_army_knife.Redisdb.WritableFile.{
  WriteResult, WritableFile, k_writable_file_buffer_size, write_loop, write_unbuffered,
  flush_buffer, append_rest, append,
}
use cpp_swiss_army_knife.Redisdb.WritableFile.Written.{progress, WrittenBy, write_loop-WrittenBy}

-- The bytes of the file with those that are still in the buffer.
abbrev pub content : WritableFile → List ℕ
content w = w.written ++ w.buf

-- Each answer of progress that was used up stands for a byte of the file at least.
abbrev pub Spent : WritableFile → WritableFile → Type 0
Spent w w' = progress w.results + length w.written ≤ progress w'.results + length w'.written

-- After an error the file has a part `p` of the data that was to be written, and the buffer is empty.
abbrev pub CutOff : WritableFile → List ℕ → WritableFile → Type 0
CutOff w data' w' =
    (p : List ℕ) × (q : List ℕ) × (data' ≡ p ++ q)
    × (w'.written ≡ w.written ++ p)
    × (w'.buf ≡ [])
    × Spent w w'

-- All the data is in the file, and the buffer is empty.
abbrev pub FlushedBy : WritableFile → List ℕ → Option (Bool × WritableFile) → Type 0
FlushedBy w data' none = progress w.results < length data'
FlushedBy w data' (some (true, w')) = (w'.written ≡ w.written ++ data') × (w'.buf ≡ []) × Spent w w'
FlushedBy w data' (some (false, w')) = CutOff w data' w'

abbrev pub AppendedBy : WritableFile → List ℕ → Option (Bool × WritableFile) → Type 0
AppendedBy w data' none = progress w.results < length (w.buf ++ data')
AppendedBy w data' (some (true, w')) =
    (content w' ≡ content w ++ data') × (length w'.buf ≤ k_writable_file_buffer_size) × Spent w w'
AppendedBy w data' (some (false, w')) = CutOff w (w.buf ++ data') w'

abbrev filled : WritableFile → List ℕ → List ℕ → List WriteResult → WritableFile
filled w buf written results = record w { written = written; results = results; buf = buf }

abbrev flush_of :
    WritableFile → List ℕ → Option (Bool × List ℕ × List WriteResult) → Option (Bool × WritableFile)
flush_of w buf none = none
flush_of w buf (some (ok, written, results)) = some (ok, filled w buf written results)

flush_loop :
    (w : WritableFile) → flush_buffer w ≡ flush_of w [] (write_loop w.results w.written w.buf)
unfolding flush_buffer write_unbuffered
flush_loop w = elim (Option-cases (write_loop w.results w.written w.buf)) [
  | inl e ↦ rw (e, flush_buffer, write_unbuffered) refl
  | inr (r, e) ↦ rw (e, flush_buffer, write_unbuffered) refl
]

unbuffered_loop :
    (w : WritableFile) (data' : List ℕ)
    → write_unbuffered w data' ≡ flush_of w w.buf (write_loop w.results w.written data')
unfolding write_unbuffered
unbuffered_loop w data' = elim (Option-cases (write_loop w.results w.written data')) [
  | inl e ↦ rw (e, write_unbuffered) refl
  | inr (r, e) ↦ rw (e, write_unbuffered) refl
]

flush_of-FlushedBy :
    (w : WritableFile) (buf data' : List ℕ) (r : Option (Bool × List ℕ × List WriteResult))
    → buf ≡ []
    → WrittenBy (progress w.results) w.written data' r
    → FlushedBy w data' (flush_of w buf r)
flush_of-FlushedBy w buf data' none e h = h
flush_of-FlushedBy w buf data' (some (true, written, results)) e h = (h.0, e, h.1)
flush_of-FlushedBy w buf data' (some (false, written, results)) e h = (h.0, h.1, h.2, h.3, e, h.4)

pub flush_buffer-FlushedBy : (w : WritableFile) → FlushedBy w w.buf (flush_buffer w)
flush_buffer-FlushedBy w = subst (FlushedBy w w.buf) (sym (flush_loop w)) (
    flush_of-FlushedBy w [] w.buf (write_loop w.results w.written w.buf) refl
      (write_loop-WrittenBy w.results w.written w.buf))

pub unbuffered-FlushedBy :
    (w : WritableFile) (data' : List ℕ) → w.buf ≡ [] → FlushedBy w data' (write_unbuffered w data')
unbuffered-FlushedBy w data' e = subst (FlushedBy w data') (sym (unbuffered_loop w data')) (
    flush_of-FlushedBy w w.buf data' (write_loop w.results w.written data') e
      (write_loop-WrittenBy w.results w.written data'))

abbrev pub append_of : List ℕ → Option (Bool × WritableFile) → Option (Bool × WritableFile)
append_of rest none = none
append_of rest (some (false, w)) = some (false, w)
append_of rest (some (true, w)) = append_rest w rest

-- The file as FlushBuffer finds it, with the buffer filled up.
abbrev pub filled_up : WritableFile → List ℕ → WritableFile
filled_up w data' = record w {
  buf = w.buf ++ take (k_writable_file_buffer_size - length w.buf) data';
}

pub append_flush :
    (w : WritableFile) (data' : List ℕ)
    → (length (drop (k_writable_file_buffer_size - length w.buf) data') == 0) ≡ false
    → append w data'
      ≡ append_of
          (drop (k_writable_file_buffer_size - length w.buf) data')
          (flush_buffer (filled_up w data'))
unfolding append
append_flush w data' h = elim (Option-cases (flush_buffer (filled_up w data'))) [
  | inl e ↦ rw (h, e) refl
  | inr ((false, w2), e) ↦ rw (h, e) refl
  | inr ((true, w2), e) ↦ rw (h, e) refl
]

pub append_fits :
    (w : WritableFile) (data' : List ℕ)
    → (length (drop (k_writable_file_buffer_size - length w.buf) data') == 0) ≡ true
    → append w data' ≡ some (true, filled_up w data')
unfolding append
append_fits w data' h = rw (h) refl
