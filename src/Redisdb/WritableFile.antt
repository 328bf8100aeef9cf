-- ===== src/Redisdb/WritableFile.antt =====
-- class WritableFile (redisdb/db/env.h): a file that is written through a buffer of 64 KiB.
--
-- The kernel is a parameter: what ::write answers, call by call, and whether ::fsync and ::close
-- succeed. `none` is a call that waits for an answer of ::write that is not in the list.
pub mod Append
pub mod Appended
pub mod Written
mod Tests
use cpp_swiss_army_knife.Common.{
  ℕ, ◌+◌, ◌-◌, Bool, true, false, not, ◌&&◌, ◌||◌, List, [], ◌∷◌, ◌++◌, Option, none, some, ltb,
  ◌==◌, if◌then◌else◌, length, take, drop,
}
use cpp_swiss_army_knife.Redisdb.Filename.{starts_with}

abbrev pub k_writable_file_buffer_size : ℕ
k_writable_file_buffer_size = 65536

-- An answer of ::write: the number of bytes that it took, EINTR, or another error.
pub data WriteResult : Type 0 where
  took : ℕ → WriteResult
  interrupted failed : WriteResult

pub record WritableFile : Type 0 where
  -- the first pos bytes of buf
  pub buf : List ℕ
  pub manifest : Bool
  -- the bytes that the kernel has of the file
  pub written : List ℕ
  -- the answers of ::write to come
  pub results : List WriteResult

unfoldable pub has_separator : List ℕ → Bool
has_separator [] = false
has_separator (c ∷ filename) = (c == b'/') || has_separator filename

-- Basename: what stands behind the last separator.
unfoldable pub basename : List ℕ → List ℕ
basename [] = []
basename (c ∷ filename) =
    let base = basename filename in if has_separator (c ∷ filename) then base else c ∷ filename

-- isManifest: whether the file's own name starts with "MANIFEST".
unfoldable pub is_manifest : List ℕ → Bool
is_manifest filename =
    starts_with (basename filename) (b'M' ∷ b'A' ∷ b'N' ∷ b'I' ∷ b'F' ∷ b'E' ∷ b'S' ∷ b'T' ∷ [])

-- The constructor, over a file that is empty.
unfoldable pub new_writable_file : List WriteResult → List ℕ → WritableFile
new_writable_file results filename = record {
  buf = [];
  manifest = is_manifest filename;
  written = [];
  results = results;
}

-- The loop of WriteUnbuffered: whether the status is OK, the bytes of the file, the answers left.
unfoldable pub write_loop :
    List WriteResult → List ℕ → List ℕ → Option (Bool × List ℕ × List WriteResult)
write_loop results written [] = some (true, written, results)
write_loop [] written (d ∷ data') = none
write_loop (took n ∷ results) written (d ∷ data') =
    write_loop results (written ++ take n (d ∷ data')) (drop n (d ∷ data'))
write_loop (interrupted ∷ results) written (d ∷ data') = write_loop results written (d ∷ data')
write_loop (failed ∷ results) written (d ∷ data') = some (false, written, results)

unfoldable pub write_unbuffered : WritableFile → List ℕ → Option (Bool × WritableFile)
write_unbuffered w data' = elim (write_loop w.results w.written data') [
  | none ↦ none
  | some (ok, written, results) ↦ some (ok, record w { written = written; results = results })
]

unfoldable pub flush_buffer : WritableFile → Option (Bool × WritableFile)
flush_buffer w = elim (write_unbuffered w w.buf) [
  | none ↦ none
  | some (ok, w1) ↦ some (ok, record w1 { buf = [] })
]

-- append behind its FlushBuffer, for the data that the buffer had no room for.
unfoldable pub append_rest : WritableFile → List ℕ → Option (Bool × WritableFile)
append_rest w data' =
    if ltb (length data') k_writable_file_buffer_size
    then some (true, record w { buf = data' })
    else write_unbuffered w data'

unfoldable pub append : WritableFile → List ℕ → Option (Bool × WritableFile)
append w data' =
    let room = k_writable_file_buffer_size - length w.buf in
    let w1 = record w { buf = w.buf ++ take room data' } in
    let rest = drop room data' in
    if length rest == 0 then some (true, w1) else elim (flush_buffer w1) [
      | none ↦ none
      | some (false, w2) ↦ some (false, w2)
      | some (true, w2) ↦ append_rest w2 rest
    ]

unfoldable pub flush : WritableFile → Option (Bool × WritableFile)
flush w = flush_buffer w

-- A status that a second call can make an error.
abbrev pub with_status : Bool → Option (Bool × WritableFile) → Option (Bool × WritableFile)
with_status also none = none
with_status also (some (ok, w)) = some (ok && also, w)

-- close, with whether ::close succeeds.
unfoldable pub close : Bool → WritableFile → Option (Bool × WritableFile)
close closed w = with_status closed (flush_buffer w)

-- sync, with whether the directory and the file are synced.
unfoldable pub sync : Bool → Bool → WritableFile → Option (Bool × WritableFile)
sync dir_synced synced w =
    if w.manifest && not dir_synced then some (false, w) else with_status synced (flush_buffer w)
