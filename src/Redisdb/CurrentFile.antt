-- ===== src/Redisdb/CurrentFile.antt =====
-- SetCurrentFile (redisdb/db/filename.cc) and WriteStringToFile (redisdb/db/logging.cc), with the
-- calls of Env that they make (redisdb/db/env.h).
--
-- The file system is the function from a name to the file's bytes, and what the system calls answer is a
-- parameter. `none` is a failed assert, or a call that waits for an answer of ::write.
pub mod Switched
pub mod Writing
mod Tests
use cpp_swiss_army_knife.Common.{
  ℕ, ◌+◌, Bool, true, false, ◌&&◌, List, [], ◌∷◌, ◌++◌, Option, none, some, ◌>>=◌, bytes_eq,
  if◌then◌else◌, length, drop,
}
use cpp_swiss_army_knife.Redisdb.Filename.{
  descriptor_file_name, temp_file_name, current_file_name, starts_with,
}
use cpp_swiss_army_knife.Redisdb.WritableFile.{
  WriteResult, WritableFile, new_writable_file, append, sync, close, flush_buffer,
}

abbrev pub Files : Type 0
Files = List ℕ → Option (List ℕ)

abbrev pub put_file : Files → List ℕ → Option (List ℕ) → Files
put_file files name contents other = if bytes_eq other name then contents else files other

-- Whether each system call succeeds, and what ::write answers. `unlinked` is about the file that
-- cannot be written, `unlinked_again` about the call at the end of SetCurrentFile.
pub record Answers : Type 0 where
  pub opened : Bool
  pub dir_synced : Bool
  pub synced : Bool
  pub closed : Bool
  pub unlinked : Bool
  pub renamed : Bool
  pub unlinked_again : Bool
  pub results : List WriteResult

-- Env::DeleteFile
unfoldable pub delete_file : Bool → Files → List ℕ → Files
delete_file unlinked files filename = if unlinked then put_file files filename none else files

-- Env::RenameFile
unfoldable pub rename_file : Bool → Files → List ℕ → List ℕ → Bool × Files
rename_file renamed files from to =
    if renamed then (true, put_file (put_file files from none) to (files from)) else (false, files)

unfoldable pub close_data : Answers → Bool × WritableFile → Option (Bool × WritableFile × Bool)
close_data a (false, w) = some (false, w, false)
close_data a (true, w) = do (closed, w1) ← close a.closed w; some (closed, w1, true)

unfoldable pub sync_data : Answers → Bool → Bool × WritableFile → Option (Bool × WritableFile)
sync_data a should_sync (appended, w) =
    if appended && should_sync then sync a.dir_synced a.synced w else some (appended, w)

-- append, sync and close of doWriteStringToFile: the status, the file, and whether it was closed.
unfoldable pub write_data :
    Answers → Bool → WritableFile → List ℕ → Option (Bool × WritableFile × Bool)
write_data a should_sync w data' = append w data' >>= sync_data a should_sync >>= close_data a

-- The end of doWriteStringToFile behind an error: DeleteFile, and then the destructor, which closes a
-- file that is open. What that writes stays if the file could not be deleted.
unfoldable pub drop_file : Answers → Files → List ℕ → WritableFile → Bool → Option (Bool × Files)
drop_file a files fname w is_closed =
    (if is_closed then some (false, w) else flush_buffer w) >>= λ r.
    some (false, delete_file a.unlinked (put_file files fname (some r.1.written)) fname)

unfoldable pub finish_file :
    Answers → Files → List ℕ → Bool × WritableFile × Bool → Option (Bool × Files)
finish_file a files fname (true, w, is_closed) = some (true, put_file files fname (some w.written))
finish_file a files fname (false, w, is_closed) = drop_file a files fname w is_closed

-- doWriteStringToFile
unfoldable pub do_write_string_to_file :
    Answers → Files → List ℕ → List ℕ → Bool → Option (Bool × Files)
do_write_string_to_file a files data' fname should_sync =
    if a.opened
    then (write_data a should_sync (new_writable_file a.results fname) data'
        >>= finish_file a files fname)
    else some (false, files)

unfoldable pub write_string_to_file : Answers → Files → List ℕ → List ℕ → Option (Bool × Files)
write_string_to_file a files data' fname = do_write_string_to_file a files data' fname false

unfoldable pub write_string_to_file_sync : Answers → Files → List ℕ → List ℕ → Option (Bool × Files)
write_string_to_file_sync a files data' fname = do_write_string_to_file a files data' fname true

-- The two steps of SetCurrentFile behind the writing of the file `tmp`.
unfoldable pub switch : Answers → List ℕ → List ℕ → Bool × Files → Bool × Files
switch a tmp current written =
    let renamed = if written.0 then rename_file a.renamed written.1 tmp current else written in
    if renamed.0 then renamed else (false, delete_file a.unlinked_again renamed.1 tmp)

-- The name of the descriptor without the directory, behind the assert, and a newline.
unfoldable pub current_line : List ℕ → List ℕ → Option (List ℕ)
current_line dbname manifest =
    if starts_with manifest (dbname ++ b'/' ∷ [])
    then some (drop (length (b'/' ∷ dbname)) manifest ++ 10 ∷ [])
    else none

unfoldable pub set_current_file : Answers → Files → List ℕ → ℕ → Option (Bool × Files)
set_current_file a files dbname descriptor_number = do
  manifest ← descriptor_file_name dbname descriptor_number
  contents ← current_line dbname manifest
  tmp ← temp_file_name dbname descriptor_number
  written ← write_string_to_file_sync a files contents tmp
  some (switch a tmp (current_file_name dbname) written)
