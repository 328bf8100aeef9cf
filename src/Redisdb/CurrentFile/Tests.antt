-- ===== src/Redisdb/CurrentFile/Tests.antt =====
-- Runs of SetCurrentFile (redisdb/db/filename.cc), and the theorem at a concrete input.
use cpp_swiss_army_knife.Common.{
  ◌≡◌, refl, Bool, true, false, ℕ, List, [], ◌∷◌, ◌++◌, Option, none, some, arith,
}
use cpp_swiss_army_knife.Redisdb.Logging.{padded_number, number_to_string, digits}
use cpp_swiss_army_knife.Redisdb.Filename.{
  manifest, descriptor_file_name, temp_file_name, current_file_name, make_file_name, starts_with,
}
use cpp_swiss_army_knife.Redisdb.WritableFile.{
  took, failed, new_writable_file, is_manifest, basename, has_separator, append, append_rest,
  flush_buffer, write_unbuffered, write_loop, sync, close,
}
use cpp_swiss_army_knife.Redisdb.CurrentFile.{
  Files, Answers, delete_file, rename_file, sync_data, close_data, write_data, drop_file,
  finish_file, do_write_string_to_file, write_string_to_file_sync, switch, current_line,
  set_current_file,
}
use cpp_swiss_army_knife.Redisdb.CurrentFile.Switched.{Switched, set_current_file-Switched}

unfoldable program : Unit {0}
unfolding set_current_file current_line switch write_string_to_file_sync do_write_string_to_file
    finish_file drop_file write_data close_data sync_data rename_file delete_file sync close append
    append_rest flush_buffer write_unbuffered write_loop new_writable_file is_manifest basename
    has_separator starts_with descriptor_file_name temp_file_name current_file_name make_file_name
    padded_number number_to_string digits
program = tt

abbrev working : Answers
working = record {
  opened = true;
  dir_synced = true;
  synced = true;
  closed = true;
  unlinked = true;
  renamed = true;
  unlinked_again = true;
  results = took 10 ∷ took 10 ∷ [];
}

-- No files, but "d/CURRENT" with an old line.
abbrev old_line : List ℕ
old_line = b'o' ∷ b'l' ∷ b'd' ∷ []

abbrev current_d : List ℕ
current_d = b'd' ∷ b'/' ∷ b'C' ∷ b'U' ∷ b'R' ∷ b'R' ∷ b'E' ∷ b'N' ∷ b'T' ∷ []

abbrev old_files : Files
old_files name = some old_line

-- The status, and the bytes under a name.
abbrev seen : List ℕ → Option (Bool × Files) → Option (Bool × Option (List ℕ))
seen name none = none
seen name (some (ok, files)) = some (ok, files name)

abbrev five : List ℕ
five = b'0' ∷ b'0' ∷ b'0' ∷ b'0' ∷ b'0' ∷ b'5' ∷ 10 ∷ []

switched_run :
    seen current_d (set_current_file working old_files (b'd' ∷ []) 5)
    ≡ some (true, some (manifest ++ five))
unfolding program
switched_run = refl

-- An error of ::write: CURRENT is as it was.
failed_run :
    seen current_d
      (set_current_file (record working { results = took 4 ∷ failed ∷ [] }) old_files (b'd' ∷ []) 5)
    ≡ some (false, some old_line)
unfolding program
failed_run = refl

set_current_file-Switched_example :
    Switched working old_files
      (b'd' ∷ [])
      5
      current_d
      (set_current_file working old_files (b'd' ∷ []) 5)
set_current_file-Switched_example =
    set_current_file-Switched working old_files (b'd' ∷ []) 5 current_d (omega arith)
