-- ===== src/Redisdb/WritableFile/Tests.antt =====
-- Runs of class WritableFile of redisdb/db/env.h, and the theorem at a concrete input.
use cpp_swiss_army_knife.Common.{
  ◌≡◌, refl, [], ◌∷◌, ◌++◌, some, true, false, replicate, ℕ, length-replicate, arith,
}
use cpp_swiss_army_knife.Redisdb.Filename.{manifest, starts_with}
use cpp_swiss_army_knife.Redisdb.WritableFile.{
  WritableFile, took, interrupted, failed, write_loop, write_unbuffered, flush_buffer, append,
  close, sync, is_manifest, basename, has_separator,
}
use cpp_swiss_army_knife.Redisdb.WritableFile.Appended.{AppendedBy}
use cpp_swiss_army_knife.Redisdb.WritableFile.Append.{append-AppendedBy}

abbrev three_bytes : WritableFile
three_bytes = record {
  buf = 1 ∷ 2 ∷ 3 ∷ [];
  manifest = false;
  written = [];
  results = took 1 ∷ interrupted ∷ took 2 ∷ [];
}

-- Two writes, with an interrupt between them.
closed :
    close true three_bytes
    ≡ some (true, record { buf = []; manifest = false; written = 1 ∷ 2 ∷ 3 ∷ []; results = [] })
unfolding close flush_buffer write_unbuffered write_loop
closed = refl

-- An error behind the first byte: the others are lost.
cut_off :
    sync true true (record three_bytes { results = took 1 ∷ failed ∷ [] })
    ≡ some (false, record { buf = []; manifest = false; written = 1 ∷ []; results = [] })
unfolding sync flush_buffer write_unbuffered write_loop
cut_off = refl

-- A buffer with room for one byte.
abbrev nearly_full : WritableFile
nearly_full = record {
  buf = replicate 65535 7;
  manifest = true;
  written = [];
  results = took 65536 ∷ [];
}

append-AppendedBy_example : AppendedBy nearly_full (8 ∷ 9 ∷ []) (append nearly_full (8 ∷ 9 ∷ []))
append-AppendedBy_example =
    append-AppendedBy nearly_full (8 ∷ 9 ∷ []) (omega (arith, length-replicate {A = ℕ} 65535 7))

-- "d/MANIFEST-" is a manifest, and "MANIFEST-/d" is not.
manifest_file : is_manifest (b'd' ∷ b'/' ∷ manifest) ≡ true
unfolding is_manifest basename has_separator starts_with
manifest_file = refl

manifest_directory : is_manifest (manifest ++ (b'/' ∷ b'd' ∷ [])) ≡ false
unfolding is_manifest basename has_separator starts_with
manifest_directory = refl
