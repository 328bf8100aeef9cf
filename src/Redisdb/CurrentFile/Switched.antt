-- ===== src/Redisdb/CurrentFile/Switched.antt =====
-- SetCurrentFile (redisdb/db/filename.cc): the file CURRENT is switched as a whole or not at all.
use cpp_swiss_army_knife.Common.{
  ℕ, ◌<◌, ◌≡◌, refl, sym, ap, ◌∙◌, subst, Bool, true, false, List, [], ◌∷◌, ◌++◌, Option, none,
  some, ◌>>=◌, if◌then◌else◌, length, bytes_eq, bytes_eq_refl, arith,
}
use cpp_swiss_army_knife.Redisdb.Logging.{padded_number}
use cpp_swiss_army_knife.Redisdb.Filename.{
  manifest, dbtmp_suffix, make_file_name, with_number, descriptor_file_name, temp_file_name,
  current_file_name, starts_with,
}
use cpp_swiss_army_knife.Redisdb.Filename.Parsed.{within_lem}
use cpp_swiss_army_knife.Redisdb.WritableFile.Written.{progress}
use cpp_swiss_army_knife.Redisdb.CurrentFile.{
  Files, put_file, Answers, delete_file, rename_file, do_write_string_to_file,
  write_string_to_file_sync, switch, current_line, set_current_file,
}
use cpp_swiss_army_knife.Redisdb.CurrentFile.Writing.{
  bind_lem, Saved, do_write_string_to_file-Saved,
}

-- "MANIFEST-" with the number, and a newline.
abbrev pub line_of : ℕ → List ℕ
line_of number = (manifest ++ padded_number number) ++ 10 ∷ []

abbrev pub temp_of : List ℕ → ℕ → List ℕ
temp_of dbname number = make_file_name dbname number dbtmp_suffix

starts_with_lem :
    (dbname rest : List ℕ) → starts_with (dbname ++ (b'/' ∷ rest)) (dbname ++ b'/' ∷ []) ≡ true
unfolding starts_with
starts_with_lem [] rest = refl
starts_with_lem (c ∷ dbname) rest = ground (arith, starts_with_lem dbname rest)

current_line_lem :
    (dbname rest : List ℕ) → current_line dbname (dbname ++ (b'/' ∷ rest)) ≡ some (rest ++ 10 ∷ [])
unfolding current_line
current_line_lem dbname rest =
    let e = starts_with_lem dbname rest in
    rw (e) (ap (λ (t : List ℕ). some (t ++ 10 ∷ [])) (within_lem dbname rest))

numbered : (n : ℕ) (made : List ℕ) → 0 < n → with_number n made ≡ some made
numbered n made h = ground arith

-- The chain of SetCurrentFile where its asserts hold.
chain :
    (d t : Option (List ℕ)) (line : List ℕ → Option (List ℕ))
    (write : List ℕ → List ℕ → Option (Bool × Files)) (x c y : List ℕ)
    → d ≡ some x
    → line x ≡ some c
    → t ≡ some y
    → (d >>= λ made. line made >>= λ contents. t >>= λ temp. write contents temp) ≡ write c y
chain d t line write x c y e f g = rw (e) (rw (f) (rw (g) refl))

module _ (a : Answers) (files : Files) (dbname : List ℕ) (number : ℕ) (name : List ℕ) where
  -- What stands under a name behind SetCurrentFile.
  abbrev pub Switched : Option (Bool × Files) → Type 0
  Switched none = progress a.results < length (line_of number)
  Switched (some (true, files')) =
      files' name
      ≡ put_file (put_file files (temp_of dbname number) none) (current_file_name dbname)
          (some (line_of number)) name
  Switched (some (false, files')) =
      put_file files' (temp_of dbname number) none name
      ≡ put_file files (temp_of dbname number) none name

  moved :
      (current same : Bool) (line x y : Option (List ℕ))
      → x ≡ (if same then line else y)
      → (if current then line else if same then none else x)
        ≡ (if current then line else if same then none else y)
  moved true same line x y h = refl
  moved false true line x y h = refl
  moved false false line x y h = h

  removed :
      (unlinked same : Bool) (x y z : Option (List ℕ))
      → (if same then none else x) ≡ (if same then none else y)
      → z ≡ (if unlinked then (if same then none else x) else x)
      → (if same then none else z) ≡ (if same then none else y)
  removed unlinked true x y z h e = refl
  removed true false x y z h e = e ∙ h
  removed false false x y z h e = e ∙ h

  delete_again :
      (unlinked : Bool) (files1 : Files)
      → put_file files1 (temp_of dbname number) none name
        ≡ put_file files (temp_of dbname number) none name
      → put_file
          (delete_file unlinked files1 (temp_of dbname number))
          (temp_of dbname number)
          none
          name
        ≡ put_file files (temp_of dbname number) none name
  unfolding delete_file
  delete_again true files1 h =
      removed true (bytes_eq name (temp_of dbname number)) (files1 name) (files name)
        (put_file files1 (temp_of dbname number) none name) h refl
  delete_again false files1 h = h

  hidden :
      (same : Bool) (line x y : Option (List ℕ))
      → x ≡ (if same then line else y)
      → (if same then none else x) ≡ (if same then none else y)
  hidden true line x y h = refl
  hidden false line x y h = h

  switch-Switched :
      (renamed : Bool) (written : Bool × Files)
      → a.renamed ≡ renamed
      → Saved a (temp_of dbname number) (line_of number) files name (some written)
      → Saved a
          (temp_of dbname number)
          (line_of number)
          files
          (temp_of dbname number)
          (some written)
      → Switched (some (switch a (temp_of dbname number) (current_file_name dbname) written))
  unfolding switch rename_file
  switch-Switched renamed (false, files1) e h t = delete_again a.unlinked_again files1 h
  switch-Switched true (true, files1) e h t =
      let tmp = temp_of dbname number in
      let same = bytes_eq_refl tmp in
      let line : files1 tmp ≡ some (line_of number) = t ∙ rw (same) refl in
      rw (e) (
        ap
          (λ (c : Option (List ℕ)).
            put_file (put_file files1 tmp none) (current_file_name dbname) c name)
          line
        ∙ moved (bytes_eq name (current_file_name dbname)) (bytes_eq name tmp)
            (some (line_of number)) (files1 name) (files name) h)
  switch-Switched false (true, files1) e h t =
      let tmp = temp_of dbname number in
      rw (e) (
        delete_again a.unlinked_again files1
          (hidden (bytes_eq name tmp) (some (line_of number)) (files1 name) (files name) h))

  -- SetCurrentFile switches CURRENT as a whole or not at all, whatever the system calls answer: for
  -- a number that is not 0, any files, and any name, it returns when as many answers of ::write are
  -- to come in which it takes bytes as the line has bytes. If the status is OK then CURRENT holds
  -- exactly the descriptor's name without the directory and a newline, the temporary file is gone,
  -- and what stands under any other name is as before; else what stands under any name but the
  -- temporary file's is as before, whether the file could not be opened, written, synced, closed or
  -- renamed, and whether it could be deleted.
  pub set_current_file-Switched : 0 < number → Switched (set_current_file a files dbname number)
  unfolding set_current_file descriptor_file_name temp_file_name write_string_to_file_sync
  set_current_file-Switched h =
      let tmp = temp_of dbname number in
      let both : Option (Bool × Files) → Type 0 =
        λ r. Saved a tmp (line_of number) files name r × Saved a tmp (line_of number) files tmp r in
      let made = dbname ++ (b'/' ∷ (manifest ++ padded_number number)) in
      let steps =
        chain (with_number number made) (with_number number tmp) (current_line dbname)
          (λ contents temp. do_write_string_to_file a files contents temp true >>= λ written.
            some (switch a temp (current_file_name dbname) written))
          made (line_of number) tmp (numbered number made h)
          (current_line_lem dbname (manifest ++ padded_number number)) (numbered number tmp h) in
      subst Switched (sym steps) (
        bind_lem both Switched (do_write_string_to_file a files (line_of number) tmp true)
          (λ written. some (switch a tmp (current_file_name dbname) written)) (λ r. r.0)
          (λ written r. switch-Switched a.renamed written refl r.0 r.1)
          (
            do_write_string_to_file-Saved a tmp (line_of number) files name true,
            do_write_string_to_file-Saved a tmp (line_of number) files tmp true,
          ))
