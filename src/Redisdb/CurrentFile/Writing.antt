-- ===== src/Redisdb/CurrentFile/Writing.antt =====
-- What doWriteStringToFile leaves under the file's name (redisdb/db/logging.cc).
use cpp_swiss_army_knife.Common.{
  ℕ, ◌+◌, ◌≤◌, ◌<◌, ◌≡◌, refl, sym, ap, ◌∙◌, Bool, true, false, not, ◌&&◌, List, [], ◌++◌, Option,
  bytes_eq, none, some, ◌>>=◌, if◌then◌else◌, length, append-nil, length-append, arith,
}
use cpp_swiss_army_knife.Redisdb.WritableFile.{
  WritableFile, new_writable_file, with_status, append, sync, close, flush_buffer,
}
use cpp_swiss_army_knife.Redisdb.WritableFile.Written.{progress}
use cpp_swiss_army_knife.Redisdb.WritableFile.Appended.{
  content, FlushedBy, AppendedBy, flush_buffer-FlushedBy,
}
use cpp_swiss_army_knife.Redisdb.WritableFile.Append.{append-AppendedBy}
use cpp_swiss_army_knife.Redisdb.CurrentFile.{
  Files, put_file, Answers, delete_file, sync_data, close_data, write_data, drop_file, finish_file,
  do_write_string_to_file,
}

-- A step of a chain, by what the chain in front of it gives.
pub bind_lem :
    {A B : Type 0} (R : Option A → Type 0) (Q : Option B → Type 0) (m : Option A) (f : A → Option B)
    → (R none → Q none)
    → ((a : A) → R (some a) → Q (f a))
    → R m
    → Q (m >>= f)
bind_lem R Q none f stop go r = stop r
bind_lem R Q (some a) f stop go r = go a r

-- From n answers of progress on, data is written. What is in the file and its buffer is not more than
-- the data, and each answer that was used up stands for a byte of the file.
module _ (n : ℕ) (data' : List ℕ) where
  abbrev Left : WritableFile → Type 0
  Left w =
      (n ≤ progress w.results + length w.written) × (length w.written + length w.buf ≤ length data')

  -- The status, with what holds of the file.
  abbrev Going : Option (Bool × WritableFile) → Type 0
  Going none = n < length data'
  Going (some (true, w)) = (content w ≡ data') × Left w
  Going (some (false, w)) = Left w

  -- The same behind a flush.
  abbrev Flushed : Option (Bool × WritableFile) → Type 0
  Flushed none = n < length data'
  Flushed (some (true, w)) = (content w ≡ data') × (w.buf ≡ []) × Left w
  Flushed (some (false, w)) = Left w

  flush-Flushed :
      (w : WritableFile) (r : Option (Bool × WritableFile))
      → content w ≡ data'
      → Left w
      → FlushedBy w w.buf r
      → Flushed r
  flush-Flushed w none e l h = omega (arith, ap length e, length-append w.written w.buf)
  flush-Flushed w (some (true, w')) e l h = (
    ap (λ (t : List ℕ). w'.written ++ t) h.1 ∙ append-nil w'.written ∙ h.0 ∙ e,
    h.1,
    (omega arith, omega (arith, ap length h.0, ap length h.1, length-append w.written w.buf)),
  )
  flush-Flushed w (some (false, w')) e l (p, q, split, more, empty, spent) = (
    omega arith,
    omega (
      arith,
      ap length more,
      ap length empty,
      ap length split,
      length-append w.written p,
      length-append p q,
    ),
  )

  flush_buffer-Flushed : (w : WritableFile) → content w ≡ data' → Left w → Flushed (flush_buffer w)
  flush_buffer-Flushed w e l = flush-Flushed w (flush_buffer w) e l (flush_buffer-FlushedBy w)

  with_status-Flushed :
      (also : Bool) (r : Option (Bool × WritableFile)) → Flushed r → Flushed (with_status also r)
  with_status-Flushed also none h = h
  with_status-Flushed true (some (true, w)) h = h
  with_status-Flushed false (some (true, w)) h = h.2
  with_status-Flushed also (some (false, w)) h = h

  Flushed-Going : (r : Option (Bool × WritableFile)) → Flushed r → Going r
  Flushed-Going none h = h
  Flushed-Going (some (true, w)) h = (h.0, h.2)
  Flushed-Going (some (false, w)) h = h

  -- What write_data gives: the file that is closed without an error has exactly the data.
  abbrev Wrote : Option (Bool × WritableFile × Bool) → Type 0
  Wrote none = n < length data'
  Wrote (some (true, w, is_closed)) = w.written ≡ data'
  Wrote (some (false, w, is_closed)) = Left w

  module _ (a : Answers) where
    sync-Going :
        (w : WritableFile) (b : Bool)
        → content w ≡ data'
        → Left w
        → Going (if b then some (false, w) else with_status a.synced (flush_buffer w))
    sync-Going w true e l = l
    sync-Going w false e l =
        Flushed-Going (with_status a.synced (flush_buffer w))
          (with_status-Flushed a.synced (flush_buffer w) (flush_buffer-Flushed w e l))

    sync_data-Going :
        (should_sync : Bool) (r : Bool × WritableFile)
        → Going (some r)
        → Going (sync_data a should_sync r)
    unfolding sync_data sync
    sync_data-Going should_sync (false, w) h = h
    sync_data-Going false (true, w) h = h
    sync_data-Going true (true, w) h = sync-Going w (w.manifest && not a.dir_synced) h.0 h.1

    closed-Wrote :
        (r : Option (Bool × WritableFile)) → Flushed r → Wrote (r >>= λ c. some (c.0, c.1, true))
    closed-Wrote none h = h
    closed-Wrote (some (true, w)) h =
        sym (append-nil w.written) ∙ ap (λ (t : List ℕ). w.written ++ t) (sym h.1) ∙ h.0
    closed-Wrote (some (false, w)) h = h

    close_data-Wrote : (r : Bool × WritableFile) → Going (some r) → Wrote (close_data a r)
    unfolding close_data close
    close_data-Wrote (false, w) h = h
    close_data-Wrote (true, w) h =
        closed-Wrote (with_status a.closed (flush_buffer w))
          (with_status-Flushed a.closed (flush_buffer w) (flush_buffer-Flushed w h.0 h.1))

module _ (a : Answers) (fname data' : List ℕ) where
  appended-Going :
      (r : Option (Bool × WritableFile))
      → AppendedBy (new_writable_file a.results fname) data' r
      → Going (progress a.results) data' r
  unfolding new_writable_file
  appended-Going none h = h
  appended-Going (some (true, w)) h =
      (h.0, (omega (arith, h.2), omega (arith, ap length h.0, length-append w.written w.buf)))
  appended-Going (some (false, w)) (p, q, split, more, empty, spent) = (
    omega (arith, spent),
    omega (arith, ap length split, ap length more, ap length empty, length-append p q),
  )

  first-Going : Going (progress a.results) data' (append (new_writable_file a.results fname) data')
  unfolding new_writable_file
  first-Going =
      appended-Going (append (new_writable_file a.results fname) data')
        (append-AppendedBy (new_writable_file a.results fname) data' (omega arith))

  write_data-Wrote :
      (should_sync : Bool)
      → Wrote
          (progress a.results)
          data'
          (write_data a should_sync (new_writable_file a.results fname) data')
  unfolding write_data
  write_data-Wrote should_sync =
      let n = progress a.results in
      let start = append (new_writable_file a.results fname) data' in
      bind_lem (Going n data') (Wrote n data') (start >>= sync_data a should_sync) (close_data a)
        (λ h. h) (close_data-Wrote n data' a)
        (bind_lem (Going n data') (Going n data') start (sync_data a should_sync) (λ h. h)
          (sync_data-Going n data' a should_sync) first-Going)

  module _ (files : Files) (name : List ℕ) where
    -- What stands under a name afterwards.
    abbrev pub Saved : Option (Bool × Files) → Type 0
    Saved none = progress a.results < length data'
    Saved (some (true, files')) = files' name ≡ put_file files fname (some data') name
    Saved (some (false, files')) = put_file files' fname none name ≡ put_file files fname none name

    dropped :
        (unlinked same : Bool) (bytes x : Option (List ℕ))
        → (if same
            then none
            else if unlinked
            then (if same then none else if same then bytes else x)
            else if same
            then bytes
            else x)
          ≡ (if same then none else x)
    dropped true true bytes x = refl
    dropped true false bytes x = refl
    dropped false true bytes x = refl
    dropped false false bytes x = refl

    delete_file_lem :
        (unlinked : Bool) (bytes : Option (List ℕ))
        → put_file (delete_file unlinked (put_file files fname bytes) fname) fname none name
          ≡ put_file files fname none name
    unfolding delete_file
    delete_file_lem true bytes = dropped true (bytes_eq name fname) bytes (files name)
    delete_file_lem false bytes = dropped false (bytes_eq name fname) bytes (files name)

    drop_file-Saved :
        (w : WritableFile) (is_closed : Bool)
        → Left (progress a.results) data' w
        → Saved (drop_file a files fname w is_closed)
    unfolding drop_file
    drop_file-Saved w true h = delete_file_lem a.unlinked (some w.written)
    drop_file-Saved w false h =
        bind_lem (FlushedBy w w.buf) Saved (flush_buffer w)
          (λ r.
            some (false, delete_file a.unlinked (put_file files fname (some r.1.written)) fname))
          (λ s. omega (arith, s, h.0, h.1)) (λ r s. delete_file_lem a.unlinked (some r.1.written))
          (flush_buffer-FlushedBy w)

    finish_file-Saved :
        (r : Bool × WritableFile × Bool)
        → Wrote (progress a.results) data' (some r)
        → Saved (finish_file a files fname r)
    unfolding finish_file
    finish_file-Saved (true, w, is_closed) h =
        ap (λ (t : List ℕ). put_file files fname (some t) name) h
    finish_file-Saved (false, w, is_closed) h = drop_file-Saved w is_closed h

    opened-Saved :
        (opened should_sync : Bool)
        → Saved (
            if opened
            then (write_data a should_sync (new_writable_file a.results fname) data'
                >>= finish_file a files fname)
            else some (false, files))
    opened-Saved false should_sync = refl
    opened-Saved true should_sync =
        bind_lem (Wrote (progress a.results) data') Saved
          (write_data a should_sync (new_writable_file a.results fname) data')
          (finish_file a files fname) (λ h. h) finish_file-Saved (write_data-Wrote should_sync)

    pub do_write_string_to_file-Saved :
        (should_sync : Bool) → Saved (do_write_string_to_file a files data' fname should_sync)
    unfolding do_write_string_to_file
    do_write_string_to_file-Saved should_sync = opened-Saved a.opened should_sync
