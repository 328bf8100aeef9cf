-- ===== src/Redisdb/Block/Iterator.antt =====
-- class Block and class BlockIterator (redisdb/db/block.h, block.cc).
--
-- A pointer into the block is its offset. The asserts, a valid position and a restart index below
-- numrestarts, are up to the callers. What RegisterCleanup keeps is left out.
use Prim.Native.Nat.{Ordering}
use cpp_swiss_army_knife.Common.{
  ℕ, zero, suc, ◌+◌, ◌-◌, ◌*◌, ◌/◌, ◌%◌, ◌^◌, bit_or, Bool, true, false, ◌&&◌, List, [], ◌∷◌, ◌++◌,
  Option, none, some, ◌>>=◌, ltb, leb, ◌==◌, if◌then◌else◌, length, take, drop,
}
use cpp_swiss_army_knife.Redisdb.Coding.{ByteOrder, decode_fixed32, get_varint32_ptr}
use cpp_swiss_army_knife.Redisdb.Comparator.{Comparator}

-- What decodeEntry stores, with the bytes behind the three lengths.
pub record Entry : Type 0 where
  pub shared : ℕ
  pub non_shared : ℕ
  pub value_length : ℕ
  pub delta : List ℕ

-- The test at the end of decodeEntry.
unfoldable pub whole_entry : ℕ → ℕ → ℕ → List ℕ → Option Entry
whole_entry shared non_shared value_length p =
    if ltb (length p % 2 ^ 32) ((non_shared + value_length) % 2 ^ 32)
    then none
    else some (record {
      shared = shared;
      non_shared = non_shared;
      value_length = value_length;
      delta = p;
    })

unfoldable pub slow_entry : List ℕ → Option Entry
slow_entry p = do
  (shared, p1) ← get_varint32_ptr p
  (non_shared, p2) ← get_varint32_ptr p1
  (value_length, p3) ← get_varint32_ptr p2
  whole_entry shared non_shared value_length p3

-- decodeEntry, over the bytes from p to limit.
unfoldable pub decode_entry : List ℕ → Option Entry
decode_entry (a ∷ b ∷ c ∷ p) =
    if ltb (bit_or (bit_or a b) c) 128 then whole_entry a b c p else slow_entry (a ∷ b ∷ c ∷ p)
decode_entry _ = none

pub record Block : Type 0 where
  pub bytes : List ℕ
  pub size : ℕ
  pub restartoffset : ℕ

pub record BlockIterator : Type 0 where
  pub bytes : List ℕ
  pub restarts : ℕ
  pub numrestarts : ℕ
  pub current : ℕ
  pub restartindex : ℕ
  pub k : List ℕ
  -- v, by its place
  pub v_offset : ℕ
  pub v_size : ℕ
  -- whether s is a Corruption
  pub is_corrupt : Bool

-- What NewIterator makes.
pub data BlockCursor : Type 0 where
  error_cursor empty_cursor : BlockCursor
  over : BlockIterator → BlockCursor

unfoldable pub is_valid : BlockIterator → Bool
is_valid it = ltb it.current it.restarts

unfoldable pub value : BlockIterator → List ℕ
value it = take it.v_size (drop it.v_offset it.bytes)

unfoldable pub next_entry_offset : BlockIterator → ℕ
next_entry_offset it = (it.v_offset + it.v_size) % 2 ^ 32

-- The empty view that v becomes is not read before the next seek.
unfoldable pub corruption_error : BlockIterator → BlockIterator
corruption_error it = record it {
  current = it.restarts;
  restartindex = it.numrestarts;
  is_corrupt = true;
  k = [];
  v_offset = 0;
  v_size = 0;
}

-- The bytes from an offset to limit.
unfoldable pub until_limit : BlockIterator → ℕ → List ℕ
until_limit it offset = drop offset (take it.restarts it.bytes)

abbrev pub resize : ℕ → List ℕ → List ℕ
resize = take

module _ (host : ByteOrder) where
  unfoldable pub num_restarts : List ℕ → ℕ → ℕ
  num_restarts bytes size = decode_fixed32 host (drop (size - 4) bytes)

  -- The constructor. Where the size is 0, restartoffset is not read.
  unfoldable pub new_block : List ℕ → Block
  new_block contents =
      let size = length contents in
      let n = num_restarts contents size in
      if ltb size 4
      then record { bytes = contents; size = 0; restartoffset = 0 }
      else if ltb ((size - 4) / 4) n
      then record { bytes = contents; size = 0; restartoffset = 0 }
      else record { bytes = contents; size = size; restartoffset = (size - (1 + n) * 4) % 2 ^ 32 }

  unfoldable pub new_iterator : Block → BlockCursor
  new_iterator block =
      let n = num_restarts block.bytes block.size in
      if ltb block.size 4
      then error_cursor
      else if n == 0
      then empty_cursor
      else over (record {
        bytes = block.bytes;
        restarts = block.restartoffset;
        numrestarts = n;
        current = block.restartoffset;
        restartindex = n;
        k = [];
        v_offset = 0;
        v_size = 0;
        is_corrupt = false;
      })

  unfoldable pub get_restart_point : BlockIterator → ℕ → ℕ
  get_restart_point it index = decode_fixed32 host (drop (it.restarts + index * 4) it.bytes)

  unfoldable pub seek_to_restart_point : BlockIterator → ℕ → BlockIterator
  seek_to_restart_point it index = record it {
    k = [];
    restartindex = index;
    v_offset = get_restart_point it index;
    v_size = 0;
  }

  -- `while (restartIndex + 1 < numrestarts && ...) ++restartIndex`, which has no more rounds than
  -- there are restart points.
  unfoldable pub skip_restarts : ℕ → BlockIterator → ℕ → ℕ
  skip_restarts zero it index = index
  skip_restarts (suc rounds) it index =
      let more = skip_restarts rounds it (index + 1) in
      if ltb (index + 1) it.numrestarts && ltb (get_restart_point it (index + 1)) it.current
      then more
      else index

  -- The else branch of parseNextKey, with current moved.
  unfoldable pub take_entry : BlockIterator → Entry → BlockIterator
  take_entry it e =
      let end = it.restarts - length e.delta in
      let it1 = record it {
        k = resize e.shared it.k ++ take e.non_shared e.delta;
        v_offset = end + e.non_shared;
        v_size = e.value_length;
      } in
      record it1 { restartindex = skip_restarts it.numrestarts it1 it.restartindex }

  unfoldable pub parse_next_key : BlockIterator → Bool × BlockIterator
  parse_next_key it =
      let it1 = record it { current = next_entry_offset it } in
      if leb it.restarts it1.current
      then (false, record it { current = it.restarts; restartindex = it.numrestarts })
      else elim (decode_entry (until_limit it1 it1.current)) [
        | none ↦ (false, corruption_error it1)
        | some e ↦
            if ltb (length it.k) e.shared
            then (false, corruption_error it1)
            else (true, take_entry it1 e)
      ]

  unfoldable pub next : BlockIterator → BlockIterator
  next it = (parse_next_key it).1

  unfoldable pub seek_to_first : BlockIterator → BlockIterator
  seek_to_first it = (parse_next_key (seek_to_restart_point it 0)).1

  -- `while (parseNextKey() && nextEntryOffset() < bound)`, of SeekToLast and of Prev.
  unfoldable pub parse_until : ℕ → ℕ → BlockIterator → Option BlockIterator
  parse_until zero bound it = none
  parse_until (suc fuel) bound it =
      let step = parse_next_key it in
      elim (step.0 && ltb (next_entry_offset step.1) bound) [
        | true ↦ parse_until fuel bound step.1
        | false ↦ some step.1
      ]

  unfoldable pub seek_to_last : BlockIterator → Option BlockIterator
  seek_to_last it =
      parse_until (it.restarts + 1) it.restarts (seek_to_restart_point it (it.numrestarts - 1))

  -- The loop of Prev that goes back to a restart point before `original`.
  unfoldable pub back_up : BlockIterator → ℕ → ℕ → Option ℕ
  back_up it original zero = if leb original (get_restart_point it zero) then none else some zero
  back_up it original (suc index) =
      let back = back_up it original index in
      if leb original (get_restart_point it (suc index)) then back else some (suc index)

  unfoldable pub prev : BlockIterator → Option BlockIterator
  prev it = elim (back_up it it.current it.restartindex) [
    | none ↦ some (record it { current = it.restarts; restartindex = it.numrestarts })
    | some index ↦ parse_until (it.restarts + 1) it.current (seek_to_restart_point it index)
  ]

  module _ (comparator : Comparator) where
    abbrev pub is_before : List ℕ → List ℕ → Bool
    is_before a b = elim (comparator.compare a b) [ Ordering.lt ↦ true | _ ↦ false ]

    -- The binary search of Seek: the last restart point with a key before the target, or `none` where
    -- an entry at a restart point is corrupt.
    unfoldable pub search_restarts : ℕ → BlockIterator → List ℕ → ℕ → ℕ → Option (Option ℕ)
    search_restarts zero it target left right = none
    search_restarts (suc fuel) it target left right =
        let mid = (left + right + 1) % 2 ^ 32 / 2 in
        elim (ltb left right) [
          | false ↦ some (some left)
          | true ↦ elim (decode_entry (until_limit it (get_restart_point it mid))) [
            | none ↦ some none
            | some e ↦ elim (e.shared == 0) [
              | false ↦ some none
              | true ↦ elim (is_before (take e.non_shared e.delta) target) [
                | true ↦ search_restarts fuel it target mid right
                | false ↦ search_restarts fuel it target left (mid - 1)
              ]
            ]
          ]
        ]

    -- The linear search of Seek.
    unfoldable pub search_entries : ℕ → BlockIterator → List ℕ → Option BlockIterator
    search_entries zero it target = none
    search_entries (suc fuel) it target =
        let step = parse_next_key it in
        elim (step.0 && is_before step.1.k target) [
          | true ↦ search_entries fuel step.1 target
          | false ↦ some step.1
        ]

    unfoldable pub seek : BlockIterator → List ℕ → Option BlockIterator
    seek it target = elim (search_restarts it.numrestarts it target 0 (it.numrestarts - 1)) [
      | none ↦ none
      | some none ↦ some (corruption_error it)
      | some (some left) ↦ search_entries (it.restarts + 1) (seek_to_restart_point it left) target
    ]
