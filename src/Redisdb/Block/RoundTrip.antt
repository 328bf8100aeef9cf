-- ===== src/Redisdb/Block/RoundTrip.antt =====
-- A block that BlockBuilder wrote (redisdb/db/blockbuilder.cc), read by BlockIterator from its
-- first entry on (redisdb/db/block.cc).
use cpp_swiss_army_knife.Common.{
  ℕ, zero, suc, ◌+◌, ◌*◌, ◌^◌, ◌≤◌, ◌<◌, ◌≡◌, refl, sym, ap, ◌∙◌, subst, List, [], ◌∷◌, ◌++◌, map,
  Option, none, some, true, false, arith, length, get_or, length-append, length-map, All,
}
use cpp_swiss_army_knife.Redisdb.Block.{BlockBuilder, new_builder, finish}
use cpp_swiss_army_knife.Redisdb.Block.Built.{Built, IsAscending, add_all, adds_from_new}
use cpp_swiss_army_knife.Redisdb.Block.Decode.{entry_bytes}
use cpp_swiss_army_knife.Redisdb.Block.Finished.{
  Words, footer, finish-buffer, start_of, get_restart_point_lem, new_iterator-finish,
}
use cpp_swiss_army_knife.Redisdb.Block.Iterator.{
  BlockIterator, over, is_valid, value, new_block, new_iterator, get_restart_point,
  seek_to_restart_point, parse_next_key, next, seek_to_first,
}
use cpp_swiss_army_knife.Redisdb.Block.Layout.{
  Item, KeyValue, key_value, encoded, encoded-append, encoded_last, IsPoint, weight,
}
use cpp_swiss_army_knife.Redisdb.Block.Scan.{
  ShortKeys, Over, Standing, parse_next_key_end, parse_next_key-Reads, sizes, length-entry,
}
use cpp_swiss_army_knife.Redisdb.Coding.{ByteOrder, encode_fixed32}
use cpp_swiss_army_knife.Redisdb.Comparator.{Comparator}

-- The entries from an iterator's place on, by Next.
abbrev pub read_all : ByteOrder → ℕ → BlockIterator → Option (List KeyValue)
read_all host zero it = none
read_all host (suc fuel) it = elim (is_valid it) [
  | false ↦ some []
  | true ↦ elim (read_all host fuel (next host it)) [
    | none ↦ none
    | some es ↦ some ((it.k, value it) ∷ es)
  ]
]

pub read_all_end :
    (host : ByteOrder) (fuel : ℕ) (it : BlockIterator)
    → is_valid it ≡ false
    → read_all host (suc fuel) it ≡ some []
read_all_end host fuel it e = rw (e, read_all) refl

read_all_more :
    (host : ByteOrder) (fuel : ℕ) (it : BlockIterator) (e : KeyValue) (es : List KeyValue)
    → is_valid it ≡ true
    → it.k ≡ e.0
    → value it ≡ e.1
    → read_all host fuel (next host it) ≡ some es
    → read_all host (suc fuel) it ≡ some (e ∷ es)
read_all_more host fuel it e es v hk hv more =
    let one : read_all host (suc fuel) it ≡ some ((it.k, value it) ∷ es) =
      rw (v, read_all) (rw (more) refl) in
    one
    ∙ ap (λ (t : List ℕ). some ((t, value it) ∷ es)) hk
    ∙ ap (λ (t : List ℕ). some ((e.0, t) ∷ es)) hv

module _ (host : ByteOrder) (items : List Item) (tail : List ℕ)
    (small : length (encoded items) < 2 ^ 32) where
  -- What holds of an iterator at an entry.
  abbrev pub At : BlockIterator → List Item → Item → List Item → Type 0
  At it before i rest =
      (it.k ≡ i.1)
      × (value it ≡ i.2)
      × (it.current ≡ length (encoded before))
      × Standing items tail small it (before ++ i ∷ []) rest

  pub next-At :
      (it : BlockIterator) (before : List Item) (i : Item) (rest : List Item)
      → Standing items tail small it before (i ∷ rest)
      → At (parse_next_key host it).1 before i rest
  next-At it before i rest s =
      let r = parse_next_key-Reads items tail small host it before i rest s in (r.1, r.2, r.3, r.4)

  pub is_valid-At :
      (it : BlockIterator) (before : List Item) (i : Item) (rest : List Item)
      → At it before i rest
      → is_valid it ≡ true
  unfolding is_valid
  is_valid-At it before i rest a =
      let entry = entry_bytes i.0 i.1 i.2 in
      ground (
        arith,
        a.2,
        a.3.1.1,
        sizes items tail small (before ++ i ∷ []) rest a.3.0,
        ap length (encoded_last before i),
        length-append (encoded before) entry,
        length-entry items tail small i,
      )

  pub at_the_end :
      (it : BlockIterator) (before : List Item)
      → Standing items tail small it before []
      → is_valid (parse_next_key host it).1 ≡ false
  unfolding is_valid
  at_the_end it before s = rw (parse_next_key_end items tail small host it before s) (ground arith)

  pub read_all-next :
      (rest : List Item) (it : BlockIterator) (before : List Item) (fuel : ℕ)
      → Standing items tail small it before rest
      → length rest < fuel
      → read_all host fuel (parse_next_key host it).1 ≡ some (map key_value rest)
  unfolding next
  read_all-next rest it before zero s h = absurd (omega arith)
  read_all-next [] it before (suc fuel) s h =
      read_all_end host fuel (parse_next_key host it).1 (at_the_end it before s)
  read_all-next (i ∷ rest) it before (suc fuel) s h =
      let it' = (parse_next_key host it).1 in
      let a = next-At it before i rest s in
      read_all_more host fuel it' (i.1, i.2) (map key_value rest) (is_valid-At it' before i rest a)
        a.0 a.1 (read_all-next rest it' (before ++ i ∷ []) fuel a.3 (omega arith))

pub short_keys : (items : List Item) → weight (map key_value items) < 2 ^ 32 → ShortKeys items
short_keys [] h = tt
short_keys (i ∷ items) h = (omega arith, short_keys items (omega arith))

-- The restart points are words.
point-Words :
    (items : List Item) (rs : List ℕ)
    → length (encoded items) < 2 ^ 32
    → All (IsPoint items) rs
    → Words rs
point-Words items [] h p = tt
point-Words items (r ∷ rs) h p =
    let point = p.0.1.1 in
    let before = p.0.0 in
    let rest = p.0.1.0 ∷ point.0 in
    let size : length (encoded items) ≡ length (encoded before) + length (encoded rest) =
      ap (λ (t : List Item). length (encoded t)) point.1
      ∙ ap length (encoded-append before rest)
      ∙ length-append (encoded before) (encoded rest) in
    (omega (arith, point.2, size), point-Words items rs h p.1)

-- A finished builder that holds some entries.
module _ (host : ByteOrder) (cmp : Comparator) (interval : ℕ) (positive : 1 ≤ interval)
    (b : BlockBuilder) (items : List Item) (built : Built cmp interval positive b items)
    (small : length b.buffer + 4 * length b.restarts + 4 < 2 ^ 32) where
  pub entries_small : length (encoded items) < 2 ^ 32
  entries_small = omega (arith, ap length built.0)

  pub restarts_some : 1 ≤ length b.restarts
  restarts_some = omega (arith, ap length built.5.1)

  abbrev pub footer_of : List ℕ
  footer_of = footer host b restarts_some small

  abbrev pub first : BlockIterator
  first = start_of host b restarts_some small

  pub first-Over : Over items footer_of entries_small first
  first-Over = (
    finish-buffer host b restarts_some small ∙ ap (λ (t : List ℕ). t ++ footer_of) built.0,
    ap length built.0,
    refl,
  )

  -- The restart points as they are read.
  pub restart_point :
      (i : ℕ) → i < length b.restarts → get_restart_point host first i ≡ get_or b.restarts i 0
  restart_point i h =
      get_restart_point_lem host first b.buffer b.restarts (encode_fixed32 host (length b.restarts))
        i (finish-buffer host b restarts_some small) refl h
        (subst Words (sym built.5.1)
          (omega arith, point-Words items built.5.0 entries_small built.5.2))

  first_point : get_restart_point host first 0 ≡ 0
  first_point =
      restart_point 0 (omega (arith, restarts_some)) ∙ ap (λ (t : List ℕ). get_or t 0 0) built.5.1

  pub seek_first-Standing :
      ShortKeys items
      → Standing items footer_of entries_small (seek_to_restart_point host first 0) [] items
  unfolding seek_to_restart_point
  seek_first-Standing short = (refl, first-Over, omega (arith, first_point), built.4, short)

  pub read_all-seek_to_first :
      ShortKeys items
      → read_all host (suc (length items)) (seek_to_first host first) ≡ some (map key_value items)
  unfolding seek_to_first
  read_all-seek_to_first short =
      read_all-next host items footer_of entries_small items (seek_to_restart_point host first 0) []
        (suc (length items)) (seek_first-Standing short) (omega arith)

-- A block read from its start: for entries whose keys ascend in the comparator, a restart interval
-- of at least 1, and keys and values that with 19 bytes for each entry stay below 2^32 - 8 bytes,
-- no assert of Add fails, and SeekToFirst and Next over the finished block give exactly the
-- entries, in order, until the iterator is no longer valid.
pub read_all-add_all :
    (host : ByteOrder) (cmp : Comparator) (interval : ℕ) (es : List KeyValue)
    → 1 ≤ interval
    → IsAscending cmp es
    → weight es + 8 < 2 ^ 32
    → (b : BlockBuilder) × (add_all cmp interval new_builder es ≡ some b)
      × ((it : BlockIterator) × (new_iterator host (new_block host (finish host b).buffer)
            ≡ over it)
          × (read_all host (suc (length es)) (seek_to_first host it) ≡ some es))
read_all-add_all host cmp interval es p a h =
    let all = adds_from_new cmp interval p es a h in
    let b = all.0 in
    let items = all.2.0 in
    let built = all.2.1 in
    let same : map key_value items ≡ es = all.2.2 in
    let small : length b.buffer + 4 * length b.restarts + 4 < 2 ^ 32 = omega (arith, all.2.3) in
    let short =
      short_keys items
        (subst (λ (t : List KeyValue). weight t < 2 ^ 32) (sym same) (omega arith)) in
    let count : length es ≡ length items = ap length (sym same) ∙ length-map items key_value in
    let some_restart = restarts_some host cmp interval p b items built small in
    (
      b,
      all.1,
      (
        start_of host b some_restart small,
        new_iterator-finish host b some_restart small,
        ap
              (λ (n : ℕ).
                read_all host (suc n) (seek_to_first host (start_of host b some_restart small)))
              count
            ∙ read_all-seek_to_first host cmp interval p b items built small short
            ∙ ap some same,
      ),
    )
