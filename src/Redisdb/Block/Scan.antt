-- ===== src/Redisdb/Block/Scan.antt =====
-- BlockIterator::parseNextKey (redisdb/db/block.cc) on a block of entries that BlockBuilder wrote.
use cpp_swiss_army_knife.Common.{
  ℕ, ◌+◌, ◌-◌, ◌^◌, ◌≤◌, ◌<◌, ◌≡◌, refl, sym, ap, ◌∙◌, subst, List, [], ◌∷◌, ◌++◌, some, Bool, true,
  false, arith, ltb, leb, length, take, drop, length-append, length-drop, append_assoc,
  take-append-drop, take-length, drop-length,
}
use cpp_swiss_army_knife.Redisdb.Block.Decode.{entry_bytes, decode_entry-entry_bytes}
use cpp_swiss_army_knife.Redisdb.Block.Iterator.{
  Entry, decode_entry, BlockIterator, value, next_entry_offset, until_limit, take_entry,
  parse_next_key,
}
use cpp_swiss_army_knife.Redisdb.Block.Layout.{Item, encoded, encoded-append, encoded_last, Chained}
use cpp_swiss_army_knife.Redisdb.Coding.{ByteOrder, encode_varint32}

abbrev head_bytes : Item → List ℕ
head_bytes i =
    encode_varint32 i.0 ++ (encode_varint32 (length i.1 - i.0) ++ encode_varint32 (length i.2))

-- The lengths, the delta of the key and the value.
entry_bytes_parts : (i : Item) → entry_bytes i.0 i.1 i.2 ≡ head_bytes i ++ (drop i.0 i.1 ++ i.2)
entry_bytes_parts i =
    let a = encode_varint32 i.0 in
    let b = encode_varint32 (length i.1 - i.0) in
    let c = encode_varint32 (length i.2) in
    let rest = drop i.0 i.1 ++ i.2 in
    sym (append_assoc a (b ++ c) rest ∙ ap (λ (t : List ℕ). a ++ t) (append_assoc b c rest))

view_at :
    (bytes front v after : List ℕ) (off : ℕ)
    → bytes ≡ front ++ (v ++ after)
    → off ≡ length front
    → take (length v) (drop off bytes) ≡ v
view_at bytes front v after off e h =
    ap (λ (t : List ℕ). take (length v) (drop off t)) e
    ∙ ap (λ (n : ℕ). take (length v) (drop n (front ++ (v ++ after)))) h
    ∙ ap (take (length v)) (drop-length front (v ++ after))
    ∙ take-length v after

regroup :
    (e h d v r t : List ℕ) → (e ++ ((h ++ (d ++ v)) ++ r)) ++ t ≡ (e ++ (h ++ d)) ++ (v ++ (r ++ t))
regroup e h d v r t = simp append_assoc

one_byte : (v : ℕ) → 1 ≤ length (encode_varint32 v)
unfolding encode_varint32
one_byte v = ground arith

abbrev pub ShortKeys : List Item → Type 0
ShortKeys [] = Unit {0}
ShortKeys (i ∷ items) = (length i.1 < 2 ^ 32) × ShortKeys items

module _ (items : List Item) (tail : List ℕ) (small : length (encoded items) < 2 ^ 32) where
  -- An iterator over the block.
  abbrev pub Over : BlockIterator → Type 0
  Over it =
      (it.bytes ≡ encoded items ++ tail)
      × (it.restarts ≡ length (encoded items))
      × (it.is_corrupt ≡ false)

  -- Between two entries: the next one is read behind the current value.
  abbrev pub Standing : BlockIterator → List Item → List Item → Type 0
  Standing it before rest =
      (items ≡ before ++ rest)
      × Over it
      × (it.v_offset + it.v_size ≡ length (encoded before))
      × Chained it.k rest
      × ShortKeys rest

  -- The sizes of what was read and what is ahead.
  pub sizes :
      (before rest : List Item)
      → items ≡ before ++ rest
      → length (encoded items) ≡ length (encoded before) + length (encoded rest)
  sizes before rest e =
      ap (λ (t : List Item). length (encoded t)) e
      ∙ ap length (encoded-append before rest)
      ∙ length-append (encoded before) (encoded rest)

  until_limit_lem :
      (it : BlockIterator) (before rest : List Item) (off : ℕ)
      → items ≡ before ++ rest
      → Over it
      → off ≡ length (encoded before)
      → until_limit it off ≡ encoded rest
  unfolding until_limit
  until_limit_lem it before rest off e w h =
      ap (λ (t : List ℕ). drop off (take it.restarts t)) w.0
      ∙ ap (λ (n : ℕ). drop off (take n (encoded items ++ tail))) w.1
      ∙ ap (drop off) (take-length (encoded items) tail)
      ∙ ap (λ (n : ℕ). drop n (encoded items)) h
      ∙ ap (λ (t : List Item). drop (length (encoded before)) (encoded t)) e
      ∙ ap (drop (length (encoded before))) (encoded-append before rest)
      ∙ drop-length (encoded before) (encoded rest)

  next_entry_offset_lem :
      (it : BlockIterator) (before rest : List Item)
      → Standing it before rest
      → next_entry_offset it ≡ length (encoded before)
  unfolding next_entry_offset
  next_entry_offset_lem it before rest s = omega (arith, s.2, sizes before rest s.0)

  -- What decodeEntry finds.
  abbrev pub entry_of : Item → List Item → Entry
  entry_of i rest = record {
    shared = i.0;
    non_shared = length i.1 - i.0;
    value_length = length i.2;
    delta = drop i.0 i.1 ++ (i.2 ++ encoded rest);
  }

  pub length-entry :
      (i : Item) → length i.1 - i.0 + length i.2 + 1 ≤ length (entry_bytes i.0 i.1 i.2)
  length-entry i =
      let a = encode_varint32 i.0 in
      let rest = drop i.0 i.1 ++ i.2 in
      let n = encode_varint32 (length i.1 - i.0) in
      let l = encode_varint32 (length i.2) in
      omega (
        arith,
        one_byte i.0,
        length-append a (n ++ (l ++ rest)),
        length-append n (l ++ rest),
        length-append l rest,
        length-append (drop i.0 i.1) i.2,
        length-drop i.0 i.1,
      )

  pub decoded :
      (it : BlockIterator) (before : List Item) (i : Item) (rest : List Item) (off : ℕ)
      → items ≡ before ++ i ∷ rest
      → Over it
      → off ≡ length (encoded before)
      → i.0 ≤ length i.1
      → length i.1 < 2 ^ 32
      → decode_entry (until_limit it off) ≡ some (entry_of i rest)
  decoded it before i rest off e w h l k =
      ap decode_entry (until_limit_lem it before (i ∷ rest) off e w h)
      ∙ decode_entry-entry_bytes i.0 i.1 i.2 (encoded rest) l k (
          omega (
            arith,
            sizes before (i ∷ rest) e,
            length-entry i,
            length-append (entry_bytes i.0 i.1 i.2) (encoded rest),
          ))

  module _ (host : ByteOrder) where
    pub parse_next_key_end :
        (it : BlockIterator) (before : List Item)
        → Standing it before []
        → parse_next_key host it
          ≡ (false, record it { current = it.restarts; restartindex = it.numrestarts })
    unfolding parse_next_key
    parse_next_key_end it before s =
        let size = sizes before [] s.0 in
        let off = next_entry_offset_lem it before [] s in
        let e : leb it.restarts (next_entry_offset it) ≡ true = ground (arith, size, off, s.1.1) in
        rw (e) refl

    abbrev at_entry : BlockIterator → BlockIterator
    at_entry it = record it { current = next_entry_offset it }

    parse_next_key_entry :
        (it : BlockIterator) (before : List Item) (i : Item) (rest : List Item)
        → Standing it before (i ∷ rest)
        → parse_next_key host it ≡ (true, take_entry host (at_entry it) (entry_of i rest))
    unfolding parse_next_key
    parse_next_key_entry it before i rest s =
        let off = next_entry_offset_lem it before (i ∷ rest) s in
        let size = sizes before (i ∷ rest) s.0 in
        let e : leb it.restarts (next_entry_offset it) ≡ false = ground (
          arith,
          off,
          size,
          s.1.1,
          length-entry i,
          length-append (entry_bytes i.0 i.1 i.2) (encoded rest),
        ) in
        let d : decode_entry (until_limit (at_entry it) (next_entry_offset it))
            ≡ some (entry_of i rest) =
          decoded (at_entry it) before i rest (next_entry_offset it) s.0 s.1 off s.3.2 s.4.0 in
        let f : ltb (length it.k) i.0 ≡ false = ground (arith, s.3.1) in rw (e, d, f) refl

    -- The iterator at the entry that was read.
    abbrev pub Reads : BlockIterator → List Item → Item → List Item → Bool × BlockIterator → Type 0
    Reads it before i rest step =
        (step.0 ≡ true)
        × (step.1.k ≡ i.1)
        × (value step.1 ≡ i.2)
        × (step.1.current ≡ length (encoded before))
        × Standing step.1 (before ++ i ∷ []) rest

    bytes_parts :
        (it : BlockIterator) (before : List Item) (i : Item) (rest : List Item)
        → items ≡ before ++ i ∷ rest
        → Over it
        → it.bytes
          ≡ (encoded before ++ (head_bytes i ++ drop i.0 i.1)) ++ (i.2 ++ (encoded rest ++ tail))
    bytes_parts it before i rest e w =
        w.0
        ∙ ap (λ (t : List Item). encoded t ++ tail) e
        ∙ ap (λ (t : List ℕ). t ++ tail) (encoded-append before (i ∷ rest))
        ∙ ap (λ (t : List ℕ). (encoded before ++ (t ++ encoded rest)) ++ tail) (entry_bytes_parts i)
        ∙ regroup (encoded before) (head_bytes i) (drop i.0 i.1) i.2 (encoded rest) tail

    view_offset :
        (it : BlockIterator) (before : List Item) (i : Item) (rest : List Item)
        → items ≡ before ++ i ∷ rest
        → Over it
        → it.restarts - length (entry_of i rest).delta + (length i.1 - i.0)
          ≡ length (encoded before ++ (head_bytes i ++ drop i.0 i.1))
    view_offset it before i rest e w =
        let h = head_bytes i in
        let d = drop i.0 i.1 in
        omega (
          arith,
          w.1,
          sizes before (i ∷ rest) e,
          ap length (entry_bytes_parts i),
          length-append (entry_bytes i.0 i.1 i.2) (encoded rest),
          length-append h (d ++ i.2),
          length-append d i.2,
          length-append d (i.2 ++ encoded rest),
          length-append i.2 (encoded rest),
          length-append (encoded before) (h ++ d),
          length-append h d,
          length-drop i.0 i.1,
        )

    -- Where the value ends.
    view_end :
        (it : BlockIterator) (before : List Item) (i : Item) (rest : List Item)
        → items ≡ before ++ i ∷ rest
        → Over it
        → it.restarts - length (entry_of i rest).delta + (length i.1 - i.0) + length i.2
          ≡ length (encoded (before ++ i ∷ []))
    view_end it before i rest e w =
        let h = head_bytes i in
        let d = drop i.0 i.1 in
        omega (
          arith,
          view_offset it before i rest e w,
          ap length (encoded_last before i),
          ap length (entry_bytes_parts i),
          length-append (encoded before) (entry_bytes i.0 i.1 i.2),
          length-append h (d ++ i.2),
          length-append d i.2,
          length-append (encoded before) (h ++ d),
          length-append h d,
        )

    taken-key :
        (k key after : List ℕ) (s : ℕ)
        → take s k ≡ take s key
        → s ≤ length key
        → take s k ++ take (length key - s) (drop s key ++ after) ≡ key
    taken-key k key after s e h =
        let rest : take (length key - s) (drop s key ++ after) ≡ drop s key =
          ap (λ (n : ℕ). take n (drop s key ++ after)) (sym (length-drop s key))
          ∙ take-length (drop s key) after in
        ap (λ (t : List ℕ). t ++ take (length key - s) (drop s key ++ after)) e
        ∙ ap (λ (t : List ℕ). take s key ++ t) rest
        ∙ take-append-drop s key

    pub parse_next_key-Reads :
        (it : BlockIterator) (before : List Item) (i : Item) (rest : List Item)
        → Standing it before (i ∷ rest)
        → Reads it before i rest (parse_next_key host it)
    unfolding take_entry value
    parse_next_key-Reads it before i rest s =
        subst (Reads it before i rest) (sym (parse_next_key_entry it before i rest s)) (
          refl,
          taken-key it.k i.1 (i.2 ++ encoded rest) i.0 s.3.0 s.3.2,
          view_at it.bytes (encoded before ++ (head_bytes i ++ drop i.0 i.1)) i.2
              (encoded rest ++ tail)
              (it.restarts - length (entry_of i rest).delta + (length i.1 - i.0))
              (bytes_parts it before i rest s.0 s.1) (view_offset it before i rest s.0 s.1),
          next_entry_offset_lem it before (i ∷ rest) s,
          (
            s.0 ∙ sym (append_assoc before (i ∷ []) rest),
            s.1,
            view_end it before i rest s.0 s.1,
            subst (λ (t : List ℕ). Chained t rest)
                (sym (taken-key it.k i.1 (i.2 ++ encoded rest) i.0 s.3.0 s.3.2)) s.3.3,
            s.4.1,
          ),
        )
