-- ===== src/Redisdb/Block/Finished.antt =====
-- BlockBuilder::Finish (redisdb/db/blockbuilder.cc), and the block and the iterator over what it returns
-- (redisdb/db/block.cc).
use cpp_swiss_army_knife.Common.{
  ℕ, zero, suc, ◌+◌, ◌-◌, ◌*◌, ◌/◌, ◌%◌, ◌^◌, ◌≤◌, ◌<◌, ◌≡◌, refl, sym, ap, ◌∙◌, List, [], ◌∷◌,
  ◌++◌, false, arith, ltb, ◌==◌, length, drop, get_or, length-append, append_assoc, append-nil,
}
use cpp_swiss_army_knife.Redisdb.Block.{BlockBuilder, put_restarts, finish}
use cpp_swiss_army_knife.Redisdb.Block.Iterator.{
  Block, BlockIterator, over, num_restarts, new_block, new_iterator, get_restart_point,
}
use cpp_swiss_army_knife.Redisdb.Coding.{ByteOrder, put_fixed32, encode_fixed32, decode_fixed32}
use cpp_swiss_army_knife.Redisdb.Coding.Fixed.{length-encode_fixed32, decode_fixed32_at}

abbrev pub Words : List ℕ → Type 0
Words [] = Unit {0}
Words (r ∷ rs) = (r < 2 ^ 32) × Words rs

module _ (host : ByteOrder) where
  abbrev pub fixed : List ℕ → List ℕ
  fixed [] = []
  fixed (r ∷ rs) = encode_fixed32 host r ++ fixed rs

  length-fixed : (rs : List ℕ) → length (fixed rs) ≡ 4 * length rs
  length-fixed [] = refl
  length-fixed (r ∷ rs) = omega (
    arith,
    length-append (encode_fixed32 host r) (fixed rs),
    length-encode_fixed32 host r,
    length-fixed rs,
  )

  put_restarts-fixed : (buffer rs : List ℕ) → put_restarts host buffer rs ≡ buffer ++ fixed rs
  unfolding put_restarts put_fixed32
  put_restarts-fixed buffer [] = sym (append-nil buffer)
  put_restarts-fixed buffer (r ∷ rs) =
      put_restarts-fixed (buffer ++ encode_fixed32 host r) rs
      ∙ append_assoc buffer (encode_fixed32 host r) (fixed rs)

  -- The word at an index of the array.
  word_at :
      (rs front after : List ℕ) (i off : ℕ)
      → off ≡ length front + i * 4
      → i < length rs
      → Words rs
      → decode_fixed32 host (drop off (front ++ (fixed rs ++ after))) ≡ get_or rs i 0
  word_at [] front after i off e h w = absurd (omega arith)
  word_at (r ∷ rs) front after zero off e h w =
      ap (λ (t : List ℕ). decode_fixed32 host (drop off (front ++ t)))
        (append_assoc (encode_fixed32 host r) (fixed rs) after)
      ∙ decode_fixed32_at host front r (fixed rs ++ after) off (omega arith) w.0
  word_at (r ∷ rs) front after (suc i) off e h w =
      let word = encode_fixed32 host r in
      let parts : front ++ (fixed (r ∷ rs) ++ after) ≡ (front ++ word) ++ (fixed rs ++ after) =
        ap (λ (t : List ℕ). front ++ t) (append_assoc word (fixed rs) after)
        ∙ sym (append_assoc front word (fixed rs ++ after)) in
      ap (λ (t : List ℕ). decode_fixed32 host (drop off t)) parts
      ∙ word_at rs (front ++ word) after i off
          (omega (arith, length-append front word, length-encode_fixed32 host r)) (omega arith) w.1

  pub get_restart_point_lem :
      (it : BlockIterator) (front rs after : List ℕ) (i : ℕ)
      → it.bytes ≡ front ++ (fixed rs ++ after)
      → it.restarts ≡ length front
      → i < length rs
      → Words rs
      → get_restart_point host it i ≡ get_or rs i 0
  unfolding get_restart_point
  get_restart_point_lem it front rs after i e h l w =
      ap (λ (t : List ℕ). decode_fixed32 host (drop (it.restarts + i * 4) t)) e
      ∙ word_at rs front after i (it.restarts + i * 4) (ap (λ (n : ℕ). n + i * 4) h) l w

  module _ (b : BlockBuilder) (some_restart : 1 ≤ length b.restarts)
      (small : length b.buffer + 4 * length b.restarts + 4 < 2 ^ 32) where
    abbrev pub footer : List ℕ
    footer = fixed b.restarts ++ encode_fixed32 host (length b.restarts)

    pub finish-buffer : (finish host b).buffer ≡ b.buffer ++ footer
    unfolding finish put_fixed32
    finish-buffer =
        let count = length b.restarts in
        let w : count % 2 ^ 32 ≡ count = omega arith in
        ap (λ (n : ℕ). put_restarts host b.buffer b.restarts ++ encode_fixed32 host n) w
        ∙ ap (λ (t : List ℕ). t ++ encode_fixed32 host count)
            (put_restarts-fixed b.buffer b.restarts)
        ∙ append_assoc b.buffer (fixed b.restarts) (encode_fixed32 host count)

    length-finish : length (finish host b).buffer ≡ length b.buffer + 4 * length b.restarts + 4
    length-finish = omega (
      arith,
      ap length finish-buffer,
      length-append b.buffer footer,
      length-append (fixed b.restarts) (encode_fixed32 host (length b.restarts)),
      length-fixed b.restarts,
      length-encode_fixed32 host (length b.restarts),
    )

    count_at_end :
        (size : ℕ)
        → size ≡ length b.buffer + 4 * length b.restarts + 4
        → num_restarts host (finish host b).buffer size ≡ length b.restarts
    unfolding num_restarts
    count_at_end size h =
        let count = length b.restarts in
        let word = encode_fixed32 host count in
        let front = b.buffer ++ fixed b.restarts in
        let parts : (finish host b).buffer ≡ front ++ (word ++ []) =
          finish-buffer
          ∙ sym (append_assoc b.buffer (fixed b.restarts) word)
          ∙ ap (λ (t : List ℕ). front ++ t) (sym (append-nil word)) in
        ap (λ (t : List ℕ). decode_fixed32 host (drop (size - 4) t)) parts
        ∙ decode_fixed32_at host front count [] (size - 4)
            (omega (arith, length-append b.buffer (fixed b.restarts), length-fixed b.restarts))
            (omega arith)

    -- The iterator that Block::NewIterator makes.
    abbrev pub start_of : BlockIterator
    start_of = record {
      bytes = (finish host b).buffer;
      restarts = length b.buffer;
      numrestarts = length b.restarts;
      current = length b.buffer;
      restartindex = length b.restarts;
      k = [];
      v_offset = 0;
      v_size = 0;
      is_corrupt = false;
    }

    abbrev whole_block : Block
    whole_block = record {
      bytes = (finish host b).buffer;
      size = length (finish host b).buffer;
      restartoffset = length b.buffer;
    }

    new_block-finish : new_block host (finish host b).buffer ≡ whole_block
    unfolding new_block
    new_block-finish =
        let contents = (finish host b).buffer in
        let n = count_at_end (length contents) length-finish in
        let e : ltb (length contents) 4 ≡ false = ground (arith, length-finish) in
        let f : ltb ((length contents - 4) / 4) (length b.restarts) ≡ false =
          ground (arith, length-finish) in
        let g : (length contents - (1 + length b.restarts) * 4) % 2 ^ 32 ≡ length b.buffer =
          omega (arith, length-finish) in
        rw (n, e, f, g) refl

    new_iterator-whole : new_iterator host whole_block ≡ over start_of
    unfolding new_iterator
    new_iterator-whole =
        let contents = (finish host b).buffer in
        let n = count_at_end (length contents) length-finish in
        let e : ltb (length contents) 4 ≡ false = ground (arith, length-finish) in
        let f : (length b.restarts == 0) ≡ false = ground arith in rw (n, e, f) refl

    pub new_iterator-finish :
        new_iterator host (new_block host (finish host b).buffer) ≡ over start_of
    new_iterator-finish = ap (new_iterator host) new_block-finish ∙ new_iterator-whole
