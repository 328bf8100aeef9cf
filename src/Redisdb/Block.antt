-- ===== src/Redisdb/Block.antt =====
-- class BlockBuilder (redisdb/db/blockbuilder.h, blockbuilder.cc): entries with the keys' shared
-- prefixes left out, and behind them the array of the restart points.
--
-- The options are the restart interval and the comparator. A failed assert is `none`.
pub mod Built
pub mod Decode
pub mod Finished
pub mod Halving
pub mod Iterator
pub mod Layout
pub mod RoundTrip
pub mod Scan
pub mod Search
pub mod Seek
mod Tests
use Prim.Native.Nat.{Ordering}
use cpp_swiss_army_knife.Common.{
  ℕ, ◌+◌, ◌-◌, ◌*◌, ◌%◌, ◌^◌, Bool, true, false, not, ◌&&◌, ◌||◌, List, [], ◌∷◌, ◌++◌, Option, none,
  some, ltb, leb, ◌==◌, if◌then◌else◌, length, take, drop,
}
use cpp_swiss_army_knife.Redisdb.Coding.{ByteOrder, put_fixed32, put_varint32}
use cpp_swiss_army_knife.Redisdb.Comparator.{Comparator, compare_bytes, shared_length}

pub record BlockBuilder : Type 0 where
  pub buffer : List ℕ
  pub restarts : List ℕ
  pub counter : ℕ
  pub finished : Bool
  pub lastkey : List ℕ

-- The constructor, and the builder behind reset().
abbrev pub new_builder : BlockBuilder
new_builder = record { buffer = []; restarts = 0 ∷ []; counter = 0; finished = false; lastkey = [] }

unfoldable pub reset : BlockBuilder → BlockBuilder
reset b = record b { buffer = []; restarts = 0 ∷ []; counter = 0; finished = false; lastkey = [] }

unfoldable pub current_size_estimate : BlockBuilder → ℕ
current_size_estimate b = length b.buffer + length b.restarts * 4 + 4

abbrev pub is_greater : Ordering → Bool
is_greater Ordering.gt = true
is_greater _ = false

abbrev pub is_equal : Ordering → Bool
is_equal Ordering.eq = true
is_equal _ = false

-- The three lengths, the delta of the key, and the value.
unfoldable pub put_entry : List ℕ → ℕ → List ℕ → List ℕ → List ℕ
put_entry buffer shared key value =
    put_varint32
      (put_varint32 (put_varint32 buffer (shared % 2 ^ 32)) ((length key - shared) % 2 ^ 32))
      (length value % 2 ^ 32)
    ++ (drop shared key ++ value)

module _ (options_comparator : Comparator) (interval : ℕ) where
  -- The asserts in front of Add.
  unfoldable pub may_add : BlockBuilder → List ℕ → Bool
  may_add b key =
      not b.finished
      && leb b.counter interval
      && (length b.buffer == 0 || is_greater (options_comparator.compare key b.lastkey))

  -- The part of the last key that the entry shares; 0 at a restart.
  unfoldable pub shared_of : BlockBuilder → List ℕ → ℕ
  shared_of b key = if ltb b.counter interval then shared_length b.lastkey key else 0

  unfoldable pub restart : BlockBuilder → BlockBuilder
  restart b =
      if ltb b.counter interval
      then b
      else record b { restarts = b.restarts ++ (length b.buffer % 2 ^ 32) ∷ []; counter = 0 }

  unfoldable pub add : BlockBuilder → List ℕ → List ℕ → Option BlockBuilder
  add b key value =
      let shared = shared_of b key in
      let b1 = restart b in
      let lastkey = take shared b1.lastkey ++ drop shared key in
      if may_add b key && is_equal (compare_bytes lastkey key)
      then some (record b1 {
        buffer = put_entry b1.buffer shared key value;
        lastkey = lastkey;
        counter = b1.counter + 1;
      })
      else none

module _ (host : ByteOrder) where
  unfoldable pub put_restarts : List ℕ → List ℕ → List ℕ
  put_restarts buffer [] = buffer
  put_restarts buffer (r ∷ restarts) = put_restarts (put_fixed32 host buffer r) restarts

  -- The builder afterwards; its buffer is the block.
  unfoldable pub finish : BlockBuilder → BlockBuilder
  finish b = record b {
    buffer = put_fixed32 host (put_restarts b.buffer b.restarts) (length b.restarts % 2 ^ 32);
    finished = true;
  }
