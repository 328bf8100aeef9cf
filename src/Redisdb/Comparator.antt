-- ===== src/Redisdb/Comparator.antt =====
-- redisdb/db/dbformat.h and dbformat.cc: the interface Comparator, and BytewiseComparatorImpl.
--
-- The sign of the int that Compare returns is an Ordering. A virtual base class is a record of its
-- operations; what its comments ask of an implementation is the record IsComparator.
pub mod Bytewise
pub mod Separator
mod Tests
use Prim.Native.Nat.{compare, Ordering}
use cpp_swiss_army_knife.Common.{
  ℕ, suc, ◌+◌, ◌%◌, ◌≡◌, ◌≢◌, Bool, ◌&&◌, List, [], ◌∷◌, ltb, leb, ◌==◌, if◌then◌else◌, length,
  get_or, set, take,
}

abbrev pub flip : Ordering → Ordering
flip Ordering.lt = Ordering.gt
flip Ordering.eq = Ordering.eq
flip Ordering.gt = Ordering.lt

pub record Comparator : Type 0 where
  pub compare : List ℕ → List ℕ → Ordering
  pub find_shortest_separator : List ℕ → List ℕ → List ℕ
  pub find_short_successor : List ℕ → List ℕ

-- What the comments of the interface ask, of the keys that P holds of: Compare is a total order, in
-- which equal keys are one key. InternalKeyComparator relies
-- on separator_eq too, where its two keys have one user key.
pub record IsComparator (P : List ℕ → Type 0) (c : Comparator) : Type 0 where
  pub compare_refl : (a : List ℕ) → c.compare a a ≡ Ordering.eq
  pub compare_eq : (a b : List ℕ) → P a → P b → c.compare a b ≡ Ordering.eq → a ≡ b
  pub compare_flip : (a b : List ℕ) → c.compare b a ≡ flip (c.compare a b)
  pub compare_congr : (a b d : List ℕ) → c.compare a b ≡ Ordering.eq → c.compare a d ≡ c.compare b d
  pub compare_trans :
      (a b d : List ℕ)
      → c.compare a b ≡ Ordering.lt
      → c.compare b d ≡ Ordering.lt
      → c.compare a d ≡ Ordering.lt
  pub separator_ge :
      (a b : List ℕ)
      → P a
      → c.compare a b ≡ Ordering.lt
      → c.compare a (c.find_shortest_separator a b) ≢ Ordering.gt
  pub separator_lt :
      (a b : List ℕ)
      → P a
      → c.compare a b ≡ Ordering.lt
      → c.compare (c.find_shortest_separator a b) b ≡ Ordering.lt
  pub separator_eq :
      (a b : List ℕ) → c.compare a b ≡ Ordering.eq → c.find_shortest_separator a b ≡ a
  pub successor_ge : (a : List ℕ) → P a → c.compare a (c.find_short_successor a) ≢ Ordering.gt

-- std::string_view::compare: the first unequal bytes decide, then the lengths.
unfoldable pub compare_bytes : List ℕ → List ℕ → Ordering
compare_bytes [] [] = Ordering.eq
compare_bytes [] (b ∷ bs) = Ordering.lt
compare_bytes (a ∷ as') [] = Ordering.gt
compare_bytes (a ∷ as') (b ∷ bs) = elim (compare a b) [
  | Ordering.lt ↦ Ordering.lt
  | Ordering.eq ↦ compare_bytes as' bs
  | Ordering.gt ↦ Ordering.gt
]

-- `while (i < minLength && a[i] == b[i]) i++`
unfoldable pub shared_length : List ℕ → List ℕ → ℕ
shared_length [] b = 0
shared_length (x ∷ a) [] = 0
shared_length (x ∷ a) (y ∷ b) = if x == y then suc (shared_length a b) else 0

unfoldable pub min_size : List ℕ → List ℕ → ℕ
min_size a b = if ltb (length a) (length b) then length a else length b

-- What follows the loop in FindShortestSeparator.
unfoldable pub separate_at : List ℕ → List ℕ → ℕ → ℕ → List ℕ
separate_at start limit min_length diff_index =
    let diff_byte = get_or start diff_index 0 in
    if leb min_length diff_index
    then start
    else if ltb diff_byte 0xff && ltb (diff_byte + 1) (get_or limit diff_index 0)
    then take (suc diff_index) (set start diff_index ((diff_byte + 1) % 256))
    else start

unfoldable pub bytewise_separator : List ℕ → List ℕ → List ℕ
bytewise_separator start limit =
    separate_at start limit (min_size start limit) (shared_length start limit)

-- The loop over i, with the bytes before i put back in front.
unfoldable pub bytewise_successor : List ℕ → List ℕ
bytewise_successor [] = []
bytewise_successor (b ∷ key) = if b == 0xff then b ∷ bytewise_successor key else (b + 1) % 256 ∷ []

abbrev pub bytewise : Comparator
bytewise = record {
  compare = compare_bytes;
  find_shortest_separator = bytewise_separator;
  find_short_successor = bytewise_successor;
}
