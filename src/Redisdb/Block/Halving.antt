-- ===== src/Redisdb/Block/Halving.antt =====
-- One round of the binary search of BlockIterator::Seek (redisdb/db/block.cc), and the entries in
-- front of and behind one of them.
use Prim.Native.Nat.{Ordering}
use cpp_swiss_army_knife.Common.{
  ℕ, zero, suc, ◌+◌, ◌-◌, ◌/◌, ◌%◌, ◌^◌, ◌≤◌, ◌<◌, ◌≡◌, refl, ap, ◌∙◌, List, [], ◌∷◌, ◌++◌, map,
  Option, some, Bool, true, false, arith, ltb, ◌==◌, length, take, get_or, All,
}
use cpp_swiss_army_knife.Redisdb.Block.Built.{Ascending, IsAscending}
use cpp_swiss_army_knife.Redisdb.Block.Iterator.{
  Entry, decode_entry, until_limit, BlockIterator, get_restart_point, search_restarts,
}
use cpp_swiss_army_knife.Redisdb.Block.Layout.{Item, key_value, Chained}
use cpp_swiss_army_knife.Redisdb.Block.Scan.{ShortKeys}
use cpp_swiss_army_knife.Redisdb.Block.Search.{AllBefore, is_lt}
use cpp_swiss_army_knife.Redisdb.Coding.{ByteOrder}
use cpp_swiss_army_knife.Redisdb.Comparator.{Comparator, IsComparator, flip}

-- The entries behind one of them.
pub Chained-behind :
    (before : List Item) (last : List ℕ) (i : Item) (after : List Item)
    → Chained last (before ++ i ∷ after)
    → (i.0 ≤ length i.1) × Chained i.1 after
Chained-behind [] last i after c = (c.2, c.3)
Chained-behind (x ∷ before) last i after c = Chained-behind before x.1 i after c.3

pub ShortKeys-behind : (before xs : List Item) → ShortKeys (before ++ xs) → ShortKeys xs
ShortKeys-behind [] xs h = h
ShortKeys-behind (x ∷ before) xs h = ShortKeys-behind before xs h.1

pub All-get_or :
    (P : ℕ → Type 0) (rs : List ℕ) (i : ℕ) → All P rs → i < length rs → P (get_or rs i 0)
All-get_or P [] i a h = absurd (omega arith)
All-get_or P (r ∷ rs) zero a h = a.0
All-get_or P (r ∷ rs) (suc i) a h = All-get_or P rs i a.1 (omega arith)

-- A comparator with its contract, and keys that ascend.
module _ {P : List ℕ → Type 0} (cmp : Comparator) (contract : IsComparator P cmp) where
  pub flipped : (a b : List ℕ) → cmp.compare b a ≡ Ordering.gt → cmp.compare a b ≡ Ordering.lt
  flipped a b h = contract.compare_flip b a ∙ ap flip h

  pub Ascending-reaches :
      (before : List Item) (last : List ℕ) (i : Item) (after : List Item)
      → Ascending cmp last (map key_value (before ++ i ∷ after))
      → cmp.compare last i.1 ≡ Ordering.lt
  Ascending-reaches [] last i after a = flipped last i.1 a.0
  Ascending-reaches (x ∷ before) last i after a =
      contract.compare_trans last x.1 i.1 (flipped last x.1 a.0)
        (Ascending-reaches before x.1 i after a.1)

  -- All keys in front of one before the target are before it too.
  pub before_target :
      (before : List Item) (i : Item) (after : List Item) (target : List ℕ)
      → IsAscending cmp (map key_value (before ++ i ∷ after))
      → cmp.compare i.1 target ≡ Ordering.lt
      → AllBefore cmp target (map key_value before)
  before_target [] i after target a h = tt
  before_target (x ∷ []) i after target a h =
      (contract.compare_trans x.1 i.1 target (Ascending-reaches [] x.1 i after a) h, tt)
  before_target (x ∷ y ∷ before) i after target a h = (
    contract.compare_trans x.1 i.1 target (Ascending-reaches (y ∷ before) x.1 i after a) h,
    before_target (y ∷ before) i after target a.1 h,
  )

module _ (host : ByteOrder) (cmp : Comparator) (it : BlockIterator) (target : List ℕ) where
  pub search_done :
      (fuel left right : ℕ)
      → ltb left right ≡ false
      → search_restarts host cmp (suc fuel) it target left right ≡ some (some left)
  unfolding search_restarts
  search_done fuel left right e = rw (e, search_restarts) refl

  abbrev pub middle : ℕ → ℕ → ℕ
  middle left right = (left + right + 1) % 2 ^ 32 / 2

  abbrev pub half : ℕ → ℕ → ℕ → Bool → Option (Option ℕ)
  half fuel left right before = elim before [
    | true ↦ search_restarts host cmp fuel it target (middle left right) right
    | false ↦ search_restarts host cmp fuel it target left (middle left right - 1)
  ]

  pub search_half :
      (fuel left right : ℕ) (e : Entry)
      → ltb left right ≡ true
      → decode_entry (until_limit it (get_restart_point host it (middle left right))) ≡ some e
      → (e.shared == 0) ≡ true
      → search_restarts host cmp (suc fuel) it target left right
        ≡ half fuel left right (is_lt (cmp.compare (take e.non_shared e.delta) target))
  unfolding search_restarts
  search_half fuel left right e l d z = rw (l, search_restarts) (rw (d) (rw (z) refl))

pub middle_bounds :
    (left right : ℕ)
    → left < right
    → right < 2 ^ 30
    → (left < (left + right + 1) % 2 ^ 32 / 2) × ((left + right + 1) % 2 ^ 32 / 2 ≤ right)
middle_bounds left right l h = (omega arith, omega arith)
