-- ===== src/Memcached/Store/Shards.antt =====
-- Search, insertion and erasure in one shard of the memcached store (memcached/server/server.cc).
use cpp_swiss_army_knife.Common.{
  ℕ, ◌≡◌, refl, List, [], ◌∷◌, none, some, true, false, bytes_eq, bytes_eq_refl, bytes_eq→eq,
  Bool-cases, Option-cases, inl, inr, arith, All,
}
use cpp_swiss_army_knife.Memcached.Item.{Item, get_key}
use cpp_swiss_army_knife.Memcached.Store.{find_key, erase_key, insert_item}

-- No two items of a shard have one key.
abbrev pub Unique : List Item → Type 0
Unique [] = Unit {0}
Unique (x ∷ items) = (find_key (get_key x) items ≡ none) × Unique items

pub find_key-erase_self :
    (key : List ℕ) (items : List Item) → Unique items → find_key key (erase_key key items) ≡ none
unfolding find_key erase_key
find_key-erase_self key [] h = refl
find_key-erase_self key (x ∷ items) h = elim (Bool-cases (bytes_eq key (get_key x))) [
  | inl e ↦ rw (e) (rw (bytes_eq→eq key (get_key x) e) h.0)
  | inr e ↦ rw (e, e) (find_key-erase_self key items h.1)
]

different : (a b c : List ℕ) → bytes_eq a b ≡ false → bytes_eq b c ≡ true → bytes_eq a c ≡ false
different a b c h k = rw (← bytes_eq→eq b c k) h

pub find_key-erase_ne :
    (key other : List ℕ) (items : List Item)
    → bytes_eq other key ≡ false
    → find_key other (erase_key key items) ≡ find_key other items
unfolding find_key erase_key
find_key-erase_ne key other [] h = refl
find_key-erase_ne key other (x ∷ items) h = elim (Bool-cases (bytes_eq key (get_key x))) [
  | inl e ↦ rw (e, different other key (get_key x) h e) refl
  | inr e ↦ rw (e) (ground (arith, find_key-erase_ne key other items h))
]

pub find_key-insert_self :
    (x : Item) (items : List Item)
    → find_key (get_key x) items ≡ none
    → find_key (get_key x) (insert_item x items) ≡ some x
unfolding find_key insert_item
find_key-insert_self x items h = rw (h, insert_item) (rw (bytes_eq_refl (get_key x)) refl)

pub find_key-insert_ne :
    (x : Item) (other : List ℕ) (items : List Item)
    → bytes_eq other (get_key x) ≡ false
    → find_key other (insert_item x items) ≡ find_key other items
unfolding find_key insert_item
find_key-insert_ne x other items h = elim (Option-cases (find_key (get_key x) items)) [
  | inl e ↦ rw (e, insert_item) (rw (h) refl)
  | inr (old, e) ↦ rw (e, insert_item) refl
]

pub insert_item-Unique :
    (x : Item) (items : List Item) → Unique items → Unique (insert_item x items)
unfolding insert_item
insert_item-Unique x items h = elim (Option-cases (find_key (get_key x) items)) [
  | inl e ↦ rw (e, insert_item) (e, h)
  | inr (old, e) ↦ rw (e, insert_item) h
]

-- Erasing never makes a key appear.
erase_absent :
    (key other : List ℕ) (items : List Item)
    → find_key other items ≡ none
    → find_key other (erase_key key items) ≡ none
unfolding find_key erase_key
erase_absent key other [] h = refl
erase_absent key other (x ∷ items) h = elim (Bool-cases (bytes_eq other (get_key x))) [
  | inl e ↦ ground arith
  | inr e ↦ ground (arith, erase_absent key other items)
]

pub erase_key-Unique :
    (key : List ℕ) (items : List Item) → Unique items → Unique (erase_key key items)
unfolding erase_key
erase_key-Unique key [] h = tt
erase_key-Unique key (x ∷ items) h = elim (Bool-cases (bytes_eq key (get_key x))) [
  | inl e ↦ rw (e) h.1
  | inr e ↦ rw (e) (erase_absent key (get_key x) items h.0, erase_key-Unique key items h.1)
]

-- What holds of every item of a shard.
module _ (P : Item → Type 0) where
  pub All-erase_key : (key : List ℕ) (items : List Item) → All P items → All P (erase_key key items)
  unfolding erase_key
  All-erase_key key [] h = tt
  All-erase_key key (x ∷ items) h = elim (Bool-cases (bytes_eq key (get_key x))) [
    | inl e ↦ rw (e) h.1
    | inr e ↦ rw (e) (h.0, All-erase_key key items h.1)
  ]

  pub All-insert_item :
      (x : Item) (items : List Item) → P x → All P items → All P (insert_item x items)
  unfolding insert_item
  All-insert_item x items p h = elim (Option-cases (find_key (get_key x) items)) [
    | inl e ↦ rw (e, insert_item) (p, h)
    | inr (old, e) ↦ rw (e, insert_item) h
  ]

  pub find_key-All :
      (key : List ℕ) (items : List Item) (x : Item)
      → All P items
      → find_key key items ≡ some x
      → P x
  unfolding find_key
  find_key-All key [] x h e = ground arith
  find_key-All key (y ∷ items) x h e = elim (Bool-cases (bytes_eq key (get_key y))) [
    | inl q ↦ ground arith
    | inr q ↦ find_key-All key items x h.1 (ground arith)
  ]

pub find_key-get_key :
    (key : List ℕ) (items : List Item) (x : Item) → find_key key items ≡ some x → get_key x ≡ key
unfolding find_key
find_key-get_key key [] x e = ground arith
find_key-get_key key (y ∷ items) x e = elim (Bool-cases (bytes_eq key (get_key y))) [
  | inl q ↦ ground (arith, bytes_eq→eq key (get_key y) q)
  | inr q ↦ find_key-get_key key items x (ground arith)
]
