-- ===== src/Memcached/Store/View.antt =====
-- The invariant of the memcached store (memcached/server/server.cc), its view as one map from keys to
-- entries, and what replacing one shard does to both.
use cpp_swiss_army_knife.Common.{
  ℕ, ◌%◌, ◌≤◌, ◌≡◌, refl, sym, ap, ◌∙◌, List, Option, none, some, true, Bool-cases, inl, inr, All,
  length, ◌==◌, ==_iff, subst,
}
use cpp_swiss_army_knife.Memcached.Item.{Item, get_key, value, total_len, ends_with_crlf}
use cpp_swiss_army_knife.Memcached.Store.{Store, k_shards, find_key, set_shard}
use cpp_swiss_army_knife.Memcached.Store.Shards.{Unique}

-- What a client sees of an item: its flags, its expiry, its text with the CRLF, its cas number.
pub record Entry : Type 0 where
  pub flags : ℕ
  pub rel_exptime : ℕ
  pub text : List ℕ
  pub cas : ℕ

abbrev pub entry_of : Item → Entry
entry_of x = record { flags = x.flags; rel_exptime = x.rel_exptime; text = value x; cas = x.cas }

abbrev pub entry_if : Option Item → Option Entry
entry_if none = none
entry_if (some x) = some (entry_of x)

module _ (hash_of : List ℕ → ℕ) where
  -- A whole item: all of its bytes received, the CRLF at its end, its hash the hash of its key.
  pub record IsItem (x : Item) : Type 0 where
    pub complete : length x.bytes ≡ total_len x
    pub crlf : ends_with_crlf x ≡ true
    pub roomy : 2 ≤ x.value_len
    pub hashed : x.hash ≡ hash_of (get_key x)

  abbrev pub InShard : ℕ → Item → Type 0
  InShard i x = IsItem x × (x.hash % k_shards ≡ i)

  -- Each shard holds whole items that belong to it, at most one for a key.
  pub record IsValid (s : Store) : Type 0 where
    pub unique : (i : ℕ) → Unique (s.shards i)
    pub items : (i : ℕ) → All (InShard i) (s.shards i)

  abbrev pub lookup : Store → List ℕ → Option Item
  lookup s key = find_key key (s.shards (hash_of key % k_shards))

  abbrev pub view : Store → List ℕ → Option Entry
  view s key = entry_if (lookup s key)

  -- A store with one shard replaced by a valid one is valid.
  pub set_shard-IsValid :
      (s : Store) (cas i : ℕ) (xs : List Item)
      → IsValid s
      → Unique xs
      → All (InShard i) xs
      → IsValid (record { cas = cas; shards = set_shard s.shards i xs })
  unfolding set_shard
  set_shard-IsValid s cas i xs h u a = record {
    unique = λ j. elim (Bool-cases (j == i)) [ inl e ↦ rw (e) u | inr e ↦ rw (e) (h.unique j) ];
    items = λ j. elim (Bool-cases (j == i)) [
      | inl e ↦ rw (e) (subst (λ (t : ℕ). All (InShard t) xs) (sym ((==_iff j i).0 e)) a)
      | inr e ↦ rw (e) (h.items j)
    ];
  }

  -- What a key finds when the shard of another key is replaced by one that agrees on it.
  pub set_shard-lookup :
      (s : Store) (cas i : ℕ) (xs : List Item) (k : List ℕ)
      → find_key k xs ≡ find_key k (s.shards i)
      → lookup (record { cas = cas; shards = set_shard s.shards i xs }) k ≡ lookup s k
  unfolding set_shard
  set_shard-lookup s cas i xs k h = elim (Bool-cases (hash_of k % k_shards == i)) [
    | inl e ↦
        rw (e) (
          h ∙ ap (λ (t : ℕ). find_key k (s.shards t)) (sym ((==_iff (hash_of k % k_shards) i).0 e)))
    | inr e ↦ rw (e) refl
  ]

  pub set_shard-lookup_self :
      (s : Store) (cas : ℕ) (xs : List Item) (k : List ℕ)
      → lookup (record { cas = cas; shards = set_shard s.shards (hash_of k % k_shards) xs }) k
        ≡ find_key k xs
  unfolding set_shard
  set_shard-lookup_self s cas xs k =
      rw ((==_iff (hash_of k % k_shards) (hash_of k % k_shards)).1 refl) refl
