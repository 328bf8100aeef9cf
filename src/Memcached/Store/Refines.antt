-- ===== src/Memcached/Store/Refines.antt =====
-- MemcacheServer::storeItem and deleteItem (memcached/server/server.cc) against one map from keys to
-- entries.
use cpp_swiss_army_knife.Common.{
  ℕ, ◌+◌, ◌-◌, ◌%◌, ◌^◌, ◌≤◌, ◌<◌, ◌≡◌, refl, sym, ap, ◌∙◌, fun_ext, List, ◌++◌, Option, none, some,
  Bool, true, false, bytes_eq, bytes_eq→eq, Bool-cases, inl, inr, arith, All, if◌then◌else◌, length,
  take, ◌==◌, subst,
}
use cpp_swiss_army_knife.Memcached.Item.{
  Item, get_key, UpdatePolicy, invalid_policy, set_policy, add_policy, replace_policy,
  append_policy, prepend_policy, cas_policy,
}
use cpp_swiss_army_knife.Memcached.Store.{
  Store, Stored, k_shards, shard_of, find_key, erase_key, insert_item, inserted, joined,
}
use cpp_swiss_army_knife.Memcached.Store.Shards.{
  Unique, find_key-erase_self, find_key-erase_ne, find_key-insert_self, find_key-insert_ne,
  insert_item-Unique, erase_key-Unique, All-erase_key, All-insert_item, find_key-All,
}
use cpp_swiss_army_knife.Memcached.Store.Joined.{
  EndsCrlf, join_item, join_item-get_key, join_item-value, join_item-IsItem, joined-join_item,
  length-get_key,
}
use cpp_swiss_army_knife.Memcached.Store.View.{
  Entry, entry_of, entry_if, IsItem, InShard, IsValid, lookup, view, set_shard-IsValid,
  set_shard-lookup, set_shard-lookup_self,
}

-- A map with one key changed.
abbrev pub with_entry : (List ℕ → Option Entry) → List ℕ → Option Entry → List ℕ → Option Entry
with_entry m key e k = if bytes_eq k key then e else m k

module _ (hash_of : List ℕ → ℕ) (s : Store) (valid : IsValid hash_of s) (x : Item) where
  abbrev kept : ℕ → Bool → List Item
  kept i exists = if exists then erase_key (get_key x) (s.shards i) else s.shards i

  abbrev numbered : Item
  numbered = record x { cas = s.cas }

  kept_absent :
      (i : ℕ) (exists : Bool)
      → (exists ≡ false → find_key (get_key x) (s.shards i) ≡ none)
      → find_key (get_key x) (kept i exists) ≡ none
  kept_absent i true h = find_key-erase_self (get_key x) (s.shards i) (valid.unique i)
  kept_absent i false h = h refl

  kept_other :
      (i : ℕ) (exists : Bool) (k : List ℕ)
      → bytes_eq k (get_key x) ≡ false
      → find_key k (kept i exists) ≡ find_key k (s.shards i)
  kept_other i true k h = find_key-erase_ne (get_key x) k (s.shards i) h
  kept_other i false k h = refl

  kept-Unique : (i : ℕ) (exists : Bool) → Unique (kept i exists)
  kept-Unique i true = erase_key-Unique (get_key x) (s.shards i) (valid.unique i)
  kept-Unique i false = valid.unique i

  kept-All : (i : ℕ) (exists : Bool) → All (InShard hash_of i) (kept i exists)
  kept-All i true = All-erase_key (InShard hash_of i) (get_key x) (s.shards i) (valid.items i)
  kept-All i false = valid.items i

  inserted-lookup :
      (i : ℕ) (exists : Bool) (k : List ℕ)
      → i ≡ hash_of (get_key x) % k_shards
      → (exists ≡ false → find_key (get_key x) (s.shards i) ≡ none)
      → lookup hash_of (inserted s i x exists).store k
        ≡ (if bytes_eq k (get_key x) then some numbered else lookup hash_of s k)
  unfolding inserted
  inserted-lookup i exists k at h = elim (Bool-cases (bytes_eq k (get_key x))) [
    | inl e ↦
        rw (e, bytes_eq→eq k (get_key x) e, at)
          (set_shard-lookup_self hash_of s ((s.cas + 1) % 2 ^ 64)
              (insert_item numbered (kept (hash_of (get_key x) % k_shards) exists)) (get_key x)
            ∙ find_key-insert_self numbered _ (
                kept_absent (hash_of (get_key x) % k_shards) exists (
                  subst (λ (t : ℕ). exists ≡ false → find_key (get_key x) (s.shards t) ≡ none) at
                    h)))
    | inr e ↦ rw (e) (
        set_shard-lookup hash_of s ((s.cas + 1) % 2 ^ 64) i (insert_item numbered (kept i exists)) k
          (find_key-insert_ne numbered k (kept i exists) e ∙ kept_other i exists k e))
  ]

  pub inserted-IsValid :
      (i : ℕ) (exists : Bool)
      → IsItem hash_of x
      → i ≡ hash_of (get_key x) % k_shards
      → IsValid hash_of (inserted s i x exists).store
  unfolding inserted
  inserted-IsValid i exists whole at =
      set_shard-IsValid hash_of s ((s.cas + 1) % 2 ^ 64) i (insert_item numbered (kept i exists))
        valid (insert_item-Unique numbered (kept i exists) (kept-Unique i exists))
        (All-insert_item (InShard hash_of i) numbered (kept i exists)
          (
            record {
              complete = whole.complete;
              crlf = whole.crlf;
              roomy = whole.roomy;
              hashed = whole.hashed;
            },
            ap (λ (t : ℕ). t % k_shards) whole.hashed ∙ sym at,
          )
          (kept-All i exists))

  pub inserted-view :
      (i : ℕ) (exists : Bool)
      → i ≡ hash_of (get_key x) % k_shards
      → (exists ≡ false → find_key (get_key x) (s.shards i) ≡ none)
      → view hash_of (inserted s i x exists).store
        ≡ with_entry (view hash_of s) (get_key x) (some (entry_of numbered))
  inserted-view i exists at h = fun_ext (λ k. elim (Bool-cases (bytes_eq k (get_key x))) [
    | inl e ↦ ap entry_if (inserted-lookup i exists k at h) ∙ rw (e) refl
    | inr e ↦ ap entry_if (inserted-lookup i exists k at h) ∙ rw (e) refl
  ])

-- The protocol's rule for each command: the entry that takes the place of the old one, or `none` where
-- nothing is stored. `next` is the cas number it gets.
abbrev pub entry_after : UpdatePolicy → Entry → ℕ → Option Entry → Option Entry
entry_after set_policy new next old = some (record new { cas = next })
entry_after add_policy new next none = some (record new { cas = next })
entry_after add_policy new next (some old) = none
entry_after replace_policy new next none = none
entry_after replace_policy new next (some old) = some (record new { cas = next })
entry_after append_policy new next none = none
entry_after append_policy new next (some old) =
    some (record old { text = take (length old.text - 2) old.text ++ new.text; cas = next })
entry_after prepend_policy new next none = none
entry_after prepend_policy new next (some old) =
    some (record old { text = take (length new.text - 2) new.text ++ old.text; cas = next })
entry_after cas_policy new next none = none
entry_after cas_policy new next (some old) =
    if old.cas == new.cas then some (record new { cas = next }) else none
entry_after invalid_policy new next old = none

abbrev pub is_some {ℓ} : {A : Type ℓ} → Option A → Bool
is_some none = false
is_some (some a) = true

abbrev pub map_after : (List ℕ → Option Entry) → List ℕ → Option Entry → List ℕ → Option Entry
map_after m key none = m
map_after m key (some e) = with_entry m key (some e)

is_some_entry : (o : Option Item) → is_some (entry_if o) ≡ is_some o
is_some_entry none = refl
is_some_entry (some x) = refl

absent : (o : Option Item) → is_some o ≡ false → o ≡ none
absent none h = refl
absent (some x) h = ground arith

module _ (hash_of : List ℕ → ℕ) where
  -- What storeItem returned is what the map of entries prescribes.
  pub record Follows (s : Store) (x : Item) (after : Option Entry) (r : Stored) : Type 0 where
    pub follows_exists : r.exists ≡ is_some (view hash_of s (get_key x))
    pub follows_stored : r.stored ≡ is_some after
    pub follows_view : view hash_of r.store ≡ map_after (view hash_of s) (get_key x) after
    pub follows_valid : IsValid hash_of r.store

  module _ (s : Store) (valid : IsValid hash_of s) (x : Item) (whole : IsItem hash_of x) where
    pub at : shard_of x ≡ hash_of (get_key x) % k_shards
    at = ap (λ (t : ℕ). t % k_shards) whole.hashed

    found : Option Item
    found = find_key (get_key x) (s.shards (shard_of x))

    pub view_found :
        view hash_of s (get_key x) ≡ entry_if (find_key (get_key x) (s.shards (shard_of x)))
    view_found = ap (λ (i : ℕ). entry_if (find_key (get_key x) (s.shards i))) (sym at)

    pub refused-Follows :
        (old : Option Item)
        → find_key (get_key x) (s.shards (shard_of x)) ≡ old
        → Follows s x none (record { store = s; exists = is_some old; stored = false })
    refused-Follows old f = record {
      follows_exists = sym (ap is_some (view_found ∙ ap entry_if f) ∙ is_some_entry old);
      follows_stored = refl;
      follows_view = refl;
      follows_valid = valid;
    }

    pub inserted-Follows :
        (y : Item) (old : Option Item) (e : Entry)
        → find_key (get_key x) (s.shards (shard_of x)) ≡ old
        → IsItem hash_of y
        → get_key y ≡ get_key x
        → entry_of (record y { cas = s.cas }) ≡ e
        → Follows s x (some e) (inserted s (shard_of x) y (is_some old))
    unfolding inserted
    inserted-Follows y old e f w k q =
        let here : shard_of x ≡ hash_of (get_key y) % k_shards =
          at ∙ ap (λ (t : List ℕ). hash_of t % k_shards) (sym k) in
        record {
          follows_exists = sym (ap is_some (view_found ∙ ap entry_if f) ∙ is_some_entry old);
          follows_stored = refl;
          follows_view =
              inserted-view hash_of s valid y (shard_of x) (is_some old) here
                (λ h. ap (λ (t : List ℕ). find_key t (s.shards (shard_of x))) k ∙ f ∙ absent old h)
              ∙ ap
                  (λ (t : List ℕ).
                    with_entry (view hash_of s) t (some (entry_of (record y { cas = s.cas }))))
                  k
              ∙ ap (λ (t : Entry). with_entry (view hash_of s) (get_key x) (some t)) q;
          follows_valid = inserted-IsValid hash_of s valid y (shard_of x) (is_some old) w here;
        }

    -- The two joins, for an old item that was found.
    module _ (old : Item) (f : find_key (get_key x) (s.shards (shard_of x)) ≡ some old) where
      pub old_whole : IsItem hash_of old
      old_whole =
          (find_key-All (InShard hash_of (shard_of x)) (get_key x) (s.shards (shard_of x)) old
            (valid.items (shard_of x)) f).0

      pub joined-Follows :
          (front back : List ℕ)
          → length front + length back ≡ x.value_len + old.value_len - 2
          → 2 ≤ length back
          → EndsCrlf back
          → x.key_len + x.value_len + old.value_len < 2 ^ 31
          → (r : Stored) × (joined hash_of s x old front back ≡ some r)
            × Follows s x
                (some (record {
                  flags = old.flags;
                  rel_exptime = old.rel_exptime;
                  text = front ++ back;
                  cas = s.cas;
                }))
                r
      joined-Follows front back sizes roomy end small =
          let y = join_item hash_of s x old front back in
          let k = length-get_key hash_of x whole in
          (
            inserted s (shard_of x) y true,
            joined-join_item hash_of s x old front back sizes roomy end (omega arith),
            inserted-Follows y (some old) _ f
                (join_item-IsItem hash_of s x old front back sizes roomy end)
                (join_item-get_key hash_of s x old front back sizes roomy end)
                (ap
                  (λ (t : List ℕ). record {
                    flags = old.flags;
                    rel_exptime = old.rel_exptime;
                    text = t;
                    cas = s.cas;
                  })
                  (join_item-value hash_of s x old front back sizes roomy end)),
          )
