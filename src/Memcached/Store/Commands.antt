-- ===== src/Memcached/Store/Commands.antt =====
-- storeItem and deleteItem of MemcacheServer (memcached/server/server.cc) on every branch.
use cpp_swiss_army_knife.Common.{
  ℕ, ◌+◌, ◌-◌, ◌%◌, ◌^◌, ◌<◌, ◌≡◌, ◌≢◌, refl, sym, ap, ◌∙◌, fun_ext, List, Option, none, some, true,
  bytes_eq, bytes_eq→eq, Bool-cases, Option-cases, inl, inr, arith, length, take, ◌==◌, length-take,
}
use cpp_swiss_army_knife.Memcached.Item.{
  Item, get_key, value, total_len, UpdatePolicy, invalid_policy, set_policy, add_policy,
  replace_policy, append_policy, prepend_policy, cas_policy,
}
use cpp_swiss_army_knife.Memcached.Store.{
  Store, Stored, k_shards, shard_of, find_key, erase_key, set_shard, delete_item, store_item,
  store_found,
}
use cpp_swiss_army_knife.Memcached.Store.Shards.{
  find_key-erase_self, find_key-erase_ne, erase_key-Unique, All-erase_key,
}
use cpp_swiss_army_knife.Memcached.Store.Joined.{value_EndsCrlf, length-value}
use cpp_swiss_army_knife.Memcached.Store.View.{
  entry_of, entry_if, IsItem, InShard, IsValid, lookup, view, set_shard-IsValid, set_shard-lookup,
  set_shard-lookup_self,
}
use cpp_swiss_army_knife.Memcached.Store.Refines.{
  with_entry, entry_after, is_some, Follows, refused-Follows, inserted-Follows, joined-Follows,
  view_found, old_whole,
}

module _ (hash_of : List ℕ → ℕ) (s : Store) (valid : IsValid hash_of s) where
  module _ (x : Item) (whole : IsItem hash_of x) where
    store_found-Follows :
        (policy : UpdatePolicy) (old : Option Item)
        → find_key (get_key x) (s.shards (shard_of x)) ≡ old
        → policy ≢ invalid_policy
        → ((o : Item) → old ≡ some o → x.key_len + x.value_len + o.value_len < 2 ^ 31)
        → (r : Stored) × (store_found hash_of s x policy old ≡ some r)
          × Follows hash_of s x (entry_after policy (entry_of x) s.cas (entry_if old)) r
    unfolding store_found
    store_found-Follows set_policy none f p small =
        (_, refl, inserted-Follows hash_of s valid x whole x none _ f whole refl refl)
    store_found-Follows set_policy (some o) f p small =
        (_, refl, inserted-Follows hash_of s valid x whole x (some o) _ f whole refl refl)
    store_found-Follows add_policy none f p small =
        (_, refl, inserted-Follows hash_of s valid x whole x none _ f whole refl refl)
    store_found-Follows add_policy (some o) f p small =
        (_, refl, refused-Follows hash_of s valid x whole (some o) f)
    store_found-Follows replace_policy none f p small =
        (_, refl, refused-Follows hash_of s valid x whole none f)
    store_found-Follows replace_policy (some o) f p small =
        (_, refl, inserted-Follows hash_of s valid x whole x (some o) _ f whole refl refl)
    store_found-Follows append_policy none f p small =
        (_, refl, refused-Follows hash_of s valid x whole none f)
    store_found-Follows append_policy (some o) f p small =
        let w = old_whole hash_of s valid x whole o f in
        let lo = length-value hash_of o w in
        let lx = length-value hash_of x whole in
        let ro = w.roomy in
        let rx = whole.roomy in
        let t = length-take (o.value_len - 2) (value o) in
        rw (lo) (
          joined-Follows hash_of s valid x whole o f (take (o.value_len - 2) (value o)) (value x)
            (omega arith) (omega arith) (value_EndsCrlf hash_of x whole) (small o refl))
    store_found-Follows prepend_policy none f p small =
        (_, refl, refused-Follows hash_of s valid x whole none f)
    store_found-Follows prepend_policy (some o) f p small =
        let w = old_whole hash_of s valid x whole o f in
        let lo = length-value hash_of o w in
        let lx = length-value hash_of x whole in
        let ro = w.roomy in
        let rx = whole.roomy in
        let t = length-take (x.value_len - 2) (value x) in
        rw (lx) (
          joined-Follows hash_of s valid x whole o f (take (x.value_len - 2) (value x)) (value o)
            (omega arith) (omega arith) (value_EndsCrlf hash_of o w) (small o refl))
    store_found-Follows cas_policy none f p small =
        (_, refl, refused-Follows hash_of s valid x whole none f)
    store_found-Follows cas_policy (some o) f p small = elim (Bool-cases (o.cas == x.cas)) [
      | inl e ↦
          rw (e) (_, refl, inserted-Follows hash_of s valid x whole x (some o) _ f whole refl refl)
      | inr e ↦ rw (e) (_, refl, refused-Follows hash_of s valid x whole (some o) f)
    ]
    store_found-Follows invalid_policy old f p small = absurd (p refl)

    -- storeItem implements the map of entries that the protocol describes. In a valid store, for a
    -- whole item, any policy but kInvalid and sizes that together fit an int, it returns, and what
    -- it returns, its exists flag and the new map are those of the rule for the policy: set always
    -- stores, add only without an old entry, replace, append and prepend only with one, cas only
    -- with an old entry of the same cas number; append and prepend keep the old flags and expiry
    -- and join the texts at the CRLF; the stored entry gets the next cas number, no other key
    -- changes, and the store stays valid.
    pub store_item-Follows :
        (policy : UpdatePolicy)
        → policy ≢ invalid_policy
        → ((o : Item)
            → lookup hash_of s (get_key x) ≡ some o
            → x.key_len + x.value_len + o.value_len < 2 ^ 31)
        → (r : Stored) × (store_item hash_of s x policy ≡ some r)
          × Follows hash_of s x
              (entry_after policy (entry_of x) s.cas (view hash_of s (get_key x)))
              r
    unfolding store_item
    store_item-Follows policy p small =
        let c = whole.complete in
        let none_needed : (total_len x - length x.bytes == 0) ≡ true = ground arith in
        let at = ap (λ (t : ℕ). find_key (get_key x) (s.shards (t % k_shards))) whole.hashed in
        rw (none_needed) (
          rw (view_found hash_of s valid x whole) (
            store_found-Follows policy (find_key (get_key x) (s.shards (shard_of x))) refl p
              (λ o e. small o (sym at ∙ e))))

  -- deleteItem, for a key item whose hash is that of its key.
  module _ (k : Item) (hashed : k.hash ≡ hash_of (get_key k)) where
    place : shard_of k ≡ hash_of (get_key k) % k_shards
    place = ap (λ (t : ℕ). t % k_shards) hashed

    absent-view :
        find_key (get_key k) (s.shards (shard_of k)) ≡ none
        → view hash_of s ≡ with_entry (view hash_of s) (get_key k) none
    absent-view f = fun_ext (λ j. elim (Bool-cases (bytes_eq j (get_key k))) [
      | inl e ↦ rw (e, bytes_eq→eq j (get_key k) e, ← place) (ap entry_if f)
      | inr e ↦ rw (e) refl
    ])

    erased-view :
        view hash_of (record s {
          shards = set_shard s.shards (shard_of k) (erase_key (get_key k) (s.shards (shard_of k)));
        })
        ≡ with_entry (view hash_of s) (get_key k) none
    erased-view = fun_ext (λ j. elim (Bool-cases (bytes_eq j (get_key k))) [
      | inl e ↦
          rw (e, bytes_eq→eq j (get_key k) e, place)
            (ap entry_if (
              set_shard-lookup_self hash_of s s.cas
                (erase_key (get_key k) (s.shards (hash_of (get_key k) % k_shards))) (get_key k)
              ∙ find_key-erase_self (get_key k) _ (valid.unique (hash_of (get_key k) % k_shards))))
      | inr e ↦ rw (e) (
          ap entry_if (
            set_shard-lookup hash_of s s.cas (shard_of k) _ j
              (find_key-erase_ne (get_key k) j (s.shards (shard_of k)) e)))
    ])

    -- deleteItem on a valid store removes the entry of the key and no other from the map of
    -- entries, answers whether there was one, and leaves the store valid.
    pub delete_item-view :
        (view hash_of (delete_item s k).0 ≡ with_entry (view hash_of s) (get_key k) none)
        × ((delete_item s k).1 ≡ is_some (view hash_of s (get_key k)))
        × IsValid hash_of (delete_item s k).0
    unfolding delete_item
    delete_item-view =
        let seen = ap (λ (i : ℕ). entry_if (find_key (get_key k) (s.shards i))) place in
        elim (Option-cases (find_key (get_key k) (s.shards (shard_of k)))) [
          | inl f ↦
              rw (f, delete_item) (absent-view f, ap is_some (sym (ap entry_if f) ∙ seen), valid)
          | inr (o, f) ↦
              rw (f, delete_item)
                (
                  erased-view,
                  ap is_some (sym (ap entry_if f) ∙ seen),
                  set_shard-IsValid hash_of s s.cas (shard_of k) _ valid
                      (erase_key-Unique (get_key k) _ (valid.unique (shard_of k)))
                      (All-erase_key (InShard hash_of (shard_of k)) (get_key k) _
                        (valid.items (shard_of k))),
                )
        ]
