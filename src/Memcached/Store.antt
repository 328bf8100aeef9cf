-- ===== src/Memcached/Store.antt =====
-- MemcacheServer's store (memcached/server/server.h, server.cc): shards of items, each an
-- unordered_set by hash and key, with the counter of cas numbers.
--
-- An operation holds its shard's mutex from the search to the return, so it is one step here. A shard
-- is the list of its items, and a failed assert is `none`.
pub mod Shards
pub mod View
pub mod Joined
pub mod Refines
pub mod Commands
pub mod Kept
use cpp_swiss_army_knife.Common.{
  ℕ, ◌+◌, ◌-◌, ◌^◌, ◌%◌, List, [], ◌∷◌, Option, none, some, ◌>>=◌, Bool, ◌&&◌, true, false, ltb,
  leb, ◌==◌, bytes_eq, if◌then◌else◌, length, take,
}
use cpp_swiss_army_knife.Memcached.Item.{
  UpdatePolicy, invalid_policy, set_policy, add_policy, replace_policy, append_policy,
  prepend_policy, cas_policy, Item, needed_bytes, get_key, value, append, ends_with_crlf, make_item,
}

abbrev pub k_shards : ℕ
k_shards = 4096

pub record Store : Type 0 where
  pub cas : ℕ
  pub shards : ℕ → List Item

-- unordered_set: find, erase and insert by the key of an item.
unfoldable pub find_key : List ℕ → List Item → Option Item
find_key key [] = none
find_key key (x ∷ items) = if bytes_eq key (get_key x) then some x else find_key key items

unfoldable pub erase_key : List ℕ → List Item → List Item
erase_key key [] = []
erase_key key (x ∷ items) =
    let rest = erase_key key items in if bytes_eq key (get_key x) then items else x ∷ rest

unfoldable pub insert_item : Item → List Item → List Item
insert_item item items = elim (find_key (get_key item) items) [
  | none ↦ item ∷ items
  | some old ↦ items
]

unfoldable pub set_shard : (ℕ → List Item) → ℕ → List Item → ℕ → List Item
set_shard shards i items j = if j == i then items else shards j

abbrev pub shard_of : Item → ℕ
shard_of item = item.hash % k_shards

-- What storeItem returns and stores through `exists`.
pub record Stored : Type 0 where
  pub store : Store
  pub exists : Bool
  pub stored : Bool

abbrev pub refused : Store → Bool → Option Stored
refused s exists = some (record { store = s; exists = exists; stored = false })

-- cas++ for the new item, after the old one is erased.
unfoldable pub inserted : Store → ℕ → Item → Bool → Stored
inserted s i item exists = record {
  store = record {
    cas = (s.cas + 1) % 2 ^ 64;
    shards = set_shard s.shards i (
        insert_item (record item { cas = s.cas })
          (if exists then erase_key (get_key item) (s.shards i) else s.shards i));
  };
  exists = exists;
  stored = true;
}

-- The two asserts on the joined item.
unfoldable pub join_checked : Store → ℕ → Item → Option Stored
join_checked s i full =
    if (needed_bytes full == 0) && ends_with_crlf full then some (inserted s i full true) else none

module _ (hash_of : List ℕ → ℕ) where
  -- The new item of kAppend and kPrepend, which replaces the old one in the shard of the item stored.
  unfoldable pub joined : Store → Item → Item → List ℕ → List ℕ → Option Stored
  joined s item old front back = do
    new ←
        make_item hash_of (get_key item) old.flags old.rel_exptime
          ((item.value_len + old.value_len - 2) % 2 ^ 32) s.cas
    half ← append new front
    full ← append half back
    join_checked s (shard_of item) full

  -- The branches of storeItem, on what the search found.
  unfoldable pub store_found : Store → Item → UpdatePolicy → Option Item → Option Stored
  store_found s item set_policy none = some (inserted s (shard_of item) item false)
  store_found s item set_policy (some old) = some (inserted s (shard_of item) item true)
  store_found s item add_policy none = some (inserted s (shard_of item) item false)
  store_found s item add_policy (some old) = refused s true
  store_found s item replace_policy none = refused s false
  store_found s item replace_policy (some old) = some (inserted s (shard_of item) item true)
  store_found s item append_policy none = refused s false
  store_found s item append_policy (some old) =
      joined s item old (take (old.value_len - 2) (value old)) (value item)
  store_found s item prepend_policy none = refused s false
  store_found s item prepend_policy (some old) =
      joined s item old (take (item.value_len - 2) (value item)) (value old)
  store_found s item cas_policy none = refused s false
  store_found s item cas_policy (some old) =
      if old.cas == item.cas then some (inserted s (shard_of item) item true) else refused s true
  store_found s item invalid_policy found = none

  unfoldable pub store_item : Store → Item → UpdatePolicy → Option Stored
  store_item s item policy =
      if needed_bytes item == 0
      then store_found s item policy (find_key (get_key item) (s.shards (shard_of item)))
      else none

unfoldable pub get_item : Store → Item → Option Item
get_item s key = find_key (get_key key) (s.shards (shard_of key))

-- The store afterwards, and whether an item was erased.
unfoldable pub delete_item : Store → Item → Store × Bool
delete_item s key =
    let i = shard_of key in
    elim (find_key (get_key key) (s.shards i)) [
      | none ↦ (s, false)
      | some old ↦
          (record s { shards = set_shard s.shards i (erase_key (get_key key) (s.shards i)) }, true)
    ]
