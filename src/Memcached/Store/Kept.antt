-- ===== src/Memcached/Store/Kept.antt =====
-- Whatever storeItem of MemcacheServer (memcached/server/server.cc) returns for a whole item leaves the
-- store valid, the joins with their asserts included.
use cpp_swiss_army_knife.Common.{
  ℕ, ◌+◌, ◌-◌, ◌%◌, ◌^◌, ◌≤◌, ◌≡◌, sym, ap, ◌∙◌, List, [], ◌++◌, Option, none, some, Bool, true,
  false, Bool-cases, Option-cases, inl, inr, arith, length, ◌==◌, subst, length-append,
  append_assoc, take-length, ◌&&◌, ltb, leb,
}
use cpp_swiss_army_knife.Memcached.Item.{
  Item, get_key, total_len, needed_bytes, ends_with_crlf, append, make_item, UpdatePolicy,
  invalid_policy, set_policy, add_policy, replace_policy, append_policy, prepend_policy, cas_policy,
}
use cpp_swiss_army_knife.Memcached.Store.{
  Store, Stored, k_shards, shard_of, find_key, inserted, join_checked, joined, store_item,
  store_found,
}
use cpp_swiss_army_knife.Memcached.Store.View.{IsItem, IsValid}
use cpp_swiss_army_knife.Memcached.Store.Refines.{inserted-IsValid, at}

pub append_inversion :
    (x y : Item) (more : List ℕ)
    → append x more ≡ some y
    → (y ≡ record x { bytes = x.bytes ++ more }) × (length more ≤ needed_bytes x)
unfolding append
append_inversion x y more h = elim (Bool-cases (leb (length more) (needed_bytes x))) [
  | inl e ↦ (ground arith, ground arith)
  | inr e ↦ ground arith
]

module _ (hash_of : List ℕ → ℕ) where
  pub make_item_inversion :
      (key : List ℕ) (flags exptime n cas : ℕ) (y : Item)
      → make_item hash_of key flags exptime n cas ≡ some y
      → (y ≡ record {
        key_len = length key;
        flags = flags;
        rel_exptime = exptime;
        value_len = n;
        cas = cas;
        hash = hash_of key;
        bytes = key;
      })
        × (2 ≤ n)
  unfolding make_item
  make_item_inversion key flags exptime n cas y h =
      let base : Item = record {
        key_len = length key;
        flags = flags;
        rel_exptime = exptime;
        value_len = n;
        cas = cas;
        hash = hash_of key;
        bytes = [];
      } in
      elim (Bool-cases (leb 2 n && ltb (length key + n) (2 ^ 31))) [
        | inl e ↦ ((append_inversion base y key (ground arith)).0, ground arith)
        | inr e ↦ ground arith
      ]

  kept : {a r : Stored} → some a ≡ some r → IsValid hash_of a.store → IsValid hash_of r.store
  kept {a} {r} h v =
      let e : a ≡ r = ground arith in subst (λ (t : Stored). IsValid hash_of t.store) e v

  module _ (s : Store) (valid : IsValid hash_of s) (x : Item) (whole : IsItem hash_of x) where
    join_checked-IsValid :
        (full : Item) (r : Stored)
        → length full.bytes ≤ total_len full
        → 2 ≤ full.value_len
        → full.hash ≡ hash_of (get_key full)
        → get_key full ≡ get_key x
        → join_checked s (shard_of x) full ≡ some r
        → IsValid hash_of r.store
    unfolding join_checked
    join_checked-IsValid full r room roomy hashed key h =
        elim (Bool-cases (needed_bytes full == 0)) [
          | inl e ↦ elim (Bool-cases (ends_with_crlf full)) [
            | inl e' ↦
                let same : inserted s (shard_of x) full true ≡ r = ground arith in
                subst (λ (t : Stored). IsValid hash_of t.store) same
                  (inserted-IsValid hash_of s valid full (shard_of x) true
                    (record { complete = ground arith; crlf = e'; roomy = roomy; hashed = hashed })
                    (at hash_of s valid x whole
                      ∙ ap (λ (t : List ℕ). hash_of t % k_shards) (sym key)))
            | inr e' ↦ ground arith
          ]
          | inr e ↦ ground arith
        ]

    -- The joined item, by the steps that made it.
    joined_full-IsValid :
        (old : Item) (n : ℕ) (front back : List ℕ) (r : Stored) (new half full : Item)
        → new ≡ record {
          key_len = length (get_key x);
          flags = old.flags;
          rel_exptime = old.rel_exptime;
          value_len = n;
          cas = s.cas;
          hash = hash_of (get_key x);
          bytes = get_key x;
        }
        → 2 ≤ n
        → half ≡ record new { bytes = new.bytes ++ front }
        → length front ≤ needed_bytes new
        → full ≡ record half { bytes = half.bytes ++ back }
        → length back ≤ needed_bytes half
        → join_checked s (shard_of x) full ≡ some r
        → IsValid hash_of r.store
    joined_full-IsValid old n front back r new half full a roomy b fits c fits' q =
        let base : Item = record {
          key_len = length (get_key x);
          flags = old.flags;
          rel_exptime = old.rel_exptime;
          value_len = n;
          cas = s.cas;
          hash = hash_of (get_key x);
          bytes = get_key x;
        } in
        let first : Item = record base { bytes = get_key x ++ front } in
        let last : Item = record base { bytes = (get_key x ++ front) ++ back } in
        let b' : half ≡ first = b ∙ ap (λ (t : Item). record t { bytes = t.bytes ++ front }) a in
        let c' : full ≡ last = c ∙ ap (λ (t : Item). record t { bytes = t.bytes ++ back }) b' in
        let room1 = subst (λ (t : Item). length front ≤ needed_bytes t) a fits in
        let room2 = subst (λ (t : Item). length back ≤ needed_bytes t) b' fits' in
        let key : get_key last ≡ get_key x =
          rw (append_assoc (get_key x) front back) (take-length (get_key x) (front ++ back)) in
        join_checked-IsValid last r
          (omega (
            arith,
            room1,
            room2,
            length-append (get_key x ++ front) back,
            length-append (get_key x) front,
          ))
          roomy (ap hash_of (sym key)) key (ap (join_checked s (shard_of x)) (sym c') ∙ q)

    joined-IsValid :
        (old : Item) (front back : List ℕ) (r : Stored)
        → joined hash_of s x old front back ≡ some r
        → IsValid hash_of r.store
    unfolding joined
    joined-IsValid old front back r h =
        let n : ℕ = (x.value_len + old.value_len - 2) % 2 ^ 32 in
        elim (Option-cases (make_item hash_of (get_key x) old.flags old.rel_exptime n s.cas)) [
          | inl e ↦ ground arith
          | inr (new, e) ↦ elim (Option-cases (append new front)) [
            | inl e' ↦ ground arith
            | inr (half, e') ↦ elim (Option-cases (append half back)) [
              | inl e'' ↦ ground arith
              | inr (full, e'') ↦
                  let a = make_item_inversion (get_key x) old.flags old.rel_exptime n s.cas new e in
                  let b = append_inversion new half front e' in
                  let c = append_inversion half full back e'' in
                  let q : join_checked s (shard_of x) full ≡ some r = ground arith in
                  joined_full-IsValid old n front back r new half full a.0 a.1 b.0 b.1 c.0 c.1 q
            ]
          ]
        ]

    inserted_found : (exists : Bool) → IsValid hash_of (inserted s (shard_of x) x exists).store
    inserted_found exists =
        inserted-IsValid hash_of s valid x (shard_of x) exists whole (at hash_of s valid x whole)

    store_found-IsValid :
        (policy : UpdatePolicy) (found : Option Item) (r : Stored)
        → store_found hash_of s x policy found ≡ some r
        → IsValid hash_of r.store
    unfolding store_found
    store_found-IsValid set_policy none r h = kept h (inserted_found false)
    store_found-IsValid set_policy (some o) r h = kept h (inserted_found true)
    store_found-IsValid add_policy none r h = kept h (inserted_found false)
    store_found-IsValid add_policy (some o) r h = kept h valid
    store_found-IsValid replace_policy none r h = kept h valid
    store_found-IsValid replace_policy (some o) r h = kept h (inserted_found true)
    store_found-IsValid append_policy none r h = kept h valid
    store_found-IsValid append_policy (some o) r h = joined-IsValid o _ _ r h
    store_found-IsValid prepend_policy none r h = kept h valid
    store_found-IsValid prepend_policy (some o) r h = joined-IsValid o _ _ r h
    store_found-IsValid cas_policy none r h = kept h valid
    store_found-IsValid cas_policy (some o) r h = elim (Bool-cases (o.cas == x.cas)) [
      | inl e ↦
          kept {a = inserted s (shard_of x) x true} {r = r} (ground arith) (inserted_found true)
      | inr e ↦
          kept {a = record { store = s; exists = true; stored = false }} {r = r} (ground arith)
            valid
    ]
    store_found-IsValid invalid_policy found r h = ground arith

    pub store_item-IsValid :
        (policy : UpdatePolicy) (r : Stored)
        → store_item hash_of s x policy ≡ some r
        → IsValid hash_of r.store
    unfolding store_item
    store_item-IsValid policy r h = elim (Bool-cases (needed_bytes x == 0)) [
      | inl e ↦
          store_found-IsValid policy (find_key (get_key x) (s.shards (shard_of x))) r (ground arith)
      | inr e ↦ ground arith
    ]
