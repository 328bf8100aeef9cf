-- ===== src/Memcached/Store/Joined.antt =====
-- The item that kAppend and kPrepend make of an old and a new one (MemcacheServer::storeItem,
-- memcached/server/server.cc): it is whole, and no assert on the way fails.
use cpp_swiss_army_knife.Common.{
  ℕ, zero, suc, ◌+◌, ◌-◌, ◌%◌, ◌^◌, ◌≤◌, ◌<◌, ◌≡◌, sym, ap, ◌∙◌, List, [], ◌∷◌, ◌++◌, some, true,
  arith, length, drop, get_or, length-append, append_assoc, take-length, drop-length, length-drop,
  get_or-append, length-take,
}
use cpp_swiss_army_knife.Memcached.Item.{
  Item, get_key, value, total_len, ends_with_crlf, append, make_item,
}
use cpp_swiss_army_knife.Memcached.Store.{Store, shard_of, inserted, joined, join_checked}
use cpp_swiss_army_knife.Memcached.Store.View.{IsItem}

get_or-drop :
    (n : ℕ) (xs : List ℕ) (m i : ℕ)
    → m ≡ n + i
    → n ≤ length xs
    → get_or (drop n xs) i 0 ≡ get_or xs m 0
get_or-drop zero xs m i h b = let e : i ≡ m = omega arith in ap (λ (t : ℕ). get_or xs t 0) e
get_or-drop (suc n) [] m i h b = absurd (omega arith)
get_or-drop (suc n) (x ∷ xs) zero i h b = absurd (omega arith)
get_or-drop (suc n) (x ∷ xs) (suc m) i h b = get_or-drop n xs m i (omega arith) (omega arith)

-- The last two bytes of a list.
abbrev pub EndsCrlf : List ℕ → Type 0
EndsCrlf xs = (get_or xs (length xs - 2) 0 ≡ 13) × (get_or xs (length xs - 1) 0 ≡ 10)

ends_with_crlf-EndsCrlf :
    (x : Item) → length x.bytes ≡ total_len x → EndsCrlf x.bytes → ends_with_crlf x ≡ true
ends_with_crlf-EndsCrlf x h e = let a = e.0 in let b = e.1 in rw (← h) (rw (a, b) (ground arith))

EndsCrlf-bytes : (x : Item) → ends_with_crlf x ≡ true → EndsCrlf x.bytes
EndsCrlf-bytes x h = ground arith

module _ (hash_of : List ℕ → ℕ) where
  pub length-value : (x : Item) → IsItem hash_of x → length (value x) ≡ x.value_len
  length-value x h = let c = h.complete in omega (arith, length-drop x.key_len x.bytes)

  pub length-get_key : (x : Item) → IsItem hash_of x → length (get_key x) ≡ x.key_len
  length-get_key x h = let c = h.complete in omega (arith, length-take x.key_len x.bytes)

  pub value_EndsCrlf : (x : Item) → IsItem hash_of x → EndsCrlf (value x)
  value_EndsCrlf x h =
      let c = h.complete in
      let r = h.roomy in
      let l = length-value x h in
      let e = EndsCrlf-bytes x h.crlf in
      (
        get_or-drop x.key_len x.bytes (length x.bytes - 2) (length (value x) - 2) (omega arith)
              (omega arith)
            ∙ e.0,
        get_or-drop x.key_len x.bytes (length x.bytes - 1) (length (value x) - 1) (omega arith)
              (omega arith)
            ∙ e.1,
      )

  -- `append` where there is room, and the constructor on sizes that fit an int.
  pub append_room :
      (x : Item) (more : List ℕ)
      → length x.bytes + length more ≤ total_len x
      → append x more ≡ some (record x { bytes = x.bytes ++ more })
  unfolding append
  append_room x more h = ground arith

  pub make_item_room :
      (key : List ℕ) (flags exptime n cas : ℕ)
      → 2 ≤ n
      → length key + n < 2 ^ 31
      → make_item hash_of key flags exptime n cas
        ≡ some (record {
          key_len = length key;
          flags = flags;
          rel_exptime = exptime;
          value_len = n;
          cas = cas;
          hash = hash_of key;
          bytes = key;
        })
  unfolding make_item append
  make_item_room key flags exptime n cas h b = ground arith

  module _ (s : Store) (x old : Item) (front back : List ℕ) where
    abbrev pub join_item : Item
    join_item = record {
      key_len = length (get_key x);
      flags = old.flags;
      rel_exptime = old.rel_exptime;
      value_len = length front + length back;
      cas = s.cas;
      hash = hash_of (get_key x);
      bytes = (get_key x ++ front) ++ back;
    }

    module _ (sizes : length front + length back ≡ x.value_len + old.value_len - 2)
        (roomy : 2 ≤ length back) (end : EndsCrlf back) where
      join_item-length : length join_item.bytes ≡ total_len join_item
      join_item-length =
          omega (arith, length-append (get_key x ++ front) back, length-append (get_key x) front)

      join_item-crlf : ends_with_crlf join_item ≡ true
      join_item-crlf =
          let l = join_item-length in
          let k = length-append (get_key x) front in
          let before = get_key x ++ front in
          ends_with_crlf-EndsCrlf join_item l (
            get_or-append before back (length join_item.bytes - 2) (length back - 2) (omega arith)
                ∙ end.0,
            get_or-append before back (length join_item.bytes - 1) (length back - 1) (omega arith)
                ∙ end.1,
          )

      pub join_item-get_key : get_key join_item ≡ get_key x
      join_item-get_key =
          rw (append_assoc (get_key x) front back) (take-length (get_key x) (front ++ back))

      pub join_item-value : value join_item ≡ front ++ back
      join_item-value =
          rw (append_assoc (get_key x) front back) (drop-length (get_key x) (front ++ back))

      pub join_item-IsItem : IsItem hash_of join_item
      join_item-IsItem = record {
        complete = join_item-length;
        crlf = join_item-crlf;
        roomy = omega arith;
        hashed = ap hash_of (sym join_item-get_key);
      }

      pub joined-join_item :
          length (get_key x) + x.value_len + old.value_len < 2 ^ 31
          → joined hash_of s x old front back ≡ some (inserted s (shard_of x) join_item true)
      unfolding joined join_checked
      joined-join_item small =
          let n : (x.value_len + old.value_len - 2) % 2 ^ 32 ≡ length front + length back =
            omega arith in
          let c = join_item-crlf in
          let l = join_item-length in
          let k = length-append (get_key x) front in
          let base : Item = record join_item { bytes = get_key x } in
          let half : Item = record join_item { bytes = get_key x ++ front } in
          rw (n) (
            rw
              (
                make_item_room (get_key x) old.flags old.rel_exptime (length front + length back)
                    s.cas (omega arith) (omega arith),
                joined,
              )
              (rw (append_room base front (omega arith), joined)
                (rw (append_room half back (omega arith), joined) (ground (arith, c)))))
