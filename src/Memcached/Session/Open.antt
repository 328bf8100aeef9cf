-- ===== src/Memcached/Session/Open.antt =====
-- What answers and deletes keep of a memcached connection in the middle of a request (processRequest and
-- doDelete of memcached/server/server.cc).
use cpp_swiss_army_knife.Common.{
  ℕ, ◌≤◌, ◌≡◌, refl, sym, ap, ◌∙◌, subst, List, [], ◌∷◌, none, some, Bool, true, false, Bool-cases,
  Option-cases, inl, inr, ◌⊎◌, arith, length, take, take-length, append-nil, not, leb,
  if◌then◌else◌,
}
use cpp_swiss_army_knife.Memcached.Item.{Item, get_key, reset_key}
use cpp_swiss_army_knife.Memcached.Store.{delete_item}
use cpp_swiss_army_knife.Memcached.Store.View.{IsValid}
use cpp_swiss_army_knife.Memcached.Store.Kept.{append_inversion}
use cpp_swiss_army_knife.Memcached.Store.Commands.{delete_item-view}
use cpp_swiss_army_knife.Memcached.World.{
  new_command, Connect, World, Reply, is_fresh, reply, bad_format, bad_delete, deleted, not_found,
}
use cpp_swiss_army_knife.Memcached.Session.{extra_token, needle_for, do_delete}
use cpp_swiss_army_knife.Memcached.Session.Phases.{IsPartial}

pub List-cases : {A : Type 0} (xs : List A) → (xs ≡ []) ⊎ ((p : A × List A) × (xs ≡ p.0 ∷ p.1))
List-cases [] = inl refl
List-cases (x ∷ xs) = inr ((x, xs), refl)

pub fresh_no_item : (c : Connect) → is_fresh c ≡ true → c.curr_item ≡ none
fresh_no_item c h = ground arith

module _ (hash_of : List ℕ → ℕ) where
  -- A connection in the middle of a request.
  pub record IsOpen (w : World) : Type 0 where
    pub open_store : IsValid hash_of w.store
    pub open_state : w.conn.state ≡ new_command
    pub open_item : w.conn.curr_item ≡ none

  pub if_IsOpen : (b : Bool) (x y : World) → IsOpen x → IsOpen y → IsOpen (if b then x else y)
  if_IsOpen true x y hx hy = hx
  if_IsOpen false x y hx hy = hy

  pub reply-IsOpen : (w : World) (msg : Reply) → IsOpen w → IsOpen (reply w msg)
  unfolding reply
  reply-IsOpen w msg h =
      if_IsOpen w.conn.noreply _ _ h
        (record { open_store = h.open_store; open_state = h.open_state; open_item = h.open_item })

  pub take_all : (k : List ℕ) → take (length k) k ≡ k
  take_all k = ap (take (length k)) (sym (append-nil k)) ∙ take-length k []

  pub reset_key_hashed :
      (x y : Item) (k : List ℕ) → reset_key hash_of x k ≡ some y → y.hash ≡ hash_of (get_key y)
  unfolding reset_key
  reset_key_hashed x y k h = elim (Bool-cases (leb (length k) 250)) [
    | inl e ↦
        let base : Item = record x { key_len = length k; bytes = []; hash = hash_of k } in
        let q : y ≡ record base { bytes = k } = (append_inversion base y k (ground arith)).0 in
        subst (λ (t : Item). t.hash ≡ hash_of (get_key t)) (sym q) (ap hash_of (sym (take_all k)))
    | inr e ↦ ground arith
  ]

  -- needle->resetKey changes the needle alone.
  pub needle_for-IsOpen :
      (w w' : World) (k : List ℕ)
      → IsOpen w
      → needle_for hash_of w k ≡ some w'
      → IsOpen w' × (w'.conn.needle.hash ≡ hash_of (get_key w'.conn.needle))
  unfolding needle_for
  needle_for-IsOpen w w' k h e = elim (Option-cases (reset_key hash_of w.conn.needle k)) [
    | inl q ↦ ground arith
    | inr (y, q) ↦
        let next : World = record w { conn = record w.conn { needle = y } } in
        let same : next ≡ w' = ground arith in
        subst (λ (t : World). IsOpen t × (t.conn.needle.hash ≡ hash_of (get_key t.conn.needle)))
          same
          (
            record {
              open_store = h.open_store;
              open_state = h.open_state;
              open_item = h.open_item;
            },
            reset_key_hashed w.conn.needle y k q,
          )
  ]

  pub deleted-IsOpen :
      (w : World)
      → IsOpen w
      → w.conn.needle.hash ≡ hash_of (get_key w.conn.needle)
      → IsOpen (record w { store = (delete_item w.store w.conn.needle).0 })
  deleted-IsOpen w h k = record {
    open_store = (delete_item-view hash_of w.store h.open_store w.conn.needle k).2;
    open_state = h.open_state;
    open_item = h.open_item;
  }

  pub do_delete-IsOpen :
      (w w' : World) (rest : List (List ℕ))
      → IsOpen w
      → do_delete hash_of w rest ≡ some w'
      → IsOpen w'
  unfolding do_delete
  do_delete-IsOpen w w' [] h e = ground arith
  do_delete-IsOpen w w' (key ∷ rest) h e = elim (Bool-cases (not (leb (length key) 250))) [
    | inl q ↦
        let same : reply w bad_format ≡ w' = ground arith in
        subst IsOpen same (reply-IsOpen w bad_format h)
    | inr q ↦ elim (Bool-cases (extra_token rest)) [
      | inl q' ↦
          let same : reply w bad_delete ≡ w' = ground arith in
          subst IsOpen same (reply-IsOpen w bad_delete h)
      | inr q' ↦ elim (Option-cases (needle_for hash_of w key)) [
        | inl n ↦ ground arith
        | inr (w1, n) ↦
            let r = delete_item w1.store w1.conn.needle in
            let w2 : World = record w1 { store = r.0 } in
            let same : reply w2 (if r.1 then deleted else not_found) ≡ w' = ground arith in
            let (o, k) = needle_for-IsOpen w w1 key h n in
            subst IsOpen same (reply-IsOpen w2 _ (deleted-IsOpen w1 o k))
      ]
    ]
  ]

  pub fresh_item :
      (x : Item) (key : List ℕ) (flags rel n cas : ℕ)
      → x ≡ record {
        key_len = length key;
        flags = flags;
        rel_exptime = rel;
        value_len = n;
        cas = cas;
        hash = hash_of key;
        bytes = key;
      }
      → 2 ≤ n
      → IsPartial hash_of x
  fresh_item x key flags rel n cas e h = subst (IsPartial hash_of) (sym e) (record {
    keyed = omega arith;
    waiting = omega arith;
    partial_roomy = h;
    partial_hashed = ap hash_of (sym (take_all key));
  })
