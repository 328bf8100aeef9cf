-- ===== src/Memcached/Session/Phases.antt =====
-- What holds of a memcached connection between two rounds of Connect::onMessage
-- (memcached/server/server.cc), and how a round that takes in a value keeps it.
use cpp_swiss_army_knife.Common.{
  ℕ, ◌+◌, ◌-◌, ◌≤◌, ◌<◌, ◌≡◌, refl, sym, ap, ◌∙◌, subst, min, List, [], ◌∷◌, ◌++◌, Option, none,
  some, true, false, Bool-cases, Option-cases, inl, inr, arith, length, take, drop, length-append,
  length-take, length-drop, take_prefix, ◌==◌, ltb,
}
use cpp_swiss_army_knife.Memcached.Item.{
  Item, get_key, total_len, needed_bytes, ends_with_crlf, append,
}
use cpp_swiss_army_knife.Memcached.Store.{store_item}
use cpp_swiss_army_knife.Memcached.Store.View.{IsItem, IsValid}
use cpp_swiss_army_knife.Memcached.Store.Kept.{store_item-IsValid}
use cpp_swiss_army_knife.Memcached.Store.Joined.{append_room}
use cpp_swiss_army_knife.Memcached.World.{
  State, new_command, receive_value_state, discard_value_state, Connect, World, is_fresh, reply,
  reset_request, set_state, store_reply, bad_chunk,
}
use cpp_swiss_army_knife.Memcached.Session.{finish_value, receive_value, discard_value}

same_result :
    (o : Option (World × List ℕ)) (w w' : World) (r r' : List ℕ)
    → o ≡ some (w, r)
    → o ≡ some (w', r')
    → (w ≡ w') × (r ≡ r')
same_result o w w' r r' h k = (ground arith, ground arith)

module _ (hash_of : List ℕ → ℕ) where
  -- An item whose value is still to come, in part.
  pub record IsPartial (x : Item) : Type 0 where
    pub keyed : x.key_len ≤ length x.bytes
    pub waiting : length x.bytes < total_len x
    pub partial_roomy : 2 ≤ x.value_len
    pub partial_hashed : x.hash ≡ hash_of (get_key x)

  -- What the state of a connection says of its other members.
  abbrev pub Phase : State → Connect → Type 0
  Phase new_command c = is_fresh c ≡ true
  Phase receive_value_state c = (x : Item) × (c.curr_item ≡ some x) × IsPartial x
  Phase discard_value_state c = (c.curr_item ≡ none) × (0 < c.bytes_to_discard)

  pub record IsReady (w : World) : Type 0 where
    pub store_valid : IsValid hash_of w.store
    pub phase : Phase w.conn.state w.conn

  pub reset-IsReady :
      (w : World) → IsValid hash_of w.store → IsReady (set_state (reset_request w) new_command)
  unfolding reset_request
  reset-IsReady w h = record { store_valid = h; phase = refl }

  pub reply-store : (w : World) (msg : _) → (reply w msg).store ≡ w.store
  unfolding reply
  reply-store w msg = elim (Bool-cases w.conn.noreply) [ inl e ↦ rw (e) refl | inr e ↦ rw (e) refl ]

  finish_value-IsReady :
      (w w' : World) (x : Item)
      → IsValid hash_of w.store
      → length x.bytes ≡ total_len x
      → 2 ≤ x.value_len
      → x.hash ≡ hash_of (get_key x)
      → finish_value hash_of w x ≡ some w'
      → IsReady w'
  unfolding finish_value
  finish_value-IsReady w w' x valid complete roomy hashed h = elim (Bool-cases (ends_with_crlf x)) [
    | inl e ↦ elim (Option-cases (store_item hash_of w.store x w.conn.policy)) [
      | inl e' ↦ ground arith
      | inr (r, e') ↦
          let after : World = reply (record w { store = r.store }) (store_reply w.conn.policy r) in
          let q : set_state (reset_request after) new_command ≡ w' = ground arith in
          let whole : IsItem hash_of x = record {
            complete = complete;
            crlf = e;
            roomy = roomy;
            hashed = hashed;
          } in
          subst IsReady q (
            reset-IsReady after (
              subst (IsValid hash_of)
                (sym (reply-store (record w { store = r.store }) (store_reply w.conn.policy r)))
                (store_item-IsValid hash_of w.store valid x whole w.conn.policy r e')))
    ]
    | inr e ↦
        let q : set_state (reset_request (reply w bad_chunk)) new_command ≡ w' = ground arith in
        subst IsReady q (
          reset-IsReady (reply w bad_chunk)
            (subst (IsValid hash_of) (sym (reply-store w bad_chunk)) valid))
  ]

  -- A part of the value is taken in.
  module _ (x : Item) (b : ℕ) (buf : List ℕ) where
    abbrev avail : ℕ
    avail = min (length (b ∷ buf)) (needed_bytes x)

    abbrev longer : Item
    longer = record x { bytes = x.bytes ++ take avail (b ∷ buf) }

    module _ (part : IsPartial x) where
      taken : length (take avail (b ∷ buf)) ≡ avail
      taken = omega (arith, length-take avail (b ∷ buf))

      longer-length : length longer.bytes ≡ length x.bytes + avail
      longer-length =
          length-append x.bytes (take avail (b ∷ buf)) ∙ ap (λ (t : ℕ). length x.bytes + t) taken

      longer-get_key : get_key longer ≡ get_key x
      longer-get_key = take_prefix x.key_len x.bytes (take avail (b ∷ buf)) part.keyed

      longer_hashed : longer.hash ≡ hash_of (get_key longer)
      longer_hashed = part.partial_hashed ∙ ap hash_of (sym longer-get_key)

      rest_shorter : length (drop avail (b ∷ buf)) < length (b ∷ buf)
      rest_shorter = let p = part.waiting in omega (arith, length-drop avail (b ∷ buf))

      longer-IsPartial : (needed_bytes longer == 0) ≡ false → IsPartial longer
      longer-IsPartial e =
          let l = longer-length in
          let k = part.keyed in
          record {
            keyed = omega arith;
            waiting = ground arith;
            partial_roomy = part.partial_roomy;
            partial_hashed = longer_hashed;
          }

      longer_complete : (needed_bytes longer == 0) ≡ true → length longer.bytes ≡ total_len longer
      longer_complete e =
          let l = longer-length in
          let k = part.waiting in let z : needed_bytes longer ≡ 0 = ground arith in omega arith

      appended : append x (take avail (b ∷ buf)) ≡ some longer
      appended =
          let p = part.waiting in
          let t = taken in append_room hash_of x (take avail (b ∷ buf)) (omega arith)

  receive_item-IsReady :
      (w w' : World) (x : Item) (b : ℕ) (buf rest : List ℕ)
      → IsReady w
      → w.conn.state ≡ receive_value_state
      → w.conn.curr_item ≡ some x
      → IsPartial x
      → receive_value hash_of w (b ∷ buf) ≡ some (w', rest)
      → IsReady w' × (length rest < length (b ∷ buf))
  unfolding receive_value
  receive_item-IsReady w w' x b buf rest ready st ex part h =
      let next : World = record w { conn = record w.conn { curr_item = some (longer x b buf) } } in
      let a = appended x b buf part in
      let rest' : List ℕ = drop (avail x b buf) (b ∷ buf) in
      let shorter = rest_shorter x b buf part in
      elim (Bool-cases (needed_bytes (longer x b buf) == 0)) [
        | inl e ↦ elim (Option-cases (finish_value hash_of next (longer x b buf))) [
          | inl e' ↦ ground (arith, ex, a, e, e')
          | inr (w'', e') ↦
              let q =
                same_result (receive_value hash_of w (b ∷ buf)) w'' w' rest' rest
                  (rw (ex, receive_value) (rw (a, receive_value) (ground (arith, e, e')))) h in
              (
                subst IsReady q.0 (
                    finish_value-IsReady next w'' (longer x b buf) ready.store_valid
                      (longer_complete x b buf part e) part.partial_roomy
                      (longer_hashed x b buf part) e'),
                subst (λ (t : List ℕ). length t < length (b ∷ buf)) q.1 shorter,
              )
        ]
        | inr e ↦
            let q =
              same_result (receive_value hash_of w (b ∷ buf)) next w' rest' rest
                (rw (ex, receive_value) (rw (a, receive_value) (ground (arith, e)))) h in
            (
              subst IsReady q.0 (record {
                store_valid = ready.store_valid;
                phase =
                    subst (λ (t : State). Phase t next.conn) (sym st)
                      (longer x b buf, refl, longer-IsPartial x b buf part e);
              }),
              subst (λ (t : List ℕ). length t < length (b ∷ buf)) q.1 shorter,
            )
      ]

  pub receive_value-IsReady :
      (w w' : World) (b : ℕ) (buf rest : List ℕ)
      → IsReady w
      → w.conn.state ≡ receive_value_state
      → receive_value hash_of w (b ∷ buf) ≡ some (w', rest)
      → IsReady w' × (length rest < length (b ∷ buf))
  receive_value-IsReady w w' b buf rest ready st h =
      let (x, ex, part) = subst (λ (t : State). Phase t w.conn) st ready.phase in
      receive_item-IsReady w w' x b buf rest ready st ex part h

  pub discard_value-IsReady :
      (w w' : World) (b : ℕ) (buf rest : List ℕ)
      → IsReady w
      → w.conn.state ≡ discard_value_state
      → discard_value hash_of w (b ∷ buf) ≡ some (w', rest)
      → IsReady w' × (length rest < length (b ∷ buf))
  unfolding discard_value
  discard_value-IsReady w w' b buf rest ready st h =
      let (ex, pos) = subst (λ (t : State). Phase t w.conn) st ready.phase in
      let n : ℕ = w.conn.bytes_to_discard in
      elim (Bool-cases (ltb (length (b ∷ buf)) n)) [
        | inl e ↦
            let next : World = record w {
              conn = record w.conn { bytes_to_discard = n - length (b ∷ buf) };
            } in
            let q =
              same_result (discard_value hash_of w (b ∷ buf)) next w' [] rest
                (rw (ex, discard_value) (ground (arith, e))) h in
            (
              subst IsReady q.0 (record {
                store_valid = ready.store_valid;
                phase = subst (λ (t : State). Phase t next.conn) (sym st) (ex, ground arith);
              }),
              subst (λ (t : List ℕ). length t < length (b ∷ buf)) q.1 (omega arith),
            )
        | inr e ↦
            let next : World = set_state (reset_request w) new_command in
            let q =
              same_result (discard_value hash_of w (b ∷ buf)) next w' (drop n (b ∷ buf)) rest
                (rw (ex, discard_value) (ground (arith, e))) h in
            (
              subst IsReady q.0 (reset-IsReady w ready.store_valid),
              subst (λ (t : List ℕ). length t < length (b ∷ buf)) q.1
                  (ground (arith, length-drop n (b ∷ buf))),
            )
      ]
