-- ===== src/Memcached/Session/Requests.antt =====
-- How one request leaves a memcached connection (Connect::processRequest, doUpdate and doDelete of
-- memcached/server/server.cc).
use cpp_swiss_army_knife.Common.{
  ℕ, ◌+◌, ◌*◌, ◌^◌, ◌%◌, ◌≡◌, refl, sym, ◌∙◌, subst, List, [], ◌∷◌, Option, none, some, Bool, true,
  false, Bool-cases, Option-cases, inl, inr, arith, length, take, leb, ltb, if◌then◌else◌, ◌&&◌,
}
use cpp_swiss_army_knife.Memcached.Item.{make_item, UpdatePolicy}
use cpp_swiss_army_knife.Memcached.Store.{delete_item}
use cpp_swiss_army_knife.Memcached.Store.View.{IsValid}
use cpp_swiss_army_knife.Memcached.Store.Kept.{make_item_inversion}
use cpp_swiss_army_knife.Memcached.Request.{
  Command, update, get, delete, version, quit, shutdown, unknown, command_of, tokens, has_noreply,
  without_noreply,
}
use cpp_swiss_army_knife.Memcached.World.{
  State, new_command, receive_value_state, discard_value_state, World, reply, is_cas, bad_format,
  too_large, error, version_reply, k_longest_key_size,
}
use cpp_swiss_army_knife.Memcached.Session.{
  found_output, add_output, needle_for, do_delete, do_update, update_value, read_numbers,
  rel_exptime_of, get_keys, send_values, run_command, process_request, read_request,
}
use cpp_swiss_army_knife.Memcached.Session.Phases.{Phase, IsReady}
use cpp_swiss_army_knife.Memcached.Session.Open.{
  List-cases, fresh_no_item, IsOpen, reply-IsOpen, needle_for-IsOpen, deleted-IsOpen,
  do_delete-IsOpen, fresh_item,
}

module _ (hash_of : List ℕ → ℕ) where
  -- An update leaves the connection waiting for a value, or for bytes to discard.
  module _ (strtoull : List ℕ → ℕ × ℕ) (start_time : ℕ) where
    update_value-IsReady :
        (w w' : World) (key : List ℕ) (flags exptime bytes cas : ℕ)
        → IsOpen hash_of w
        → update_value hash_of strtoull start_time w key (flags, exptime, bytes, cas) ≡ some w'
        → IsReady hash_of w'
    unfolding update_value
    update_value-IsReady w w' key flags exptime bytes cas h e =
        elim (Bool-cases (ltb (1024 * 1024) bytes && ltb bytes (2 ^ 31))) [
          | inl q ↦ elim (Option-cases (needle_for hash_of (reply w too_large) key)) [
            | inl n ↦ ground arith
            | inr (w1, n) ↦
                let (o, k) =
                  needle_for-IsOpen hash_of (reply w too_large) w1 key
                    (reply-IsOpen hash_of w too_large h) n in
                let w2 : World = record w1 { store = (delete_item w1.store w1.conn.needle).0 } in
                let next : World = record w2 {
                  conn = record w2.conn {
                    bytes_to_discard = bytes + 2;
                    state = discard_value_state;
                  };
                } in
                let whole =
                  update_value hash_of strtoull start_time w key (flags, exptime, bytes, cas) in
                let o2 = deleted-IsOpen hash_of w1 o k in
                elim (Bool-cases (ltb (bytes + 2) (2 ^ 31))) [
                  | inl fits ↦
                      let z : whole ≡ some next =
                        rw (q, update_value) (rw (n, update_value) (rw (fits) refl)) in
                      let same : next ≡ w' = ground arith in
                      subst (IsReady hash_of) same (record {
                        store_valid = o2.open_store;
                        phase = (o2.open_item, omega arith);
                      })
                  | inr over ↦
                      let z : whole ≡ none =
                        rw (q, update_value) (rw (n, update_value) (rw (over) refl)) in
                      ground arith
                ]
          ]
          | inr q ↦
              let n : ℕ = (bytes + 2) % 2 ^ 32 in
              let rel = rel_exptime_of hash_of strtoull start_time exptime in
              elim (Option-cases (make_item hash_of key flags rel n cas)) [
                | inl m ↦ ground arith
                | inr (x, m) ↦
                    let (made, roomy) = make_item_inversion hash_of key flags rel n cas x m in
                    let next : World = record w {
                      conn = record w.conn { curr_item = some x; state = receive_value_state };
                    } in
                    let same : next ≡ w' = ground arith in
                    subst (IsReady hash_of) same (record {
                      store_valid = h.open_store;
                      phase = (x, refl, fresh_item hash_of x key flags rel n cas made roomy);
                    })
              ]
        ]

    -- What processRequest leaves: done with, the connection is only to be reset.
    abbrev pub After : World → Bool → Type 0
    After w true = IsValid hash_of w.store × (w.conn.state ≡ new_command)
    After w false = IsReady hash_of w

    abbrev ResultOf : World × Bool → Type 0
    ResultOf r = After r.0 r.1

    same_result :
        (o : Option (World × Bool)) (r r' : World × Bool)
        → o ≡ some r
        → o ≡ some r'
        → ResultOf r
        → ResultOf r'
    same_result o r r' h k p = let e : r ≡ r' = ground arith in subst ResultOf e p

    open-After : (w : World) → IsOpen hash_of w → After w true
    open-After w h = (h.open_store, h.open_state)

    do_update-After :
        (w : World) (policy : UpdatePolicy) (rest : List (List ℕ)) (r : World × Bool)
        → IsOpen hash_of w
        → do_update hash_of strtoull start_time w policy rest ≡ some r
        → After r.0 r.1
    unfolding do_update
    do_update-After w policy [] r h e = ground arith
    do_update-After w policy (key ∷ rest) r h e =
        let w1 : World = record w { conn = record w.conn { policy = policy } } in
        let o : IsOpen hash_of w1 = record {
          open_store = h.open_store;
          open_state = h.open_state;
          open_item = h.open_item;
        } in
        let whole = do_update hash_of strtoull start_time w policy (key ∷ rest) in
        elim (Option-cases (
          if leb (length key) k_longest_key_size
          then read_numbers hash_of strtoull start_time (is_cas policy) rest
          else none)) [
            | inl q ↦
                same_result whole (reply w1 bad_format, true) r (rw (q, do_update) refl) e
                  (open-After (reply w1 bad_format) (reply-IsOpen hash_of w1 bad_format o))
            | inr ((flags, exptime, bytes, cas), q) ↦
                elim (Option-cases
                  (update_value hash_of strtoull start_time w1 key (flags, exptime, bytes, cas))) [
                    | inl q' ↦
                        let z : whole ≡ none = rw (q, do_update) (rw (q', do_update) refl) in
                        ground arith
                    | inr (w2, q') ↦
                        same_result whole (w2, false) r
                          (rw (q, do_update) (rw (q', do_update) refl)) e
                          (update_value-IsReady w1 w2 key flags exptime bytes cas o q')
                  ]
          ]

    module _ (decimal : ℕ → List ℕ) (after_send : List ℕ → List ℕ) where
      get_keys-IsOpen :
          (w : World) (cas : Bool) (keys : List (List ℕ)) (w' : World) (b : Bool)
          → IsOpen hash_of w
          → get_keys hash_of strtoull start_time decimal after_send w cas keys ≡ some (w', b)
          → IsOpen hash_of w'
      unfolding get_keys
      get_keys-IsOpen w cas [] w' b h e =
          let same : w ≡ w' = ground arith in subst (IsOpen hash_of) same h
      get_keys-IsOpen w cas (key ∷ keys) w' b h e =
          let whole = get_keys hash_of strtoull start_time decimal after_send w cas (key ∷ keys) in
          elim (Bool-cases (leb (length key) k_longest_key_size)) [
            | inl q ↦ elim (Option-cases (needle_for hash_of w key)) [
              | inl n ↦
                  let z : whole ≡ none = rw (q, get_keys) (rw (n, get_keys) refl) in ground arith
              | inr (w1, n) ↦
                  let text = found_output hash_of strtoull start_time decimal after_send w1 cas in
                  let next = add_output hash_of strtoull start_time decimal after_send w1 text in
                  let z : whole
                      ≡ get_keys hash_of strtoull start_time decimal after_send next cas keys =
                    rw (q, get_keys) (rw (n, get_keys) refl) in
                  let o = (needle_for-IsOpen hash_of w w1 key h n).0 in
                  get_keys-IsOpen next cas keys w' b
                    (record {
                      open_store = o.open_store;
                      open_state = o.open_state;
                      open_item = o.open_item;
                    })
                    (sym z ∙ e)
            ]
            | inr q ↦
                let z : whole ≡ some (reply w bad_format, false) = rw (q, get_keys) refl in
                let same : reply w bad_format ≡ w' = ground arith in
                subst (IsOpen hash_of) same (reply-IsOpen hash_of w bad_format h)
          ]

      run_command-After :
          (w : World) (c : Command) (rest : List (List ℕ)) (r : World × Bool)
          → IsOpen hash_of w
          → run_command hash_of strtoull start_time decimal after_send w c rest ≡ some r
          → After r.0 r.1
      unfolding run_command send_values
      run_command-After w (update policy) rest r h e = do_update-After w policy rest r h e
      run_command-After w (get cas) rest r h e =
          let whole = run_command hash_of strtoull start_time decimal after_send w (get cas) rest in
          elim (Option-cases (get_keys hash_of strtoull start_time decimal after_send w cas rest)) [
            | inl q ↦ let z : whole ≡ none = rw (q, run_command) refl in ground arith
            | inr ((w1, false), q) ↦
                same_result whole (w1, true) r (rw (q, run_command) refl) e
                  (open-After w1 (get_keys-IsOpen w cas rest w1 false h q))
            | inr ((w1, true), q) ↦
                same_result whole
                  (send_values hash_of strtoull start_time decimal after_send w1, true) r
                  (rw (q, run_command) refl) e
                  (open-After w1 (get_keys-IsOpen w cas rest w1 true h q))
          ]
      run_command-After w delete rest r h e =
          let whole = run_command hash_of strtoull start_time decimal after_send w delete rest in
          elim (Option-cases (do_delete hash_of w rest)) [
            | inl q ↦ let z : whole ≡ none = rw (q, run_command) refl in ground arith
            | inr (w1, q) ↦
                same_result whole (w1, true) r (rw (q, run_command) refl) e
                  (open-After w1 (do_delete-IsOpen hash_of w w1 rest h q))
          ]
      run_command-After w version rest r h e =
          same_result _ (reply w version_reply, true) r refl e
            (open-After (reply w version_reply) (reply-IsOpen hash_of w version_reply h))
      run_command-After w quit rest r h e = same_result _ _ r refl e (open-After w h)
      run_command-After w shutdown rest r h e = same_result _ _ r refl e (open-After w h)
      run_command-After w unknown rest r h e =
          same_result _ (reply w error, true) r refl e
            (open-After (reply w error) (reply-IsOpen hash_of w error h))

      pub process_request-After :
          (w : World) (request : List ℕ) (r : World × Bool)
          → IsReady hash_of w
          → w.conn.state ≡ new_command
          → process_request hash_of strtoull start_time decimal after_send w request ≡ some r
          → After r.0 r.1
      unfolding process_request
      process_request-After w request r h st e =
          let whole = process_request hash_of strtoull start_time decimal after_send w request in
          let fresh = subst (λ (t : State). Phase hash_of t w.conn) st h.phase in
          let item : w.conn.curr_item ≡ none = fresh_no_item w.conn fresh in
          let c = w.conn in
          let w1 : World = record w {
            conn = record c {
              requests_processed = (c.requests_processed + 1) % 2 ^ 64;
              noreply = has_noreply request;
            };
          } in
          let o : IsOpen hash_of w1 = record {
            open_store = h.store_valid;
            open_state = st;
            open_item = item;
          } in
          elim (List-cases (tokens (without_noreply request))) [
            | inl q ↦
                same_result whole (reply w1 error, true) r
                  (rw (fresh) (rw (q, process_request) refl)) e
                  (open-After (reply w1 error) (reply-IsOpen hash_of w1 error o))
            | inr ((word, rest), q) ↦
                let w2 : World = record w1 { conn = record w1.conn { command = word } } in
                run_command-After w2 (command_of word) rest r
                  (record { open_store = h.store_valid; open_state = st; open_item = item })
                  (sym (rw (fresh) (rw (q, process_request) refl)) ∙ e)
          ]

      pub read_request-After :
          (w : World) (len : ℕ) (buf : List ℕ) (r : World × Bool)
          → IsReady hash_of w
          → w.conn.state ≡ new_command
          → read_request hash_of strtoull start_time decimal after_send w len buf ≡ some r
          → After r.0 r.1
      unfolding read_request
      read_request-After w len buf r h st e = elim (Bool-cases (ltb len (2 ^ 31))) [
        | inl q ↦
            let z : read_request hash_of strtoull start_time decimal after_send w len buf
                ≡ process_request hash_of strtoull start_time decimal after_send w (take len buf) =
              rw (q) refl in
            process_request-After w (take len buf) r h st (sym z ∙ e)
        | inr q ↦
            let z : read_request hash_of strtoull start_time decimal after_send w len buf ≡ none =
              rw (q) refl in
            ground arith
      ]
