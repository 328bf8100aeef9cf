-- ===== src/Memcached/Session.antt =====
-- class Connect of memcached/server/server.h and server.cc: the protocol of one connection.
--
-- A failed assert, the read of a token that is not there, and undefined behaviour (a sum that is no int,
-- or a request line whose length is none) is `none`.
--
-- Parameters: dictGenHashFunction, strtoull, LogStream's decimal numbers, Buffer::findCRLF, what
-- TcpConnection::send leaves in a buffer, and the start time of the server.
pub mod Phases
pub mod Requests
pub mod Loop
pub mod Open
pub mod Crashes
use cpp_swiss_army_knife.Common.{
  ℕ, zero, suc, ◌+◌, ◌-◌, ◌*◌, ◌^◌, ◌%◌, min, List, [], ◌∷◌, ◌++◌, Option, none, some, ◌>>=◌, Bool,
  true, false, not, ◌&&◌, ◌||◌, ltb, leb, ◌==◌, bytes_eq, if◌then◌else◌, length, take, drop,
}
use cpp_swiss_army_knife.Memcached.Item.{
  Item, UpdatePolicy, invalid_policy, cas_policy, needed_bytes, ends_with_crlf, append, make_item,
  reset_key, output,
}
use cpp_swiss_army_knife.Memcached.Store.{Store, Stored, store_item, get_item, delete_item}
use cpp_swiss_army_knife.Memcached.Request.{
  Command, update, get, delete, version, quit, shutdown, unknown, command_of, tokens, has_noreply,
  without_noreply, read,
}
use cpp_swiss_army_knife.Memcached.World.{
  State, Reply, Output, Connect, World, Run, k_longest_key_size, is_invalid, is_cas, is_fresh,
  put_output, reply, reset_request, set_state, below_one, store_reply, new_command,
  receive_value_state, discard_value_state, stored_reply, exists_reply, not_found, not_stored,
  bad_chunk, error, bad_format, too_large, bad_delete, deleted, version_reply, sent, sent_buffer,
  connection_shutdown, server_stop, ended, crashed, out_of_fuel,
}

-- Whether a token other than "0" (the old protocol's time) follows the key of a delete.
abbrev pub extra_token : List (List ℕ) → Bool
extra_token [] = false
extra_token (token ∷ more) = not (bytes_eq token (b'0' ∷ []))

module _ (hash_of : List ℕ → ℕ) where
  -- A whole value: it is stored, or refused when it does not end in CRLF.
  unfoldable pub finish_value : World → Item → Option World
  finish_value w item =
      if ends_with_crlf item
      then elim (store_item hash_of w.store item w.conn.policy) [
        | none ↦ none
        | some r ↦ some (
            set_state
              (reset_request (reply (record w { store = r.store }) (store_reply w.conn.policy r)))
              new_command)
      ]
      else some (set_state (reset_request (reply w bad_chunk)) new_command)

  -- The world and what is left of the buffer.
  unfoldable pub receive_value : World → List ℕ → Option (World × List ℕ)
  receive_value w buf = elim w.conn.curr_item [
    | none ↦ none
    | some item ↦
        let avail = min (length buf) (needed_bytes item) in
        elim (append item (take avail buf)) [
          | none ↦ none
          | some item' ↦
              let w' = record w { conn = record w.conn { curr_item = some item' } } in
              if needed_bytes item' == 0
              then elim (finish_value w' item') [
                | none ↦ none
                | some w'' ↦ some (w'', drop avail buf)
              ]
              else some (w', drop avail buf)
        ]
  ]

  unfoldable pub discard_value : World → List ℕ → Option (World × List ℕ)
  discard_value w buf = elim w.conn.curr_item [
    | some item ↦ none
    | none ↦
        let discard = w.conn.bytes_to_discard in
        if ltb (length buf) discard
        then some
            (record w { conn = record w.conn { bytes_to_discard = discard - length buf } }, [])
        else some (set_state (reset_request w) new_command, drop discard buf)
  ]

  -- needle->resetKey(key)
  unfoldable pub needle_for : World → List ℕ → Option World
  needle_for w key = elim (reset_key hash_of w.conn.needle key) [
    | none ↦ none
    | some needle ↦ some (record w { conn = record w.conn { needle = needle } })
  ]

  unfoldable pub do_delete : World → List (List ℕ) → Option World
  do_delete w [] = none
  do_delete w (key ∷ rest) =
      if not (leb (length key) k_longest_key_size)
      then some (reply w bad_format)
      else if extra_token rest
      then some (reply w bad_delete)
      else elim (needle_for w key) [
        | none ↦ none
        | some w' ↦
            let r = delete_item w'.store w'.conn.needle in
            some (reply (record w' { store = r.0 }) (if r.1 then deleted else not_found))
      ]

  module _ (strtoull : List ℕ → ℕ × ℕ) (start_time : ℕ) where
    -- relExptime, a 32-bit int, of a 64-bit exptime.
    unfoldable pub rel_exptime_of : ℕ → ℕ
    rel_exptime_of exptime =
        let late = (exptime + (2 ^ 64 - start_time)) % 2 ^ 32 in
        if ltb (60 * 60 * 24 * 30) exptime && ltb exptime (2 ^ 63)
        then (if below_one late then 1 else late)
        else exptime % 2 ^ 32

    -- The numbers of an update: flags, exptime, bytes, and cas where the policy asks for it.
    unfoldable pub read_numbers : Bool → List (List ℕ) → Option (ℕ × ℕ × ℕ × ℕ)
    read_numbers with_cas rest0 = do
      (flags, rest1) ← read strtoull rest0
      (exptime, rest2) ← read strtoull rest1
      (bytes, rest3) ← read strtoull rest2
      (cas, rest4) ← (if with_cas then read strtoull rest3 else some (0, rest3))
      some (flags % 2 ^ 32, exptime % 2 ^ 64, bytes % 2 ^ 32, cas % 2 ^ 64)

    -- The end of doUpdate, for a key and numbers that were read. `bytes` is an int, as the number of
    -- its 32 bits; where it is at most 1024 * 1024, `bytes + 2` is an int.
    unfoldable pub update_value : World → List ℕ → ℕ × ℕ × ℕ × ℕ → Option World
    update_value w key (flags, exptime, bytes, cas) =
        if ltb (1024 * 1024) bytes && ltb bytes (2 ^ 31)
        then elim (needle_for (reply w too_large) key) [
          | none ↦ none
          | some w' ↦
              let r = delete_item w'.store w'.conn.needle in
              if ltb (bytes + 2) (2 ^ 31)
              then some (record w' {
                store = r.0;
                conn = record w'.conn { bytes_to_discard = bytes + 2; state = discard_value_state };
              })
              else none
        ]
        else elim (make_item hash_of key flags (rel_exptime_of exptime) ((bytes + 2) % 2 ^ 32)
            cas) [
              | none ↦ none
              | some item ↦ some (record w {
                conn = record w.conn { curr_item = some item; state = receive_value_state };
              })
            ]

    -- The world, and whether the request is done with.
    unfoldable pub do_update : World → UpdatePolicy → List (List ℕ) → Option (World × Bool)
    do_update w policy [] = none
    do_update w policy (key ∷ rest) =
        let w' = record w { conn = record w.conn { policy = policy } } in
        elim (if leb (length key) k_longest_key_size
          then read_numbers (is_cas policy) rest
          else none) [
            | none ↦ some (reply w' bad_format, true)
            | some numbers ↦ elim (update_value w' key numbers) [
              | none ↦ none
              | some w'' ↦ some (w'', false)
            ]
          ]

    module _ (decimal : ℕ → List ℕ) (after_send : List ℕ → List ℕ) where
      -- What a key adds to outputBuf.
      unfoldable pub found_output : World → Bool → List ℕ
      found_output w cas = elim (get_item w.store w.conn.needle) [
        | none ↦ []
        | some item ↦ output decimal item cas
      ]

      abbrev pub add_output : World → List ℕ → World
      add_output w text = record w {
        conn = record w.conn { output_buf = w.conn.output_buf ++ text };
      }

      -- The loop over the keys of get and gets. `false`: a key was too long, and the loop was left.
      unfoldable pub get_keys : World → Bool → List (List ℕ) → Option (World × Bool)
      get_keys w cas [] = some (w, true)
      get_keys w cas (key ∷ keys) = elim (leb (length key) k_longest_key_size) [
        | false ↦ some (reply w bad_format, false)
        | true ↦ elim (needle_for w key) [
          | none ↦ none
          | some w' ↦ get_keys (add_output w' (found_output w' cas)) cas keys
        ]
      ]

      -- outputBuf with END, sent.
      unfoldable pub send_values : World → World
      send_values w =
          let out = w.conn.output_buf ++ b'E' ∷ b'N' ∷ b'D' ∷ 13 ∷ 10 ∷ [] in
          put_output (record w { conn = record w.conn { output_buf = after_send out } })
            (sent_buffer out)

      unfoldable pub run_command : World → Command → List (List ℕ) → Option (World × Bool)
      run_command w (update policy) rest = do_update w policy rest
      run_command w (get cas) rest = elim (get_keys w cas rest) [
        | none ↦ none
        | some (w', false) ↦ some (w', true)
        | some (w', true) ↦ some (send_values w', true)
      ]
      run_command w delete rest = elim (do_delete w rest) [
        | none ↦ none
        | some w' ↦ some (w', true)
      ]
      run_command w version rest = some (reply w version_reply, true)
      run_command w quit rest = some (put_output w connection_shutdown, true)
      run_command w shutdown rest =
          some (put_output (put_output w connection_shutdown) server_stop, true)
      run_command w unknown rest = some (reply w error, true)

      unfoldable pub process_request : World → List ℕ → Option (World × Bool)
      process_request w request =
          let c = w.conn in
          let w' = record w {
            conn = record c {
              requests_processed = (c.requests_processed + 1) % 2 ^ 64;
              noreply = has_noreply request;
            };
          } in
          if is_fresh c
          then elim (tokens (without_noreply request)) [
            | [] ↦ some (reply w' error, true)
            | word ∷ rest ↦
                run_command (record w' { conn = record w'.conn { command = word } })
                  (command_of word) rest
          ]
          else none

      -- processRequest of the line in front of the CRLF, whose length is cast to int.
      unfoldable pub read_request : World → ℕ → List ℕ → Option (World × Bool)
      read_request w len buf = if ltb len (2 ^ 31) then process_request w (take len buf) else none

      -- How onMessage comes out: the world and what it leaves in the buffer, or a failed assert or
      -- undefined behaviour.
      module _ (find_crlf : List ℕ → Option ℕ) where
        unfoldable pub on_message_loop : ℕ → World → List ℕ → Run
        on_message_loop fuel w [] = ended w []
        on_message_loop zero w (b ∷ buf) = out_of_fuel
        on_message_loop (suc fuel) w (b ∷ buf) = elim w.conn.state [
          | new_command ↦ elim (find_crlf (b ∷ buf)) [
            | none ↦
                ended (if ltb 1024 (length (b ∷ buf)) then put_output w connection_shutdown else w)
                  (b ∷ buf)
            | some len ↦ elim (read_request w len (b ∷ buf)) [
              | none ↦ crashed
              | some (w', done) ↦
                  on_message_loop fuel (if done then reset_request w' else w')
                    (drop (len + 2) (b ∷ buf))
            ]
          ]
          | receive_value_state ↦ elim (receive_value w (b ∷ buf)) [
            | none ↦ crashed
            | some (w', rest) ↦ on_message_loop fuel w' rest
          ]
          | discard_value_state ↦ elim (discard_value w (b ∷ buf)) [
            | none ↦ crashed
            | some (w', rest) ↦ on_message_loop fuel w' rest
          ]
        ]

        unfoldable pub on_message : World → List ℕ → Run
        on_message w buf = on_message_loop (length buf) w buf
