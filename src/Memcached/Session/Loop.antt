-- ===== src/Memcached/Session/Loop.antt =====
-- Connect::onMessage of memcached/server/server.cc: the loop ends on every buffer, and keeps what it
-- and its helpers assert at each round.
use cpp_swiss_army_knife.Common.{
  ℕ, zero, suc, ◌+◌, ◌≤◌, ◌<◌, ◌≡◌, ◌≢◌, refl, sym, subst, List, [], ◌∷◌, Option, some, Bool, true,
  false, Option-cases, inl, inr, ◌⊎◌, arith, length, drop, length-drop, ltb, if◌then◌else◌,
}
use cpp_swiss_army_knife.Memcached.World.{
  State, new_command, receive_value_state, discard_value_state, World, Run, ended, crashed,
  out_of_fuel, reset_request, put_output, connection_shutdown,
}
use cpp_swiss_army_knife.Memcached.Session.{
  read_request, receive_value, discard_value, on_message_loop, on_message,
}
use cpp_swiss_army_knife.Memcached.Session.Phases.{
  Phase, IsReady, receive_value-IsReady, discard_value-IsReady,
}
use cpp_swiss_army_knife.Memcached.Session.Requests.{After, read_request-After}

State-cases :
    (s : State) → (s ≡ new_command) ⊎ ((s ≡ receive_value_state) ⊎ (s ≡ discard_value_state))
State-cases new_command = inl refl
State-cases receive_value_state = inr (inl refl)
State-cases discard_value_state = inr (inr refl)

module _ (hash_of : List ℕ → ℕ) where
  -- A run that did not run out of fuel, and left a connection ready where it did not crash.
  abbrev Settled : Run → Type 0
  Settled (ended w rest) = IsReady hash_of w
  Settled crashed = Unit {0}
  Settled out_of_fuel = 0 < 0

  output-IsReady :
      (b : Bool) (w : World)
      → IsReady hash_of w
      → IsReady hash_of (if b then put_output w connection_shutdown else w)
  output-IsReady true w h = record { store_valid = h.store_valid; phase = h.phase }
  output-IsReady false w h = h

  module _ (strtoull : List ℕ → ℕ × ℕ) (start_time : ℕ) where
    next-IsReady :
        (w : World) (finished : Bool)
        → After hash_of strtoull start_time w finished
        → IsReady hash_of (if finished then reset_request w else w)
    unfolding reset_request
    next-IsReady w true h = record {
      store_valid = h.0;
      phase = subst (λ (t : State). Phase hash_of t (reset_request w).conn) (sym h.1) refl;
    }
    next-IsReady w false h = h

    module _ (decimal : ℕ → List ℕ) (after_send : List ℕ → List ℕ) (find_crlf : List ℕ → Option ℕ)
        (within : (buf : List ℕ) (len : ℕ) → find_crlf buf ≡ some len → len + 2 ≤ length buf) where
      abbrev loop : ℕ → World → List ℕ → Run
      loop = on_message_loop hash_of strtoull start_time decimal after_send find_crlf

      loop-Settled :
          (fuel : ℕ) (w : World) (buf : List ℕ)
          → IsReady hash_of w
          → length buf ≤ fuel
          → Settled (loop fuel w buf)
      unfolding on_message_loop
      loop-Settled fuel w [] ready h = ready
      loop-Settled zero w (b ∷ buf) ready h = absurd (omega arith)
      loop-Settled (suc fuel) w (b ∷ buf) ready h = elim (State-cases w.conn.state) [
        | inl st ↦ elim (Option-cases (find_crlf (b ∷ buf))) [
          | inl q ↦
              rw (st, on_message_loop)
                (rw (q, on_message_loop) (output-IsReady (ltb 1024 (length (b ∷ buf))) w ready))
          | inr (len, q) ↦
              elim (Option-cases
                (read_request hash_of strtoull start_time decimal after_send w len (b ∷ buf))) [
                  | inl p ↦
                      rw (st, on_message_loop)
                        (rw (q, on_message_loop) (rw (p, on_message_loop) tt))
                  | inr ((w', finished), p) ↦
                      let shorter = within (b ∷ buf) len q in
                      let after =
                        read_request-After hash_of strtoull start_time decimal after_send w len
                          (b ∷ buf) (w', finished) ready st p in
                      rw (st, on_message_loop)
                        (rw (q, on_message_loop)
                          (rw (p, on_message_loop)
                            (loop-Settled fuel (if finished then reset_request w' else w')
                              (drop (len + 2) (b ∷ buf)) (next-IsReady w' finished after)
                              (omega (arith, length-drop (len + 2) (b ∷ buf))))))
                ]
        ]
        | inr (inl st) ↦ elim (Option-cases (receive_value hash_of w (b ∷ buf))) [
          | inl p ↦ rw (st, on_message_loop) (rw (p, on_message_loop) tt)
          | inr ((w', rest), p) ↦
              let (ready', shorter) = receive_value-IsReady hash_of w w' b buf rest ready st p in
              rw (st, on_message_loop)
                (rw (p, on_message_loop) (loop-Settled fuel w' rest ready' (omega arith)))
        ]
        | inr (inr st) ↦ elim (Option-cases (discard_value hash_of w (b ∷ buf))) [
          | inl p ↦ rw (st, on_message_loop) (rw (p, on_message_loop) tt)
          | inr ((w', rest), p) ↦
              let (ready', shorter) = discard_value-IsReady hash_of w w' b buf rest ready st p in
              rw (st, on_message_loop)
                (rw (p, on_message_loop) (loop-Settled fuel w' rest ready' (omega arith)))
        ]
      ]

      -- The loop of onMessage makes progress: from a ready connection, on every buffer, it ends
      -- within as many rounds as the buffer has bytes (or a failed assert or undefined behaviour ends
      -- it), given that findCRLF finds both bytes inside the buffer.
      pub on_message_total :
          (w : World) (buf : List ℕ)
          → IsReady hash_of w
          → on_message hash_of strtoull start_time decimal after_send find_crlf w buf ≢ out_of_fuel
      unfolding on_message
      on_message_total w buf ready e =
          let settled = loop-Settled (length buf) w buf ready (omega arith) in
          let no : 0 < 0 = subst (Settled) e settled in absurd (omega arith)

      -- Every call of onMessage that returns leaves the connection ready for the next: the store is
      -- valid, in state kNewCommand everything that processRequest asserts holds, in kReceiveValue
      -- there is an item with bytes still to come, and in kDiscardValue no item and some bytes to
      -- discard. It starts from such a connection and holds for every input, given that findCRLF
      -- finds both bytes inside the buffer.
      pub on_message-IsReady :
          (w w' : World) (buf rest : List ℕ)
          → IsReady hash_of w
          → on_message hash_of strtoull start_time decimal after_send find_crlf w buf
            ≡ ended w' rest
          → IsReady hash_of w'
      unfolding on_message
      on_message-IsReady w w' buf rest ready e =
          subst (Settled) e (loop-Settled (length buf) w buf ready (omega arith))
