-- ===== src/Memcached/Session/Crashes.antt =====
-- Which updates end the memcached server by a failed assert (Connect::doUpdate and Item::Item of
-- memcached/server/server.cc).
use cpp_swiss_army_knife.Common.{
  ℕ, ◌+◌, ◌*◌, ◌^◌, ◌%◌, ◌≤◌, ◌<◌, ◌≡◌, ◌≢◌, refl, List, ◌∷◌, none, some, true, false, Bool-cases,
  Option-cases, inl, inr, arith, length, leb, ltb, if◌then◌else◌, ◌&&◌,
}
use cpp_swiss_army_knife.Memcached.Item.{UpdatePolicy, append, reset_key, make_item}
use cpp_swiss_army_knife.Memcached.World.{World, k_longest_key_size, is_cas, reply, too_large}
use cpp_swiss_army_knife.Memcached.Store.Joined.{make_item_room}
use cpp_swiss_army_knife.Memcached.Session.{
  needle_for, do_update, update_value, read_numbers, rel_exptime_of,
}

module _ (hash_of : List ℕ → ℕ) where
  needle_for_some :
      (w : World) (k : List ℕ) → length k ≤ k_longest_key_size → needle_for hash_of w k ≢ none
  unfolding needle_for reset_key append
  needle_for_some w k h = ground arith

  module _ (strtoull : List ℕ → ℕ × ℕ) (start_time : ℕ) (w : World) (policy : UpdatePolicy) where
    module _ (key : List ℕ) (rest : List (List ℕ)) (flags exptime bytes cas : ℕ)
        (short : length key ≤ k_longest_key_size)
        (numbers : read_numbers hash_of strtoull start_time (is_cas policy) rest
          ≡ some (flags, exptime, bytes, cas)) where
      chosen :
          (if leb (length key) k_longest_key_size
            then read_numbers hash_of strtoull start_time (is_cas policy) rest
            else none)
          ≡ some (flags, exptime, bytes, cas)
      chosen = let e : leb (length key) 250 ≡ true = ground arith in rw (e) numbers

      -- An update with a key of at most 250 bytes whose size is negative as an int fails the assert
      -- of Item's constructor, for every policy and in every state of the server, so one such
      -- request ends the process, given that zmalloc before the assert gives the memory.
      pub do_update_negative :
          2 ^ 31 ≤ bytes
          → bytes < 2 ^ 32
          → do_update hash_of strtoull start_time w policy (key ∷ rest) ≡ none
      unfolding do_update update_value make_item
      do_update_negative low high =
          let a : (ltb (1024 * 1024) bytes && ltb bytes (2 ^ 31)) ≡ false = ground arith in
          let b : (leb 2 ((bytes + 2) % 2 ^ 32) && ltb (length key + (bytes + 2) % 2 ^ 32) (2 ^ 31))
              ≡ false =
            ground arith in
          rw (chosen, do_update) (rw (a) (rw (b) refl))

      update_value_some :
          (w1 : World)
          → bytes + 2 < 2 ^ 31
          → update_value hash_of strtoull start_time w1 key (flags, exptime, bytes, cas) ≢ none
      unfolding update_value
      update_value_some w1 low = elim (Bool-cases (ltb (1024 * 1024) bytes && ltb bytes (2 ^ 31))) [
        | inl a ↦ elim (Option-cases (needle_for hash_of (reply w1 too_large) key)) [
          | inl q ↦ absurd (needle_for_some (reply w1 too_large) key short q)
          | inr (w2, q) ↦ rw (a) (rw (q, update_value) (ground arith))
        ]
        | inr a ↦
            let fits : (bytes + 2) % 2 ^ 32 < 1024 * 1024 + 3 = ground arith in
            let roomy : 2 ≤ (bytes + 2) % 2 ^ 32 = ground arith in
            let made =
              make_item_room hash_of key flags (rel_exptime_of hash_of strtoull start_time exptime)
                ((bytes + 2) % 2 ^ 32) cas roomy (omega arith) in
            rw (a) (rw (made, update_value) (ground arith))
      ]

      -- An update with a key of at most 250 bytes whose numbers are read, and whose size is not
      -- negative and with the two bytes of the CRLF still an int, fails no assert and overflows no
      -- int, also where the size is above the limit.
      pub do_update_safe :
          bytes + 2 < 2 ^ 31 → do_update hash_of strtoull start_time w policy (key ∷ rest) ≢ none
      unfolding do_update update_value
      do_update_safe low =
          let w1 : World = record w { conn = record w.conn { policy = policy } } in
          elim (Option-cases
            (update_value hash_of strtoull start_time w1 key (flags, exptime, bytes, cas))) [
              | inl q ↦ absurd (update_value_some w1 low q)
              | inr (w2, q) ↦ rw (chosen, do_update) (rw (q, do_update) (ground arith))
            ]
