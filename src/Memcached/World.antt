-- ===== src/Memcached/World.antt =====
-- The state that one connection of the memcached server works on: class Connect, and the answers it
-- sends (memcached/server/server.h, server.cc).
--
-- A World is the connection, the store it shares, and what the connection sent and asked for so far.
-- The connection's protocol is kAscii from its constructor on, so the member and the branches of the
-- other protocols are left out, and so are bytesRead and the capacity of the output buffer, which no
-- answer depends on.
use cpp_swiss_army_knife.Common.{
  ℕ, ◌^◌, List, [], ◌∷◌, ◌++◌, Option, none, some, Bool, true, false, not, ◌&&◌, ◌||◌, leb, ◌==◌,
  if◌then◌else◌, length,
}
use cpp_swiss_army_knife.Memcached.Item.{Item, UpdatePolicy, invalid_policy, cas_policy}
use cpp_swiss_army_knife.Memcached.Store.{Store, Stored}

-- enum State
pub data State : Type 0 where
  new_command receive_value_state discard_value_state : State

pub data Reply : Type 0 where
  stored_reply exists_reply not_found not_stored bad_chunk error bad_format too_large bad_delete :
      Reply
  deleted version_reply : Reply

pub data Output : Type 0 where
  sent : Reply → Output
  sent_buffer : List ℕ → Output
  connection_shutdown server_stop : Output

pub record Connect : Type 0 where
  pub state : State
  pub command : List ℕ
  pub noreply : Bool
  pub policy : UpdatePolicy
  pub curr_item : Option Item
  pub bytes_to_discard : ℕ
  pub needle : Item
  pub output_buf : List ℕ
  pub requests_processed : ℕ

pub record World : Type 0 where
  pub conn : Connect
  pub store : Store
  pub sends : List Output

-- `crashed` is a failed assert or undefined behaviour.
pub data Run : Type 0 where
  ended : World → List ℕ → Run
  crashed out_of_fuel : Run

abbrev pub k_longest_key_size : ℕ
k_longest_key_size = 250

abbrev pub is_invalid : UpdatePolicy → Bool
is_invalid invalid_policy = true
is_invalid policy = false

abbrev pub is_cas : UpdatePolicy → Bool
is_cas cas_policy = true
is_cas policy = false

-- The asserts at the start of processRequest.
abbrev pub is_fresh : Connect → Bool
is_fresh c =
    (length c.command == 0)
    && not c.noreply
    && is_invalid c.policy
    && (elim c.curr_item [ none ↦ true | some item ↦ false ])
    && (c.bytes_to_discard == 0)

abbrev pub put_output : World → Output → World
put_output w o = record w { sends = w.sends ++ o ∷ [] }

unfoldable pub reply : World → Reply → World
reply w msg = if w.conn.noreply then w else put_output w (sent msg)

unfoldable pub reset_request : World → World
reset_request w = record w {
  conn = record w.conn {
    command = [];
    noreply = false;
    policy = invalid_policy;
    curr_item = none;
    bytes_to_discard = 0;
  };
}

abbrev pub set_state : World → State → World
set_state w state = record w { conn = record w.conn { state = state } }

-- (x as int) < 1 and x > limit, for the number of x's bits.
abbrev pub below_one : ℕ → Bool
below_one v = (v == 0) || leb (2 ^ 31) v

-- The answers of receiveValue to what storeItem returned.
abbrev pub store_reply : UpdatePolicy → Stored → Reply
store_reply policy r =
    if r.stored
    then stored_reply
    else if is_cas policy
    then (if r.exists then exists_reply else not_found)
    else not_stored
