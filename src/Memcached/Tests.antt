-- ===== src/Memcached/Tests.antt =====
-- Runs of the memcached server of memcached/server, and the theorems at concrete inputs.
use cpp_swiss_army_knife.Common.{
  ℕ, suc, ◌+◌, ◌-◌, ◌*◌, ◌^◌, ◌≤◌, ◌≡◌, ◌≢◌, refl, List, [], ◌∷◌, ◌++◌, Option, none, some, false,
  ◌==◌, length, arith, if◌then◌else◌,
}
use cpp_swiss_army_knife.Memcached.Item.{
  Item, append, make_item, reset_key, output, invalid_policy, set_policy, append_policy,
}
use cpp_swiss_army_knife.Memcached.Store.{
  Store, Stored, find_key, erase_key, insert_item, set_shard, inserted, join_checked, joined,
  store_found, store_item, get_item, delete_item,
}
use cpp_swiss_army_knife.Memcached.Store.View.{entry_of, IsItem, IsValid, view}
use cpp_swiss_army_knife.Memcached.Store.Refines.{
  inserted-IsValid, entry_after, Follows, with_entry, is_some,
}
use cpp_swiss_army_knife.Memcached.Store.Commands.{store_item-Follows, delete_item-view}
use cpp_swiss_army_knife.Memcached.Request.{
  skip_spaces, until_space, from_space, tokens_loop, tokens, command_of, has_noreply,
  without_noreply, read,
}
use cpp_swiss_army_knife.Memcached.Request.Words.{line, tokens-line}
use cpp_swiss_army_knife.Memcached.World.{
  World, Connect, new_command, reply, reset_request, sent, sent_buffer, ended, out_of_fuel, Run,
  error,
}
use cpp_swiss_army_knife.Memcached.Session.{
  finish_value, receive_value, discard_value, needle_for, do_delete, rel_exptime_of, read_numbers,
  update_value, do_update, found_output, get_keys, send_values, run_command, process_request,
  read_request, on_message_loop, on_message,
}
use cpp_swiss_army_knife.Memcached.Session.Phases.{IsReady}
use cpp_swiss_army_knife.Memcached.Session.Loop.{on_message_total, on_message-IsReady}
use cpp_swiss_army_knife.Memcached.Session.Crashes.{do_update_negative, do_update_safe}

-- Stand-ins for the parameters.
abbrev hash_of : List ℕ → ℕ
hash_of key = length key

abbrev digits_value : ℕ → List ℕ → ℕ
digits_value acc [] = acc
digits_value acc (d ∷ ds) = digits_value (acc * 10 + (d - 48)) ds

abbrev signed_value : List ℕ → ℕ
signed_value [] = 0
signed_value (c ∷ ds) = if c == 45 then 2 ^ 64 - digits_value 0 ds else digits_value 0 (c ∷ ds)

abbrev strtoull : List ℕ → ℕ × ℕ
strtoull token = (signed_value token, length token)

abbrev decimal : ℕ → List ℕ
decimal n = (n + 48) ∷ []

abbrev after_send : List ℕ → List ℕ
after_send buf = []

find_crlf : List ℕ → Option ℕ
find_crlf [] = none
find_crlf (c ∷ []) = none
find_crlf (c ∷ d ∷ buf) =
    let rest = find_crlf (d ∷ buf) in
    if c == 13
    then (if d == 10 then some 0 else elim rest [ none ↦ none | some n ↦ some (suc n) ])
    else elim rest [ none ↦ none | some n ↦ some (suc n) ]

next_within :
    (o : Option ℕ) (m len : ℕ)
    → ((n : ℕ) → o ≡ some n → n + 2 ≤ m)
    → (elim o [ none ↦ none | some n ↦ some (suc n) ]) ≡ some len
    → len + 2 ≤ suc m
next_within none m len h e = ground arith
next_within (some n) m len h e = let b = h n refl in ground arith

find_crlf_within : (buf : List ℕ) (len : ℕ) → find_crlf buf ≡ some len → len + 2 ≤ length buf
unfolding find_crlf
find_crlf_within [] len e = ground arith
find_crlf_within (c ∷ []) len e = ground arith
find_crlf_within (c ∷ d ∷ buf) len e =
    let more =
      next_within (find_crlf (d ∷ buf)) (length (d ∷ buf)) len (find_crlf_within (d ∷ buf)) in
    ground (arith, more)

abbrev empty_store : Store
empty_store = record { cas = 7; shards = λ i. [] }

abbrev item_k : Item
item_k = record {
  key_len = 1;
  flags = 5;
  rel_exptime = 0;
  value_len = 4;
  cas = 0;
  hash = 1;
  bytes = b'k' ∷ b'h' ∷ b'i' ∷ 13 ∷ 10 ∷ [];
}

abbrev needle : Item
needle = record {
  key_len = 1;
  flags = 0;
  rel_exptime = 0;
  value_len = 2;
  cas = 0;
  hash = 1;
  bytes = b'k' ∷ [];
}

empty-IsValid : IsValid hash_of empty_store
empty-IsValid = record { unique = λ i. tt; items = λ i. tt }

item_k-IsItem : IsItem hash_of item_k
item_k-IsItem = record { complete = refl; crlf = refl; roomy = omega arith; hashed = refl }

abbrev one_item : Store
one_item = (inserted empty_store 1 item_k false).store

one_item-IsValid : IsValid hash_of one_item
one_item-IsValid =
    inserted-IsValid hash_of empty_store empty-IsValid item_k 1 false item_k-IsItem refl

unfoldable memcached_program : Unit {0}
unfolding append make_item reset_key output find_key erase_key insert_item set_shard inserted
    join_checked joined store_found store_item get_item delete_item skip_spaces until_space
    from_space tokens_loop tokens command_of has_noreply without_noreply read reply reset_request
    finish_value receive_value discard_value needle_for do_delete rel_exptime_of read_numbers
    update_value do_update found_output get_keys send_values run_command process_request
    read_request on_message_loop on_message find_crlf
memcached_program = tt

store_item-Follows_example :
    (r : Stored) × (store_item hash_of one_item item_k append_policy ≡ some r)
    × Follows hash_of one_item item_k
        (entry_after append_policy (entry_of item_k) 8 (view hash_of one_item (b'k' ∷ [])))
        r
unfolding memcached_program
store_item-Follows_example =
    store_item-Follows hash_of one_item one_item-IsValid item_k item_k-IsItem append_policy
      (λ e. ground arith) (λ o e. ground arith)

delete_item-view_example :
    (view hash_of (delete_item one_item needle).0
      ≡ with_entry (view hash_of one_item) (b'k' ∷ []) none)
    × ((delete_item one_item needle).1 ≡ is_some (view hash_of one_item (b'k' ∷ [])))
    × IsValid hash_of (delete_item one_item needle).0
delete_item-view_example = delete_item-view hash_of one_item one_item-IsValid needle refl

tokens-line_example :
    tokens (line ((1, b'g' ∷ b'e' ∷ b't' ∷ []) ∷ (2, b'k' ∷ []) ∷ []) 1)
    ≡ (b'g' ∷ b'e' ∷ b't' ∷ []) ∷ (b'k' ∷ []) ∷ []
tokens-line_example =
    tokens-line ((1, b'g' ∷ b'e' ∷ b't' ∷ []) ∷ (2, b'k' ∷ []) ∷ []) 1
      (((omega arith), (refl, (refl, (refl, tt)))), ((omega arith, (refl, tt)), tt))

abbrev fresh_connection : Connect
fresh_connection = record {
  state = new_command;
  command = [];
  noreply = false;
  policy = invalid_policy;
  curr_item = none;
  bytes_to_discard = 0;
  needle = needle;
  output_buf = [];
  requests_processed = 0;
}

abbrev fresh_world : World
fresh_world = record { conn = fresh_connection; store = empty_store; sends = [] }

fresh_world-IsReady : IsReady hash_of fresh_world
fresh_world-IsReady = record { store_valid = empty-IsValid; phase = refl }

abbrev crlf : List ℕ
crlf = 13 ∷ 10 ∷ []

-- set k 5 0 2, hi, get k
abbrev set_and_get : List ℕ
set_and_get =
    (b's' ∷ b'e' ∷ b't' ∷ b' ' ∷ b'k' ∷ b' ' ∷ b'5' ∷ b' ' ∷ b'0' ∷ b' ' ∷ b'2' ∷ [])
    ++ crlf
    ++ (b'h' ∷ b'i' ∷ [])
    ++ crlf
    ++ (b'g' ∷ b'e' ∷ b't' ∷ b' ' ∷ b'k' ∷ [])
    ++ crlf

abbrev run_on : World → List ℕ → Run
run_on = on_message hash_of strtoull 0 decimal after_send find_crlf

abbrev answers : Run → Option (List ℕ)
answers (ended w rest) = elim w.sends [ o ∷ sent_buffer text ∷ [] ↦ some text | _ ↦ none ]
answers _ = none

-- The value that was set is what get answers with.
set_and_get_run :
    answers (run_on fresh_world set_and_get)
    ≡ some (
        (b'V' ∷ b'A' ∷ b'L' ∷ b'U' ∷ b'E' ∷ b' ' ∷ b'k' ∷ b' ' ∷ b'5' ∷ b' ' ∷ b'2' ∷ [])
        ++ crlf
        ++ (b'h' ∷ b'i' ∷ [])
        ++ crlf
        ++ (b'E' ∷ b'N' ∷ b'D' ∷ [])
        ++ crlf)
unfolding memcached_program
set_and_get_run = refl

on_message_total_example : run_on fresh_world set_and_get ≢ out_of_fuel
on_message_total_example =
    on_message_total hash_of strtoull 0 decimal after_send find_crlf find_crlf_within fresh_world
      set_and_get fresh_world-IsReady

abbrev after_error : World
after_error = record fresh_world {
  sends = sent error ∷ [];
  conn = record fresh_connection { requests_processed = 1 };
}

on_message-IsReady_example : IsReady hash_of after_error
unfolding memcached_program
on_message-IsReady_example =
    on_message-IsReady hash_of strtoull 0 decimal after_send find_crlf find_crlf_within fresh_world
      after_error crlf [] fresh_world-IsReady refl

-- "set k 0 0 -1", behind the key.
abbrev negative_numbers : List (List ℕ)
negative_numbers = (b'0' ∷ []) ∷ (b'0' ∷ []) ∷ (b'-' ∷ b'1' ∷ []) ∷ []

do_update_negative_example :
    do_update hash_of strtoull 0 fresh_world set_policy ((b'k' ∷ []) ∷ negative_numbers) ≡ none
unfolding memcached_program
do_update_negative_example =
    do_update_negative hash_of strtoull 0 fresh_world set_policy (b'k' ∷ []) negative_numbers 0 0
      (2 ^ 32 - 1) 0 (omega arith) refl (omega arith) (omega arith)

abbrev small_numbers : List (List ℕ)
small_numbers = (b'5' ∷ []) ∷ (b'0' ∷ []) ∷ (b'2' ∷ []) ∷ []

do_update_safe_example :
    do_update hash_of strtoull 0 fresh_world set_policy ((b'k' ∷ []) ∷ small_numbers) ≢ none
unfolding memcached_program
do_update_safe_example =
    do_update_safe hash_of strtoull 0 fresh_world set_policy (b'k' ∷ []) small_numbers 5 0 2 0
      (omega arith) refl (omega arith)
