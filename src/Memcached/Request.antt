-- ===== src/Memcached/Request.antt =====
-- The words of a request line of the memcached protocol (Connect::processRequest and Connect::Reader,
-- memcached/server/server.cc).
pub mod Words
use cpp_swiss_army_knife.Common.{
  ℕ, zero, suc, ◌+◌, ◌-◌, ◌^◌, ◌%◌, List, [], ◌∷◌, ◌++◌, Option, none, some, Bool, true, false,
  ◌&&◌, ◌||◌, ltb, leb, ◌==◌, bytes_eq, if◌then◌else◌, length, take, drop,
}
use cpp_swiss_army_knife.Memcached.Item.{
  UpdatePolicy, set_policy, add_policy, replace_policy, append_policy, prepend_policy, cas_policy,
}

abbrev noreply_suffix : List ℕ
noreply_suffix = b' ' ∷ b'n' ∷ b'o' ∷ b'r' ∷ b'e' ∷ b'p' ∷ b'l' ∷ b'y' ∷ []

-- Whether the request ends in " noreply".
unfoldable pub has_noreply : List ℕ → Bool
has_noreply request =
    leb 8 (length request) && bytes_eq (drop (length request - 8) request) noreply_suffix

unfoldable pub without_noreply : List ℕ → List ℕ
without_noreply request = if has_noreply request then take (length request - 8) request else request

-- The loop that splits the request at its spaces: what the inner while skips, what memchr ends, and
-- one token for each round. A token takes a byte, so the length of the request is fuel enough.
unfoldable pub skip_spaces : List ℕ → List ℕ
skip_spaces [] = []
skip_spaces (c ∷ next) = let rest = skip_spaces next in if c == 32 then rest else c ∷ next

unfoldable pub until_space : List ℕ → List ℕ
until_space [] = []
until_space (c ∷ next) = let rest = until_space next in if c == 32 then [] else c ∷ rest

unfoldable pub from_space : List ℕ → List ℕ
from_space [] = []
from_space (c ∷ next) = let rest = from_space next in if c == 32 then c ∷ next else rest

unfoldable pub tokens_loop : ℕ → List ℕ → List (List ℕ)
tokens_loop zero next = []
tokens_loop (suc fuel) next = elim (skip_spaces next) [
  | [] ↦ []
  | c ∷ start ↦ until_space (c ∷ start) ∷ tokens_loop fuel (from_space (c ∷ start))
]

unfoldable pub tokens : List ℕ → List (List ℕ)
tokens request = tokens_loop (length request) request

-- The words of the commands.
abbrev pub set_word : List ℕ
set_word = b's' ∷ b'e' ∷ b't' ∷ []

abbrev add_word : List ℕ
add_word = b'a' ∷ b'd' ∷ b'd' ∷ []

abbrev replace_word : List ℕ
replace_word = b'r' ∷ b'e' ∷ b'p' ∷ b'l' ∷ b'a' ∷ b'c' ∷ b'e' ∷ []

abbrev append_word : List ℕ
append_word = b'a' ∷ b'p' ∷ b'p' ∷ b'e' ∷ b'n' ∷ b'd' ∷ []

abbrev prepend_word : List ℕ
prepend_word = b'p' ∷ b'r' ∷ b'e' ∷ b'p' ∷ b'e' ∷ b'n' ∷ b'd' ∷ []

abbrev cas_word : List ℕ
cas_word = b'c' ∷ b'a' ∷ b's' ∷ []

abbrev get_word : List ℕ
get_word = b'g' ∷ b'e' ∷ b't' ∷ []

abbrev gets_word : List ℕ
gets_word = b'g' ∷ b'e' ∷ b't' ∷ b's' ∷ []

abbrev delete_word : List ℕ
delete_word = b'd' ∷ b'e' ∷ b'l' ∷ b'e' ∷ b't' ∷ b'e' ∷ []

abbrev version_word : List ℕ
version_word = b'v' ∷ b'e' ∷ b'r' ∷ b's' ∷ b'i' ∷ b'o' ∷ b'n' ∷ []

abbrev quit_word : List ℕ
quit_word = b'q' ∷ b'u' ∷ b'i' ∷ b't' ∷ []

abbrev shutdown_word : List ℕ
shutdown_word = b's' ∷ b'h' ∷ b'u' ∷ b't' ∷ b'd' ∷ b'o' ∷ b'w' ∷ b'n' ∷ []

-- What processRequest takes a command for.
pub data Command : Type 0 where
  update : UpdatePolicy → Command
  get : Bool → Command
  delete version quit shutdown unknown : Command

unfoldable pub command_of : List ℕ → Command
command_of word =
    if bytes_eq word set_word
    then update set_policy
    else if bytes_eq word add_word
    then update add_policy
    else if bytes_eq word replace_word
    then update replace_policy
    else if bytes_eq word append_word
    then update append_policy
    else if bytes_eq word prepend_word
    then update prepend_policy
    else if bytes_eq word cas_word
    then update cas_policy
    else if bytes_eq word get_word
    then get false
    else if bytes_eq word gets_word
    then get true
    else if bytes_eq word delete_word
    then delete
    else if bytes_eq word version_word
    then version
    else if bytes_eq word quit_word
    then quit
    else if bytes_eq word shutdown_word
    then shutdown
    else unknown

-- Reader::read before its cast. strtoull gives the value and how many bytes it read: a token is
-- followed by a space or a CR, at which it stops.
unfoldable pub read : (List ℕ → ℕ × ℕ) → List (List ℕ) → Option (ℕ × List (List ℕ))
read strtoull [] = none
read strtoull (token ∷ rest) =
    let result = strtoull token in if result.1 == length token then some (result.0, rest) else none
