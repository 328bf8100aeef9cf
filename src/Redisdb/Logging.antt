-- ===== src/Redisdb/Logging.antt =====
-- The text forms of redisdb/db/logging.h and logging.cc: decimal numbers and escaped strings.
--
-- The conversions of snprintf that the code uses, %llu, %06llu and %02x, are written out here.
pub mod Consume
pub mod Decimal
use cpp_swiss_army_knife.Common.{
  ℕ, zero, suc, ◌+◌, ◌-◌, ◌*◌, ◌/◌, ◌%◌, ◌^◌, Bool, ◌&&◌, ◌||◌, List, [], ◌∷◌, ◌++◌, Option, none,
  some, ltb, leb, ◌==◌, if◌then◌else◌, length, replicate,
}

abbrev pub k_max_uint64 : ℕ
k_max_uint64 = 2 ^ 64 - 1

-- '0' + kMaxUint64 % 10
abbrev pub k_last_digit_of_max_uint64 : ℕ
k_last_digit_of_max_uint64 = b'0' + k_max_uint64 % 10

abbrev pub is_digit : ℕ → Bool
is_digit ch = leb b'0' ch && leb ch b'9'

abbrev pub overflows : ℕ → ℕ → Bool
overflows value ch =
    ltb (k_max_uint64 / 10) value
    || (value == k_max_uint64 / 10) && ltb k_last_digit_of_max_uint64 ch

-- The loop: the value, the number of digits and what is left; `none` on an overflow.
unfoldable pub digits_loop : List ℕ → ℕ → ℕ → Option (ℕ × ℕ × List ℕ)
digits_loop [] value consumed = some (value, consumed, [])
digits_loop (ch ∷ rest) value consumed =
    let more = digits_loop rest ((value * 10 + (ch - b'0')) % 2 ^ 64) (consumed + 1) in
    if is_digit ch
    then (if overflows value ch then none else more)
    else some (value, consumed, ch ∷ rest)

-- ConsumeDecimalNumber; on false the caller does not use what it left.
unfoldable pub consume_decimal_number : List ℕ → Option (ℕ × List ℕ)
consume_decimal_number input = elim (digits_loop input 0 0) [
  | none ↦ none
  | some (value, consumed, rest) ↦ if consumed == 0 then none else some (value, rest)
]

-- %llu: the digits of a number below 10 ^ (k + 1).
unfoldable pub digits : ℕ → ℕ → List ℕ
digits zero n = (b'0' + n % 10) ∷ []
digits (suc k) n =
    let front = digits k (n / 10) in
    if ltb n 10 then (b'0' + n) ∷ [] else front ++ (b'0' + n % 10) ∷ []

-- A 64-bit number has at most 20 digits.
unfoldable pub number_to_string : ℕ → List ℕ
number_to_string num = digits 19 num

unfoldable pub append_number_to : List ℕ → ℕ → List ℕ
append_number_to str num = str ++ number_to_string num

-- %06llu
unfoldable pub padded_number : ℕ → List ℕ
padded_number num = let text = number_to_string num in replicate (6 - length text) b'0' ++ text

abbrev hex_digit : ℕ → ℕ
hex_digit d = if ltb d 10 then b'0' + d else b'a' + (d - 10)

-- The loop of appendEscapedStringTo; `c >= ' '` is false of the bytes from 128 on, which are negative.
unfoldable pub escaped : List ℕ → List ℕ
escaped [] = []
escaped (c ∷ value) =
    let rest = escaped value in
    if leb b' ' c && leb c b'~'
    then c ∷ rest
    else b'\\' ∷ b'x' ∷ hex_digit (c / 16) ∷ hex_digit (c % 16) ∷ rest

unfoldable pub escape_string : List ℕ → List ℕ
escape_string value = escaped value
