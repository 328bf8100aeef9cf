-- ===== src/Redisdb/Filename/Tests.antt =====
-- Runs of redisdb/db/logging.cc and filename.cc, and the theorems at concrete inputs.
use cpp_swiss_army_knife.Common.{◌≡◌, ◌↔◌, refl, List, ℕ, [], ◌∷◌, some, none, arith}
use cpp_swiss_army_knife.Redisdb.Logging.{
  consume_decimal_number, digits_loop, number_to_string, digits, padded_number, escape_string,
  escaped,
}
use cpp_swiss_army_knife.Redisdb.Logging.Consume.{IsNumber, consume_decimal_number_iff}
use cpp_swiss_army_knife.Redisdb.Filename.{log_file, parse_file_name, log_file_name, make_file_name}
use cpp_swiss_army_knife.Redisdb.Filename.Parsed.{a_log, within, parse_file_name-Owned}

-- "000007.log"
abbrev seven : List ℕ
seven = b'0' ∷ b'0' ∷ b'0' ∷ b'0' ∷ b'0' ∷ b'7' ∷ b'.' ∷ b'l' ∷ b'o' ∷ b'g' ∷ []

seven_name : log_file_name (b'd' ∷ []) 7 ≡ some (b'd' ∷ b'/' ∷ seven)
unfolding log_file_name make_file_name padded_number number_to_string digits
seven_name = refl

parse_file_name-Owned_example :
    parse_file_name (within (b'd' ∷ []) (b'd' ∷ b'/' ∷ seven)) ≡ some (7, log_file)
parse_file_name-Owned_example =
    parse_file_name-Owned (b'd' ∷ []) (b'd' ∷ b'/' ∷ seven) 7 log_file (omega arith)
      (a_log seven_name)

consume_decimal_number_iff_example :
    (consume_decimal_number seven ≡ some (7, b'.' ∷ b'l' ∷ b'o' ∷ b'g' ∷ []))
    ↔ IsNumber seven 7 (b'.' ∷ b'l' ∷ b'o' ∷ b'g' ∷ [])
consume_decimal_number_iff_example =
    consume_decimal_number_iff seven 7 (b'.' ∷ b'l' ∷ b'o' ∷ b'g' ∷ [])

-- 2^64 - 1 is read, and 2^64 is not.
greatest :
    consume_decimal_number (number_to_string 18446744073709551615) ≡ some (18446744073709551615, [])
unfolding consume_decimal_number digits_loop number_to_string digits
greatest = refl

too_great : consume_decimal_number (number_to_string 18446744073709551616) ≡ none
unfolding consume_decimal_number digits_loop number_to_string digits
too_great = refl

-- A byte that is not printed.
escaped_run : escape_string (b'a' ∷ 10 ∷ []) ≡ b'a' ∷ b'\\' ∷ b'x' ∷ b'0' ∷ b'a' ∷ []
unfolding escape_string escaped
escaped_run = refl
