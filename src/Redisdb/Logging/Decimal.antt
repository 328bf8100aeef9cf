-- ===== src/Redisdb/Logging/Decimal.antt =====
-- ConsumeDecimalNumber against the numbers that snprintf prints (redisdb/db/logging.cc).
use cpp_swiss_army_knife.Common.{
  ℕ, zero, suc, ◌+◌, ◌-◌, ◌*◌, ◌/◌, ◌%◌, ◌^◌, ◌≤◌, ◌<◌, ◌≡◌, refl, ap, ◌∙◌, true, false, Bool-cases,
  inl, inr, List, [], ◌∷◌, ◌++◌, some, ltb, ◌==◌, length, replicate, length-append, append_assoc,
  arith,
}
use native.Mathlib.Nat.{pow-suc}
use cpp_swiss_army_knife.Redisdb.Logging.{
  is_digit, overflows, digits_loop, consume_decimal_number, digits, number_to_string, padded_number,
}

-- A text that does not go on with a digit.
abbrev pub NoDigit : List ℕ → Type 0
NoDigit [] = Unit {0}
NoDigit (ch ∷ rest) = is_digit ch ≡ false

pub loop_end :
    (rest : List ℕ) (value consumed : ℕ)
    → NoDigit rest
    → digits_loop rest value consumed ≡ some (value, consumed, rest)
unfolding digits_loop
loop_end [] value consumed h = refl
loop_end (ch ∷ rest) value consumed h = rw (h) refl

no_overflow : (n : ℕ) → n < 2 ^ 64 → overflows (n / 10) (b'0' + n % 10) ≡ false
no_overflow n h = ground arith

digit_is : (d : ℕ) → d < 10 → is_digit (b'0' + d) ≡ true
digit_is d h = ground arith

-- One digit behind those of n / 10.
loop_digit :
    (n consumed : ℕ) (rest : List ℕ)
    → n < 2 ^ 64
    → digits_loop ((b'0' + n % 10) ∷ rest) (n / 10) consumed ≡ digits_loop rest n (consumed + 1)
unfolding digits_loop
loop_digit n consumed rest h =
    let d = digit_is (n % 10) (omega arith) in
    let o = no_overflow n h in
    let v : (n / 10 * 10 + (b'0' + n % 10 - b'0')) % 2 ^ 64 ≡ n = omega arith in rw (d, o, v) refl

loop_small :
    (n consumed : ℕ) (rest : List ℕ)
    → n < 10
    → digits_loop ((b'0' + n) ∷ rest) 0 consumed ≡ digits_loop rest n (consumed + 1)
unfolding digits_loop
loop_small n consumed rest h =
    let d = digit_is n h in
    let v : (0 * 10 + (b'0' + n - b'0')) % 2 ^ 64 ≡ n = omega arith in rw (d, v) refl

loop-digits :
    (k n consumed : ℕ) (rest : List ℕ)
    → n < 10 ^ suc k
    → n < 2 ^ 64
    → digits_loop (digits k n ++ rest) 0 consumed
      ≡ digits_loop rest n (consumed + length (digits k n))
unfolding digits
loop-digits zero n consumed rest p h =
    let e : n % 10 ≡ n = omega arith in rw (e) (loop_small n consumed rest (omega arith))
loop-digits (suc k) n consumed rest p h = elim (Bool-cases (ltb n 10)) [
  | inl e ↦ rw (e) (loop_small n consumed rest (ground arith))
  | inr e ↦
      let pow : 10 ^ suc (suc k) ≡ 10 ^ suc k * 10 = pow-suc 10 (suc k) in
      let front = digits k (n / 10) in
      let last = b'0' + n % 10 in
      let count : consumed + length front + 1 ≡ consumed + length (front ++ last ∷ []) =
        omega (arith, length-append front (last ∷ [])) in
      rw (e) (
        ap (λ (t : List ℕ). digits_loop t 0 consumed) (append_assoc front (last ∷ []) rest)
        ∙ loop-digits k (n / 10) consumed (last ∷ rest) (omega (arith, pow)) (omega arith)
        ∙ loop_digit n (consumed + length front) rest h
        ∙ ap (λ (c : ℕ). digits_loop rest n c) count)
]

loop-zeros :
    (z consumed : ℕ) (rest : List ℕ)
    → digits_loop (replicate z b'0' ++ rest) 0 consumed ≡ digits_loop rest 0 (consumed + z)
unfolding digits_loop
loop-zeros zero consumed rest =
    let e : consumed ≡ consumed + 0 = omega arith in ap (digits_loop rest 0) e
loop-zeros (suc z) consumed rest =
    let e : consumed + 1 + z ≡ consumed + suc z = omega arith in
    loop-zeros z (consumed + 1) rest ∙ ap (digits_loop rest 0) e

length-digits : (k n : ℕ) → 1 ≤ length (digits k n)
unfolding digits
length-digits zero n = omega arith
length-digits (suc k) n = elim (Bool-cases (ltb n 10)) [
  | inl e ↦ rw (e) (omega arith)
  | inr e ↦ rw (e) (omega (arith, length-append (digits k (n / 10)) ((b'0' + n % 10) ∷ [])))
]

counted : (z l : ℕ) → 1 ≤ l → (0 + z + l == 0) ≡ false
counted z l h = ground arith

-- ConsumeDecimalNumber reads a printed 64-bit number, with any zeros in front, up to the first byte
-- that is no digit.
pub consume_decimal_number-zeros :
    (z n : ℕ) (rest : List ℕ)
    → n < 2 ^ 64
    → NoDigit rest
    → consume_decimal_number (replicate z b'0' ++ (number_to_string n ++ rest)) ≡ some (n, rest)
unfolding consume_decimal_number number_to_string
consume_decimal_number-zeros z n rest h d =
    let text = digits 19 n in
    let loop =
      loop-zeros z 0 (text ++ rest)
      ∙ loop-digits 19 n (0 + z) rest (omega arith) h
      ∙ loop_end rest n (0 + z + length text) d in
    let some_digit = counted z (length text) (length-digits 19 n) in
    rw (loop, consume_decimal_number) (rw (some_digit) refl)

pub consume_decimal_number-padded :
    (n : ℕ) (rest : List ℕ)
    → n < 2 ^ 64
    → NoDigit rest
    → consume_decimal_number (padded_number n ++ rest) ≡ some (n, rest)
unfolding padded_number
consume_decimal_number-padded n rest h d =
    let z = 6 - length (number_to_string n) in
    ap consume_decimal_number (append_assoc (replicate z b'0') (number_to_string n) rest)
    ∙ consume_decimal_number-zeros z n rest h d
