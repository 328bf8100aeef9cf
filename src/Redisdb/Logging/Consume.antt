-- ===== src/Redisdb/Logging/Consume.antt =====
-- What ConsumeDecimalNumber accepts (redisdb/db/logging.cc).
use cpp_swiss_army_knife.Common.{
  ℕ, suc, ◌+◌, ◌-◌, ◌*◌, ◌%◌, ◌^◌, ◌≤◌, ◌<◌, ◌≡◌, refl, sym, ap, ◌∙◌, subst, ◌↔◌, true, false,
  Bool-cases, inl, inr, List, [], ◌∷◌, ◌++◌, Option, none, some, ◌==◌, if◌then◌else◌, length,
  Option-cases, Bool, arith,
}
use cpp_swiss_army_knife.Redisdb.Logging.{is_digit, overflows, digits_loop, consume_decimal_number}
use cpp_swiss_army_knife.Redisdb.Logging.Decimal.{NoDigit, loop_end}

abbrev pub Digits : List ℕ → Type 0
Digits [] = Unit {0}
Digits (d ∷ ds) = (is_digit d ≡ true) × Digits ds

-- The number that digits behind those of v write, without a bound.
abbrev pub decimal : ℕ → List ℕ → ℕ
decimal v [] = v
decimal v (d ∷ ds) = decimal (v * 10 + (d - b'0')) ds

-- The input is at least one digit, then `rest`, and the digits write n.
abbrev pub IsNumber : List ℕ → ℕ → List ℕ → Type 0
IsNumber input n rest =
    (ds : List ℕ) × (input ≡ ds ++ rest)
    × (1 ≤ length ds)
    × Digits ds
    × NoDigit rest
    × (decimal 0 ds ≡ n)
    × (n < 2 ^ 64)

le-decimal : (v : ℕ) (ds : List ℕ) → v ≤ decimal v ds
le-decimal v [] = omega arith
le-decimal v (d ∷ ds) = omega (arith, le-decimal (v * 10 + (d - b'0')) ds)

fits : (v d : ℕ) → is_digit d ≡ true → v * 10 + (d - b'0') < 2 ^ 64 → overflows v d ≡ false
fits v d h b = ground arith

fits_back : (v d : ℕ) → is_digit d ≡ true → overflows v d ≡ false → v * 10 + (d - b'0') < 2 ^ 64
fits_back v d h o = ground arith

small : (n : ℕ) → n < 2 ^ 64 → n % 2 ^ 64 ≡ n
small n h = omega arith

loop_reads :
    (ds rest : List ℕ) (v consumed : ℕ)
    → Digits ds
    → NoDigit rest
    → decimal v ds < 2 ^ 64
    → digits_loop (ds ++ rest) v consumed ≡ some (decimal v ds, consumed + length ds, rest)
unfolding digits_loop
loop_reads [] rest v consumed h e b =
    let c : consumed ≡ consumed + 0 = omega arith in
    loop_end rest v consumed e ∙ ap (λ (k : ℕ). some (v, k, rest)) c
loop_reads (d ∷ ds) rest v consumed h e b =
    let w = v * 10 + (d - b'0') in
    let lt : w < 2 ^ 64 = omega (arith, le-decimal w ds) in
    let digit = h.0 in
    let fit = fits v d h.0 lt in
    let word = small w lt in
    let c : consumed + 1 + length ds ≡ consumed + suc (length ds) = omega arith in
    rw (digit, fit, word)
      (loop_reads ds rest w (consumed + 1) h.1 e b ∙ ap (λ (k : ℕ). some (decimal w ds, k, rest)) c)

-- What the loop has read.
abbrev Read : List ℕ → ℕ → ℕ → ℕ → ℕ → List ℕ → Type 0
Read input v consumed n k rest =
    (ds : List ℕ) × (input ≡ ds ++ rest)
    × Digits ds
    × NoDigit rest
    × (decimal v ds ≡ n)
    × (n < 2 ^ 64)
    × (k ≡ consumed + length ds)

abbrev ReadBy : List ℕ → ℕ → ℕ → Option (ℕ × ℕ × List ℕ) → Type 0
ReadBy input v consumed none = Unit {0}
ReadBy input v consumed (some (n, k, rest)) = Read input v consumed n k rest

more_read :
    (d : ℕ) (input : List ℕ) (v consumed : ℕ) (r : Option (ℕ × ℕ × List ℕ))
    → is_digit d ≡ true
    → ReadBy input (v * 10 + (d - b'0')) (consumed + 1) r
    → ReadBy (d ∷ input) v consumed r
more_read d input v consumed none h b = tt
more_read d input v consumed (some (n, k, rest)) h b =
    (d ∷ b.0, ap (λ (t : List ℕ). d ∷ t) b.1, (h, b.2), b.3, b.4, b.5, omega (arith, b.6))

loop_read :
    (input : List ℕ) (v consumed : ℕ)
    → v < 2 ^ 64
    → ReadBy input v consumed (digits_loop input v consumed)
unfolding digits_loop
loop_read [] v consumed b = ([], refl, tt, tt, refl, b, omega arith)
loop_read (d ∷ input) v consumed b = elim (Bool-cases (is_digit d)) [
  | inr e ↦ rw (e) ([], refl, tt, e, refl, b, omega arith)
  | inl e ↦ elim (Bool-cases (overflows v d)) [
    | inl o ↦ rw (e, o) tt
    | inr o ↦
        let w = v * 10 + (d - b'0') in
        let lt = fits_back v d e o in
        let word = small w lt in
        rw (e, o, word)
          (more_read d input v consumed (digits_loop input w (consumed + 1)) e
            (loop_read input w (consumed + 1) lt))
  ]
]

some_digits : (l : ℕ) → 1 ≤ l → (0 + l == 0) ≡ false
some_digits l h = ground arith

no_digits : (l : ℕ) → (0 + l == 0) ≡ false → 1 ≤ l
no_digits l h = ground arith

-- The end of ConsumeDecimalNumber, behind the loop.
abbrev finish : Option (ℕ × ℕ × List ℕ) → Option (ℕ × List ℕ)
finish none = none
finish (some (value, consumed, rest)) = if consumed == 0 then none else some (value, rest)

consume_loop : (input : List ℕ) → consume_decimal_number input ≡ finish (digits_loop input 0 0)
unfolding consume_decimal_number
consume_loop input = elim (Option-cases (digits_loop input 0 0)) [
  | inl e ↦ rw (e, consume_decimal_number) refl
  | inr (r, e) ↦ rw (e, consume_decimal_number) refl
]

taken : (b : Bool) (p q : ℕ × List ℕ) → b ≡ false → (if b then none else some p) ≡ some q → p ≡ q
taken b p q e h =
    let h' : some p ≡ some q = subst (λ (c : Bool). (if c then none else some p) ≡ some q) e h in cc

finish-IsNumber :
    (input : List ℕ) (r : Option (ℕ × ℕ × List ℕ)) (n : ℕ) (rest : List ℕ)
    → ReadBy input 0 0 r
    → finish r ≡ some (n, rest)
    → IsNumber input n rest
finish-IsNumber input none n rest b h = ground arith
finish-IsNumber input (some (m, k, left)) n rest b h = elim (Bool-cases (k == 0)) [
  | inl e ↦ ground arith
  | inr e ↦
      let same = taken (k == 0) (m, left) (n, rest) e h in
      (
        b.0,
        b.1 ∙ ap (λ (t : List ℕ). b.0 ++ t) (ap (λ (p : ℕ × List ℕ). p.1) same),
        no_digits (length b.0) (subst (λ (c : ℕ). (c == 0) ≡ false) b.6 e),
        b.2,
        subst NoDigit (ap (λ (p : ℕ × List ℕ). p.1) same) b.3,
        b.4 ∙ ap (λ (p : ℕ × List ℕ). p.0) same,
        subst (λ (c : ℕ). c < 2 ^ 64) (ap (λ (p : ℕ × List ℕ). p.0) same) b.5,
      )
]

-- ConsumeDecimalNumber returns true with a number and what it leaves exactly where the input is one
-- or more digits that write that number without a bound, followed by what is left, which starts
-- with no digit, and the number is below 2^64: so the test for an overflow, made before each digit,
-- refuses no number that fits and lets none through that does not.
pub consume_decimal_number_iff :
    (input : List ℕ) (n : ℕ) (rest : List ℕ)
    → (consume_decimal_number input ≡ some (n, rest)) ↔ IsNumber input n rest
consume_decimal_number_iff input n rest = (accepted, reads)
  where
    accepted : consume_decimal_number input ≡ some (n, rest) → IsNumber input n rest
    accepted h =
        finish-IsNumber input (digits_loop input 0 0) n rest (loop_read input 0 0 (omega arith))
          (sym (consume_loop input) ∙ h)

    reads : IsNumber input n rest → consume_decimal_number input ≡ some (n, rest)
    reads (ds, e, l, h, end, v, b) =
        let bound : decimal 0 ds < 2 ^ 64 = rw (v) b in
        let loop = ap (λ (t : List ℕ). digits_loop t 0 0) e ∙ loop_reads ds rest 0 0 h end bound in
        let some' = some_digits (length ds) l in
        consume_loop input ∙ ap finish loop ∙ rw (some', v) refl
