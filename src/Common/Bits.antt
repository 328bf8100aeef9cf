-- ===== src/Common/Bits.antt =====
-- The bit operations at variables: one step from the lowest digit, and what the masks and shifts of
-- the encoders come to.
use Prim.Native.Nat.{
  ℕ, zero, suc, ◌+◌, ◌*◌, ◌/◌, ◌%◌, ◌^◌, ◌≤◌, ◌<◌, min, max, bit_and, bit_or, digits,
  bit_and-bitwise, bit_or-bitwise,
}
use mathlib.Core.Path.{◌≡◌, refl, ap}
use native.Mathlib.Omega.{arith}
use native.Mathlib.Nat.{pow-suc}

-- The recursion on digits that both operations stand for, with fuel that covers the first number.
module _ (rest : ℕ → ℕ) (digit : ℕ → ℕ → ℕ) where
  enough_fuel : (x y k l : ℕ) → x ≤ l → x ≤ k → digits rest digit k x y ≡ digits rest digit l x y
  enough_fuel (suc x) y (suc k) (suc l) hl hk =
      omega (arith, enough_fuel (suc x / 2) (y / 2) k l (omega arith) (omega arith))
  enough_fuel (suc x) y (suc k) zero hl hk = absurd (omega arith)
  enough_fuel (suc x) y zero l hl hk = absurd (omega arith)
  enough_fuel zero y (suc k) (suc l) hl hk = refl
  enough_fuel zero y (suc k) zero hl hk = refl
  enough_fuel zero y zero (suc l) hl hk = refl
  enough_fuel zero y zero zero hl hk = refl

  -- One digit of a recursion that gets exactly the number for its fuel.
  first_digit :
      (x y : ℕ)
      → digits rest digit (suc x) (suc x) y
        ≡ digits rest digit (suc x / 2) (suc x / 2) (y / 2) * 2 + digit (suc x % 2) (y % 2)
  first_digit x y =
      omega (arith, enough_fuel (suc x / 2) (y / 2) x (suc x / 2) (omega arith) (omega arith))

zero-bit_and : (b : ℕ) → bit_and 0 b ≡ 0
zero-bit_and b = bit_and-bitwise 0 b

pub zero-bit_or : (b : ℕ) → bit_or 0 b ≡ b
zero-bit_or b = bit_or-bitwise 0 b

bit_and_step : (x y : ℕ) → bit_and x y ≡ bit_and (x / 2) (y / 2) * 2 + min (x % 2) (y % 2)
bit_and_step (suc x) y =
    let half = bit_and-bitwise (suc x / 2) (y / 2) in
    omega (arith, first_digit (λ t. zero) min x y, bit_and-bitwise (suc x) y, half)
bit_and_step zero y = omega (arith, zero-bit_and (y / 2), zero-bit_and y)

bit_or_step : (x y : ℕ) → bit_or x y ≡ bit_or (x / 2) (y / 2) * 2 + max (x % 2) (y % 2)
bit_or_step (suc x) y =
    let half = bit_or-bitwise (suc x / 2) (y / 2) in
    omega (arith, first_digit (λ t. t) max x y, bit_or-bitwise (suc x) y, half)
bit_or_step zero y = omega (arith, zero-bit_or (y / 2), zero-bit_or y)

bit_and-zero_below : (bound x : ℕ) → x < bound → bit_and x 0 ≡ 0
bit_and-zero_below (suc bound) (suc x) h =
    omega (arith, bit_and-zero_below bound (suc x / 2) (omega arith), bit_and_step (suc x) 0)
bit_and-zero_below (suc bound) zero h = refl
bit_and-zero_below zero x h = absurd (omega arith)

bit_and-zero : (x : ℕ) → bit_and x 0 ≡ 0
bit_and-zero x = bit_and-zero_below (suc x) x (omega arith)

bit_and_even : (a b : ℕ) → bit_and a (b * 2) ≡ bit_and (a / 2) b * 2
bit_and_even a b =
    let e : b * 2 / 2 ≡ b = omega arith in
    let m : b * 2 % 2 ≡ 0 = omega arith in
    omega (arith, bit_and_step a (b * 2), ap (bit_and (a / 2)) e)

bit_or_even : (a b : ℕ) → bit_or a (b * 2) ≡ bit_or (a / 2) b * 2 + a % 2
bit_or_even a b =
    let e : b * 2 / 2 ≡ b = omega arith in
    let m : b * 2 % 2 ≡ 0 = omega arith in
    omega (arith, bit_or_step a (b * 2), ap (bit_or (a / 2)) e)

-- x & 127, one digit at a time.
bit_and_one : (a : ℕ) → bit_and a 1 ≡ a % 2
bit_and_one a = omega (arith, bit_and-zero (a / 2), bit_and_step a 1)

bit_and_3 : (a : ℕ) → bit_and a 3 ≡ a % 4
bit_and_3 a = omega (arith, bit_and_step a 3, bit_and_one (a / 2))

bit_and_7 : (a : ℕ) → bit_and a 7 ≡ a % 8
bit_and_7 a = omega (arith, bit_and_step a 7, bit_and_3 (a / 2))

bit_and_15 : (a : ℕ) → bit_and a 15 ≡ a % 16
bit_and_15 a = omega (arith, bit_and_step a 15, bit_and_7 (a / 2))

bit_and_31 : (a : ℕ) → bit_and a 31 ≡ a % 32
bit_and_31 a = omega (arith, bit_and_step a 31, bit_and_15 (a / 2))

bit_and_63 : (a : ℕ) → bit_and a 63 ≡ a % 64
bit_and_63 a = omega (arith, bit_and_step a 63, bit_and_31 (a / 2))

pub bit_and_127 : (a : ℕ) → bit_and a 127 ≡ a % 128
bit_and_127 a = omega (arith, bit_and_step a 127, bit_and_63 (a / 2))

-- x & 128, one digit at a time.
bit_and_2 : (a : ℕ) → bit_and a 2 ≡ a / 2 % 2 * 2
bit_and_2 a = omega (arith, bit_and_even a 1, bit_and_one (a / 2))

bit_and_4 : (a : ℕ) → bit_and a 4 ≡ a / 4 % 2 * 4
bit_and_4 a = omega (arith, bit_and_even a 2, bit_and_2 (a / 2))

bit_and_8 : (a : ℕ) → bit_and a 8 ≡ a / 8 % 2 * 8
bit_and_8 a = omega (arith, bit_and_even a 4, bit_and_4 (a / 2))

bit_and_16 : (a : ℕ) → bit_and a 16 ≡ a / 16 % 2 * 16
bit_and_16 a = omega (arith, bit_and_even a 8, bit_and_8 (a / 2))

bit_and_32 : (a : ℕ) → bit_and a 32 ≡ a / 32 % 2 * 32
bit_and_32 a = omega (arith, bit_and_even a 16, bit_and_16 (a / 2))

bit_and_64 : (a : ℕ) → bit_and a 64 ≡ a / 64 % 2 * 64
bit_and_64 a = omega (arith, bit_and_even a 32, bit_and_32 (a / 2))

pub bit_and_128 : (a : ℕ) → bit_and a 128 ≡ a / 128 % 2 * 128
bit_and_128 a = omega (arith, bit_and_even a 64, bit_and_64 (a / 2))

-- x | 128 and its low byte.
bit_or-zero_below : (bound x : ℕ) → x < bound → bit_or x 0 ≡ x
bit_or-zero_below (suc bound) (suc x) h =
    omega (arith, bit_or-zero_below bound (suc x / 2) (omega arith), bit_or_step (suc x) 0)
bit_or-zero_below (suc bound) zero h = refl
bit_or-zero_below zero x h = absurd (omega arith)

pub bit_or-zero : (x : ℕ) → bit_or x 0 ≡ x
bit_or-zero x = bit_or-zero_below (suc x) x (omega arith)

bit_or_one : (a : ℕ) → bit_or a 1 ≡ a / 2 * 2 + 1
bit_or_one a = omega (arith, bit_or_step a 1, bit_or-zero (a / 2))

bit_or_2 : (a : ℕ) → bit_or a 2 ≡ a / 4 * 4 + a % 2 + 2
bit_or_2 a = omega (arith, bit_or_even a 1, bit_or_one (a / 2))

bit_or_4 : (a : ℕ) → bit_or a 4 ≡ a / 8 * 8 + a % 4 + 4
bit_or_4 a = omega (arith, bit_or_even a 2, bit_or_2 (a / 2))

bit_or_8 : (a : ℕ) → bit_or a 8 ≡ a / 16 * 16 + a % 8 + 8
bit_or_8 a = omega (arith, bit_or_even a 4, bit_or_4 (a / 2))

bit_or_16 : (a : ℕ) → bit_or a 16 ≡ a / 32 * 32 + a % 16 + 16
bit_or_16 a = omega (arith, bit_or_even a 8, bit_or_8 (a / 2))

bit_or_32 : (a : ℕ) → bit_or a 32 ≡ a / 64 * 64 + a % 32 + 32
bit_or_32 a = omega (arith, bit_or_even a 16, bit_or_16 (a / 2))

bit_or_64 : (a : ℕ) → bit_or a 64 ≡ a / 128 * 128 + a % 64 + 64
bit_or_64 a = omega (arith, bit_or_even a 32, bit_or_32 (a / 2))

pub bit_or_128 : (a : ℕ) → bit_or a 128 % 256 ≡ a % 128 + 128
bit_or_128 a = omega (arith, bit_or_even a 64, bit_or_64 (a / 2))

-- r | (x << k), where r lies below the shifted bits.
pub bit_or_shifted : (k r x : ℕ) → r < 2 ^ k → bit_or r (x * 2 ^ k) ≡ r + x * 2 ^ k
bit_or_shifted zero r x h = let e : r ≡ 0 = omega arith in rw (e, zero-bit_or) (omega arith)
bit_or_shifted (suc k) r x h =
    let p : 2 ^ suc k ≡ 2 ^ k * 2 = pow-suc 2 k in
    let q : x * 2 ^ suc k ≡ x * 2 ^ k * 2 = omega (arith, ap (λ (t : ℕ). x * t) p) in
    rw (q, bit_or_even) (omega (arith, bit_or_shifted k (r / 2) x (omega arith)))

-- (x << k) | r, where r lies below the shifted bits.
pub shifted_bit_or : (k x r : ℕ) → r < 2 ^ k → bit_or (x * 2 ^ k) r ≡ x * 2 ^ k + r
shifted_bit_or zero x r h = let e : r ≡ 0 = omega arith in rw (e, bit_or-zero) (omega arith)
shifted_bit_or (suc k) x r h =
    let p : 2 ^ suc k ≡ 2 ^ k * 2 = pow-suc 2 k in
    let q : x * 2 ^ suc k ≡ x * 2 ^ k * 2 = omega (arith, ap (λ (t : ℕ). x * t) p) in
    let half : x * 2 ^ k * 2 / 2 ≡ x * 2 ^ k = omega arith in
    let odd : x * 2 ^ k * 2 % 2 ≡ 0 = omega arith in
    rw (q, bit_or_step)
      (omega
        (arith, ap (λ (t : ℕ). bit_or t (r / 2)) half, shifted_bit_or k x (r / 2) (omega arith)))

-- x | y has the bits of both, and no more places.
bit_or-ge_below : (bound x y : ℕ) → x ≤ bound → y ≤ bound → (x ≤ bit_or x y) × (y ≤ bit_or x y)
bit_or-ge_below zero x y hx hy =
    let a : x ≡ 0 = omega arith in
    let b : y ≡ 0 = omega arith in rw (a, b) (omega (arith, zero-bit_or 0))
bit_or-ge_below (suc bound) x y hx hy =
    let half = bit_or-ge_below bound (x / 2) (y / 2) (omega arith) (omega arith) in
    omega (arith, half.0, half.1, bit_or_step x y)

pub bit_or-ge : (x y : ℕ) → (x ≤ bit_or x y) × (y ≤ bit_or x y)
bit_or-ge x y = bit_or-ge_below (x + y) x y (omega arith) (omega arith)

pub bit_or-lt : (k x y : ℕ) → x < 2 ^ k → y < 2 ^ k → bit_or x y < 2 ^ k
bit_or-lt zero x y hx hy =
    let a : x ≡ 0 = omega arith in
    let b : y ≡ 0 = omega arith in rw (a, b) (omega (arith, zero-bit_or 0))
bit_or-lt (suc k) x y hx hy =
    let p : 2 ^ suc k ≡ 2 ^ k * 2 = pow-suc 2 k in
    omega (arith, p, bit_or_step x y, bit_or-lt k (x / 2) (y / 2) (omega arith) (omega arith))
