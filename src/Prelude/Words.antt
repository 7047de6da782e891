-- ===== src/Prelude/Words.antt =====
-- Binary digits of the native numbers: `|`, `&`, `^`, `&^` and the test of one bit, at any width.
use Prim.Native.Nat.{
  ℕ, zero, suc, ◌+◌, ◌-◌, ◌*◌, ◌/◌, ◌%◌, ◌^◌, ◌≤◌, ◌<◌, differ, min, max, bit_and, bit_or, bit_xor,
  bitwise, digits, bit_and-bitwise, bit_or-bitwise, bit_xor-bitwise,
}
use mathlib.Core.Path.{◌≡◌, refl, ap}
use mathlib.Core.Bool.{Bool, false, ◌&&◌, ◌||◌, not}
use native.Mathlib.Nat.{le_refl, pow-suc}
use native.Mathlib.Omega.{arith}
use specforge.Prelude.Tests.{eqb}

-- The recursion on digits needs no more fuel than its first number.
module _ (z : ℕ → ℕ) (f : ℕ → ℕ → ℕ) where
  digits_enough : (n m a b : ℕ) → a ≤ n → a ≤ m → digits z f n a b ≡ digits z f m a b
  digits_enough zero zero a b p q = refl
  digits_enough zero (suc m) zero b p q = refl
  digits_enough zero (suc m) (suc a) b p q = elim p [ ]
  digits_enough (suc n) zero zero b p q = refl
  digits_enough (suc n) zero (suc a) b p q = elim q [ ]
  digits_enough (suc n) (suc m) zero b p q = refl
  digits_enough (suc n) (suc m) (suc a) b p q =
      omega (arith, digits_enough n m (suc a / 2) (b / 2) (omega arith) (omega arith))

  bitwise_step :
      (a b : ℕ)
      → bitwise z f (suc a) b ≡ bitwise z f (suc a / 2) (b / 2) * 2 + f (suc a % 2) (b % 2)
  bitwise_step a b =
      omega (arith, digits_enough a (suc a / 2) (suc a / 2) (b / 2) (omega arith) (le_refl _))

or_step : (a b : ℕ) → bit_or a b ≡ bit_or (a / 2) (b / 2) * 2 + max (a % 2) (b % 2)
or_step zero b = simp bit_or-bitwise (omega arith)
or_step (suc a) b = simp bit_or-bitwise (bitwise_step (λ b. b) max a b)

and_step : (a b : ℕ) → bit_and a b ≡ bit_and (a / 2) (b / 2) * 2 + min (a % 2) (b % 2)
and_step zero b = simp bit_and-bitwise (omega arith)
and_step (suc a) b = simp bit_and-bitwise (bitwise_step (λ b. zero) min a b)

-- `(x >> k) & 1 == 1`
unfoldable pub test_bit : ℕ → ℕ → Bool
test_bit x zero = eqb (x % 2) 1
test_bit x (suc k) = test_bit (x / 2) k

pub test_bit-zero : (k : ℕ) → test_bit 0 k ≡ false
unfolding test_bit
test_bit-zero zero = refl
test_bit-zero (suc k) = test_bit-zero k

or_half : (a b : ℕ) → bit_or a b / 2 ≡ bit_or (a / 2) (b / 2)
or_half a b = omega (arith, or_step a b)

and_half : (a b : ℕ) → bit_and a b / 2 ≡ bit_and (a / 2) (b / 2)
and_half a b = omega (arith, and_step a b)

pub test_bit-or : (a b k : ℕ) → test_bit (bit_or a b) k ≡ (test_bit a k || test_bit b k)
unfolding test_bit
test_bit-or a b zero = ground (arith, or_step a b)
test_bit-or a b (suc k) = rw (or_half a b) (test_bit-or (a / 2) (b / 2) k)

pub test_bit-and : (a b k : ℕ) → test_bit (bit_and a b) k ≡ (test_bit a k && test_bit b k)
unfolding test_bit
test_bit-and a b zero = ground (arith, and_step a b)
test_bit-and a b (suc k) = rw (and_half a b) (test_bit-and (a / 2) (b / 2) k)

xor_step : (a b : ℕ) → bit_xor a b ≡ bit_xor (a / 2) (b / 2) * 2 + differ (a % 2) (b % 2)
xor_step zero b = simp bit_xor-bitwise (omega arith)
xor_step (suc a) b = simp bit_xor-bitwise (bitwise_step (λ b. b) differ a b)

differ-min : (x y : ℕ) → x < 2 → y < 2 → differ x (min x y) ≡ x - y
differ-min zero y h k = omega arith
differ-min (suc zero) zero h k = refl
differ-min (suc zero) (suc zero) h k = refl
differ-min (suc zero) (suc (suc y)) h k = absurd (omega arith)
differ-min (suc (suc x)) y h k = absurd (omega arith)

differ_lt : (x y : ℕ) → x < 2 → y < 2 → differ x y < 2
differ_lt zero y h k = k
differ_lt (suc zero) zero h k = h
differ_lt (suc zero) (suc zero) h k = omega arith
differ_lt (suc zero) (suc (suc y)) h k = absurd (omega arith)
differ_lt (suc (suc x)) y h k = absurd (omega arith)

-- Go's `a &^ b`.
unfoldable pub and_not : ℕ → ℕ → ℕ
and_not a b = bit_xor a (bit_and a b)

and_not_half : (a b : ℕ) → and_not a b / 2 ≡ and_not (a / 2) (b / 2)
unfolding and_not
and_not_half a b = rw (← and_half a b) (
    omega (
      arith,
      xor_step a (bit_and a b),
      differ_lt (a % 2) (bit_and a b % 2) (omega arith) (omega arith),
    ))

and_not_low : (a b : ℕ) → and_not a b % 2 ≡ a % 2 - b % 2
unfolding and_not
and_not_low a b =
    let low : bit_and a b % 2 ≡ min (a % 2) (b % 2) = omega (arith, and_step a b) in
    omega (
      arith,
      xor_step a (bit_and a b),
      ap (differ (a % 2)) low,
      differ-min (a % 2) (b % 2) (omega arith) (omega arith),
      differ_lt (a % 2) (bit_and a b % 2) (omega arith) (omega arith),
    )

pub test_bit-and_not : (a b k : ℕ) → test_bit (and_not a b) k ≡ (test_bit a k && not (test_bit b k))
unfolding test_bit
test_bit-and_not a b zero = ground (arith, and_not_low a b)
test_bit-and_not a b (suc k) = rw (and_not_half a b) (test_bit-and_not (a / 2) (b / 2) k)

pub test_bit-two_pow : (k j : ℕ) → test_bit (2 ^ k) j ≡ eqb j k
unfolding test_bit
test_bit-two_pow zero zero = refl
test_bit-two_pow zero (suc j) = ground (arith, test_bit-zero j)
test_bit-two_pow (suc k) zero = ground (arith, pow-suc 2 k)
test_bit-two_pow (suc k) (suc j) =
    let half : 2 ^ suc k / 2 ≡ 2 ^ k = omega (arith, pow-suc 2 k) in
    rw half (ground (arith, test_bit-two_pow k j))

and-zero : (a : ℕ) (n : ℕ) → a ≤ n → bit_and a 0 ≡ 0
and-zero zero n h = omega (arith, and_step 0 0)
and-zero (suc a) zero h = absurd (omega arith)
and-zero (suc a) (suc n) h = omega (arith, and_step (suc a) 0, and-zero (suc a / 2) n (omega arith))

-- `x & (1 << k) != 0` tests bit k.
pub and_mask : (k x : ℕ) → not (eqb (bit_and x (2 ^ k)) 0) ≡ test_bit x k
unfolding test_bit
and_mask zero x = ground (arith, and_step x 1, and-zero (x / 2) (x / 2))
and_mask (suc k) x =
    let half : 2 ^ suc k / 2 ≡ 2 ^ k = omega (arith, pow-suc 2 k) in
    let low : 2 ^ suc k % 2 ≡ 0 = omega (arith, pow-suc 2 k) in
    let step : bit_and x (2 ^ suc k) ≡ bit_and (x / 2) (2 ^ k) * 2 =
      omega (arith, and_step x (2 ^ suc k), ap (bit_and (x / 2)) half) in
    ground (arith, and_mask k (x / 2), step)
