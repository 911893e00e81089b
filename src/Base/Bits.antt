-- ===== src/Base/Bits.antt =====
-- Bounds on `&`, `|` and `^`, from the recursion on binary digits that they stand for.
use Prim.Native.Nat.{
  ℕ, zero, suc, ◌+◌, ◌*◌, ◌/◌, ◌%◌, ◌^◌, ◌≤◌, ◌<◌, min, max, differ, bit_and, bit_or, bit_xor,
  digits, bit_and-bitwise, bit_or-bitwise, bit_xor-bitwise,
}
use mathlib.Core.Path.{◌≡◌, refl}
use native.Mathlib.Nat.{pow-suc}
use native.Mathlib.Omega.{arith}

-- An operation whose digits are bits stays within the width of its operands.
digits-lt :
    (z : ℕ → ℕ) (f : ℕ → ℕ → ℕ)
    → ((b : ℕ) → z b ≤ b)
    → ((a b : ℕ) → a < 2 → b < 2 → f a b < 2)
    → (n w a b : ℕ) → a < 2 ^ w
    → b < 2 ^ w
    → digits z f n a b < 2 ^ w
digits-lt z f hz hf zero w a b ha hb = omega (arith, hz b)
digits-lt z f hz hf (suc n) w zero b ha hb = omega (arith, hz b)
digits-lt z f hz hf (suc n) zero (suc a) b ha hb = absurd (omega arith)
digits-lt z f hz hf (suc n) (suc w) (suc a) b ha hb =
    let p = pow-suc 2 w in
    omega (
      arith,
      p,
      digits-lt z f hz hf n w (suc a / 2) (b / 2) (omega (arith, p)) (omega (arith, p)),
      hf (suc a % 2) (b % 2) (omega arith) (omega arith),
    )

differ-le : (x y : ℕ) → differ x y ≤ max x y
differ-le zero y = omega arith
differ-le (suc x) zero = omega arith
differ-le (suc x) (suc y) = omega (arith, differ-le x y)

pub bit_or-lt : (w a b : ℕ) → a < 2 ^ w → b < 2 ^ w → bit_or a b < 2 ^ w
bit_or-lt w a b ha hb =
    rw bit_or-bitwise
      (digits-lt (λ y. y) max (λ y. omega arith) (λ x y p q. omega arith) a w a b ha hb)

pub bit_xor-lt : (w a b : ℕ) → a < 2 ^ w → b < 2 ^ w → bit_xor a b < 2 ^ w
bit_xor-lt w a b ha hb = rw bit_xor-bitwise (
    digits-lt (λ y. y) differ (λ y. omega arith) (λ x y p q. omega (arith, differ-le x y)) a w a b
      ha hb)

-- Masking takes bits away.
pub bit_and-le : (a b : ℕ) → bit_and a b ≤ a
bit_and-le a b = rw bit_and-bitwise (go a a b (omega arith))
  where
    go : (n a b : ℕ) → a ≤ n → digits (λ y. 0) min n a b ≤ a
    go zero a b h = omega arith
    go (suc n) zero b h = omega arith
    go (suc n) (suc a) b h = omega (arith, go n (suc a / 2) (b / 2) (omega arith))

-- The digits of `&` do not depend on the count, once it covers the first number.
and_count : (n k a b : ℕ) → a ≤ n → a ≤ k → digits (λ y. 0) min n a b ≡ digits (λ y. 0) min k a b
and_count zero zero a b p q = refl
and_count zero (suc k) zero b p q = refl
and_count zero (suc k) (suc a) b p q = absurd (omega arith)
and_count (suc n) zero zero b p q = refl
and_count (suc n) zero (suc a) b p q = absurd (omega arith)
and_count (suc n) (suc k) zero b p q = refl
and_count (suc n) (suc k) (suc a) b p q =
    omega (arith, and_count n k (suc a / 2) (b / 2) (omega arith) (omega arith))

-- The lowest digit of `&`, and the others.
pub and_lowest : (a b : ℕ) → bit_and a b ≡ bit_and (a / 2) (b / 2) * 2 + min (a % 2) (b % 2)
and_lowest zero b = omega (arith, bit_and-bitwise 0 b, bit_and-bitwise 0 (b / 2))
and_lowest (suc a) b = omega (
  arith,
  bit_and-bitwise (suc a) b,
  bit_and-bitwise (suc a / 2) (b / 2),
  and_count a (suc a / 2) (suc a / 2) (b / 2) (omega arith) (omega arith),
)

-- Masking twice is masking once.
pub bit_and_twice : (a m : ℕ) → bit_and (bit_and a m) m ≡ bit_and a m
bit_and_twice a m = go a a m (omega arith)
  where
    go : (n a m : ℕ) → a ≤ n → bit_and (bit_and a m) m ≡ bit_and a m
    go n zero m h = omega (arith, bit_and-bitwise 0 m, bit_and-le (bit_and 0 m) m)
    go zero (suc a) m h = absurd (omega arith)
    go (suc n) (suc a) m h =
        let c = bit_and (suc a) m in
        let low : c ≡ bit_and (suc a / 2) (m / 2) * 2 + min (suc a % 2) (m % 2) =
          and_lowest (suc a) m in
        let half : c / 2 ≡ bit_and (suc a / 2) (m / 2) = omega arith in
        let again : bit_and (c / 2) (m / 2) ≡ bit_and (suc a / 2) (m / 2) =
          rw half (go n (suc a / 2) (m / 2) (omega arith)) in
        omega (arith, and_lowest c m)
