-- ===== src/Base/Powers.antt =====
-- Powers of two, and the masks that keep the high bits of a word.
use Prim.Native.Nat.{ℕ, zero, suc, ◌+◌, ◌-◌, ◌*◌, ◌/◌, ◌%◌, ◌^◌, ◌≤◌, ◌<◌, bit_and}
use mathlib.Core.Path.{◌≡◌, sym, ap, ◌∙◌}
use mathlib.Core.Logic.{inl, inr}
use native.Mathlib.Nat.{
  pow-suc, one-le-pow, div-div-eq-div-mul, mul_assoc, mod-eq_of_lt, add-mod, mod_self,
}
use native.Mathlib.Omega.{arith}
use netdump.Base.Tests.{Bool-cases, leb, leb→le}
use netdump.Base.Bits.{and_lowest, bit_and-le}

-- What `& !(2^k - 1)` does to a word of `w` bits.
pub mask_high : (w k v : ℕ) → k ≤ w → v < 2 ^ w → bit_and v (2 ^ w - 2 ^ k) ≡ v / 2 ^ k * 2 ^ k
mask_high zero zero v h l = omega (arith, bit_and-le v (2 ^ zero - 2 ^ zero))
mask_high zero (suc k) v h l = absurd (omega arith)
mask_high (suc w) zero v h l =
    let p = pow-suc 2 w in
    let some_bit = one-le-pow w 2 (omega arith) in
    let half : (2 ^ suc w - 2 ^ zero) / 2 ≡ 2 ^ w - 2 ^ zero = omega (arith, p, some_bit) in
    let ih = mask_high w zero (v / 2) (omega arith) (omega (arith, p)) in
    let same = ap (λ (m : ℕ). bit_and (v / 2) m) half in
    omega (arith, and_lowest v (2 ^ suc w - 2 ^ zero), same, ih, p, some_bit)
mask_high (suc w) (suc k) v h l =
    let p = pow-suc 2 w in
    let q = pow-suc 2 k in
    let half : (2 ^ suc w - 2 ^ suc k) / 2 ≡ 2 ^ w - 2 ^ k = omega (arith, p, q) in
    let ih = mask_high w k (v / 2) (omega arith) (omega (arith, p)) in
    let same = ap (λ (m : ℕ). bit_and (v / 2) m) half in
    let pair : 2 * 2 ^ k ≡ 2 ^ suc k = omega (arith, q) in
    let outer : v / 2 / 2 ^ k ≡ v / 2 ^ suc k =
      div-div-eq-div-mul v 2 (2 ^ k) ∙ ap (λ (m : ℕ). v / m) pair in
    let whole : v / 2 ^ suc k * 2 ^ suc k ≡ v / 2 ^ suc k * 2 ^ k * 2 =
      ap (λ (m : ℕ). v / 2 ^ suc k * m) q ∙ sym (mul_assoc (v / 2 ^ suc k) (2 ^ k) 2) in
    omega (
      arith,
      and_lowest v (2 ^ suc w - 2 ^ suc k),
      same,
      ih,
      ap (λ (m : ℕ). m * 2 ^ k) outer,
      whole,
      p,
      q,
    )

-- A larger power of two is a multiple of a smaller one.
pub pow-mod : (k n : ℕ) → k ≤ n → 2 ^ n % 2 ^ k ≡ 0
pow-mod k zero h = ap (λ (m : ℕ). 2 ^ zero % 2 ^ m) (let at : k ≡ 0 = omega arith in at)
pow-mod k (suc n) h = elim (Bool-cases (leb k n)) [
  | inl e ↦
      let ih = pow-mod k n (leb→le k n e) in
      let none_left : 0 % 2 ^ k ≡ 0 = mod-eq_of_lt (one-le-pow k 2 (omega arith)) in
      let doubled : 2 ^ suc n ≡ 2 ^ n + 2 ^ n = omega (arith, pow-suc 2 n) in
      ap (λ (m : ℕ). m % 2 ^ k) doubled
      ∙ add-mod (2 ^ n) (2 ^ n) (2 ^ k)
      ∙ (λ i. (ih i + ih i) % 2 ^ k)
      ∙ none_left
  | inr e ↦
      let at : k ≡ suc n = ground arith in
      ap (λ (m : ℕ). 2 ^ suc n % 2 ^ m) at ∙ mod_self (2 ^ suc n)
]
