-- ===== src/Output/Clock.antt =====
-- The width of the times that `print_packet` of crates/netdump-cli/src/main.rs prints.
use native.Mathlib.Nat.{pow-suc}
use netdump.Base.{
  ℕ, zero, suc, ◌+◌, ◌-◌, ◌/◌, ◌%◌, ◌^◌, ◌≤◌, ◌<◌, ◌≡◌, refl, ◌∙◌, List, [], ◌∷◌, ◌++◌, ◌==◌,
  Bool-cases, inl, inr, length, length-append, arith,
}
use netdump.Base.Text.{digits, decimal}
use netdump.Output.Stamp.{zeros, zero_padded, show_clock}

length-digits : (k j n : ℕ) → n < 10 ^ j → length (digits k n) ≤ j
length-digits zero j n h = omega arith
length-digits (suc k) zero n h = elim (Bool-cases (n == 0)) [
  | inl f ↦ rw f (omega arith)
  | inr f ↦ absurd (ground arith)
]
length-digits (suc k) (suc j) n h = elim (Bool-cases (n == 0)) [
  | inl f ↦ rw f (omega arith)
  | inr f ↦
      let less : n / 10 < 10 ^ j = omega (arith, h, pow-suc 10 j) in
      let more = length-digits k j (n / 10) less in
      let whole = length-append (digits k (n / 10)) ((48 + n % 10) ∷ []) in
      rw f (omega (arith, more, whole))
]

length-zeros : (n : ℕ) → length (zeros n) ≡ n
length-zeros zero = refl
length-zeros (suc n) = let rest = length-zeros n in omega arith

-- A number that has at most `w` digits is padded to `w` of them.
length-zero_padded : (w n : ℕ) → n < 10 ^ suc w → length (zero_padded (suc w) n) ≡ suc w
length-zero_padded w n h =
    let less : n / 10 < 10 ^ w = omega (arith, h, pow-suc 10 w) in
    let front = length-digits 19 w (n / 10) less in
    let text = length-append (digits 19 (n / 10)) ((48 + n % 10) ∷ []) in
    length-append (zeros (suc w - length (decimal n))) (decimal n)
    ∙ omega (arith, front, text, length-zeros (suc w - length (decimal n)))

length-joined :
    (xs ys : List ℕ) (c m n : ℕ)
    → length xs ≡ m
    → length ys ≡ n
    → length (xs ++ (c ∷ ys)) ≡ m + (1 + n)
length-joined xs ys c m n h g = let whole = length-append xs (c ∷ ys) in omega (arith, whole, h, g)

-- The time of day is fifteen characters wide, for every second and for less than a million
-- microseconds.
pub length-show_clock : (sec usec : ℕ) → usec < 1_000_000 → length (show_clock sec usec) ≡ 15
length-show_clock sec usec h =
    length-joined _ _ 58 2 12 (length-zero_padded 1 (sec / 3600 % 24) (omega arith)) (
      length-joined _ _ 58 2 9 (length-zero_padded 1 (sec / 60 % 60) (omega arith)) (
        length-joined _ _ 46 2 6 (length-zero_padded 1 (sec % 60) (omega arith))
          (length-zero_padded 5 usec (omega arith))))
