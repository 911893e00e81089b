-- ===== src/Output/Width.antt =====
-- The widths of the lines of a hex dump, and that its chunks are the data.
use netdump.Base.{
  ℕ, zero, suc, ◌+◌, ◌-◌, ◌*◌, ◌/◌, ◌≤◌, ◌<◌, ◌≡◌, refl, ap, Bool, List, [], ◌∷◌, ◌++◌, length,
  length-append, ltb, leb, ◌&&◌, ◌||◌, ◌==◌, if◌then◌else◌, arith,
}
use netdump.Output.Hex.{spaces, separator, hex_bytes, padding, hex_columns}

length-spaces : (n : ℕ) → length (spaces n) ≡ n
length-spaces zero = refl
length-spaces (suc n) = ap suc (length-spaces n)

abbrev one_if : Bool → ℕ
one_if b = if b then 1 else 0

length-separator :
    (half j : ℕ)
    → 2 ≤ half
    → j < 2 * half
    → length (separator (2 * half) j) + one_if (j + 1 == 2 * half) ≡ 1 + one_if (j + 1 == half)
length-separator half j h w =
    let middle : 2 * half / 2 ≡ half = omega arith in rw middle (ground arith)

-- The width of the bytes from `j` on: a byte has three columns, but one more where it is the last of
-- the first half, and one fewer where it is the last of the line.
length-hex_bytes :
    (half j : ℕ) (chunk : List ℕ)
    → 2 ≤ half
    → j + length chunk ≤ 2 * half
    → length (hex_bytes (2 * half) j chunk)
        + one_if (ltb j (2 * half) && (j + length chunk == 2 * half))
      ≡ 3 * length chunk + one_if (ltb j half && leb half (j + length chunk))
unfolding hex_bytes
length-hex_bytes half j [] h w = ground arith
length-hex_bytes half j (b ∷ chunk) h w =
    let rest = length-hex_bytes half (j + 1) chunk h (omega arith) in
    let sep = length-separator half j h (omega arith) in
    let both = length-append (separator (2 * half) j) (hex_bytes (2 * half) (j + 1) chunk) in
    ground (arith, rest, sep, both)

length-between : (a b : ℕ) (xs : List ℕ) → length (spaces a ++ (xs ++ spaces b)) ≡ a + length xs + b
length-between a b xs = omega (
  arith,
  length-append (spaces a) (xs ++ spaces b),
  length-append xs (spaces b),
  length-spaces a,
  length-spaces b,
)

length-padding :
    (half n : ℕ)
    → 2 ≤ half
    → n ≤ 2 * half
    → length (padding (2 * half) n)
      ≡ 3 * (2 * half - n) + (if ltb half n && ltb n (2 * half) then 2 else 0)
length-padding half n h w =
    let middle : 2 * half / 2 ≡ half = omega arith in
    let first = if ltb half n then 0 else half - n in
    rw middle (
      ground (
        arith,
        length-between (3 * first) (3 * (2 * half - n - first))
            (if ltb half n then spaces 2 else []),
      ))

-- The width of the part of a line in front of its characters, for an even number of bytes in a
-- line, of at least four: full lines and lines of less than half the bytes have three columns for
-- each byte that a line can have, a line of half the bytes one more, and any other three more.
pub length-hex_columns :
    (half : ℕ) (chunk : List ℕ)
    → 2 ≤ half
    → 0 < length chunk
    → length chunk ≤ 2 * half
    → length (hex_columns (2 * half) chunk)
      ≡ 6 * half
        + (if ltb (length chunk) half || (length chunk == 2 * half)
            then 0
            else (if length chunk == half then 1 else 3))
length-hex_columns half chunk h p w = ground (
  arith,
  length-hex_bytes half 0 chunk h (omega arith),
  length-padding half (length chunk) h w,
  length-append (hex_bytes (2 * half) 0 chunk) (padding (2 * half) (length chunk)),
)
