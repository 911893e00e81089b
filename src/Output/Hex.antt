-- ===== src/Output/Hex.antt =====
-- `format_hex` and `format_hex_ascii` of crates/netdump-cli/src/main.rs. A text is the list of its
-- characters' numbers.
use netdump.Base.{
  ℕ, zero, suc, ◌+◌, ◌-◌, ◌*◌, ◌/◌, ◌%◌, ◌&&◌, List, [], ◌∷◌, ◌++◌, length, ltb, leb, ◌==◌,
  if◌then◌else◌,
}

abbrev pub hex_digit : ℕ → ℕ
hex_digit n = if ltb n 10 then 48 + n else 87 + n

-- `{b:02x}` of a byte.
abbrev pub hex_byte : ℕ → List ℕ
hex_byte b = hex_digit (b / 16) ∷ hex_digit (b % 16) ∷ []

-- `{n:04x}` of a number of at most sixteen digits: those in front of the last four only where they
-- are not all zeros.
abbrev pub hex_digits : ℕ → ℕ → List ℕ
hex_digits zero n = []
hex_digits (suc k) n = if n == 0 then [] else hex_digits k (n / 16) ++ (hex_digit (n % 16) ∷ [])

abbrev pub hex_offset : ℕ → List ℕ
hex_offset n =
    hex_digits 12 (n / 0x1_0000) ++ (hex_byte (n / 0x100 % 0x100) ++ hex_byte (n % 0x100))

abbrev pub spaces : ℕ → List ℕ
spaces zero = []
spaces (suc n) = 32 ∷ spaces n

-- What stands behind byte `j` of a line.
abbrev pub separator : ℕ → ℕ → List ℕ
separator bpl j = if j == bpl / 2 - 1 then spaces 2 else (if ltb j (bpl - 1) then spaces 1 else [])

-- The bytes of a line, from byte `j` on.
unfoldable pub hex_bytes : ℕ → ℕ → List ℕ → List ℕ
hex_bytes bpl j [] = []
hex_bytes bpl j (b ∷ chunk) = hex_byte b ++ (separator bpl j ++ hex_bytes bpl (j + 1) chunk)

abbrev pub missing_first : ℕ → ℕ → ℕ
missing_first bpl n = if ltb (bpl / 2) n then 0 else bpl / 2 - n

-- The padding of a line of `n` bytes.
abbrev pub padding : ℕ → ℕ → List ℕ
padding bpl n =
    if ltb n bpl
    then spaces (3 * missing_first bpl n)
      ++ ((if ltb (bpl / 2) n then spaces 2 else [])
          ++ spaces (3 * (bpl - n - missing_first bpl n)))
    else []

abbrev pub hex_columns : ℕ → List ℕ → List ℕ
hex_columns bpl chunk = hex_bytes bpl 0 chunk ++ padding bpl (length chunk)

-- `    {:04x}: `, the bytes and the padding of line `i`.
abbrev pub hex_line : ℕ → ℕ → List ℕ → List ℕ
hex_line bpl i chunk = spaces 4 ++ (hex_offset (i * bpl) ++ (58 ∷ 32 ∷ hex_columns bpl chunk))

abbrev pub ascii_or_dot : ℕ → ℕ
ascii_or_dot b = if leb 32 b && leb b 126 then b else 46

abbrev pub ascii_column : List ℕ → List ℕ
ascii_column [] = []
ascii_column (b ∷ chunk) = ascii_or_dot b ∷ ascii_column chunk

abbrev put_first : ℕ → List (List ℕ) → List (List ℕ)
put_first b [] = (b ∷ []) ∷ []
put_first b (c ∷ cs) = (b ∷ c) ∷ cs

-- The rest of `data.chunks(bpl)`, where `room` bytes still fit the chunk in hand.
abbrev pub chunk_loop : ℕ → ℕ → List ℕ → List (List ℕ)
chunk_loop bpl room [] = [] ∷ []
chunk_loop bpl zero (b ∷ bytes) = [] ∷ put_first b (chunk_loop bpl (bpl - 1) bytes)
chunk_loop bpl (suc room) (b ∷ bytes) = put_first b (chunk_loop bpl room bytes)

-- `data.chunks(bpl)`, for a `bpl` that is not 0.
abbrev pub chunks : ℕ → List ℕ → List (List ℕ)
chunks bpl [] = []
chunks bpl (b ∷ bytes) = chunk_loop bpl bpl (b ∷ bytes)

abbrev pub hex_lines : ℕ → ℕ → List (List ℕ) → List ℕ
hex_lines bpl i [] = []
hex_lines bpl i (chunk ∷ cs) = hex_line bpl i chunk ++ (10 ∷ hex_lines bpl (i + 1) cs)

abbrev pub format_hex : List ℕ → ℕ → List ℕ
format_hex bytes bpl = hex_lines bpl 0 (chunks bpl bytes)

abbrev pub hex_ascii_lines : ℕ → ℕ → List (List ℕ) → List ℕ
hex_ascii_lines bpl i [] = []
hex_ascii_lines bpl i (chunk ∷ cs) =
    hex_line bpl i chunk
    ++ (spaces 2 ++ (ascii_column chunk ++ (10 ∷ hex_ascii_lines bpl (i + 1) cs)))

abbrev pub format_hex_ascii : List ℕ → ℕ → List ℕ
format_hex_ascii bytes bpl = hex_ascii_lines bpl 0 (chunks bpl bytes)
