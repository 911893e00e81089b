-- ===== src/Parser/Text.antt =====
-- What crates/netdump-filter/src/lib.rs uses of strings, and the results of its functions: a
-- value, a `ParseError`, or the panic of a shift that is as wide as its number.
use Prim.Native.String.{String, ◌∷◌ as ◌∷ₛ◌, [] as []ₛ, ◌++◌ as ◌<>◌}
use Prim.Native.Char.{Char, code}
use netdump.Base.{
  ℕ, ◌+◌, ◌-◌, ◌*◌, Bool, true, false, ◌&&◌, Option, none, some, List, [], ◌∷◌, ltb, leb, ◌==◌,
  if◌then◌else◌,
}

pub data ParseError : Type 0 where
  message : String → ParseError

pub data Parsed {ℓ} (A : Type ℓ) : Type ℓ where
  ok : A → Parsed A
  error : ParseError → Parsed A
  shift_overflow : Parsed A

abbrev pub fail {ℓ} : {A : Type ℓ} → String → Parsed A
fail s = error (message s)

infixl 10 ◌>>=◌
abbrev pub ◌>>=◌ {ℓ κ} : {A : Type ℓ} {B : Type κ} → Parsed A → (A → Parsed B) → Parsed B
ok a >>= f = f a
error e >>= f = error e
shift_overflow >>= f = shift_overflow

-- `map_err(|e| ParseError(format!("<prefix>{e}")))`.
abbrev pub map_err {ℓ} : {A : Type ℓ} → String → Parsed A → Parsed A
map_err prefix (error (message e)) = fail (prefix <> e)
map_err prefix r = r

-- `to_ascii_lowercase` of a character's number.
abbrev pub lower : ℕ → ℕ
lower c = if leb 65 c && leb c 90 then c + 32 else c

abbrev pub eq_ignore_ascii_case : String → String → Bool
eq_ignore_ascii_case []ₛ []ₛ = true
eq_ignore_ascii_case []ₛ (d ∷ₛ t) = false
eq_ignore_ascii_case (c ∷ₛ s) []ₛ = false
eq_ignore_ascii_case (c ∷ₛ s) (d ∷ₛ t) =
    lower (code c) == lower (code d) && eq_ignore_ascii_case s t

-- `s.to_ascii_lowercase().starts_with(t)`.
abbrev pub lower_starts_with : String → String → Bool
lower_starts_with s []ₛ = true
lower_starts_with []ₛ (d ∷ₛ t) = false
lower_starts_with (c ∷ₛ s) (d ∷ₛ t) = lower (code c) == code d && lower_starts_with s t

abbrev pub str_eq : String → String → Bool
str_eq []ₛ []ₛ = true
str_eq []ₛ (d ∷ₛ t) = false
str_eq (c ∷ₛ s) []ₛ = false
str_eq (c ∷ₛ s) (d ∷ₛ t) = code c == code d && str_eq s t

-- `char::to_digit` for the radices 10 and 16.
abbrev pub to_digit : ℕ → ℕ → Option ℕ
to_digit radix c =
    if leb 48 c && leb c 57
    then some (c - 48)
    else (if radix == 16 && (leb 97 (lower c) && leb (lower c) 102)
        then some (lower c - 87)
        else none)

-- One digit behind a number of at most `max`.
abbrev pub add_digit : ℕ → ℕ → ℕ → Option ℕ → Parsed ℕ
add_digit radix max acc none = fail "invalid digit found in string"
add_digit radix max acc (some d) =
    if ltb max (acc * radix + d)
    then fail "number too large to fit in target type"
    else ok (acc * radix + d)

abbrev pub digit_loop : ℕ → ℕ → ℕ → String → Parsed ℕ
digit_loop radix max acc []ₛ = ok acc
digit_loop radix max acc (c ∷ₛ s) =
    add_digit radix max acc (to_digit radix (code c)) >>= λ next. digit_loop radix max next s

-- `from_str_radix` of an unsigned type: a sign `+` in front of a digit is passed over.
unfoldable pub parse_uint : ℕ → ℕ → String → Parsed ℕ
parse_uint radix max []ₛ = fail "cannot parse integer from empty string"
parse_uint radix max (c ∷ₛ []ₛ) = digit_loop radix max 0 (c ∷ₛ []ₛ)
parse_uint radix max (c ∷ₛ (d ∷ₛ s)) =
    if code c == 43 then digit_loop radix max 0 (d ∷ₛ s) else digit_loop radix max 0 (c ∷ₛ (d ∷ₛ s))

abbrev put_first : Char → List String → List String
put_first c [] = (c ∷ₛ []ₛ) ∷ []
put_first c (w ∷ ws) = (c ∷ₛ w) ∷ ws

-- `s.split(':')`.
abbrev pub split_colon : String → List String
split_colon []ₛ = []ₛ ∷ []
split_colon (c ∷ₛ s) =
    let rest = split_colon s in if code c == 58 then []ₛ ∷ rest else put_first c rest
