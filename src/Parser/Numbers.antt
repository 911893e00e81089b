-- ===== src/Parser/Numbers.antt =====
-- The numbers that the leaves of a filter expression give are in the range of their types.
use Prim.Native.String.{String, ◌∷◌ as ◌∷ₛ◌, [] as []ₛ}
use Prim.Native.Char.{code}
use netdump.Base.{
  ℕ, zero, suc, ◌+◌, ◌*◌, ◌≤◌, ◌<◌, ◌≡◌, refl, ◌∙◌, Bool, true, false, ◌==◌, ltb, leb, Option, none,
  some, List, [], ◌∷◌, length, length-set, set, byte_at, if◌then◌else◌, arith,
}
use netdump.Parser.Text.{
  Parsed, ParseError, ok, error, fail, shift_overflow, ◌>>=◌, map_err, parse_uint, digit_loop,
  add_digit, to_digit,
}
use netdump.Parser.Leaf.{mac_loop}

-- What a result is, where there is one.
abbrev pub Gives : {A : Type 0} → (A → Type 0) → Parsed A → Type 0
Gives P (ok a) = P a
Gives P (error e) = Unit
Gives P shift_overflow = Unit

module _ {A : Type 0} (P : A → Type 0) where
  pub Gives-bind :
      {B : Type 0} (Q : B → Type 0) (r : Parsed A) (k : A → Parsed B)
      → Gives P r
      → ((a : A) → P a → Gives Q (k a))
      → Gives Q (r >>= k)
  Gives-bind Q (ok a) k h g = g a h
  Gives-bind Q (error e) k h g = tt
  Gives-bind Q shift_overflow k h g = tt

  pub Gives-if : (b : Bool) (r t : Parsed A) → Gives P r → Gives P t → Gives P (if b then r else t)
  Gives-if true r t h g = h
  Gives-if false r t h g = g

  pub Gives-map_err : (s : String) (r : Parsed A) → Gives P r → Gives P (map_err s r)
  Gives-map_err s (ok a) h = h
  Gives-map_err s (error (ParseError.message e)) h = tt
  Gives-map_err s shift_overflow h = tt

-- Of a result that nothing is known of.
pub Gives-any : {A : Type 0} (r : Parsed A) → Gives (λ a. Unit) r
Gives-any (ok a) = tt
Gives-any (error e) = tt
Gives-any shift_overflow = tt

abbrev pub Below : ℕ → Parsed ℕ → Type 0
Below max = Gives (λ n. n ≤ max)

add_digit-Below : (radix max acc : ℕ) (o : Option ℕ) → Below max (add_digit radix max acc o)
add_digit-Below radix max acc none = tt
add_digit-Below radix max acc (some d) = go (ltb max (acc * radix + d)) refl
  where
    go :
        (b : Bool)
        → ltb max (acc * radix + d) ≡ b
        → Below max
            (if b then fail "number too large to fit in target type" else ok (acc * radix + d))
    go true e = tt
    go false e = ground arith

digit_loop-Below :
    (radix max acc : ℕ) (s : String) → acc ≤ max → Below max (digit_loop radix max acc s)
digit_loop-Below radix max acc []ₛ h = h
digit_loop-Below radix max acc (c ∷ₛ s) h =
    Gives-bind (λ n. n ≤ max) (λ n. n ≤ max) (add_digit radix max acc (to_digit radix (code c))) _
      (add_digit-Below radix max acc (to_digit radix (code c)))
      (λ next q. digit_loop-Below radix max next s q)

pub parse_uint-Below : (radix max : ℕ) (s : String) → Below max (parse_uint radix max s)
unfolding parse_uint
parse_uint-Below radix max []ₛ = tt
parse_uint-Below radix max (c ∷ₛ []ₛ) = digit_loop-Below radix max 0 (c ∷ₛ []ₛ) (omega arith)
parse_uint-Below radix max (c ∷ₛ (d ∷ₛ s)) =
    Gives-if (λ n. n ≤ max) (code c == 43) _ _ (digit_loop-Below radix max 0 (d ∷ₛ s) (omega arith))
      (digit_loop-Below radix max 0 (c ∷ₛ (d ∷ₛ s)) (omega arith))

abbrev pub IsMac : List ℕ → Type 0
IsMac octets =
    (length octets ≡ 6)
    × (byte_at octets 0 < 256)
    × (byte_at octets 1 < 256)
    × (byte_at octets 2 < 256)
    × (byte_at octets 3 < 256)
    × (byte_at octets 4 < 256)
    × (byte_at octets 5 < 256)

byte_at-set :
    (xs : List ℕ) (i v j : ℕ) → v < 256 → byte_at xs j < 256 → byte_at (set xs i v) j < 256
byte_at-set [] i v j h g = g
byte_at-set (x ∷ xs) zero v zero h g = h
byte_at-set (x ∷ xs) zero v (suc j) h g = g
byte_at-set (x ∷ xs) (suc i) v zero h g = g
byte_at-set (x ∷ xs) (suc i) v (suc j) h g = byte_at-set xs i v j h g

set-IsMac : (octets : List ℕ) (i v : ℕ) → v ≤ 255 → IsMac octets → IsMac (set octets i v)
set-IsMac octets i v h (n, a, b, c, d, e, f) =
    let w : v < 256 = omega arith in
    let at = λ (j : ℕ). byte_at-set octets i v j w in
    (length-set octets i v ∙ n, at 0 a, at 1 b, at 2 c, at 3 d, at 4 e, at 5 f)

pub mac_loop-IsMac :
    (i : ℕ) (octets : List ℕ) (parts : List String)
    → IsMac octets
    → Gives IsMac (mac_loop i octets parts)
mac_loop-IsMac i octets [] m = m
mac_loop-IsMac i octets (part ∷ parts) m =
    Gives-if IsMac (leb 6 i) (fail "MAC address exceeds 6 bytes") _ tt (
      Gives-bind (λ n. n ≤ 255) IsMac (map_err "invalid MAC: " (parse_uint 16 0xff part)) _
        (Gives-map_err (λ n. n ≤ 255) "invalid MAC: " _ (parse_uint-Below 16 0xff part))
        (λ octet h.
          mac_loop-IsMac (suc i) (set octets i octet) parts (set-IsMac octets i octet h m)))
