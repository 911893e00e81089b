-- ===== src/Output/ReadBack.antt =====
-- Reading the time stamps back that `print_packet` of crates/netdump-cli/src/main.rs prints.
use mathlib.Core.List.{append_assoc, append-nil}
use netdump.Base.{
  ℕ, zero, suc, ◌+◌, ◌-◌, ◌*◌, ◌/◌, ◌%◌, ◌^◌, ◌≤◌, ◌<◌, ◌≡◌, refl, sym, ap, ◌∙◌, Bool, true, false,
  Option, none, some, List, [], ◌∷◌, ◌++◌, leb, ◌&&◌, ◌==◌, if◌then◌else◌, length, arith,
}
use netdump.Base.Text.{digits, decimal}
use netdump.Core.{PacketMeta}
use netdump.Output.Names.{read, read-append, read-digits}
use netdump.Output.Stamp.{PktCtx, zeros, zero_padded, show_clock, show_date, show_time}
use netdump.Output.Date.{
  Date, days_in_year-bounds, month_days, month_length, sum_of, month_days-sum, days_before, IsDate,
  day_number,
}
use netdump.Output.Civil.{civil_days, epoch, dated}

abbrev is_digit : ℕ → Bool
is_digit c = leb 48 c && leb c 57

-- The numbers between the characters that are no digits, the first of them behind a number that is read.
abbrev pub fields : ℕ → List ℕ → List ℕ
fields n [] = n ∷ []
fields n (c ∷ s) =
    let more = fields (n * 10 + (c - 48)) s in
    let next = fields 0 s in if is_digit c then more else n ∷ next

abbrev AllDigits : List ℕ → Type 0
AllDigits [] = Unit
AllDigits (c ∷ s) = (is_digit c ≡ true) × AllDigits s

AllDigits-append : (s t : List ℕ) → AllDigits s → AllDigits t → AllDigits (s ++ t)
AllDigits-append [] t h g = g
AllDigits-append (c ∷ s) t (d, h) g = (d, AllDigits-append s t h g)

is_digit-last : (n : ℕ) → is_digit (48 + n % 10) ≡ true
is_digit-last n = ground arith

AllDigits-digits : (k n : ℕ) → AllDigits (digits k n)
AllDigits-digits zero n = tt
AllDigits-digits (suc k) n = go (n == 0) (AllDigits-digits k (n / 10))
  where
    go :
        (b : Bool)
        → AllDigits (digits k (n / 10))
        → AllDigits (if b then [] else digits k (n / 10) ++ ((48 + n % 10) ∷ []))
    go true h = tt
    go false h = AllDigits-append (digits k (n / 10)) ((48 + n % 10) ∷ []) h (is_digit-last n, tt)

AllDigits-zeros : (n : ℕ) → AllDigits (zeros n)
AllDigits-zeros zero = tt
AllDigits-zeros (suc n) = (refl, AllDigits-zeros n)

AllDigits-zero_padded : (w n : ℕ) → AllDigits (zero_padded w n)
AllDigits-zero_padded w n =
    AllDigits-append (zeros (w - length (decimal n))) (decimal n) (AllDigits-zeros _) (
      AllDigits-append (digits 19 (n / 10)) ((48 + n % 10) ∷ []) (AllDigits-digits 19 (n / 10))
        (is_digit-last n, tt))

read-zeros : (n : ℕ) → read 0 (zeros n) ≡ 0
read-zeros zero = refl
read-zeros (suc n) = read-zeros n

-- A padded number of at most twenty digits stands for the number.
read-zero_padded : (w n : ℕ) → n < 10 ^ 20 → read 0 (zero_padded w n) ≡ n
read-zero_padded w n h =
    let pad = zeros (w - length (decimal n)) in
    read-append 0 pad (decimal n)
    ∙ ap (λ (m : ℕ). read m (decimal n)) (read-zeros (w - length (decimal n)))
    ∙ read-append 0 (digits 19 (n / 10)) ((48 + n % 10) ∷ [])
    ∙ omega (arith, read-digits 19 (n / 10) (omega arith))

fields-append : (n : ℕ) (s t : List ℕ) → AllDigits s → fields n (s ++ t) ≡ fields (read n s) t
fields-append n [] t h = refl
fields-append n (c ∷ s) t (d, h) =
    ap (λ (b : Bool). if b then fields (n * 10 + (c - 48)) (s ++ t) else n ∷ fields 0 (s ++ t)) d
    ∙ fields-append (n * 10 + (c - 48)) s t h

-- A padded number in front of a character that is no digit is a field.
fields-zero_padded :
    (w n c : ℕ) (t : List ℕ)
    → n < 10 ^ 20
    → is_digit c ≡ false
    → fields 0 (zero_padded w n ++ (c ∷ t)) ≡ n ∷ fields 0 t
fields-zero_padded w n c t h d =
    fields-append 0 (zero_padded w n) (c ∷ t) (AllDigits-zero_padded w n)
    ∙ ap (λ (m : ℕ). fields m (c ∷ t)) (read-zero_padded w n h)
    ∙ ap (λ (b : Bool). if b then fields (n * 10 + (c - 48)) t else n ∷ fields 0 t) d

fields-joined :
    (w n c : ℕ) (t r : List ℕ)
    → n < 10 ^ 20
    → is_digit c ≡ false
    → fields 0 ((zero_padded w n ++ (c ∷ t)) ++ r) ≡ n ∷ fields 0 (t ++ r)
fields-joined w n c t r h d =
    ap (fields 0) (append_assoc (zero_padded w n) (c ∷ t) r) ∙ fields-zero_padded w n c (t ++ r) h d

fields-last : (w n : ℕ) → n < 10 ^ 20 → fields 0 (zero_padded w n) ≡ n ∷ []
fields-last w n h =
    ap (fields 0) (sym (append-nil (zero_padded w n)))
    ∙ fields-append 0 (zero_padded w n) [] (AllDigits-zero_padded w n)
    ∙ ap (λ (m : ℕ). m ∷ []) (read-zero_padded w n h)

-- The six numbers of a time: hours, minutes, seconds and microseconds.
fields-show_clock :
    (sec usec : ℕ)
    → usec < 1_000_000
    → fields 0 (show_clock sec usec) ≡ sec / 3600 % 24 ∷ sec / 60 % 60 ∷ sec % 60 ∷ usec ∷ []
fields-show_clock sec usec h =
    fields-zero_padded 2 (sec / 3600 % 24) 58 _ (omega arith) refl
    ∙ ap (λ (t : List ℕ). sec / 3600 % 24 ∷ t)
        (fields-zero_padded 2 (sec / 60 % 60) 58 _ (omega arith) refl
          ∙ ap (λ (t : List ℕ). sec / 60 % 60 ∷ t)
              (fields-zero_padded 2 (sec % 60) 46 _ (omega arith) refl
                ∙ ap (λ (t : List ℕ). sec % 60 ∷ t) (fields-last 6 usec (omega arith))))

fields-show_date :
    (y m d : ℕ) (r : List ℕ)
    → y < 10 ^ 20
    → m < 10 ^ 20
    → d < 10 ^ 20
    → fields 0 (show_date (some (y, m, d)) ++ r) ≡ y ∷ m ∷ d ∷ fields 0 r
fields-show_date y m d r a b c =
    fields-joined 4 y 45 _ r a refl
    ∙ ap (λ (t : List ℕ). y ∷ t)
        (fields-joined 2 m 45 _ r b refl
          ∙ ap (λ (t : List ℕ). m ∷ t) (fields-joined 2 d 32 [] r c refl))

-- A year has 365 days at least, and a month 366 at most.
days_before-le : (k : ℕ) → 365 * k ≤ days_before k
days_before-le zero = omega arith
days_before-le (suc k) =
    let rest = days_before-le k in
    let year = (days_in_year-bounds (1970 + k)).0 in omega (arith, rest, year)

month_length-le : (j : ℕ) (mds : List ℕ) → month_length j mds ≤ sum_of (length mds) mds
month_length-le j [] = omega arith
month_length-le zero (md ∷ mds) = omega arith
month_length-le (suc j) (md ∷ mds) = let rest = month_length-le j mds in omega (arith, rest)

IsDate-small :
    (y m d : ℕ) → IsDate (y, m, d) → 365 * (y - 1970) ≤ day_number (y, m, d) × (m ≤ 12) × (d ≤ 366)
IsDate-small y m d (late, first, last, some_day, fits) =
    let (l, whole) = month_days-sum y in
    let month = month_length-le (m - 1) (month_days y) in
    let year = (days_in_year-bounds y).1 in
    let sum = ap (λ (n : ℕ). sum_of n (month_days y)) l in
    (omega (arith, days_before-le (y - 1970)), last, omega (arith, fits, month, sum, whole, year))

-- The seconds from the epoch and the microseconds that the numbers of a time stamp stand for, by the
-- Gregorian calendar in closed form.
abbrev pub stamp_of : List ℕ → Option (ℕ × ℕ)
stamp_of (y ∷ m ∷ d ∷ h ∷ mi ∷ s ∷ us ∷ []) =
    some ((civil_days (y, m, d) - epoch) * 86400 + h * 3600 + mi * 60 + s, us)
stamp_of _ = none

-- The date and the time of day of a packet, read by their numbers, are the packet's time, for seconds
-- that fit an `i64` and less than a million microseconds.
pub stamp_of-show_time :
    (meta : PacketMeta) (ctx : PktCtx)
    → meta.ts_sec < 2 ^ 63
    → meta.ts_usec < 1_000_000
    → stamp_of (fields 0 (show_time 4 meta ctx)) ≡ some (meta.ts_sec, meta.ts_usec)
unfolding show_time
stamp_of-show_time meta ctx small less =
    let sec = meta.ts_sec in
    let ((y, m, d), found, lengths_fit, number, civil, same) = dated (sec / 86400) in
    let (years, months, days) = IsDate-small y m d lengths_fit in
    let clock = show_clock (sec % 86400) meta.ts_usec in
    ap (λ (o : Option Date). stamp_of (fields 0 (show_date o ++ clock))) found
    ∙ ap stamp_of (
        fields-show_date y m d clock (omega (arith, years, number, small)) (omega (arith, months))
          (omega (arith, days))
        ∙ ap (λ (t : List ℕ). y ∷ m ∷ d ∷ t) (fields-show_clock (sec % 86400) meta.ts_usec less))
    ∙ ap (λ (n : ℕ). some (n, meta.ts_usec)) (omega (arith, same))
