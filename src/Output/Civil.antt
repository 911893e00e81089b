-- ===== src/Output/Civil.antt =====
-- The Gregorian calendar in closed form, and that `epoch_days_to_date` of crates/netdump-cli/src/main.rs
-- gives its dates.
use netdump.Base.{
  Bool-cases, inl, inr, ==→eq, ℕ, zero, suc, ◌+◌, ◌-◌, ◌*◌, ◌/◌, ◌≤◌, ◌<◌, ◌≡◌, refl, subst, ap,
  Bool, true, false, ◌==◌, leb, some, List, [], ◌∷◌, if◌then◌else◌, arith,
}
use netdump.Output.Date.{
  Date, is_leap, days_in_year, month_days, month_length, sum_of, days_before, IsDate, day_number,
  month_days-sum, epoch_days_to_date, epoch_days_to_date-total,
}

-- The leap days up to the end of a year: one in four years, but in a hundred only where in four hundred.
abbrev pub leap_days : ℕ → ℕ
leap_days y = y / 4 + y / 400 - y / 100

-- The days before a month of a year that starts with March, which this line through 30.6 days a month
-- rounds to.
abbrev pub march_days : ℕ → ℕ
march_days m = (153 * m + 2) / 5

-- The number of a date, counted from the first of March of the year 0; January and February belong to the
-- year before.
abbrev pub civil_days : Date → ℕ
civil_days (y, m, d) =
    if leb m 2
    then 365 * (y - 1) + leap_days (y - 1) + march_days (m + 9) + d
    else 365 * y + leap_days y + march_days (m - 3) + d

-- The first of the next month.
abbrev pub next_month : Date → Date
next_month (y, m, d) = if m == 12 then (y + 1, 1, 1) else (y, m + 1, 1)

-- A month of the year, and a day from its first on, before the first of the next month.
abbrev pub IsCivil : Date → Type 0
IsCivil (y, m, d) =
    (1 ≤ m) × (m ≤ 12) × (1 ≤ d) × (civil_days (y, m, d) < civil_days (next_month (y, m, d)))

-- The first of January 1970.
abbrev pub epoch : ℕ
epoch = 719469

leap_days-suc : (y : ℕ) → leap_days (y + 1) ≡ leap_days y + (if is_leap (y + 1) then 1 else 0)
leap_days-suc y = ground arith

abbrev one_if : Bool → ℕ
one_if b = if b then 1 else 0

abbrev lengths : Bool → List ℕ
lengths b =
    if b
    then 31 ∷ 29 ∷ 31 ∷ 30 ∷ 31 ∷ 30 ∷ 31 ∷ 31 ∷ 30 ∷ 31 ∷ 30 ∷ 31 ∷ []
    else 31 ∷ 28 ∷ 31 ∷ 30 ∷ 31 ∷ 30 ∷ 31 ∷ 31 ∷ 30 ∷ 31 ∷ 30 ∷ 31 ∷ []

-- The months before the one that is `j` after March.
march-sum : (b : Bool) (j : ℕ) → j < 10 → sum_of (j + 2) (lengths b) ≡ 59 + one_if b + march_days j
march-sum true zero h = refl
march-sum true (suc zero) h = refl
march-sum true (suc (suc zero)) h = refl
march-sum true (suc (suc (suc zero))) h = refl
march-sum true (suc (suc (suc (suc zero)))) h = refl
march-sum true (suc (suc (suc (suc (suc zero))))) h = refl
march-sum true (suc (suc (suc (suc (suc (suc zero)))))) h = refl
march-sum true (suc (suc (suc (suc (suc (suc (suc zero))))))) h = refl
march-sum true (suc (suc (suc (suc (suc (suc (suc (suc zero)))))))) h = refl
march-sum true (suc (suc (suc (suc (suc (suc (suc (suc (suc zero))))))))) h = refl
march-sum false zero h = refl
march-sum false (suc zero) h = refl
march-sum false (suc (suc zero)) h = refl
march-sum false (suc (suc (suc zero))) h = refl
march-sum false (suc (suc (suc (suc zero)))) h = refl
march-sum false (suc (suc (suc (suc (suc zero))))) h = refl
march-sum false (suc (suc (suc (suc (suc (suc zero)))))) h = refl
march-sum false (suc (suc (suc (suc (suc (suc (suc zero))))))) h = refl
march-sum false (suc (suc (suc (suc (suc (suc (suc (suc zero)))))))) h = refl
march-sum false (suc (suc (suc (suc (suc (suc (suc (suc (suc zero))))))))) h = refl
march-sum b (suc (suc (suc (suc (suc (suc (suc (suc (suc (suc (j))))))))))) h = absurd (omega arith)

-- The leap day that a year adds.
leap_days-year :
    (k : ℕ) → leap_days (1970 + k) ≡ leap_days (1970 + k - 1) + one_if (is_leap (1970 + k))
leap_days-year k =
    let before : 1969 + k ≡ 1970 + k - 1 = omega arith in
    let year : 1969 + k + 1 ≡ 1970 + k = omega arith in
    subst (λ (y : ℕ). leap_days y ≡ leap_days (1970 + k - 1) + one_if (is_leap y)) year
      (subst (λ (y : ℕ). leap_days (1969 + k + 1) ≡ leap_days y + one_if (is_leap (1969 + k + 1)))
        before (leap_days-suc (1969 + k)))

days_in_year-leap : (y : ℕ) → days_in_year y ≡ 365 + one_if (is_leap y)
days_in_year-leap y = go (is_leap y)
  where
    go : (b : Bool) → (if b then 366 else 365) ≡ 365 + one_if b
    go true = refl
    go false = refl

-- A year starts as many days after the epoch as the years before it have.
civil_days-january : (k : ℕ) → civil_days (1970 + k, 1, 1) ≡ epoch + days_before k
civil_days-january zero = refl
civil_days-january (suc k) =
    let back : 1970 + suc k - 1 ≡ 1970 + k = omega arith in
    omega (
      arith,
      civil_days-january k,
      leap_days-year k,
      days_in_year-leap (1970 + k),
      back,
      ap leap_days back,
    )

sum-january : (b : Bool) → sum_of 1 (lengths b) ≡ 31
sum-january true = refl
sum-january false = refl

civil_days-march :
    (y j : ℕ) → civil_days (y, suc (suc (suc j)), 1) ≡ 365 * y + leap_days y + march_days j + 1
civil_days-march y j =
    let late : leb (suc (suc (suc j))) 2 ≡ false = ground arith in
    let back : suc (suc (suc j)) - 3 ≡ j = omega arith in rw (late, back) refl

-- A month starts as many days into its year as the months before it have.
civil_days-month :
    (k m : ℕ)
    → 1 ≤ m
    → m ≤ 12
    → civil_days (1970 + k, m, 1)
      ≡ civil_days (1970 + k, 1, 1) + sum_of (m - 1) (month_days (1970 + k))
civil_days-month k zero h g = absurd (omega arith)
civil_days-month k (suc zero) h g = omega arith
civil_days-month k (suc (suc zero)) h g = omega (arith, sum-january (is_leap (1970 + k)))
civil_days-month k (suc (suc (suc j))) h g =
    let y = 1970 + k in
    let back : j + 2 ≡ suc (suc (suc j)) - 1 = omega arith in
    let sum =
      subst (λ (n : ℕ). sum_of n (month_days y) ≡ 59 + one_if (is_leap y) + march_days j) back
        (march-sum (is_leap y) j (omega (arith, g))) in
    omega (arith, civil_days-march y j, leap_days-year k, sum)

-- A month has as many days as there are from its first to the next one's.
month_length-sum : (j : ℕ) (mds : List ℕ) → sum_of (suc j) mds ≡ sum_of j mds + month_length j mds
month_length-sum zero [] = refl
month_length-sum (suc j) [] = refl
month_length-sum zero (md ∷ mds) = omega arith
month_length-sum (suc j) (md ∷ mds) = omega (arith, month_length-sum j mds)

civil_days-day : (y m d : ℕ) → 1 ≤ d → civil_days (y, m, d) + 1 ≡ civil_days (y, m, 1) + d
civil_days-day y m d h = go (leb m 2)
  where
    go :
        (b : Bool)
        → (if b
              then 365 * (y - 1) + leap_days (y - 1) + march_days (m + 9) + d
              else 365 * y + leap_days y + march_days (m - 3) + d)
            + 1
          ≡ (if b
              then 365 * (y - 1) + leap_days (y - 1) + march_days (m + 9) + 1
              else 365 * y + leap_days y + march_days (m - 3) + 1)
            + d
    go true = omega arith
    go false = omega arith

civil_days-next :
    (k m : ℕ)
    → 1 ≤ m
    → m ≤ 12
    → civil_days (next_month (1970 + k, m, 1))
      ≡ civil_days (1970 + k, m, 1) + month_length (m - 1) (month_days (1970 + k))
civil_days-next k m h g = elim (Bool-cases (m == 12)) [
  | inl e ↦
      let last = ==→eq m 12 e in
      let year = month_days-sum (1970 + k) in
      let after : 1970 + suc k ≡ 1970 + k + 1 = omega arith in
      let next = ap (λ (y : ℕ). civil_days (y, 1, 1)) after in
      let back : suc (m - 1) ≡ 12 = omega (arith, last) in
      let whole = ap (λ (n : ℕ). sum_of n mds) back in
      rw e (
        omega (
          arith,
          next,
          civil_days-january (suc k),
          civil_days-january k,
          civil_days-month k m h g,
          month_length-sum (m - 1) mds,
          whole,
          year.1,
        ))
  | inr e ↦
      let less : m + 1 ≤ 12 = ground arith in
      let back : suc (m - 1) ≡ m + 1 - 1 = omega (arith, h) in
      let sum = ap (λ (n : ℕ). sum_of n mds) back in
      rw e (
        omega (
          arith,
          civil_days-month k (m + 1) (omega arith) less,
          civil_days-month k m h g,
          month_length-sum (m - 1) mds,
          sum,
        ))
]
  where
    mds : List ℕ
    mds = month_days (1970 + k)

-- The date of a day, by its year's and months' lengths and by the calendar in closed form.
pub dated :
    (days : ℕ)
    → (date : Date) × (epoch_days_to_date days ≡ some date)
      × IsDate date
      × (day_number date ≡ days)
      × IsCivil date
      × (civil_days date ≡ epoch + days)
dated days =
    let ((y, m, d), found, (late, first, last, some_day, fits), number) =
      epoch_days_to_date-total days in
    let k = y - 1970 in
    let year : 1970 + k ≡ y = omega (arith, late) in
    let at_year = λ (P : ℕ → Type 0) (h : P (1970 + k)). subst P year h in
    let mds = month_days y in
    let january =
      at_year (λ z. civil_days (z, 1, 1) ≡ epoch + days_before k) (civil_days-january k) in
    let month =
      at_year (λ z. civil_days (z, m, 1) ≡ civil_days (z, 1, 1) + sum_of (m - 1) (month_days z))
        (civil_days-month k m first last) in
    let next =
      at_year
        (λ z.
          civil_days (next_month (z, m, 1))
          ≡ civil_days (z, m, 1) + month_length (m - 1) (month_days z))
        (civil_days-next k m first last) in
    let day = civil_days-day y m d some_day in
    (
      (y, m, d),
      found,
      (late, first, last, some_day, fits),
      number,
      (first, last, some_day, omega (arith, next, day, fits)),
      omega (arith, day, month, january, number),
    )

-- Every day from the epoch on has a date, which is the one that the Gregorian calendar gives it: a month
-- from 1 to 12, a day from the first of the month on and before the first of the next, and as many days
-- after the first of January 1970, counted in closed form, as were asked for.
pub epoch_days_to_date-IsCivil :
    (days : ℕ)
    → (date : Date) × (epoch_days_to_date days ≡ some date)
      × IsCivil date
      × (civil_days date ≡ epoch + days)
epoch_days_to_date-IsCivil days =
    let (date, found, lengths_fit, number, civil, same) = dated days in (date, found, civil, same)
