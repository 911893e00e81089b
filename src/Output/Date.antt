-- ===== src/Output/Date.antt =====
-- `is_leap` and `epoch_days_to_date` of crates/netdump-cli/src/main.rs, for days from the epoch on.
use netdump.Base.{
  ℕ, zero, suc, ◌+◌, ◌-◌, ◌%◌, ◌≤◌, ◌<◌, ◌≡◌, refl, ap, ◌∙◌, Bool, true, false, not, ◌&&◌, ◌||◌,
  Option, none, some, List, [], ◌∷◌, arith, ltb, ltb→lt, ltb→le, Bool-cases, inl, inr, length, ◌==◌,
  if◌then◌else◌,
}

abbrev pub is_leap : ℕ → Bool
is_leap year = year % 4 == 0 && not (year % 100 == 0) || year % 400 == 0

abbrev pub days_in_year : ℕ → ℕ
days_in_year y = if is_leap y then 366 else 365

-- The first loop, which ends with a year and the days into it.
unfoldable pub year_loop : ℕ → ℕ → ℕ → Option (ℕ × ℕ)
year_loop zero y d = none
year_loop (suc fuel) y d =
    let rest = year_loop fuel (y + 1) (d - days_in_year y) in
    if ltb d (days_in_year y) then some (y, d) else rest

abbrev pub month_days : ℕ → List ℕ
month_days y =
    if is_leap y
    then 31 ∷ 29 ∷ 31 ∷ 30 ∷ 31 ∷ 30 ∷ 31 ∷ 31 ∷ 30 ∷ 31 ∷ 30 ∷ 31 ∷ []
    else 31 ∷ 28 ∷ 31 ∷ 30 ∷ 31 ∷ 30 ∷ 31 ∷ 31 ∷ 30 ∷ 31 ∷ 30 ∷ 31 ∷ []

-- The second loop, from month `m` on.
abbrev pub month_loop : ℕ → ℕ → List ℕ → ℕ × ℕ
month_loop m d [] = (m, d)
month_loop m d (md ∷ mds) =
    let rest = month_loop (m + 1) (d - md) mds in if ltb d md then (m, d) else rest

-- Year, month and day.
abbrev pub Date : Type 0
Date = ℕ × ℕ × ℕ

abbrev pub month_date : ℕ × ℕ → Date
month_date (y, d) = let (m, e) = month_loop 0 d (month_days y) in (y, m + 1, e + 1)

-- What follows the first loop.
abbrev dated : Option (ℕ × ℕ) → Option Date
dated none = none
dated (some found) = some (month_date found)

unfoldable pub epoch_days_to_date : ℕ → Option Date
epoch_days_to_date days = dated (year_loop (days + 1) 1970 days)

-- The days before a year that is so many years after 1970, and before a month of a year.
abbrev pub days_before : ℕ → ℕ
days_before zero = 0
days_before (suc k) = days_before k + days_in_year (1970 + k)

abbrev pub sum_of : ℕ → List ℕ → ℕ
sum_of zero _ = 0
sum_of (suc n) [] = 0
sum_of (suc n) (md ∷ mds) = md + sum_of n mds

abbrev pub month_length : ℕ → List ℕ → ℕ
month_length _ [] = 0
month_length zero (md ∷ _) = md
month_length (suc n) (_ ∷ mds) = month_length n mds

-- A date of the calendar, and the number of its day from the epoch.
abbrev pub IsDate : Date → Type 0
IsDate (y, m, d) =
    (1970 ≤ y) × (1 ≤ m) × (m ≤ 12) × (1 ≤ d) × (d ≤ month_length (m - 1) (month_days y))

abbrev pub day_number : Date → ℕ
day_number (y, m, d) = days_before (y - 1970) + sum_of (m - 1) (month_days y) + (d - 1)

pub days_in_year-bounds : (y : ℕ) → (365 ≤ days_in_year y) × (days_in_year y ≤ 366)
days_in_year-bounds y = go (is_leap y)
  where
    go : (b : Bool) → (365 ≤ (if b then 366 else 365)) × ((if b then 366 else 365) ≤ 366)
    go true = (omega arith, omega arith)
    go false = (omega arith, omega arith)

-- With more fuel than days, the first loop ends in the year that the days lead to.
year_loop-total :
    (fuel k d : ℕ)
    → d < fuel
    → (j e : ℕ) × (year_loop fuel (1970 + k) d ≡ some (1970 + j, e))
      × (e < days_in_year (1970 + j))
      × (days_before j + e ≡ days_before k + d)
unfolding year_loop
year_loop-total zero k d f = absurd (omega arith)
year_loop-total (suc fuel) k d f =
    let y = 1970 + k in
    let next : y + 1 ≡ 1970 + suc k = omega arith in
    elim (Bool-cases (ltb d (days_in_year y))) [
      | inl e ↦ (k, d, rw e refl, ltb→lt d (days_in_year y) e, refl)
      | inr e ↦
          let enough = ltb→le d (days_in_year y) e in
          let (j, r, same, below, sum) =
            year_loop-total fuel (suc k) (d - days_in_year y)
              (omega (arith, days_in_year-bounds y)) in
          (
            j,
            r,
            rw e (ap (λ z. year_loop fuel z (d - days_in_year y)) next ∙ same),
            below,
            omega (arith, sum, enough),
          )
    ]

-- The second loop ends in the month that the days lead to, where there is one.
month_loop-lem :
    (n m d : ℕ) (mds : List ℕ)
    → length mds ≡ n
    → d < sum_of n mds
    → (j e : ℕ) × (month_loop m d mds ≡ (m + j, e))
      × (j < n)
      × (e < month_length j mds)
      × (sum_of j mds + e ≡ d)
month_loop-lem zero m d mds l h = absurd (omega arith)
month_loop-lem (suc n) m d [] l h = absurd (omega arith)
month_loop-lem (suc n) m d (md ∷ mds) l h = elim (Bool-cases (ltb d md)) [
  | inl e ↦ (0, d, rw e (λ i. (same i, d)), omega arith, ltb→lt d md e, omega arith)
  | inr e ↦
      let enough = ltb→le d md e in
      let (j, r, q, below, last, sum) =
        month_loop-lem n (m + 1) (d - md) mds (omega arith) (omega arith) in
      (suc j, r, rw e (q ∙ (λ i. (later j i, r))), omega arith, last, omega arith)
]
  where
    same : m ≡ m + 0
    same = omega arith

    later : (j : ℕ) → m + 1 + j ≡ m + suc j
    later j = omega arith

pub month_days-sum :
    (y : ℕ) → (length (month_days y) ≡ 12) × (sum_of 12 (month_days y) ≡ days_in_year y)
month_days-sum y = go (is_leap y)
  where
    go :
        (b : Bool)
        → (let mds : List ℕ =
              if b
              then 31 ∷ 29 ∷ 31 ∷ 30 ∷ 31 ∷ 30 ∷ 31 ∷ 31 ∷ 30 ∷ 31 ∷ 30 ∷ 31 ∷ []
              else 31 ∷ 28 ∷ 31 ∷ 30 ∷ 31 ∷ 30 ∷ 31 ∷ 31 ∷ 30 ∷ 31 ∷ 30 ∷ 31 ∷ [] in
            (length mds ≡ 12) × (sum_of 12 mds ≡ (if b then 366 else 365)))
    go true = (refl, refl)
    go false = (refl, refl)

-- Every day from the epoch on has a date: the loops end, in a month from 1 to 12 and a day that the
-- month has, and the date's number, counted by whole years and months, is the day.
pub epoch_days_to_date-total :
    (days : ℕ)
    → (date : Date) × (epoch_days_to_date days ≡ some date) × IsDate date × (day_number date ≡ days)
unfolding epoch_days_to_date
epoch_days_to_date-total days =
    let (j, e, found, below, sum) = year_loop-total (days + 1) 0 days (omega arith) in
    let (l, whole) = month_days-sum (1970 + j) in
    let (m, r, month, small, last, part) =
      month_loop-lem 12 0 e (month_days (1970 + j)) l (omega (arith, whole)) in
    let mds = month_days (1970 + j) in
    let back : 0 + m + 1 - 1 ≡ m = omega arith in
    let years : 1970 + j - 1970 ≡ j = omega arith in
    let fits : r + 1 ≤ month_length (0 + m + 1 - 1) mds = rw back (omega (arith, last)) in
    let counted : days_before (1970 + j - 1970) + sum_of (0 + m + 1 - 1) mds + (r + 1 - 1) ≡ days =
      rw (back, years) (omega (arith, sum, part)) in
    (
      (1970 + j, 0 + m + 1, r + 1),
      ap dated found ∙ (λ i. some (1970 + j, (month i).0 + 1, (month i).1 + 1)),
      (omega arith, omega arith, omega (arith, small), omega arith, fits),
      counted,
    )
