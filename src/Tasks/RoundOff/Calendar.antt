-- ===== src/Tasks/RoundOff/Calendar.antt =====
-- The Gregorian calendar, to which the rotators of a month and a year (src/tasks/log-rotator.cc) are
-- compared.
use residue.Prelude.{
  ℕ, zero, suc, ◌+◌, ◌-◌, ◌%◌, ◌≤◌, ◌<◌, ◌≡◌, refl, ap, ◌∙◌, Bool, false, not, ◌&&◌, ◌||◌, arith,
  ltb, ◌==◌, if◌then◌else◌, lt→ltb,
}

pub record Date : Type 0 where
  pub year : ℕ
  pub month : ℕ
  pub day : ℕ

unfoldable pub is_leap : ℕ → Bool
is_leap year = year % 4 == 0 && (not (year % 100 == 0) || year % 400 == 0)

unfoldable pub month_length : ℕ → ℕ → ℕ
unfolding is_leap
month_length year month =
    if month == 2
    then (if is_leap year then 29 else 28)
    else if month == 4 || month == 6 || month == 9 || month == 11
    then 30
    else 31

-- The first day of a month, the month after December being the next year's January.
unfoldable pub first_of : ℕ → ℕ → Date
first_of year month =
    if ltb 12 month
    then record { year = year + 1; month = 1; day = 1 }
    else record { year = year; month = month; day = 1 }

unfoldable pub next_day : Date → Date
unfolding month_length first_of
next_day date =
    if ltb date.day (month_length date.year date.month)
    then record date { day = date.day + 1 }
    else first_of date.year (date.month + 1)

unfoldable pub add_days : ℕ → Date → Date
unfolding next_day
add_days zero date = date
add_days (suc k) date = add_days k (next_day date)

abbrev pub IsDate : Date → Type 0
IsDate date =
    (1 ≤ date.month)
    × (date.month ≤ 12)
    × (1 ≤ date.day)
    × (date.day ≤ month_length date.year date.month)

abbrev pub day_of : ℕ → ℕ → ℕ → Date
day_of year month day = record { year = year; month = month; day = day }

pub add_days-add : (a b : ℕ) (date : Date) → add_days (a + b) date ≡ add_days b (add_days a date)
unfolding add_days
add_days-add zero b date = let e : zero + b ≡ b = omega arith in ap (λ n. add_days n date) e
add_days-add (suc a) b date =
    let e : suc a + b ≡ suc (a + b) = omega arith in
    ap (λ n. add_days n date) e ∙ add_days-add a b (next_day date)

pub month_length_bounds :
    (year month : ℕ) → (28 ≤ month_length year month) × (month_length year month ≤ 31)
unfolding month_length
month_length_bounds year month = (ground arith, ground arith)

next_day_within :
    (year month day : ℕ)
    → day < month_length year month
    → next_day (day_of year month day) ≡ day_of year month (day + 1)
unfolding next_day
next_day_within year month day h = rw (lt→ltb _ _ h) refl

next_day_last :
    (year month day : ℕ)
    → day ≡ month_length year month
    → next_day (day_of year month day) ≡ first_of year (month + 1)
unfolding next_day
next_day_last year month day h =
    let e : ltb day (month_length year month) ≡ false = ground (arith, h) in rw e refl

-- Over the end of a month.
pub past_month :
    (k year month day : ℕ)
    → day + k ≡ month_length year month
    → add_days (suc k) (day_of year month day) ≡ first_of year (month + 1)
unfolding add_days next_day
past_month zero year month day e = next_day_last year month day (omega (arith, e))
past_month (suc k) year month day e =
    ap (add_days (suc k)) (next_day_within year month day (omega (arith, e)))
    ∙ past_month k year month (day + 1) (omega (arith, e))

whole_month :
    (year month : ℕ)
    → add_days (month_length year month) (day_of year month 1) ≡ first_of year (month + 1)
whole_month year month =
    let (least, most) = month_length_bounds year month in
    let e : month_length year month ≡ suc (month_length year month - 1) = omega (arith, least) in
    ap (λ n. add_days n (day_of year month 1)) e
    ∙ past_month (month_length year month - 1) year month 1 (omega (arith, least))

pub first_of_within : (year month : ℕ) → month ≤ 12 → first_of year month ≡ day_of year month 1
unfolding first_of
first_of_within year month h = let e : ltb 12 month ≡ false = ground (arith, h) in rw e refl

first_of_next : (year : ℕ) → first_of year 13 ≡ day_of (year + 1) 1 1
unfolding first_of
first_of_next year = refl

-- The days of so many months at the end of the year.
unfoldable pub last_months : ℕ → ℕ → ℕ
unfolding month_length
last_months year zero = 0
last_months year (suc i) = month_length year (12 - i) + last_months year i

pub past_year :
    (n year month : ℕ)
    → month + n ≡ 13
    → 1 ≤ month
    → add_days (last_months year n) (first_of year month) ≡ day_of (year + 1) 1 1
unfolding last_months add_days
past_year zero year month e h =
    let late : month ≡ 13 = omega (arith, e) in ap (first_of year) late ∙ first_of_next year
past_year (suc i) year month e h =
    let same : 12 - i ≡ month = omega (arith, e) in
    add_days-add (month_length year (12 - i)) (last_months year i) (first_of year month)
    ∙ (ap
          (λ m.
            add_days (last_months year i) (add_days (month_length year m) (first_of year month)))
          same
        ∙ (ap (λ d. add_days (last_months year i) (add_days (month_length year month) d))
              (first_of_within year month (omega (arith, e)))
            ∙ (ap (add_days (last_months year i)) (whole_month year month)
                ∙ past_year i year (month + 1) (omega (arith, e)) (omega arith))))
