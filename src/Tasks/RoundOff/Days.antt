-- ===== src/Tasks/RoundOff/Days.antt =====
-- The days that the rotators of a month and a year (src/tasks/log-rotator.cc) count, by the calendar.
use residue.Tasks.RoundOff.Calendar.{
  Date, is_leap, month_length, first_of, add_days, IsDate, day_of, last_months, add_days-add,
  month_length_bounds, past_month, past_year, first_of_within,
}
use residue.Tasks.RoundOff.Dates.{
  add_extra, last_day_of_month, extra_days, days_to_next_month, months_to_next_year,
}
use residue.Prelude.{
  ℕ, zero, suc, ◌+◌, ◌-◌, ◌*◌, ◌%◌, ◌≤◌, ◌<◌, ◌≡◌, refl, sym, ap, ◌∙◌, subst, inl, inr, false, ◌&&◌,
  some, arith, ◌==◌, if◌then◌else◌, ==_iff, Bool-cases,
}

-- The year is a leap year exactly if 4 divides it, as in each year from 1901 to 2099.
abbrev pub IsJulian : ℕ → Type 0
IsJulian year = is_leap year ≡ (year % 4 == 0)

pub last_day_of_month_lem :
    (year month : ℕ)
    → IsJulian year
    → 1 ≤ month
    → month ≤ 12
    → last_day_of_month year month ≡ some (month_length year month)
unfolding last_day_of_month month_length
last_day_of_month_lem year month julian least most = ground (arith, julian)

pub extra_days_lem :
    (year n : ℕ)
    → IsJulian year
    → n ≤ 12
    → (extra : ℕ) × (extra_days year n ≡ some extra) × (n * 28 + extra ≡ last_months year n)
unfolding extra_days last_months
extra_days_lem year zero julian small = (0, refl, omega arith)
extra_days_lem year (suc i) julian small =
    let (extra, found, sum) = extra_days_lem year i julian (omega (arith, small)) in
    let last = last_day_of_month_lem year (12 - i) julian (omega (arith, small)) (omega arith) in
    let (least, most) = month_length_bounds year (12 - i) in
    (
      (month_length year (12 - i) - 28) + extra,
      ap (λ o. add_extra o (extra_days year i)) last ∙ ap (add_extra (some _)) found,
      omega (arith, sum, least),
    )

-- The first of a month, today or next.
abbrev pub next_first : Date → Date
next_first d = if d.day == 1 then d else first_of d.year (d.month + 1)

abbrev pub next_new_year : Date → Date
next_new_year d = if d.month == 1 && d.day == 1 then d else day_of (d.year + 1) 1 1

pub to_next_first :
    (d : Date)
    → IsDate d
    → add_days (days_to_next_month (month_length d.year d.month) d.day) d ≡ next_first d
unfolding add_days
to_next_first d (_, _, first, last) = elim (Bool-cases (d.day == 1)) [
  | inl one ↦ rw one refl
  | inr more ↦
      let len = month_length d.year d.month in
      let e : (len - d.day) + 1 ≡ suc (len - d.day) = omega arith in
      rw more (
        ap (λ n. add_days n d) e
        ∙ past_month (len - d.day) d.year d.month d.day (omega (arith, last)))
]

pub january_lem :
    (year other month : ℕ)
    → month ≡ 1
    → last_day_of_month year month ≡ some (month_length other month)
unfolding last_day_of_month month_length
january_lem year other month january = ground (arith, january)

pub days_to_next_month_bound : (last day : ℕ) → last ≤ 31 → days_to_next_month last day ≤ 32
days_to_next_month_bound last day h = ground (arith, h)

-- The days to the end of the month, and those of the months to the end of the year.
unfoldable pub days_of_year : Date → ℕ
days_of_year d =
    let days = days_to_next_month (month_length d.year d.month) d.day in
    days + last_months d.year (months_to_next_year d.month days)

months_to_next_year-first :
    (month : ℕ)
    → 1 ≤ month
    → month ≤ 12
    → months_to_next_year month 0 ≡ (if month == 1 then 0 else 13 - month)
months_to_next_year-first month least most = ground (arith, least, most)

months_to_next_year-later :
    (month days : ℕ) → 1 ≤ month → 0 < days → months_to_next_year month days ≡ 12 - month
months_to_next_year-later month days least more = ground (arith, least, more)

from_first :
    (year month : ℕ)
    → 1 ≤ month
    → month ≤ 12
    → add_days (last_months year (months_to_next_year month 0)) (day_of year month 1)
      ≡ next_new_year (day_of year month 1)
unfolding add_days last_months
from_first year month least most =
    let first = day_of year month 1 in
    ap (λ n. add_days (last_months year n) first) (months_to_next_year-first month least most)
    ∙ elim (Bool-cases (month == 1)) [
      | inl january ↦ rw january refl
      | inr other ↦ rw other (
          ap (add_days (last_months year (13 - month))) (sym (first_of_within year month most))
          ∙ past_year (13 - month) year month (omega (arith, most)) least)
    ]

next_new_year_later : (d : Date) → (d.day == 1) ≡ false → next_new_year d ≡ day_of (d.year + 1) 1 1
next_new_year_later d later = elim (Bool-cases (d.month == 1)) [
  | inl january ↦ rw (january, later) refl
  | inr other ↦ rw other refl
]

pub to_new_year : (d : Date) → IsDate d → add_days (days_of_year d) d ≡ next_new_year d
unfolding days_of_year
to_new_year d valid =
    let len = month_length d.year d.month in
    let days = days_to_next_month len d.day in
    let months = months_to_next_year d.month days in
    let (least, most, _, _) = valid in
    add_days-add days (last_months d.year months) d
    ∙ (ap (add_days (last_months d.year months)) (to_next_first d valid)
        ∙ elim (Bool-cases (d.day == 1)) [
          | inl one ↦
              let e : d.day ≡ 1 = (==_iff d.day 1).0 one in
              subst
                (λ k.
                  add_days
                    (last_months d.year (months_to_next_year d.month (days_to_next_month len k)))
                    (next_first (day_of d.year d.month k))
                  ≡ next_new_year (day_of d.year d.month k))
                (sym e) (from_first d.year d.month least most)
          | inr later ↦
              let more : 0 < days = ground (arith, later) in
              ap
                (λ b.
                  add_days (last_months d.year months)
                    (if b then d else first_of d.year (d.month + 1)))
                later
              ∙ (ap (λ n. add_days (last_months d.year n) (first_of d.year (d.month + 1)))
                    (months_to_next_year-later d.month days least more)
                  ∙ past_year (12 - d.month) d.year (d.month + 1) (omega (arith, most))
                      (omega arith))
              ∙ sym (next_new_year_later d later)
        ])

pub months_to_next_year_bound : (month days : ℕ) → 1 ≤ month → months_to_next_year month days ≤ 12
months_to_next_year_bound month days least = ground (arith, least)

pub months_to_next_year-new_year :
    (last month day : ℕ)
    → month ≡ 1
    → day ≡ 1
    → months_to_next_year month (days_to_next_month last day) ≡ 0
months_to_next_year-new_year last month day january first = ground (arith, january, first)

pub last_months_bound : (year n : ℕ) → last_months year n ≤ n * 31
unfolding last_months
last_months_bound year zero = omega arith
last_months_bound year (suc i) =
    omega (arith, last_months_bound year i, (month_length_bounds year (12 - i)).1)

-- What the loop of the rotator of a year adds up.
unfoldable pub Extra : ℕ → ℕ → ℕ → Type 0
Extra year other n =
    (extra : ℕ) × (extra_days year n ≡ some extra) × (n * 28 + extra ≡ last_months other n)

pub Extra-none : (year other n : ℕ) → n ≡ 0 → Extra year other n
unfolding extra_days last_months Extra
Extra-none year other n none_left = subst (Extra year other) (sym none_left) (0, refl, omega arith)
