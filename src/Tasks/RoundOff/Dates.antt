-- ===== src/Tasks/RoundOff/Dates.antt =====
-- The `calculateRoundOff` of the rotators of a month and a year (src/tasks/log-rotator.cc).
use residue.Tasks.RoundOff.{LocalTime, calculate_seconds_to_midnight}
use residue.Prelude.{
  ℕ, zero, suc, ◌+◌, ◌-◌, ◌*◌, ◌%◌, ◌&&◌, ◌||◌, Option, none, some, leb, ◌==◌, if◌then◌else◌,
}

-- `atoi(formatTime(t, …))` for the formats %Y, %M and %d.
pub record LocalDate : Type 0 where
  pub year : ℕ → ℕ
  pub month : ℕ → ℕ
  pub month_day : ℕ → ℕ

-- `LAST_DAY_OF_MONTH_MAP.at(month)`, with `none` where `at` throws.
unfoldable pub last_day_of_month : ℕ → ℕ → Option ℕ
last_day_of_month year month =
    if month == 2
    then some (if year % 4 == 0 then 29 else 28)
    else if month == 4 || month == 6 || month == 9 || month == 11
    then some 30
    else if leb 1 month && leb month 12
    then some 31
    else none

-- One round of the loop: the days of a month past 28 are added.
abbrev pub add_extra : Option ℕ → Option ℕ → Option ℕ
add_extra none days = none
add_extra (some last) none = none
add_extra (some last) (some days) = some ((last - 28) + days)

-- The loop from the month that many before the end of the year.
unfoldable pub extra_days : ℕ → ℕ → Option ℕ
unfolding last_day_of_month
extra_days year zero = some 0
extra_days year (suc i) = add_extra (last_day_of_month year (12 - i)) (extra_days year i)

-- `daysToNextMonth`, for a day of the month that is not past its last one.
abbrev pub days_to_next_month : ℕ → ℕ → ℕ
days_to_next_month last month_day = if month_day == 1 then 0 else (last - month_day) + 1

-- `monthsToNextYear`.
abbrev pub months_to_next_year : ℕ → ℕ → ℕ
months_to_next_year month days =
    let months = (12 - month) + (if days == 0 then 1 else 0) in if months == 12 then 0 else months

module _ (local : LocalTime) (date : LocalDate) where
  unfoldable pub monthly : ℕ → Option ℕ
  unfolding calculate_seconds_to_midnight last_day_of_month
  monthly now =
      let secs = calculate_seconds_to_midnight local now in
      let month = date.month (secs + now) in
      let month_day = date.month_day (secs + now) in
      elim (last_day_of_month (date.year now) month) [
        | none ↦ none
        | some last ↦ some ((secs + days_to_next_month last month_day * 86400) - 1)
      ]

  unfoldable pub yearly : ℕ → Option ℕ
  unfolding calculate_seconds_to_midnight last_day_of_month extra_days
  yearly now =
      let secs = calculate_seconds_to_midnight local now in
      let month = date.month (secs + now) in
      let month_day = date.month_day (secs + now) in
      elim (last_day_of_month (date.year now) month) [
        | none ↦ none
        | some last ↦
            let days = days_to_next_month last month_day in
            let months = months_to_next_year month days in
            elim (extra_days (date.year now) months) [
              | none ↦ none
              | some extra ↦ some ((secs + days * 86400 + months * 28 * 86400 + extra * 86400) - 1)
            ]
      ]
