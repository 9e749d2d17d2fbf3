-- ===== src/Tasks/RoundOff/Midnight.antt =====
-- The local date in a time zone of whole hours, and the next midnight of the log rotators
-- (src/tasks/log-rotator.cc).
use residue.Tasks.RoundOff.{LocalTime, calculate_seconds_to_midnight}
use residue.Tasks.RoundOff.Dates.{LocalDate}
use residue.Tasks.RoundOff.Calendar.{
  Date, month_length, first_of, next_day, add_days, IsDate, day_of, add_days-add,
  month_length_bounds,
}
use residue.Tasks.RoundOff.Marks.{IsZone, IsMark, hours, midnight-Leads, Leads-IsMark, days_later}
use residue.Prelude.{
  ℕ, zero, suc, ◌+◌, ◌*◌, ◌/◌, ◌≤◌, ◌<◌, ◌≡◌, refl, sym, ap, ◌∙◌, subst, ◌⊎◌, inl, inr, arith, ltb,
  ltb→lt, if_cases,
}

abbrev pub date_at : LocalDate → ℕ → Date
date_at date t = day_of (date.year t) (date.month t) (date.month_day t)

-- The local date, in a zone so many hours ahead, counts the days of the Gregorian calendar from the
-- epoch on.
abbrev pub IsCalendar : LocalDate → ℕ → Type 0
IsCalendar date offset = (t : ℕ) → date_at date t ≡ add_days (hours offset t / 24) (day_of 1970 1 1)

next_day-IsDate : (d : Date) → IsDate d → IsDate (next_day d)
unfolding next_day first_of
next_day-IsDate d (m1, m12, d1, last) =
    if_cases IsDate (ltb d.day (month_length d.year d.month)) _ _
      (λ e.
        let within = ltb→lt d.day (month_length d.year d.month) e in
        (m1, m12, omega arith, omega (arith, within)))
      λ e.
        if_cases IsDate (ltb 12 (d.month + 1)) _ _
          (λ late. (
            omega arith,
            omega arith,
            omega arith,
            omega (arith, (month_length_bounds (d.year + 1) 1).0),
          ))
          (λ early. (
            omega arith,
            ground (arith, early),
            omega arith,
            omega (arith, (month_length_bounds d.year (d.month + 1)).0),
          ))

add_days-IsDate : (k : ℕ) (d : Date) → IsDate d → IsDate (add_days k d)
unfolding add_days
add_days-IsDate zero d valid = valid
add_days-IsDate (suc k) d valid = add_days-IsDate k (next_day d) (next_day-IsDate d valid)

-- A year ends at a first of January only.
pub next_day_year :
    (d : Date)
    → IsDate d
    → (d.year ≡ (next_day d).year) ⊎ (((next_day d).month ≡ 1) × ((next_day d).day ≡ 1))
unfolding next_day first_of
next_day_year d valid =
    let P : Date → Type 0 = λ n. (d.year ≡ n.year) ⊎ ((n.month ≡ 1) × (n.day ≡ 1)) in
    if_cases P (ltb d.day (month_length d.year d.month)) _ _ (λ e. inl refl)
      λ e. if_cases P (ltb 12 (d.month + 1)) _ _ (λ late. inr (refl, refl)) (λ early. inl refl)

module _ (local : LocalTime) (date : LocalDate) (offset : ℕ) (zone : IsZone local offset)
    (calendar : IsCalendar date offset) where
  pub date_at-IsDate : (t : ℕ) → IsDate (date_at date t)
  unfolding month_length
  date_at-IsDate t = subst IsDate (sym (calendar t)) (
      add_days-IsDate (hours offset t / 24) (day_of 1970 1 1)
        (omega arith, omega arith, omega arith, omega arith))

  pub days_later_date : (t d : ℕ) → date_at date (t + d * 86400) ≡ add_days d (date_at date t)
  days_later_date t d =
      let epoch = day_of 1970 1 1 in
      let e : hours offset (t + d * 86400) / 24 ≡ hours offset t / 24 + d =
        omega (arith, (days_later offset t d).1) in
      calendar (t + d * 86400)
      ∙ ap (λ n. add_days n epoch) e
      ∙ add_days-add (hours offset t / 24) d epoch
      ∙ ap (add_days d) (sym (calendar t))

  pub midnight_lem :
      (now : ℕ)
      → let midnight = now + calculate_seconds_to_midnight local now in
        IsMark offset 24 midnight
        × (date_at date midnight ≡ next_day (date_at date now))
        × (0 < calculate_seconds_to_midnight local now)
        × (calculate_seconds_to_midnight local now ≤ 86400)
  unfolding add_days
  midnight_lem now =
      let secs = calculate_seconds_to_midnight local now in
      let epoch = day_of 1970 1 1 in
      let ((full, hour), positive, bound) =
        Leads-IsMark offset 24 24 now secs (midnight-Leads local offset now zone) in
      let e : hours offset (now + secs) / 24 ≡ hours offset now / 24 + 1 =
        omega (arith, full, hour, positive, bound) in
      (
        (full, hour),
        calendar (now + secs)
            ∙ ap (λ n. add_days n epoch) e
            ∙ add_days-add (hours offset now / 24) 1 epoch
            ∙ ap next_day (sym (calendar now)),
        positive,
        omega (arith, bound),
      )
