-- ===== src/Tasks/RoundOff.antt =====
-- The `calculateRoundOff` of the log rotators (src/tasks/log-rotator.cc): how many seconds are left
-- to the next rotation. The local time is that of Easylogging++'s date formatter.
pub mod Marks
pub mod Dates
pub mod Calendar
pub mod Days
pub mod Midnight
pub mod FirstDays
use residue.Prelude.{ℕ, ◌+◌, ◌-◌, ◌*◌, ◌%◌, ◌||◌, ltb, ◌==◌, if◌then◌else◌}

-- `atoi(formatTime(t, …))` for the formats %H, %h (of twelve hours, from 0), and the number that the
-- program gives to the day of the week of %a.
pub record LocalTime : Type 0 where
  pub hour_24 : ℕ → ℕ
  pub hour_12 : ℕ → ℕ
  pub week_day : ℕ → ℕ

-- `minRoundOff`.
abbrev pub min_round_off : ℕ → ℕ
min_round_off now = 3600 - now % 3600

module _ (local : LocalTime) where
  -- `calculateSecondsToMidnight`.
  unfoldable pub calculate_seconds_to_midnight : ℕ → ℕ
  calculate_seconds_to_midnight now =
      let next_24_hour = local.hour_24 (min_round_off now + now) in
      let hours_to_next_iter = if next_24_hour == 0 then 0 else 24 - next_24_hour in
      min_round_off now + hours_to_next_iter * 3600

  unfoldable pub hourly : ℕ → ℕ
  hourly now = (3600 - now % 3600) - 1

  unfoldable pub six_hours : ℕ → ℕ
  six_hours now =
      let next_hour = local.hour_12 (min_round_off now + now) in
      let to_next = 12 - next_hour in
      let within = if ltb 6 to_next then to_next - 6 else to_next in
      let hours_to_next_iter = if next_hour == 0 || next_hour == 12 then 0 else within in
      min_round_off now + hours_to_next_iter * 3600

  unfoldable pub twelve_hours : ℕ → ℕ
  twelve_hours now =
      let next_24_hour = local.hour_24 (min_round_off now + now) in
      let to_next = 24 - next_24_hour in
      let within = if ltb 12 to_next then to_next - 12 else to_next in
      let hours_to_next_iter = if next_24_hour == 0 || next_24_hour == 12 then 0 else within in
      min_round_off now + hours_to_next_iter * 3600

  unfoldable pub daily : ℕ → ℕ
  unfolding calculate_seconds_to_midnight
  daily now = calculate_seconds_to_midnight now - 1

  unfoldable pub weekly : ℕ → ℕ
  unfolding calculate_seconds_to_midnight
  weekly now =
      let secs_to_next_midnight = calculate_seconds_to_midnight now in
      let week_day = local.week_day (now + secs_to_next_midnight) in
      let days_to_next_monday = if week_day == 1 then 0 else (7 - week_day) + 1 in
      (secs_to_next_midnight + days_to_next_monday * 86400) - 1
