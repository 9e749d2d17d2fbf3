-- ===== src/Tasks/RoundOff/FirstDays.antt =====
-- The rotators of a month and a year run before the first of a month and of a year
-- (src/tasks/log-rotator.cc).
use residue.Tasks.RoundOff.{LocalTime, calculate_seconds_to_midnight}
use residue.Tasks.RoundOff.Calendar.{Date, add_days, day_of}
use residue.Tasks.RoundOff.Marks.{IsMark}
use residue.Tasks.RoundOff.Midnight.{date_at}
use residue.Tasks.RoundOff.Dates.{LocalDate}
use residue.Prelude.{ℕ, ◌+◌, ◌*◌, ◌^◌, ◌<◌, ◌≡◌, Option, some}

-- A round-off that ends so many seconds, and days up to the target, from now, less a second.
abbrev Reaches : Option ℕ → ℕ → Date → Date → Type 0
Reaches round_off secs start target =
    (days : ℕ) × (r : ℕ) × (round_off ≡ some r)
    × (r + 1 ≡ secs + days * 86400)
    × (add_days days start ≡ target)
    × (r < 2 ^ 31)

module _ (local : LocalTime) (date : LocalDate) (now : ℕ) where
  abbrev secs : ℕ
  secs = calculate_seconds_to_midnight local now

  -- The date at the next midnight.
  abbrev midnight_date : Date
  midnight_date =
      day_of (date.year (secs + now)) (date.month (secs + now)) (date.month_day (secs + now))

-- A round-off, which fits into an `int`, one second after which it is a local midnight, at the start
-- of the day `target`.
abbrev pub LeadsTo : LocalDate → ℕ → ℕ → Option ℕ → Date → Type 0
LeadsTo date offset now round_off target =
    (r : ℕ) × (round_off ≡ some r)
    × IsMark offset 24 (now + r + 1)
    × (date_at date (now + r + 1) ≡ target)
    × (r < 2 ^ 31)
