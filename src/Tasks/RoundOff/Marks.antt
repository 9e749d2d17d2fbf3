-- ===== src/Tasks/RoundOff/Marks.antt =====
-- When the rotators of src/tasks/log-rotator.cc run, in a time zone of whole hours.
use residue.Tasks.RoundOff.{
  LocalTime, min_round_off, calculate_seconds_to_midnight, hourly, six_hours, twelve_hours, daily,
  weekly,
}
use residue.Prelude.{
  ℕ, ◌+◌, ◌-◌, ◌*◌, ◌/◌, ◌%◌, ◌≤◌, ◌<◌, ◌≡◌, refl, ap, ◌∙◌, ◌⊎◌, ◌||◌, arith, ltb, ◌==◌,
  if◌then◌else◌,
}

-- The hours since the midnight before the epoch, in a zone so many hours ahead.
abbrev pub hours : ℕ → ℕ → ℕ
hours offset t = t / 3600 + offset

-- The local time of such a zone; the epoch was a Thursday, and Monday is day 1.
pub record IsZone (local : LocalTime) (offset : ℕ) : Type 0 where
  pub hour_24 : (t : ℕ) → local.hour_24 t ≡ hours offset t % 24
  pub hour_12 : (t : ℕ) → local.hour_12 t ≡ hours offset t % 12
  pub week_day : (t : ℕ) → local.week_day t ≡ (hours offset t / 24 + 3) % 7 + 1

-- The moment is a full hour that is a multiple of `n` hours.
abbrev pub IsMark : ℕ → ℕ → ℕ → Type 0
IsMark offset n t = (t % 3600 ≡ 0) × (hours offset t % n ≡ 0)

-- The next full hour, and `k` hours after it.
full_hour :
    (now k : ℕ)
    → ((now + (min_round_off now + k * 3600)) % 3600 ≡ 0)
      × ((now + (min_round_off now + k * 3600)) / 3600 ≡ now / 3600 + 1 + k)
      × (0 < min_round_off now + k * 3600)
      × (min_round_off now + k * 3600 ≤ 3600 + k * 3600)
full_hour now k = (omega arith, omega arith, omega arith, omega arith)

next_hour : (now : ℕ) → (min_round_off now + now) / 3600 ≡ now / 3600 + 1
next_hour now = omega arith

-- The round-off leads fewer than `b` hours past the next full hour, to a mark of `n` hours.
abbrev pub Leads : ℕ → ℕ → ℕ → ℕ → ℕ → Type 0
Leads offset n b now round_off =
    (k : ℕ) × (round_off ≡ min_round_off now + k * 3600)
    × (k < b)
    × ((now / 3600 + 1 + k + offset) % n ≡ 0)

six_hours-Leads :
    (local : LocalTime) (offset now : ℕ)
    → IsZone local offset
    → Leads offset 6 7 now (six_hours local now)
unfolding six_hours
six_hours-Leads local offset now zone =
    let h = local.hour_12 (min_round_off now + now) in
    let at = zone.hour_12 (min_round_off now + now) in
    let e = next_hour now in
    (
      (if h == 0 || h == 12 then 0 else if ltb 6 (12 - h) then (12 - h) - 6 else 12 - h),
      refl,
      ground (arith, at),
      ground (arith, at, e),
    )

six_hours_bound :
    (local : LocalTime) (offset now : ℕ)
    → IsZone local offset
    → (six_hours local now ≤ 21600) ⊎ (hours offset (now + min_round_off now) % 12 ≡ 6)
unfolding six_hours
six_hours_bound local offset now zone =
    let at = zone.hour_12 (min_round_off now + now) in ground (arith, at)

twelve_hours-Leads :
    (local : LocalTime) (offset now : ℕ)
    → IsZone local offset
    → Leads offset 12 12 now (twelve_hours local now)
unfolding twelve_hours
twelve_hours-Leads local offset now zone =
    let h = local.hour_24 (min_round_off now + now) in
    let at = zone.hour_24 (min_round_off now + now) in
    let e = next_hour now in
    (
      (if h == 0 || h == 12 then 0 else if ltb 12 (24 - h) then (24 - h) - 12 else 24 - h),
      refl,
      ground (arith, at),
      ground (arith, at, e),
    )

pub midnight-Leads :
    (local : LocalTime) (offset now : ℕ)
    → IsZone local offset
    → Leads offset 24 24 now (calculate_seconds_to_midnight local now)
unfolding calculate_seconds_to_midnight
midnight-Leads local offset now zone =
    let h = local.hour_24 (min_round_off now + now) in
    let at = zone.hour_24 (min_round_off now + now) in
    let e = next_hour now in
    ((if h == 0 then 0 else 24 - h), refl, ground (arith, at), ground (arith, at, e))

pub Leads-IsMark :
    (offset n b now round_off : ℕ)
    → Leads offset n b now round_off
    → IsMark offset n (now + round_off) × (0 < round_off) × (round_off ≤ b * 3600)
Leads-IsMark offset n b now round_off (k, e, small, mark) =
    let (full, at, positive, bound) = full_hour now k in
    ((rw e full, rw (e, at) mark), rw e positive, omega (arith, e, small))

-- The rotators of six and of twelve hours run at a mark of their period: the moment is a full hour
-- and a multiple of six or twelve hours of local time. It is the next mark, no more than one period
-- away, but for the rotator of six hours in the last hour before 6 or 18 o'clock, which may go past
-- that mark to the one after it.
pub period_marks :
    (local : LocalTime) (offset now : ℕ)
    → IsZone local offset
    → IsMark offset 6 (now + six_hours local now)
      × (0 < six_hours local now)
      × (six_hours local now ≤ 25200)
      × ((six_hours local now ≤ 21600) ⊎ (hours offset (now + min_round_off now) % 12 ≡ 6))
      × IsMark offset 12 (now + twelve_hours local now)
      × (0 < twelve_hours local now)
      × (twelve_hours local now ≤ 43200)
period_marks local offset now zone =
    let (mark6, positive6, bound6) =
      Leads-IsMark offset 6 7 now _ (six_hours-Leads local offset now zone) in
    let (mark12, positive12, bound12) =
      Leads-IsMark offset 12 12 now _ (twelve_hours-Leads local offset now zone) in
    (
      mark6,
      positive6,
      omega (arith, bound6),
      six_hours_bound local offset now zone,
      mark12,
      positive12,
      omega (arith, bound12),
    )

pub days_later :
    (offset t d : ℕ)
    → ((t + d * 86400) % 3600 ≡ t % 3600) × (hours offset (t + d * 86400) ≡ hours offset t + 24 * d)
days_later offset t d = (omega arith, omega arith)

weekly-Leads :
    (local : LocalTime) (offset now : ℕ)
    → IsZone local offset
    → 0 < calculate_seconds_to_midnight local now
    → let m = calculate_seconds_to_midnight local now in
      (d : ℕ) × (weekly local now + 1 ≡ m + d * 86400)
      × (d < 7)
      × ((hours offset (now + m) / 24 + d + 3) % 7 ≡ 0)
unfolding weekly
weekly-Leads local offset now zone positive =
    let m = calculate_seconds_to_midnight local now in
    let at = zone.week_day (now + m) in
    let w = local.week_day (now + m) in
    (
      (if w == 1 then 0 else (7 - w) + 1),
      omega (arith, positive),
      ground (arith, at),
      ground (arith, at),
    )

-- The rotators of an hour, a day and a week run in the last second before the next full hour, local
-- midnight or midnight to a Monday, no more than one period away.
pub last_seconds :
    (local : LocalTime) (offset now : ℕ)
    → IsZone local offset
    → IsMark offset 1 (now + hourly local now + 1)
      × (hourly local now < 3600)
      × IsMark offset 24 (now + daily local now + 1)
      × (daily local now < 86400)
      × IsMark offset 24 (now + weekly local now + 1)
      × (local.week_day (now + weekly local now + 1) ≡ 1)
      × (weekly local now < 604800)
unfolding hourly daily weekly
last_seconds local offset now zone =
    let midnight = calculate_seconds_to_midnight local now in
    let ((full, hour), positive, bound) =
      Leads-IsMark offset 24 24 now _ (midnight-Leads local offset now zone) in
    let (d, week, small, monday) = weekly-Leads local offset now zone positive in
    let later = days_later offset (now + midnight) d in
    let end : now + weekly local now + 1 ≡ (now + midnight) + d * 86400 = omega (arith, week) in
    (
      (omega arith, omega arith),
      omega arith,
      (omega (arith, full, positive), omega (arith, hour, positive)),
      omega (arith, bound, positive),
      (
        ap (λ n. n % 3600) end ∙ later.0 ∙ full,
        ap (λ n. hours offset n % 24) end ∙ omega (arith, later.1, hour),
      ),
      zone.week_day _
          ∙ ap (λ n. (hours offset n / 24 + 3) % 7 + 1) end
          ∙ omega (arith, later.1, hour, monday),
      omega (arith, week, small, bound),
    )
