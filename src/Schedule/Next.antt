-- ===== src/Schedule/Next.antt =====
-- The next occurrence of a recurring schedule: `resolve_weekly_weekdays`, `has_recurring_schedule`
-- and `compute_next_repeating_start` of backend/app/core/stream_schedule.py.
pub mod Occurrence
pub mod Total
pub mod Progress
use youtube_translation.Base.{
  ℕ, zero, suc, ◌+◌, ◌*◌, ◌/◌, ◌%◌, Bool, true, false, ◌==◌, List, [], ◌∷◌, Option, none, some, any,
  if◌then◌else◌, Text, ℤ, day,
}
use youtube_translation.Schedule.Zone.{Zone, DateTime, ensure_utc, to_local, localize_wall_time}
use youtube_translation.Schedule.Normalize.{
  Result, ok, err, ◌>>=◌, no_occurrence, Repeat, never, daily, weekly, ZoneInfo,
  normalize_schedule_repeat, normalize_schedule_weekdays, get_schedule_zone,
}

-- `wall.date()` as the number of days, `wall.timetz()` as the time since its midnight, and
-- `date.weekday()`, with 0 for Monday.
abbrev pub date_of : ℕ → ℕ
date_of w = w / day

abbrev pub time_of : ℕ → ℕ
time_of w = w % day

abbrev pub weekday : ℕ → ℕ
weekday date = date % 7

-- `datetime.combine(date, time)`
abbrev pub combine : ℕ → ℕ → ℕ
combine date time = date * day + time

-- The weekday of the start itself, in the zone.
own_weekday : ZoneInfo → DateTime → Option Text → Result (List ℕ)
own_weekday zones start_at timezone = do
  zone ← get_schedule_zone zones timezone
  ok (weekday (date_of (to_local zone (ensure_utc start_at))) ∷ [])

given_or_own : ZoneInfo → DateTime → Option Text → Option (List ℕ) → Result (List ℕ)
unfolding own_weekday
given_or_own zones start_at timezone (some ws) = ok ws
given_or_own zones start_at timezone none = own_weekday zones start_at timezone

-- `resolve_weekly_weekdays`
unfoldable pub resolve_weekly_weekdays :
    ZoneInfo → DateTime → Option Text → Option (List ℤ) → Result (List ℕ)
unfolding given_or_own
resolve_weekly_weekdays zones start_at timezone weekdays = do
  normalized ← normalize_schedule_weekdays weekdays
  given_or_own zones start_at timezone normalized

-- `has_recurring_schedule`, of the repeat mode and the enabled flag of a stream.
unfoldable pub has_recurring_schedule : Option Text → Bool → Result Bool
has_recurring_schedule repeat enabled = do
  mode ← normalize_schedule_repeat repeat
  ok (elim mode [ never ↦ false | daily ↦ enabled | weekly ↦ enabled ])

-- `for day_offset in range(first, first + n)`: the first offset whose date falls on a given weekday.
unfoldable pub first_offset : ℕ → ℕ → ℕ → List ℕ → Option ℕ
first_offset zero offset date ws = none
first_offset (suc n) offset date ws =
    let later = first_offset n (suc offset) date ws in
    if any (λ w. w == weekday (date + offset)) ws then some offset else later

-- The occurrence so many days after a wall time, at the same time of the day.
unfoldable pub occurrence_after : Zone → ℕ → ℕ → ℕ
occurrence_after zone wall offset =
    localize_wall_time zone (combine (date_of wall + offset) (time_of wall))

next_weekly : Zone → ℕ → List ℕ → Result (Option ℕ)
next_weekly zone wall ws = elim (first_offset 14 1 (date_of wall) ws) [
  | none ↦ err no_occurrence
  | some offset ↦ ok (some (occurrence_after zone wall offset))
]

next_of_mode : ZoneInfo → DateTime → Option Text → Option (List ℤ) → Repeat → Result (Option ℕ)
unfolding next_weekly
next_of_mode zones start_at timezone weekdays never = ok none
next_of_mode zones start_at timezone weekdays daily = do
  zone ← get_schedule_zone zones timezone
  ok (some (occurrence_after zone (to_local zone (ensure_utc start_at)) 1))
next_of_mode zones start_at timezone weekdays weekly = do
  zone ← get_schedule_zone zones timezone
  ws ← resolve_weekly_weekdays zones start_at timezone weekdays
  next_weekly zone (to_local zone (ensure_utc start_at)) ws

-- `compute_next_repeating_start`; the result is an instant.
unfoldable pub compute_next_repeating_start :
    ZoneInfo → DateTime → Option Text → Option Text → Option (List ℤ) → Result (Option ℕ)
unfolding next_of_mode
compute_next_repeating_start zones start_at timezone repeat weekdays = do
  mode ← normalize_schedule_repeat repeat
  next_of_mode zones start_at timezone weekdays mode
