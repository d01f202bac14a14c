-- ===== src/Schedule/Next/Progress.antt =====
-- `compute_next_repeating_start` always finds an occurrence, it lies ahead, and it keeps the time of
-- the day.
use youtube_translation.Base.{
  ℕ, ◌+◌, ◌*◌, ◌≤◌, ◌<◌, ◌≡◌, ◌≢◌, Bool, true, false, List, Option, none, some, Text, ℤ, day, arith,
  inl, inr,
}
use youtube_translation.Schedule.Zone.{Zone, DateTime, ensure_utc, to_local, from_local}
use youtube_translation.Schedule.Zone.Laws.{localize-fold, localize_exact}
use youtube_translation.Schedule.Normalize.{
  Result, ok, err, ◌>>=◌, no_occurrence, bad_repeat, Repeat, never, daily, weekly, ZoneInfo,
  normalize_schedule_repeat, get_schedule_zone,
}
use youtube_translation.Schedule.Normalize.Failures.{
  IsFound, get_schedule_zone-IsFound, FailsOnly, normalize_schedule_repeat-FailsOnly,
}
use youtube_translation.Schedule.Next.{
  date_of, time_of, combine, resolve_weekly_weekdays, occurrence_after, next_weekly, next_of_mode,
  compute_next_repeating_start, has_recurring_schedule,
}
use youtube_translation.Schedule.Next.Occurrence.{
  IsWeek, weekly_search, ResolvesWeek, resolve-ResolvesWeek,
}

-- The date and the time of a wall time make it up again.
combine-date-time : (w k : ℕ) → combine (date_of w + k) (time_of w) ≡ w + k * day
combine-date-time w k = grind arith

-- The offsets that a zone reads for a wall time at either fold are less than a day ahead of its
-- offset at any instant.
abbrev pub IsSteady : Zone → Type 0
IsSteady z = (fold : Bool) (w u : ℕ) → z.offset_of fold w < z.offset_at u + day

-- An occurrence one day or more after a start lies after that start.
occurrence_after_later :
    (z : Zone) (start k : ℕ)
    → IsSteady z
    → day ≤ start
    → 1 ≤ k
    → start < occurrence_after z (to_local z start) k
unfolding occurrence_after
occurrence_after_later z start k steady old pos =
    let w = combine (date_of (to_local z start) + k) (time_of (to_local z start)) in
    let same : w ≡ to_local z start + k * day = combine-date-time (to_local z start) k in
    let enough : day ≤ k * day = grind arith in
    elim (localize-fold z w) [
      | inl e ↦ omega (arith, e, same, enough, steady false w start)
      | inr e ↦ omega (arith, e, same, enough, steady true w start)
    ]

-- Where the zone reads the wall time of an occurrence at one of the folds, the occurrence is at the
-- time of the day of the start, on the date so many days later.
pub occurrence_keeps_time :
    (z : Zone) (start k : ℕ) (fold : Bool)
    → let wall = to_local z start in
      let w = combine (date_of wall + k) (time_of wall) in
      to_local z (from_local z fold w) ≡ w
      → let u = to_local z (occurrence_after z (to_local z start) k) in
        (time_of u ≡ time_of (to_local z start)) × (date_of u ≡ date_of (to_local z start) + k)
unfolding occurrence_after
occurrence_keeps_time z start k fold exact =
    let wall = to_local z start in
    let w = combine (date_of wall + k) (time_of wall) in
    let e = (localize_exact z w fold exact).0 in (omega (arith, e), omega (arith, e))

-- A result is no occurrence, one after the start, or a failure other than that of the search.
abbrev pub Advances : ℕ → Result (Option ℕ) → Type 0
Advances start (ok none) = Unit
Advances start (ok (some u)) = start < u
Advances start (err e) = e ≢ no_occurrence

module _ (zones : ZoneInfo)
    (steady : (name : Text) (z : Zone) → zones name ≡ some z → IsSteady z) where
  -- Every zone that is found is steady.
  abbrev FindsSteady : Result Zone → Type 0
  FindsSteady (ok z) = IsSteady z
  FindsSteady (err e) = e ≢ no_occurrence

  IsFound-FindsSteady : (r : Result Zone) → IsFound zones r → FindsSteady r
  IsFound-FindsSteady (ok z) (n, e) = steady n z e
  IsFound-FindsSteady (err e) h = λ same. cc

  get_schedule_zone-FindsSteady : (name : Option Text) → FindsSteady (get_schedule_zone zones name)
  get_schedule_zone-FindsSteady name =
      IsFound-FindsSteady (get_schedule_zone zones name) (get_schedule_zone-IsFound zones name)

  next_weekly-Advances :
      (z : Zone) (start : ℕ) (ws : List ℕ)
      → IsSteady z
      → day ≤ start
      → IsWeek ws
      → Advances start (next_weekly z (to_local z start) ws)
  unfolding next_weekly
  next_weekly-Advances z start ws st old week =
      let (o, found, le, (ge, falls, least)) = weekly_search (date_of (to_local z start)) ws week in
      rw (found, next_weekly) (occurrence_after_later z start o st old ge)

  next_of_mode-Advances :
      (start_at : DateTime) (timezone : Option Text) (weekdays : Option (List ℤ)) (mode : Repeat)
      → day ≤ ensure_utc start_at
      → Advances (ensure_utc start_at) (next_of_mode zones start_at timezone weekdays mode)
  unfolding next_of_mode
  next_of_mode-Advances start_at timezone weekdays never old = tt
  next_of_mode-Advances start_at timezone weekdays daily old =
      on_zone (get_schedule_zone zones timezone) (get_schedule_zone-FindsSteady timezone)
    where
      on_zone :
          (r : Result Zone)
          → FindsSteady r
          → Advances
              (ensure_utc start_at)
              (r >>= λ z. ok (some (occurrence_after z (to_local z (ensure_utc start_at)) 1)))
      on_zone (ok z) st = occurrence_after_later z (ensure_utc start_at) 1 st old (omega arith)
      on_zone (err e) h = h
  next_of_mode-Advances start_at timezone weekdays weekly old =
      on_both (get_schedule_zone zones timezone) (get_schedule_zone-FindsSteady timezone)
        (resolve_weekly_weekdays zones start_at timezone weekdays)
        (resolve-ResolvesWeek zones start_at timezone weekdays)
    where
      on_both :
          (r : Result Zone)
          → FindsSteady r
          → (q : Result (List ℕ)) → ResolvesWeek q
          → Advances
              (ensure_utc start_at)
              (r >>= λ z. q >>= λ ws. next_weekly z (to_local z (ensure_utc start_at)) ws)
      on_both (ok z) st (ok ws) week = next_weekly-Advances z (ensure_utc start_at) ws st old week
      on_both (ok z) st (err e) h = h
      on_both (err e) h q week = h

-- In zones whose offsets vary by less than a day, and from a start at least one day into the
-- calendar, a next start that is returned lies after the given one, whatever the mode, the zone
-- and the weekdays are; and no failure is that of the search for a weekday.
pub compute_next-Advances :
    (zones : ZoneInfo)
    → ((name : Text) (z : Zone) → zones name ≡ some z → IsSteady z)
    → (start_at : DateTime) (timezone repeat : Option Text) (weekdays : Option (List ℤ))
    → day ≤ ensure_utc start_at
    → Advances
        (ensure_utc start_at)
        (compute_next_repeating_start zones start_at timezone repeat weekdays)
unfolding compute_next_repeating_start
compute_next-Advances zones steady start_at timezone repeat weekdays old =
    on_mode (normalize_schedule_repeat repeat) (normalize_schedule_repeat-FailsOnly repeat)
  where
    on_mode :
        (r : Result Repeat)
        → FailsOnly bad_repeat r
        → Advances (ensure_utc start_at) (r >>= next_of_mode zones start_at timezone weekdays)
    on_mode (ok mode) h = next_of_mode-Advances zones steady start_at timezone weekdays mode old
    on_mode (err e) h = λ same. cc

-- A recurring schedule always has a next start, unless its zone or its weekdays are refused.
pub recurring_has_next :
    (zones : ZoneInfo) (start_at : DateTime) (timezone repeat : Option Text)
    (weekdays : Option (List ℤ)) (enabled : Bool)
    → has_recurring_schedule repeat enabled ≡ ok true
    → compute_next_repeating_start zones start_at timezone repeat weekdays ≢ ok none
unfolding has_recurring_schedule compute_next_repeating_start next_of_mode next_weekly
recurring_has_next zones start_at timezone repeat weekdays enabled h e = ground arith
