-- ===== src/Schedule/Stop/Laws.antt =====
-- What stop time is chosen.
use youtube_translation.Base.{
  ℕ, suc, ◌+◌, ◌*◌, ◌≤◌, ◌<◌, ◌≡◌, Bool, [], ◌∷◌, ◌++◌, Option, none, some, if◌then◌else◌, Text,
  day, second, leb, min_by, arith,
}
use youtube_translation.Schedule.Zone.{Zone, DateTime, ensure_utc, to_local, from_local}
use youtube_translation.Schedule.Zone.Laws.{localize_exact}
use youtube_translation.Schedule.Normalize.{Result, ok, err, ◌>>=◌, ZoneInfo, get_schedule_zone}
use youtube_translation.Schedule.Next.{date_of, time_of, combine}
use youtube_translation.Schedule.Stop.{
  after_seconds, window_end, at_window_end, choose_stop, compute_schedule_stop_time,
}

-- A stop time after the start and no later than the bound, or a failure to resolve the zone.
abbrev pub StopsWithin : ℕ → ℕ → Result (Option ℕ) → Type 0
StopsWithin start bound (ok none) = ⊥
StopsWithin start bound (ok (some u)) = (start < u) × (u ≤ bound)
StopsWithin start bound (err e) = Unit

-- With a duration set and no explicit stop time, and unless the zone is refused, there is a stop
-- time, which lies after the start and no later than the duration allows, whatever the end of the
-- window is.
pub duration_bounds_stop :
    (zones : ZoneInfo) (start_at : DateTime) (timezone : Option Text) (window : Option ℕ) (n : ℕ)
    → StopsWithin
        (ensure_utc start_at)
        (ensure_utc start_at + suc n * second)
        (compute_schedule_stop_time zones (some start_at) none timezone window (some (suc n)))
unfolding compute_schedule_stop_time after_seconds choose_stop min_by at_window_end
duration_bounds_stop zones start_at timezone none n = ground arith
duration_bounds_stop zones start_at timezone (some end_time) n =
    on_zone (get_schedule_zone zones timezone)
  where
    start : ℕ
    start = ensure_utc start_at

    on_zone :
        (r : Result Zone)
        → StopsWithin start (start + suc n * second) (
            (r >>= λ z. ok (window_end z start end_time ∷ [])) >>= λ at_end.
            ok (choose_stop start (after_seconds start (some (suc n)) ++ at_end)))
    on_zone (ok z) = ground arith
    on_zone (err e) = tt

-- Where the zone reads the chosen wall time at one of the folds, the window of a start ends at the
-- given time of the day, after the start's wall time, and within a day of it.
pub window_end_next :
    (z : Zone) (start end_time : ℕ) (fold : Bool)
    → end_time < day
    → let wall = to_local z start in
      let date = if leb end_time (time_of wall) then date_of wall + 1 else date_of wall in
      to_local z (from_local z fold (combine date end_time)) ≡ combine date end_time
      → let u = to_local z (window_end z start end_time) in
        (time_of u ≡ end_time) × (wall < u) × (u ≤ wall + day)
unfolding window_end
window_end_next z start end_time fold small exact =
    let wall = to_local z start in
    let date = if leb end_time (time_of wall) then date_of wall + 1 else date_of wall in
    let e = (localize_exact z (combine date end_time) fold exact).0 in
    (omega (arith, e), ground (arith, e), ground (arith, e))
