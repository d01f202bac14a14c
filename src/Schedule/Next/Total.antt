-- ===== src/Schedule/Next/Total.antt =====
-- When `compute_next_repeating_start` has an answer.
use youtube_translation.Base.{ℕ, ◌≡◌, refl, List, [], ◌∷◌, Option, none, some, Text, ℤ, subst}
use youtube_translation.Schedule.Zone.{Zone, DateTime, ensure_utc, to_local}
use youtube_translation.Schedule.Normalize.{
  ok, Repeat, never, daily, weekly, ZoneInfo, normalize_schedule_weekdays,
  normalize_schedule_repeat,
}
use youtube_translation.Schedule.Normalize.Resolved.{HasZone}
use youtube_translation.Schedule.Next.{
  date_of, weekday, resolve_weekly_weekdays, own_weekday, given_or_own, next_weekly, next_of_mode,
  occurrence_after, compute_next_repeating_start,
}
use youtube_translation.Schedule.Next.Occurrence.{
  IsWeek, weekly_search, ResolvesWeek, resolve-ResolvesWeek,
}

-- The days pass their check.
abbrev pub DaysPass : Option (List ℤ) → Type 0
DaysPass days = (ws : Option (List ℕ)) × (normalize_schedule_weekdays days ≡ ok ws)

module _ (zones : ZoneInfo) (start_at : DateTime) (timezone : Option Text)
    (days : Option (List ℤ)) where
  resolves :
      HasZone zones timezone
      → DaysPass days
      → (ws : List ℕ) × (resolve_weekly_weekdays zones start_at timezone days ≡ ok ws)
  unfolding resolve_weekly_weekdays own_weekday
  resolves (z, found) (none, e) = (
    weekday (date_of (to_local z (ensure_utc start_at))) ∷ [],
    rw (e, given_or_own) (rw found refl),
  )
  resolves zone (some ws, e) = (ws, rw e refl)

  week_found :
      (z : Zone) (ws : List ℕ)
      → IsWeek ws
      → (u : ℕ) × (next_weekly z (to_local z (ensure_utc start_at)) ws ≡ ok (some u))
  unfolding next_weekly
  week_found z ws week =
      let wall = to_local z (ensure_utc start_at) in
      let (o, found, near, first) = weekly_search (date_of wall) ws week in
      (occurrence_after z wall o, rw (found, next_weekly) refl)

  next_found :
      (mode : Repeat)
      → (mode ≡ never → ⊥)
      → HasZone zones timezone
      → DaysPass days
      → (u : ℕ) × (next_of_mode zones start_at timezone days mode ≡ ok (some u))
  unfolding next_of_mode
  next_found never h zone pass = absurd (h refl)
  next_found daily h (z, found) pass =
      (occurrence_after z (to_local z (ensure_utc start_at)) 1, rw found refl)
  next_found weekly h (z, found) pass =
      let (ws, resolved) = resolves (z, found) pass in
      let week = subst ResolvesWeek resolved (resolve-ResolvesWeek zones start_at timezone days) in
      let (u, e) = week_found z ws week in (u, rw found (rw resolved e))

  -- A repeating schedule whose zone is found and whose days pass has a next start.
  pub next_start_exists :
      (repeat : Option Text) (mode : Repeat)
      → normalize_schedule_repeat repeat ≡ ok mode
      → (mode ≡ never → ⊥)
      → HasZone zones timezone
      → DaysPass days
      → (u : ℕ) × (compute_next_repeating_start zones start_at timezone repeat days ≡ ok (some u))
  unfolding compute_next_repeating_start
  next_start_exists repeat mode known h zone pass =
      let (u, e) = next_found mode h zone pass in (u, rw known e)
