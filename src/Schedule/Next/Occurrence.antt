-- ===== src/Schedule/Next/Occurrence.antt =====
-- Which occurrence `compute_next_repeating_start` chooses, and that it exists and lies ahead.
use youtube_translation.Base.{
  ℕ, zero, suc, ◌+◌, ◌-◌, ◌%◌, ◌≤◌, ◌<◌, ◌≡◌, ◌≢◌, refl, Bool, true, false, ◌==◌, List, [], ◌∷◌,
  Option, none, some, any, Text, ℤ, arith, inl, inr, Bool-cases, ◌∙◌, All,
}
use youtube_translation.Schedule.Zone.{Zone, DateTime, ensure_utc, to_local}
use youtube_translation.Schedule.Normalize.{
  Result, ok, err, ◌>>=◌, no_occurrence, ZoneInfo, normalize_schedule_weekdays, get_schedule_zone,
}
use youtube_translation.Schedule.Normalize.Weekdays.{
  normalize_schedule_weekdays_lem, WeekdaysResult,
}
use youtube_translation.Schedule.Normalize.Failures.{IsFound, get_schedule_zone-IsFound}
use youtube_translation.Schedule.Next.{
  date_of, weekday, resolve_weekly_weekdays, first_offset, own_weekday, given_or_own,
}

abbrev pub falls_on : ℕ → List ℕ → ℕ → Bool
falls_on date ws k = any (λ w. w == weekday (date + k)) ws

-- `o` is the least of the offsets from `lo` on whose date falls on one of the weekdays.
abbrev pub IsFirst : ℕ → ℕ → List ℕ → ℕ → Type 0
IsFirst lo date ws o =
    (lo ≤ o) × (falls_on date ws o ≡ true) × ((k : ℕ) → lo ≤ k → k < o → falls_on date ws k ≡ false)

-- The search finds the least offset when there is one in its range.
first_offset_finds :
    (n lo date : ℕ) (ws : List ℕ) (k : ℕ)
    → lo ≤ k
    → k < lo + n
    → falls_on date ws k ≡ true
    → (o : ℕ) × (first_offset n lo date ws ≡ some o) × (o ≤ k) × IsFirst lo date ws o
unfolding first_offset
first_offset_finds zero lo date ws k l h f = absurd (omega arith)
first_offset_finds (suc n) lo date ws k l h f = elim (Bool-cases (falls_on date ws lo)) [
  | inl here ↦ (lo, rw here, l, (omega arith, here, λ j p q. absurd (omega arith)))
  | inr later ↦
      let past : lo ≢ k = λ e. cc in
      let (o, found, le, (ge, falls, least)) =
        first_offset_finds n (suc lo) date ws k (omega arith) (omega arith) f in
      (
        o,
        rw later found,
        le,
        (
          omega arith,
          falls,
          λ j p q. elim (Bool-cases (lo == j)) [
            | inl same ↦ ground (arith, later)
            | inr other ↦ least j (ground arith) q
          ],
        ),
      )
]

-- Days of the week, at least one.
abbrev pub IsWeek : List ℕ → Type 0
IsWeek ws = (any (λ w. true) ws ≡ true) × All (λ w. w < 7) ws

week_has_day :
    (date : ℕ) (ws : List ℕ) → IsWeek ws → (k : ℕ) × (1 ≤ k) × (k < 8) × (falls_on date ws k ≡ true)
week_has_day date [] h = absurd (cc h.0)
week_has_day date (w ∷ ws) h =
    let k = 1 + (w + 13 - date % 7) % 7 in
    let same : w ≡ (date + k) % 7 = omega arith in
    (k, omega arith, omega arith, ground (arith, same))

-- Over a set of weekdays the search of fourteen days succeeds within seven, at the least offset.
pub weekly_search :
    (date : ℕ) (ws : List ℕ)
    → IsWeek ws
    → (o : ℕ) × (first_offset 14 1 date ws ≡ some o) × (o ≤ 7) × IsFirst 1 date ws o
weekly_search date ws h =
    let (k, ge, lt, falls) = week_has_day date ws h in
    let (o, found, le, first) = first_offset_finds 14 1 date ws k ge (omega arith) falls in
    (o, found, omega arith, first)

-- Over a set of weekdays the search of fourteen days succeeds within seven, at an offset on one of the
-- days, and at no later one than any offset from 1 on that falls on one of them.
pub weekly_search_least :
    (date : ℕ) (ws : List ℕ) (k : ℕ)
    → IsWeek ws
    → 1 ≤ k
    → falls_on date ws k ≡ true
    → (o : ℕ) × (first_offset 14 1 date ws ≡ some o)
      × (1 ≤ o)
      × (o ≤ 7)
      × (o ≤ k)
      × (falls_on date ws o ≡ true)
weekly_search_least date ws k h ge falls =
    let (o, found, le, (from, on, least)) = weekly_search date ws h in
    (o, found, from, le, grind (arith, least k ge), on)

-- A resolved set of weekdays is a week's, and no failure is that of the search.
abbrev pub ResolvesWeek : Result (List ℕ) → Type 0
ResolvesWeek (ok ws) = IsWeek ws
ResolvesWeek (err e) = e ≢ no_occurrence

own_weekday-ResolvesWeek :
    (zones : ZoneInfo) (start_at : DateTime) (timezone : Option Text)
    → ResolvesWeek (own_weekday zones start_at timezone)
unfolding own_weekday
own_weekday-ResolvesWeek zones start_at timezone =
    own_day (get_schedule_zone zones timezone) (get_schedule_zone-IsFound zones timezone)
  where
    own_day :
        (r : Result Zone)
        → IsFound zones r
        → ResolvesWeek (r >>= λ z. ok (weekday (date_of (to_local z (ensure_utc start_at))) ∷ []))
    own_day (ok z) h = (refl, (omega arith, tt))
    own_day (err e) h = λ same. cc

given_or_own-ResolvesWeek :
    (zones : ZoneInfo) (start_at : DateTime) (timezone : Option Text) (days : List ℤ)
    (r : Result (Option (List ℕ)))
    → WeekdaysResult days r
    → ResolvesWeek (r >>= given_or_own zones start_at timezone)
unfolding given_or_own
given_or_own-ResolvesWeek zones start_at timezone days (err e) h = λ same. cc
given_or_own-ResolvesWeek zones start_at timezone days (ok none) h =
    own_weekday-ResolvesWeek zones start_at timezone
given_or_own-ResolvesWeek zones start_at timezone days (ok (some ws)) h =
    (h.2.2 (λ w. true) ∙ h.1, h.2.1)

pub resolve-ResolvesWeek :
    (zones : ZoneInfo) (start_at : DateTime) (timezone : Option Text) (weekdays : Option (List ℤ))
    → ResolvesWeek (resolve_weekly_weekdays zones start_at timezone weekdays)
unfolding resolve_weekly_weekdays normalize_schedule_weekdays
resolve-ResolvesWeek zones start_at timezone none = own_weekday-ResolvesWeek zones start_at timezone
resolve-ResolvesWeek zones start_at timezone (some days) =
    given_or_own-ResolvesWeek zones start_at timezone days (normalize_schedule_weekdays (some days))
      (normalize_schedule_weekdays_lem days)
