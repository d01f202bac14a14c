-- ===== src/Schedule/Tests.antt =====
-- Schedules at concrete instants, in a zone without an offset.
use youtube_translation.Base.{
  ℕ, ◌+◌, ◌*◌, ◌≡◌, [], ◌∷◌, none, some, Text, codes, arith, day, second, pos, if◌then◌else◌,
  text_beq,
}
use youtube_translation.Schedule.Zone.{Zone, aware}
use youtube_translation.Schedule.Normalize.{ZoneInfo, normalize_schedule_weekdays}
use youtube_translation.Schedule.Normalize.Weekdays.{
  WeekdaysResult, normalize_schedule_weekdays_lem,
}
use youtube_translation.Schedule.Next.{compute_next_repeating_start}
use youtube_translation.Schedule.Next.Progress.{Advances, IsSteady, compute_next-Advances}

abbrev utc : Zone
utc = record { offset_at = λ u. day; offset_of = λ fold w. day }

-- A zone whose offset grows by an hour at the start of the second day: the hour after it is a gap.
abbrev hour : ℕ
hour = 3600 * second

abbrev only_utc : ZoneInfo
only_utc name = if text_beq name (codes "UTC") then some utc else none

-- The tenth day, a Wednesday, at one hour past midnight.
abbrev begin : ℕ
begin = 9 * day + hour

normalize_schedule_weekdays_lem_example :
    WeekdaysResult
      (pos 4 ∷ pos 1 ∷ pos 4 ∷ [])
      (normalize_schedule_weekdays (some (pos 4 ∷ pos 1 ∷ pos 4 ∷ [])))
normalize_schedule_weekdays_lem_example =
    normalize_schedule_weekdays_lem (pos 4 ∷ pos 1 ∷ pos 4 ∷ [])

utc-IsSteady : IsSteady utc
utc-IsSteady fold w u = omega arith

only_utc-IsSteady : (name : Text) (z : Zone) → only_utc name ≡ some z → IsSteady z
only_utc-IsSteady name z found fold w u = ground (arith, found)

compute_next-Advances_example :
    Advances begin
      (compute_next_repeating_start only_utc (aware begin) none (some (codes "daily")) none)
compute_next-Advances_example =
    compute_next-Advances only_utc only_utc-IsSteady (aware begin) none (some (codes "daily")) none
      (omega arith)
