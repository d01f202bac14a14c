-- ===== src/Schedule/Stop.antt =====
-- When a scheduled stream stops: `compute_schedule_stop_time` of backend/app/core/stream_schedule.py.
pub mod Laws
use youtube_translation.Base.{
  ℕ, zero, suc, ◌+◌, ◌*◌, Bool, true, false, List, [], ◌∷◌, ◌++◌, Option, none, some, if◌then◌else◌,
  Text, day, second, ltb, leb, filter, min_by,
}
use youtube_translation.Schedule.Zone.{
  Zone, DateTime, ensure_utc, ensure_utc?, to_local, localize_wall_time,
}
use youtube_translation.Schedule.Normalize.{Result, ok, err, ◌>>=◌, ZoneInfo, get_schedule_zone}
use youtube_translation.Schedule.Next.{date_of, time_of, combine}

-- `if stop_after_seconds:`; the request schema admits only positive numbers.
unfoldable pub after_seconds : ℕ → Option ℕ → List ℕ
after_seconds start none = []
after_seconds start (some zero) = []
after_seconds start (some (suc n)) = (start + suc n * second) ∷ []

-- The end of the window on the day of the start, or on the next day if it is not after the start.
unfoldable pub window_end : Zone → ℕ → ℕ → ℕ
window_end zone start end_time =
    let wall = to_local zone start in
    let stop_date = if leb end_time (time_of wall) then date_of wall + 1 else date_of wall in
    localize_wall_time zone (combine stop_date end_time)

unfoldable pub at_window_end : ZoneInfo → Option Text → ℕ → Option ℕ → Result (List ℕ)
at_window_end zones timezone start none = ok []
at_window_end zones timezone start (some end_time) = do
  zone ← get_schedule_zone zones timezone
  ok (window_end zone start end_time ∷ [])

abbrev least : List ℕ → Option ℕ
least [] = none
least (x ∷ xs) = some (min_by (λ u. u) x xs)

-- The choice among the candidates.
unfoldable pub choose_stop : ℕ → List ℕ → Option ℕ
choose_stop start candidates = elim (least (filter (ltb start) candidates)) [
  | some u ↦ some u
  | none ↦ least candidates
]

from_start : ZoneInfo → Option Text → Option ℕ → Option ℕ → Option ℕ → Result (Option ℕ)
from_start zones timezone window_end_time stop_after_seconds none = ok none
from_start zones timezone window_end_time stop_after_seconds (some start) = do
  at_end ← at_window_end zones timezone start window_end_time
  ok (choose_stop start (after_seconds start stop_after_seconds ++ at_end))

-- `compute_schedule_stop_time`; its parameter `repeat` is not read.
unfoldable pub compute_schedule_stop_time :
    ZoneInfo
    → Option DateTime
    → Option DateTime
    → Option Text
    → Option ℕ
    → Option ℕ
    → Result (Option ℕ)
unfolding from_start
compute_schedule_stop_time zones start_at explicit timezone window_end_time stop_after_seconds =
    elim (ensure_utc? explicit) [
      | some stop ↦ ok (some stop)
      | none ↦ from_start zones timezone window_end_time stop_after_seconds (ensure_utc? start_at)
    ]
