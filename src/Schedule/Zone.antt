-- ===== src/Schedule/Zone.antt =====
-- Time zones and wall-clock times: `ensure_utc` and `_localize_wall_time` of
-- backend/app/core/stream_schedule.py. An instant is a number of microseconds of UTC and a wall time
-- one of the local calendar, both counted from the midnight that begins a Monday; that a date past
-- the year 9999 raises is left out.
pub mod Laws
use youtube_translation.Base.{
  ℕ, ◌+◌, ◌-◌, Bool, true, false, not, ◌==◌, List, [], ◌∷◌, Option, none, some, leb, if◌then◌else◌,
  filter, day, min_by, max_by,
}

-- A `ZoneInfo`: the offset from UTC at an instant, and the offset that it reads for a wall time at
-- `fold=0` (`false`) and `fold=1` (`true`). An offset is less than a day either way, and is given
-- with a day added, so that it is a natural number.
pub record Zone : Type 0 where
  pub offset_at : ℕ → ℕ
  pub offset_of : Bool → ℕ → ℕ

-- `u.astimezone(zone)`, as a wall time
abbrev pub to_local : Zone → ℕ → ℕ
to_local z u = u + z.offset_at u - day

-- `w.replace(tzinfo=zone, fold=fold).astimezone(timezone.utc)`
abbrev pub from_local : Zone → Bool → ℕ → ℕ
from_local z fold w = w + day - z.offset_of fold w

-- A `datetime`: with no time zone it holds a wall time, else it stands for an instant.
pub data DateTime : Type 0 where
  naive : ℕ → DateTime
  aware : ℕ → DateTime

-- `ensure_utc`; the result is the instant.
abbrev pub ensure_utc : DateTime → ℕ
ensure_utc (naive w) = w
ensure_utc (aware u) = u

abbrev pub ensure_utc? : Option DateTime → Option ℕ
ensure_utc? none = none
ensure_utc? (some d) = some (ensure_utc d)

-- The candidates of the two folds, as instants.
abbrev pub candidates : Zone → ℕ → List ℕ
candidates z w = from_local z false w ∷ from_local z true w ∷ []

abbrev is_exact : Zone → ℕ → ℕ → Bool
is_exact z w u = to_local z u == w

-- The choice among candidates none of which reads the wall time: the least later reading, or else
-- the greatest reading.
among_later : Zone → ℕ → List ℕ → List ℕ → ℕ
among_later z w (u ∷ us) fallback = min_by (to_local z) u us
among_later z w [] (u ∷ us) = max_by (to_local z) u us
among_later z w [] [] = from_local z false w

among_exact : Zone → ℕ → List ℕ → List ℕ → ℕ
unfolding among_later
among_exact z w (u ∷ us) fallback = min_by (λ x. x) u us
among_exact z w [] fallback = among_later z w (filter (λ u. leb w (to_local z u)) fallback) fallback

-- `_localize_wall_time`, as the instant that its callers convert the result to. The clause of
-- `among_later` for two empty lists is the return that the two folds never reach.
unfoldable pub localize_wall_time : Zone → ℕ → ℕ
unfolding among_exact
localize_wall_time z w =
    among_exact z w (filter (is_exact z w) (candidates z w))
      (filter (λ u. not (is_exact z w u)) (candidates z w))
