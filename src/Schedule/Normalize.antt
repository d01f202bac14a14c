-- ===== src/Schedule/Normalize.antt =====
-- The normalisers of backend/app/core/stream_schedule.py: repeat mode, time zone and weekdays.
pub mod Weekdays
pub mod Resolved
pub mod Failures
use youtube_translation.Base.{
  ℕ, Bool, true, false, ◌||◌, List, [], ◌∷◌, Option, none, some, Text, codes, text_beq, strip,
  lower, any, map, if◌then◌else◌, ℤ, pos, negsuc, ltb_ℤ, pos_part,
}
use youtube_translation.Schedule.Zone.{Zone}

-- The `ValueError`s that the module raises.
pub data ScheduleError : Type 0 where
  bad_repeat bad_timezone bad_weekday no_occurrence : ScheduleError

pub data Result {ℓ} (A : Type ℓ) : Type ℓ where
  ok : A → Result A
  err : ScheduleError → Result A

infixl 5 ◌>>=◌
abbrev pub ◌>>=◌ {ℓ κ} : {A : Type ℓ} {B : Type κ} → Result A → (A → Result B) → Result B
ok a >>= f = f a
err e >>= f = err e

-- `SCHEDULE_REPEAT_VALUES`; `never` is the text "none".
pub data Repeat : Type 0 where
  never daily weekly : Repeat

parse_repeat : Text → Result Repeat
parse_repeat candidate =
    if text_beq candidate (codes "none")
    then ok never
    else if text_beq candidate (codes "daily")
    then ok daily
    else if text_beq candidate (codes "weekly")
    then ok weekly
    else err bad_repeat

-- `normalize_schedule_repeat`
unfoldable pub normalize_schedule_repeat : Option Text → Result Repeat
unfolding parse_repeat
normalize_schedule_repeat none = ok never
normalize_schedule_repeat (some []) = ok never
normalize_schedule_repeat (some (c ∷ s)) = parse_repeat (lower (strip (c ∷ s)))

-- The zones of the host's time-zone data by name; `none` is a `ZoneInfoNotFoundError`.
abbrev pub ZoneInfo : Type 0
ZoneInfo = Text → Option Zone

known_zone : ZoneInfo → Text → Result (Option Text)
known_zone zones [] = ok none
known_zone zones (c ∷ s) = elim (zones (c ∷ s)) [
  | none ↦ err bad_timezone
  | some _ ↦ ok (some (c ∷ s))
]

-- `normalize_schedule_timezone`
unfoldable pub normalize_schedule_timezone : ZoneInfo → Option Text → Result (Option Text)
unfolding known_zone
normalize_schedule_timezone zones none = ok none
normalize_schedule_timezone zones (some value) = known_zone zones (strip value)

zone_named : ZoneInfo → Text → Result Zone
zone_named zones n = elim (zones n) [ none ↦ err bad_timezone | some z ↦ ok z ]

-- `ZoneInfo(candidate or "UTC")`, which raises as above where the name is unknown.
unfoldable pub get_schedule_zone : ZoneInfo → Option Text → Result Zone
unfolding zone_named
get_schedule_zone zones name = do
  candidate ← normalize_schedule_timezone zones name
  zone_named zones (elim candidate [ none ↦ codes "UTC" | some n ↦ n ])

-- `resolve_schedule_timezone`: the first candidate that normalises to a name.
unfoldable pub resolve_schedule_timezone : ZoneInfo → List (Option Text) → Result Text
resolve_schedule_timezone zones [] = ok (codes "UTC")
resolve_schedule_timezone zones (candidate ∷ rest) = do
  normalized ← normalize_schedule_timezone zones candidate
  elim normalized [ none ↦ resolve_schedule_timezone zones rest | some name ↦ ok name ]

-- `sorted({...})`, one element at a time.
unfoldable pub insert_day : ℤ → List ℤ → List ℤ
insert_day d [] = d ∷ []
insert_day d (e ∷ ds) =
    let later = insert_day d ds in
    if ltb_ℤ d e then d ∷ e ∷ ds else if ltb_ℤ e d then e ∷ later else e ∷ ds

unfoldable pub sorted_days : List ℤ → List ℤ
sorted_days [] = []
sorted_days (d ∷ ds) = insert_day d (sorted_days ds)

abbrev pub is_bad_day : ℤ → Bool
is_bad_day d = ltb_ℤ d (pos 0) || ltb_ℤ (pos 6) d

checked_days : List ℤ → Result (Option (List ℕ))
checked_days [] = ok none
checked_days (d ∷ ds) =
    if any is_bad_day (d ∷ ds) then err bad_weekday else ok (some (map pos_part (d ∷ ds)))

-- `normalize_schedule_weekdays`; the days that are left are natural numbers.
unfoldable pub normalize_schedule_weekdays : Option (List ℤ) → Result (Option (List ℕ))
unfolding checked_days
normalize_schedule_weekdays none = ok none
normalize_schedule_weekdays (some days) = checked_days (sorted_days days)
