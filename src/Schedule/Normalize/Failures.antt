-- ===== src/Schedule/Normalize/Failures.antt =====
-- How the normalisers of repeat modes and zones fail, and what zone a name gives.
use youtube_translation.Base.{
  ◌≡◌, refl, Text, codes, [], ◌∷◌, Option, none, some, arith, Option-cases, inl, inr,
}
use youtube_translation.Schedule.Zone.{Zone}
use youtube_translation.Schedule.Normalize.{
  ScheduleError, Result, ok, err, ◌>>=◌, bad_timezone, bad_repeat, ZoneInfo, zone_named,
  get_schedule_zone, normalize_schedule_timezone, normalize_schedule_repeat,
}

-- A result that fails with no other error.
abbrev pub FailsOnly {ℓ} : {A : Type ℓ} → ScheduleError → Result A → Type 0
FailsOnly e (ok _) = Unit
FailsOnly e (err f) = f ≡ e

-- A zone of the host's data, or the failure of an unknown name.
abbrev pub IsFound : ZoneInfo → Result Zone → Type 0
IsFound zones (ok z) = (n : Text) × (zones n ≡ some z)
IsFound zones (err e) = e ≡ bad_timezone

zone_named-IsFound : (zones : ZoneInfo) (n : Text) → IsFound zones (zone_named zones n)
unfolding zone_named
zone_named-IsFound zones n = elim (Option-cases (zones n)) [
  | inl e ↦ rw (e, zone_named) refl
  | inr (z, e) ↦ rw (e, zone_named) (n, e)
]

normalize_schedule_timezone-FailsOnly :
    (zones : ZoneInfo) (name : Option Text)
    → FailsOnly bad_timezone (normalize_schedule_timezone zones name)
unfolding normalize_schedule_timezone
normalize_schedule_timezone-FailsOnly zones none = tt
normalize_schedule_timezone-FailsOnly zones (some name) = ground arith

pub get_schedule_zone-IsFound :
    (zones : ZoneInfo) (name : Option Text) → IsFound zones (get_schedule_zone zones name)
unfolding get_schedule_zone
get_schedule_zone-IsFound zones name =
    on_name (normalize_schedule_timezone zones name)
      (normalize_schedule_timezone-FailsOnly zones name)
  where
    on_name :
        (r : Result (Option Text))
        → FailsOnly bad_timezone r
        → IsFound zones (r >>= λ c. zone_named zones (elim c [ none ↦ codes "UTC" | some n ↦ n ]))
    on_name (ok c) h = zone_named-IsFound zones (elim c [ none ↦ codes "UTC" | some n ↦ n ])
    on_name (err e) h = h

pub normalize_schedule_repeat-FailsOnly :
    (value : Option Text) → FailsOnly bad_repeat (normalize_schedule_repeat value)
unfolding normalize_schedule_repeat
normalize_schedule_repeat-FailsOnly none = tt
normalize_schedule_repeat-FailsOnly (some []) = tt
normalize_schedule_repeat-FailsOnly (some (c ∷ s)) = ground arith
