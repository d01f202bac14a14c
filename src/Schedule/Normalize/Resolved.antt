-- ===== src/Schedule/Normalize/Resolved.antt =====
-- A zone that the normalisers have resolved is found again, and days that they have checked pass again.
use youtube_translation.Base.{
  ℕ, ◌≡◌, ◌<◌, false, refl, Text, codes, List, [], ◌∷◌, Option, none, some, arith, Option-cases,
  inl, inr, strip, strip_idem, pos, map, any, All, sym, subst, lstrip, is_space,
}
use youtube_translation.Schedule.Zone.{Zone}
use youtube_translation.Schedule.Normalize.{
  Result, ok, err, ◌>>=◌, ZoneInfo, known_zone, zone_named, get_schedule_zone,
  normalize_schedule_timezone, resolve_schedule_timezone, normalize_schedule_weekdays, is_bad_day,
}
use youtube_translation.Schedule.Normalize.Weekdays.{
  WeekdaysResult, normalize_schedule_weekdays_lem,
}

abbrev pub HasZone : ZoneInfo → Option Text → Type 0
HasZone zones name = (z : Zone) × (get_schedule_zone zones name ≡ ok z)

known_zone-some :
    (zones : ZoneInfo) (t name : Text)
    → known_zone zones t ≡ ok (some name)
    → (t ≡ name) × ((z : Zone) × (zones t ≡ some z))
unfolding known_zone
known_zone-some zones [] name h = cc
known_zone-some zones (c ∷ t) name h = elim (Option-cases (zones (c ∷ t))) [
  | inl e ↦ absurd (ground (arith, h, e))
  | inr (z, e) ↦ (ground (arith, h, e), (z, e))
]

utc_again :
    (zones : ZoneInfo) (z : Zone)
    → zones (codes "UTC") ≡ some z
    → HasZone zones (some (codes "UTC"))
unfolding get_schedule_zone normalize_schedule_timezone known_zone zone_named strip lstrip is_space
utc_again zones z e = (z, ground (arith, e))

zone_named_found :
    (zones : ZoneInfo) (n : Text) (z : Zone) → zones n ≡ some z → zone_named zones n ≡ ok z
unfolding zone_named
zone_named_found zones n z e = rw (e, zone_named) refl

-- A name that the check has let through passes it again, as it is already stripped.
again :
    (zones : ZoneInfo) (t : Text) (z : Zone)
    → known_zone zones (strip t) ≡ ok (some (strip t))
    → zones (strip t) ≡ some z
    → HasZone zones (some (strip t))
unfolding get_schedule_zone normalize_schedule_timezone
again zones t z known found =
    (z, rw (strip_idem t) (rw known (zone_named_found zones (strip t) z found)))

pub normalized-HasZone :
    (zones : ZoneInfo) (given : Option Text) (name : Text)
    → normalize_schedule_timezone zones given ≡ ok (some name)
    → HasZone zones (some name)
unfolding normalize_schedule_timezone
normalized-HasZone zones none name h = cc
normalized-HasZone zones (some t) name h =
    let (same, (z, found)) = known_zone-some zones (strip t) name h in
    subst (λ n. HasZone zones (some n)) same
      (again zones t z (subst (λ n. known_zone zones (strip t) ≡ ok (some n)) (sym same) h) found)

-- The zone that is resolved, be it one of the candidates or UTC.
pub resolved-HasZone :
    (zones : ZoneInfo) (utc : Zone)
    → zones (codes "UTC") ≡ some utc
    → (candidates : List (Option Text)) (name : Text)
    → resolve_schedule_timezone zones candidates ≡ ok name
    → HasZone zones (some name)
unfolding resolve_schedule_timezone
resolved-HasZone zones utc known [] name h =
    let is : codes "UTC" ≡ name = ground (arith, h) in
    subst (λ n. HasZone zones (some n)) is (utc_again zones utc known)
resolved-HasZone zones utc known (given ∷ rest) name h =
    by_first (resolved-HasZone zones utc known rest name) (normalize_schedule_timezone zones given)
      refl h
  where
    by_first :
        (resolve_schedule_timezone zones rest ≡ ok name → HasZone zones (some name))
        → (r : Result (Option Text)) → normalize_schedule_timezone zones given ≡ r
        → (r >>= λ n. elim n [ none ↦ resolve_schedule_timezone zones rest | some m ↦ ok m ])
          ≡ ok name
        → HasZone zones (some name)
    by_first later (ok none) e k = later k
    by_first later (ok (some m)) e k =
        let is : m ≡ name = ground (arith, k) in
        subst (λ n. HasZone zones (some n)) is (normalized-HasZone zones given m e)
    by_first later (err x) e k = cc

-- Days that have been checked pass the check again.
pos_good : (ws : List ℕ) → All (λ w. w < 7) ws → any is_bad_day (map pos ws) ≡ false
pos_good [] h = refl
pos_good (w ∷ ws) h = ground (arith, h.0, pos_good ws h.1)

pub days_pass :
    (ws : List ℕ)
    → All (λ w. w < 7) ws
    → (checked : Option (List ℕ)) × (normalize_schedule_weekdays (some (map pos ws)) ≡ ok checked)
days_pass ws h =
    by_result (normalize_schedule_weekdays (some (map pos ws))) refl
      (normalize_schedule_weekdays_lem (map pos ws))
  where
    by_result :
        (r : Result (Option (List ℕ)))
        → normalize_schedule_weekdays (some (map pos ws)) ≡ r
        → WeekdaysResult (map pos ws) r
        → (checked : Option (List ℕ)) × (normalize_schedule_weekdays (some (map pos ws))
            ≡ ok checked)
    by_result (ok checked) e w = (checked, e)
    by_result (err x) e w = cc (w.1, pos_good ws h)
