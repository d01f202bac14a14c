-- ===== src/Schedule/Zone/Laws.antt =====
-- What instant a wall time is given.
use youtube_translation.Base.{ℕ, ◌≤◌, ◌<◌, ◌≡◌, ◌≢◌, Bool, true, false, arith, ◌⊎◌, min_by, max_by}
use youtube_translation.Schedule.Zone.{Zone, to_local, from_local, localize_wall_time}

-- The instant is one of the two that the zone reads the wall time as.
pub localize-fold :
    (z : Zone) (w : ℕ)
    → (localize_wall_time z w ≡ from_local z false w)
      ⊎ (localize_wall_time z w ≡ from_local z true w)
unfolding localize_wall_time min_by max_by
localize-fold z w = ground arith

-- Where the wall time occurs at all in the zone, the instant chosen reads it, and is the earliest of
-- the two folds that do.
pub localize_exact :
    (z : Zone) (w : ℕ) (fold : Bool)
    → to_local z (from_local z fold w) ≡ w
    → (to_local z (localize_wall_time z w) ≡ w) × (localize_wall_time z w ≤ from_local z fold w)
unfolding localize_wall_time min_by max_by
localize_exact z w false h = ground arith
localize_exact z w true h = ground arith

-- In a gap of the zone, where no fold reads the wall time, the instant reads a later time if one of
-- the two folds does.
pub localize_gap :
    (z : Zone) (w : ℕ) (fold : Bool)
    → to_local z (localize_wall_time z w) ≢ w
    → w ≤ to_local z (from_local z fold w)
    → w < to_local z (localize_wall_time z w)
unfolding localize_wall_time min_by max_by
localize_gap z w false h l = ground arith
localize_gap z w true h l = ground arith
