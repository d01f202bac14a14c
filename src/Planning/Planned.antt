-- ===== src/Planning/Planned.antt =====
-- What an accepted request leaves in the row, read by the launcher.
use youtube_translation.Base.{
  ℕ, ◌≡◌, ◌<◌, Bool, true, false, not, ◌&&◌, List, Option, none, some, is_some, Text, ℤ, leb, refl,
  subst, arith,
}
use youtube_translation.Schedule.Zone.{DateTime, aware, ensure_utc}
use youtube_translation.Schedule.Normalize.{
  Result, ok, err, Repeat, never, daily, weekly, ZoneInfo, normalize_schedule_timezone,
  normalize_schedule_weekdays,
}
use youtube_translation.Planning.{
  Checked, accepted, refused, Refusal, ◌>>=◌, refuse_if, lift, Request, repeats, has_days, int_days,
  planned_start, checked_start, checked_stop, checked_repeat, validate_schedule, stop_not_future,
  stop_before_start, repeat_unplanned, days_unplanned, window_unplanned, duration_unplanned,
  window_of_one_shot, stop_and_duration,
}

pub bind-accepted {ℓ κ} :
    {A : Type ℓ} {B : Type κ} (m : Checked A) (f : A → Checked B) {b : B}
    → (m >>= f) ≡ accepted b
    → (a : A) × (m ≡ accepted a) × (f a ≡ accepted b)
bind-accepted (accepted a) f h = (a, refl, h)
bind-accepted (refused e) f h = cc

pub refuse_if-accepted :
    (b : Bool) (e : Refusal) {u : Unit {0}} → refuse_if b e ≡ accepted u → b ≡ false
refuse_if-accepted true e h = cc
refuse_if-accepted false e h = refl

pub lift-accepted {ℓ} : {A : Type ℓ} (r : Result A) {a : A} → lift r ≡ accepted a → r ≡ ok a
lift-accepted (ok x) h = ground (arith, h)
lift-accepted (err e) h = cc

-- The start that a validated request has: one in the future for a plan, and else none, with nothing
-- that would need one.
abbrev pub StartsIn : ℕ → Request → Request → Bool → Type 0
StartsIn now given r true =
    (d : DateTime) × (given.start_at ≡ some d)
    × (r.start_at ≡ some (aware (ensure_utc d)))
    × (now < ensure_utc d)
StartsIn now given r false =
    (r.start_at ≡ none) × (r.repeat ≡ never) × (r.stop_after_seconds ≡ none)

abbrev pub StopsIn : ℕ → Option DateTime → Option DateTime → Type 0
StopsIn now start none = Unit
StopsIn now none (some stop) = now < ensure_utc stop
StopsIn now (some start) (some stop) =
    (now < ensure_utc stop) × (ensure_utc start < ensure_utc stop)

pub record IsAccepted (zones : ZoneInfo) (now : ℕ) (given r : Request) : Type 0 where
  pub mode : r.planned ≡ given.planned
  pub repeat : r.repeat ≡ given.repeat
  pub start : StartsIn now given r r.planned
  pub stop : StopsIn now r.start_at r.stop_at
  pub unwindowed : r.repeat ≡ never → r.window_end_time ≡ none
  pub exclusive : is_some r.stop_at ≡ true → r.stop_after_seconds ≡ none
  pub timezone : normalize_schedule_timezone zones given.timezone ≡ ok r.timezone
  pub days : Option (List ℕ)
  pub weekdays :
      (normalize_schedule_weekdays given.weekdays ≡ ok days) × (r.weekdays ≡ int_days days)

checked_start-StartsIn :
    (now : ℕ) (r : Request) (mode : Bool) (start : Option DateTime)
    → checked_start now r mode ≡ accepted start
    → StartsIn now r (record r { start_at = start }) mode
checked_start-StartsIn now r true start h = by_start r.start_at refl h
  where
    by_start :
        (o : Option DateTime)
        → r.start_at ≡ o
        → planned_start now o ≡ accepted start
        → StartsIn now r (record r { start_at = start }) true
    by_start none e k = cc
    by_start (some d) e k = (d, e, ground (arith, k), ground (arith, k))
checked_start-StartsIn now r false start h =
    let (a1, s1, h1) = bind-accepted (refuse_if (repeats r.repeat) repeat_unplanned) _ h in
    let (a2, s2, h2) = bind-accepted (refuse_if (has_days r.weekdays) days_unplanned) _ h1 in
    let (a3, s3, h3) =
      bind-accepted (refuse_if (is_some r.window_end_time) window_unplanned) _ h2 in
    let (a4, s4, h4) =
      bind-accepted (refuse_if (is_some r.stop_after_seconds) duration_unplanned) _ h3 in
    (
      ground (arith, h4),
      not_repeating r.repeat (refuse_if-accepted (repeats r.repeat) repeat_unplanned s1),
      absent r.stop_after_seconds
          (refuse_if-accepted (is_some r.stop_after_seconds) duration_unplanned s4),
    )
  where
    not_repeating : (m : Repeat) → repeats m ≡ false → m ≡ never
    not_repeating never e = refl
    not_repeating daily e = cc
    not_repeating weekly e = cc

    absent : (o : Option ℕ) → is_some o ≡ false → o ≡ none
    absent none e = refl
    absent (some n) e = cc

checked_stop-StopsIn :
    (now : ℕ) (start given stop : Option DateTime)
    → checked_stop now start given ≡ accepted stop
    → StopsIn now start stop
checked_stop-StopsIn now start given none h = tt
checked_stop-StopsIn now start none (some u) h = cc
checked_stop-StopsIn now none (some d) (some u) h =
    let (a1, s1, h1) = bind-accepted (refuse_if (leb (ensure_utc d) now) stop_not_future) _ h in
    let later = refuse_if-accepted (leb (ensure_utc d) now) stop_not_future s1 in
    let is : aware (ensure_utc d) ≡ u = ground (arith, h1) in
    subst (λ x. now < ensure_utc x) is (ground (arith, later))
checked_stop-StopsIn now (some v) (some d) (some u) h =
    let (a1, s1, h1) = bind-accepted (refuse_if (leb (ensure_utc d) now) stop_not_future) _ h in
    let (a2, s2, h2) =
      bind-accepted (refuse_if (leb (ensure_utc d) (ensure_utc v)) stop_before_start) _ h1 in
    let later = refuse_if-accepted (leb (ensure_utc d) now) stop_not_future s1 in
    let after = refuse_if-accepted (leb (ensure_utc d) (ensure_utc v)) stop_before_start s2 in
    let is : aware (ensure_utc d) ≡ u = ground (arith, h2) in
    subst (λ x. (now < ensure_utc x) × (ensure_utc v < ensure_utc x)) is
      (ground (arith, later), ground (arith, after))

and-not : (a b : Bool) → (a && b) ≡ false → a ≡ true → b ≡ false
and-not true b h e = h
and-not false b h e = cc

no_window :
    (m : Repeat) (o : Option ℕ) → (is_some o && not (repeats m)) ≡ false → m ≡ never → o ≡ none
no_window never none h e = refl
no_window never (some w) h e = cc
no_window daily o h e = cc
no_window weekly o h e = cc

no_duration : (o : Option ℕ) → is_some o ≡ false → o ≡ none
no_duration none h = refl
no_duration (some n) h = cc

-- The request that is validated, in terms of the one that came in.
module _ (zones : ZoneInfo) (now : ℕ) (given : Request) where
  starts_alike :
      (timezone : Option Text) (days : Option (List ℤ)) (start stop : Option DateTime) (mode : Bool)
      → StartsIn now
          (record given { timezone = timezone; weekdays = days })
          (record given { timezone = timezone; weekdays = days; start_at = start })
          mode
      → StartsIn now given
          (record given { timezone = timezone; weekdays = days; start_at = start; stop_at = stop })
          mode
  starts_alike timezone days start stop true h = h
  starts_alike timezone days start stop false h = h

  pub validate_schedule-IsAccepted :
      (r : Request) → validate_schedule zones now given ≡ accepted r → IsAccepted zones now given r
  unfolding validate_schedule
  validate_schedule-IsAccepted r h =
      let (timezone, s1, h1) =
        bind-accepted (lift (normalize_schedule_timezone zones given.timezone)) _ h in
      let (days, s2, h2) = bind-accepted (lift (normalize_schedule_weekdays given.weekdays)) _ h1 in
      let q : Request = record given { timezone = timezone; weekdays = int_days days } in
      let (start, s3, h3) = bind-accepted (checked_start now q given.planned) _ h2 in
      let (stop, s4, h4) = bind-accepted (checked_stop now start given.stop_at) _ h3 in
      let q' : Request = record q { start_at = start; stop_at = stop } in
      let (a5, s5, h5) = bind-accepted (checked_repeat q' (repeats given.repeat)) _ h4 in
      let windowed = is_some given.window_end_time && not (repeats given.repeat) in
      let (a6, s6, h6) = bind-accepted (refuse_if windowed window_of_one_shot) _ h5 in
      let both = is_some stop && is_some given.stop_after_seconds in
      let (a7, s7, h7) = bind-accepted (refuse_if both stop_and_duration) _ h6 in
      let is : q' ≡ r = ground (arith, h7) in
      subst (IsAccepted zones now given) is (record {
        mode = refl;
        repeat = refl;
        start =
            starts_alike timezone (int_days days) start stop given.planned
              (checked_start-StartsIn now q given.planned start s3);
        stop = checked_stop-StopsIn now start given.stop_at stop s4;
        unwindowed =
            no_window given.repeat given.window_end_time
              (refuse_if-accepted windowed window_of_one_shot s6);
        exclusive = λ e. no_duration given.stop_after_seconds (
            and-not (is_some stop) (is_some given.stop_after_seconds)
              (refuse_if-accepted both stop_and_duration s7) e);
        timezone = lift-accepted (normalize_schedule_timezone zones given.timezone) s1;
        days = days;
        weekdays = (lift-accepted (normalize_schedule_weekdays given.weekdays) s2, refl);
      })
