-- ===== src/Planning/Recurring.antt =====
-- A plan that repeats, from its request to each of its launches.
use youtube_translation.Base.{
  ℕ, ◌≡◌, ◌≢◌, ◌||◌, Bool, true, false, List, [], ◌∷◌, Option, none, some, if◌then◌else◌, Text,
  codes, ℤ, pos, map, refl, sym, subst, ap, arith, ◌∙◌, lower, strip, lstrip, is_space,
}
use youtube_translation.Schedule.Zone.{Zone, DateTime}
use youtube_translation.Schedule.Normalize.{
  Result, ok, err, Repeat, never, daily, weekly, ZoneInfo, normalize_schedule_repeat,
  normalize_schedule_weekdays, resolve_schedule_timezone,
}
use youtube_translation.Schedule.Normalize.Resolved.{HasZone, resolved-HasZone, days_pass}
use youtube_translation.Schedule.Next.{
  resolve_weekly_weekdays, compute_next_repeating_start, has_recurring_schedule,
}
use youtube_translation.Schedule.Next.Occurrence.{ResolvesWeek, resolve-ResolvesWeek}
use youtube_translation.Schedule.Next.Total.{DaysPass, next_start_exists}
use youtube_translation.Stream.{Stream}
use youtube_translation.Planning.{
  accepted, ◌>>=◌, lift, Request, repeats, is_named, Config, config_timezone, config_weekdays,
  if_enabled, int_days, repeat_text, write_stop, write_plan, drop_plan, plan_stream,
}
use youtube_translation.Planning.Planned.{bind-accepted, lift-accepted}
use youtube_translation.Planning.Due.{plan_stream-Written}

-- The text in the column reads back as the mode.
repeat_text_back : (m : Repeat) → normalize_schedule_repeat (some (repeat_text m)) ≡ ok m
unfolding normalize_schedule_repeat lower strip lstrip is_space
repeat_text_back never = refl
repeat_text_back daily = refl
repeat_text_back weekly = refl

repeats-true : (m : Repeat) → m ≢ never → repeats m ≡ true
repeats-true never h = absurd (h refl)
repeats-true daily h = refl
repeats-true weekly h = refl

module _ (zones : ZoneInfo) (utc : Zone) (known : zones (codes "UTC") ≡ some utc)
    (profile : Option Text) where
  config-HasZone :
      (r : Request) (timezone : Option Text)
      → repeats r.repeat ≡ true
      → config_timezone zones profile r true ≡ accepted timezone
      → HasZone zones timezone
  config-HasZone r timezone again h =
      by_name
        (resolve_schedule_timezone zones
          (r.timezone ∷ (if repeats r.repeat then profile else none) ∷ []))
        refl (opened (repeats r.repeat) again h)
    where
      opened :
          (b : Bool)
          → b ≡ true
          → (if b || is_named r.timezone || is_named (if repeats r.repeat then profile else none)
              then lift (
                  resolve_schedule_timezone zones
                    (r.timezone ∷ (if repeats r.repeat then profile else none) ∷ []))
                >>= (λ name. accepted (some name))
              else accepted none)
            ≡ accepted timezone
          → (lift (
                resolve_schedule_timezone zones
                  (r.timezone ∷ (if repeats r.repeat then profile else none) ∷ []))
              >>= (λ name. accepted (some name)))
            ≡ accepted timezone
      opened true e k = k
      opened false e k = cc

      by_name :
          (q : Result Text)
          → resolve_schedule_timezone zones
              (r.timezone ∷ (if repeats r.repeat then profile else none) ∷ [])
            ≡ q
          → (lift q >>= (λ name. accepted (some name))) ≡ accepted timezone
          → HasZone zones timezone
      by_name (ok name) e k =
          let is : some name ≡ timezone = ground (arith, k) in
          subst (HasZone zones) is (
            resolved-HasZone zones utc known
              (r.timezone ∷ (if repeats r.repeat then profile else none) ∷ []) name e)
      by_name (err x) e k = cc

config-DaysPass :
    (zones : ZoneInfo) (timezone : Option Text) (days : Option (List ℤ)) (m : Repeat)
    (start : Option DateTime) (ws : Option (List ℕ))
    → config_weekdays zones timezone days m start ≡ accepted ws
    → DaysPass (int_days ws)
unfolding normalize_schedule_weekdays
config-DaysPass zones timezone days m start none h = (none, refl)
config-DaysPass zones timezone days never start (some ws) h = cc
config-DaysPass zones timezone days daily start (some ws) h = cc
config-DaysPass zones timezone days weekly none (some ws) h = cc
config-DaysPass zones timezone days weekly (some d) (some ws) h =
    let (found, s1, h1) =
      bind-accepted (lift (resolve_weekly_weekdays zones d timezone days)) _ h in
    let e = lift-accepted (resolve_weekly_weekdays zones d timezone days) s1 in
    let is : found ≡ ws = ground (arith, h1) in
    let week = subst ResolvesWeek e (resolve-ResolvesWeek zones d timezone days) in
    subst (λ v. DaysPass (some (map pos v))) is (days_pass found week.1)

text_recurs :
    (m : Repeat) → m ≢ never → has_recurring_schedule (some (repeat_text m)) true ≡ ok true
unfolding has_recurring_schedule normalize_schedule_repeat lower strip lstrip is_space
text_recurs never h = absurd (h refl)
text_recurs daily h = refl
text_recurs weekly h = refl

-- The launcher takes the row for a repeating one, and has a next start after any start.
abbrev pub KeepsRepeating : ZoneInfo → Stream → Type 0
KeepsRepeating zones s =
    (has_recurring_schedule s.schedule_repeat s.scheduled_start_enabled ≡ ok true)
    × ((start : DateTime)
        → (next : ℕ) × (compute_next_repeating_start zones start s.schedule_timezone
              s.schedule_repeat s.schedule_weekdays
            ≡ ok (some next)))

written-KeepsRepeating :
    (zones : ZoneInfo) (c : Config) (s : Stream)
    → c.repeat ≢ never
    → HasZone zones c.timezone
    → DaysPass (int_days c.weekdays)
    → KeepsRepeating zones (write_stop c (write_plan c s))
written-KeepsRepeating zones c s again zone pass = (
  text_recurs c.repeat again,
  λ start.
      next_start_exists zones start c.timezone (int_days c.weekdays) (some (repeat_text c.repeat))
        c.repeat (repeat_text_back c.repeat) again zone pass,
)

if_true {ℓ} : {A : Type ℓ} (b : Bool) (x y : A) → b ≡ true → (if b then x else y) ≡ x
if_true true x y e = refl
if_true false x y e = cc

-- If the host knows UTC, then an accepted plan that repeats leaves a row that the launcher takes for a
-- repeating one, and from whatever start it is launched, the next start is computed: no time zone, no
-- set of weekdays and no mode that was accepted fails later.
pub plan_stream-KeepsRepeating :
    (zones : ZoneInfo) (utc : Zone) (now : ℕ) (profile : Option Text) (allowed : Stream → Bool)
    (edits : Bool) (given : Request) (s s' : Stream)
    → zones (codes "UTC") ≡ some utc
    → plan_stream zones now profile allowed edits given s ≡ accepted s'
    → given.planned ≡ true
    → given.repeat ≢ never
    → KeepsRepeating zones s'
plan_stream-KeepsRepeating zones utc now profile allowed edits given s s' known h planned again =
    let w = plan_stream-Written zones now profile allowed edits given s s' h in
    let mode : w.request.planned ≡ true = w.is_accepted.mode ∙ planned in
    let same : w.config.repeat ≡ given.repeat =
      w.config_of.repeat
      ∙ if_true w.request.planned w.request.repeat never mode
      ∙ w.is_accepted.repeat in
    let kept : w.request.repeat ≢ never = λ e. again (sym w.is_accepted.repeat ∙ e) in
    let zone =
      config-HasZone zones utc known profile w.request w.config.timezone
        (repeats-true w.request.repeat kept)
        (subst (λ b. config_timezone zones profile w.request b ≡ accepted w.config.timezone) mode
          w.config_of.timezone) in
    let pass =
      config-DaysPass zones w.config.timezone w.request.weekdays w.request.repeat
        (if_enabled w.request.planned w.request.start_at) w.config.weekdays w.config_of.weekdays in
    let row =
      w.row
      ∙ ap (write_stop w.config)
          (if_true given.planned (write_plan w.config s) (drop_plan s) planned) in
    subst (KeepsRepeating zones) (sym row)
      (written-KeepsRepeating zones w.config s (λ e. again (sym same ∙ e)) zone pass)
