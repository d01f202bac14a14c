-- ===== src/Planning/Launched.antt =====
-- The launcher on a row whose schedule a request has just planned or dropped.
use youtube_translation.Base.{
  ℕ, suc, zero, ◌≡◌, ◌+◌, ◌*◌, ◌≤◌, ◌<◌, Bool, true, false, Option, none, some, if◌then◌else◌, Text,
  leb, refl, subst, ap, arith, second, ◌∙◌,
}
use youtube_translation.Schedule.Zone.{DateTime, aware, ensure_utc}
use youtube_translation.Schedule.Normalize.{Result, ok, never, ZoneInfo}
use youtube_translation.Schedule.Stop.{
  compute_schedule_stop_time, after_seconds, at_window_end, choose_stop,
}
use youtube_translation.Schedule.Stop.Laws.{StopsWithin, duration_bounds_stop}
use youtube_translation.Stream.{Stream, Status, scheduled, is_idle}
use youtube_translation.Scheduler.{is_start_due}
use youtube_translation.Planning.{
  accepted, Request, Config, if_enabled, instant, write_stop, write_plan, drop_plan, plan_stream,
}
use youtube_translation.Planning.Planned.{IsAccepted, StartsIn, StopsIn}
use youtube_translation.Planning.Due.{ConfigOf, plan_stream-Written}

-- An explicit stop is taken as it is, and without a window a stop lies after the start.
one_shot_stop :
    (zones : ZoneInfo) (now : ℕ) (timezone : Option Text) (start : DateTime)
    (stop_at : Option DateTime) (duration : Option ℕ) (u : ℕ)
    → StopsIn now (some start) stop_at
    → compute_schedule_stop_time zones (some start) stop_at timezone none duration ≡ ok (some u)
    → ensure_utc start < u
unfolding compute_schedule_stop_time after_seconds at_window_end choose_stop
one_shot_stop zones now timezone start (some d) duration u h e =
    let is : ensure_utc d ≡ u = some_ok e in subst (λ v. ensure_utc start < v) is h.1
  where
    some_ok : {a b : ℕ} → ◌≡◌ {A = Result (Option ℕ)} (ok (some a)) (ok (some b)) → a ≡ b
    some_ok k = cc k
one_shot_stop zones now timezone start none none u h e = cc
one_shot_stop zones now timezone start none (some zero) u h e = cc
one_shot_stop zones now timezone start none (some (suc n)) u h e =
    let bound = ensure_utc start + suc n * second in
    let within : (ensure_utc start < u) × (u ≤ bound) =
      subst (StopsWithin (ensure_utc start) bound) e
        (duration_bounds_stop zones start timezone none n) in
    within.0

-- When the launcher takes a stream up: at its start and from then on, and not before.
pub record IsPlanned (now : ℕ) (given : Request) (s' : Stream) : Type 0 where
  pub start : ℕ
  pub is_start : instant given.start_at ≡ some start
  pub future : now < start
  pub due : (interval t : ℕ) → is_start_due interval t s' ≡ leb start t
  pub stop_later : given.repeat ≡ never → (u : ℕ) → s'.scheduled_stop_time ≡ some u → start < u

if_true : (b : Bool) (x y : Stream) → b ≡ true → (if b then x else y) ≡ x
if_true true x y e = refl
if_true false x y e = cc

idle_planned :
    (status : Status)
    → is_idle status ≡ true
    → is_idle (if is_idle status then scheduled else status) ≡ true
idle_planned status h = rw h refl

module _ (zones : ZoneInfo) (now : ℕ) (profile : Option Text) (allowed : Stream → Bool)
    (edits : Bool) (given : Request) (s s' : Stream) where
  written-IsPlanned :
      (r : Request) (c : Config) (d : DateTime)
      → IsAccepted zones now given r
      → ConfigOf zones profile r c
      → r.planned ≡ true
      → given.start_at ≡ some d
      → r.start_at ≡ some (aware (ensure_utc d))
      → now < ensure_utc d
      → is_idle s.status ≡ true
      → s' ≡ write_stop c (write_plan c s)
      → IsPlanned now given s'
  unfolding is_start_due
  written-IsPlanned r c d acc conf planned from at future idle row =
      let begins : c.start_time ≡ some (aware (ensure_utc d)) =
        conf.start ∙ rw (planned, at) refl in
      record {
        start = ensure_utc d;
        is_start = ap instant from;
        future = future;
        due = λ interval t. is_due interval t c.start_time begins row;
        stop_later = λ once u e.
            let stops : c.stop_time ≡ some u = ground (arith, row, e) in
            let same : r.repeat ≡ never = acc.repeat ∙ once in
            one_shot_stop zones now c.timezone (aware (ensure_utc d)) r.stop_at r.stop_after_seconds
              u (subst (λ o. StopsIn now o r.stop_at) at acc.stop) (computed same stops);
      }
    where
      is_due :
          (interval t : ℕ) (o : Option DateTime)
          → o ≡ some (aware (ensure_utc d))
          → s' ≡ write_stop c (write_plan (record c { start_time = o }) s)
          → is_start_due interval t s' ≡ leb (ensure_utc d) t
      is_due interval t o e k =
          let idle' = idle_planned s.status idle in ground (arith, e, k, idle')

      computed :
          {u : ℕ}
          → r.repeat ≡ never
          → c.stop_time ≡ some u
          → compute_schedule_stop_time zones
              (some (aware (ensure_utc d)))
              r.stop_at
              c.timezone
              none
              r.stop_after_seconds
            ≡ ok (some u)
      computed once stops =
          let open_end = acc.unwindowed once in
          let begun : if_enabled r.planned r.start_at ≡ some (aware (ensure_utc d)) =
            rw (planned, at) refl in
          cc (conf.stop, begun, open_end, stops)

  -- A request to plan a stream that is neither running nor on its way, once accepted, leaves a row that the
  -- launcher takes up from the requested start on and at no time before, whatever its retry interval is;
  -- that start lies in the future, and a stream that does not repeat stops, if it has a stop time, after it.
  pub plan_stream-IsPlanned :
      plan_stream zones now profile allowed edits given s ≡ accepted s'
      → given.planned ≡ true
      → is_idle s.status ≡ true
      → IsPlanned now given s'
  plan_stream-IsPlanned h planned idle =
      let w = plan_stream-Written zones now profile allowed edits given s s' h in
      let mode : w.request.planned ≡ true = w.is_accepted.mode ∙ planned in
      let (d, from, at, future) = subst (StartsIn now given w.request) mode w.is_accepted.start in
      written-IsPlanned w.request w.config d w.is_accepted w.config_of mode from at future idle (
        w.row
        ∙ ap (write_stop w.config)
            (if_true given.planned (write_plan w.config s) (drop_plan s) planned))
