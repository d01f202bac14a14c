-- ===== src/Planning.antt =====
-- From the request of a schedule to the row that the launcher reads: `validate_schedule` of
-- backend/app/schemas/api.py, `_build_schedule_config` and the schedule part of `create_stream` and
-- `update_stream_schedule` of backend/app/services/streams/service.py.
pub mod Planned
pub mod Launched
pub mod Due
pub mod Recurring
mod Tests
use youtube_translation.Base.{
  ℕ, Bool, true, false, not, ◌&&◌, ◌||◌, List, [], ◌∷◌, Option, none, some, is_some, if◌then◌else◌,
  Text, codes, ℤ, pos, map, leb,
}
use youtube_translation.Schedule.Zone.{DateTime, aware, ensure_utc}
use youtube_translation.Schedule.Normalize.{
  ScheduleError, Result, ok, err, Repeat, never, daily, weekly, ZoneInfo,
  normalize_schedule_timezone, normalize_schedule_weekdays, resolve_schedule_timezone,
}
use youtube_translation.Schedule.Next.{resolve_weekly_weekdays}
use youtube_translation.Schedule.Stop.{compute_schedule_stop_time}
use youtube_translation.Stream.{
  Stream, Status, stopped, scheduled, error, is_busy, is_idle, is_scheduled,
}

-- The refusals of a request, in the order of the source; `schedule_error` is one of the schedule module.
pub data Refusal : Type 0 where
  schedule_error : ScheduleError → Refusal
  start_missing start_not_future repeat_unplanned days_unplanned window_unplanned : Refusal
  duration_unplanned stop_not_future stop_before_start stop_of_repeat no_days : Refusal
  days_of_one_shot window_of_one_shot stop_and_duration : Refusal
  config_while_running start_while_running : Refusal

pub data Checked {ℓ} (A : Type ℓ) : Type ℓ where
  accepted : A → Checked A
  refused : Refusal → Checked A

infixl 5 ◌>>=◌ ◌>>◌
abbrev pub ◌>>=◌ {ℓ κ} : {A : Type ℓ} {B : Type κ} → Checked A → (A → Checked B) → Checked B
accepted a >>= f = f a
refused e >>= f = refused e

abbrev pub ◌>>◌ {ℓ} : {B : Type ℓ} → Checked (Unit {0}) → Checked B → Checked B
m >> k = m >>= λ _. k

abbrev pub refuse_if : Bool → Refusal → Checked (Unit {0})
refuse_if true e = refused e
refuse_if false e = accepted tt

abbrev pub lift {ℓ} : {A : Type ℓ} → Result A → Checked A
lift (ok a) = accepted a
lift (err e) = refused (schedule_error e)

-- The schedule fields of a `StreamCreate` or `StreamScheduleUpdate`; `planned` is the mode "schedule".
-- The literals of the schema leave two modes and three ways to repeat, and a duration is positive.
pub record Request : Type 0 where
  pub planned : Bool
  pub start_at : Option DateTime
  pub stop_at : Option DateTime
  pub repeat : Repeat
  pub timezone : Option Text
  pub weekdays : Option (List ℤ)
  pub window_end_time : Option ℕ
  pub stop_after_seconds : Option ℕ

abbrev pub repeats : Repeat → Bool
repeats never = false
repeats daily = true
repeats weekly = true

abbrev pub is_weekly : Repeat → Bool
is_weekly weekly = true
is_weekly _ = false

-- `if weekdays:`
abbrev pub has_days : Option (List ℤ) → Bool
has_days none = false
has_days (some []) = false
has_days (some (d ∷ ds)) = true

abbrev pub int_days : Option (List ℕ) → Option (List ℤ)
int_days none = none
int_days (some ws) = some (map pos ws)

-- The start in the future of a plan, or no start at all.
abbrev pub planned_start : ℕ → Option DateTime → Checked (Option DateTime)
planned_start now none = refused start_missing
planned_start now (some start) = do
  refuse_if (leb (ensure_utc start) now) start_not_future
  accepted (some (aware (ensure_utc start)))

abbrev pub checked_start : ℕ → Request → Bool → Checked (Option DateTime)
checked_start now r true = planned_start now r.start_at
checked_start now r false = do
  refuse_if (repeats r.repeat) repeat_unplanned
  refuse_if (has_days r.weekdays) days_unplanned
  refuse_if (is_some r.window_end_time) window_unplanned
  refuse_if (is_some r.stop_after_seconds) duration_unplanned
  accepted none

abbrev pub is_after : ℕ → Option DateTime → Bool
is_after stop none = false
is_after stop (some start) = leb stop (ensure_utc start)

abbrev pub checked_stop : ℕ → Option DateTime → Option DateTime → Checked (Option DateTime)
checked_stop now start none = accepted none
checked_stop now start (some stop) = do
  refuse_if (leb (ensure_utc stop) now) stop_not_future
  refuse_if (is_after (ensure_utc stop) start) stop_before_start
  accepted (some (aware (ensure_utc stop)))

abbrev pub is_empty_days : Option (List ℤ) → Bool
is_empty_days none = false
is_empty_days (some []) = true
is_empty_days (some (d ∷ ds)) = false

abbrev pub checked_repeat : Request → Bool → Checked (Unit {0})
checked_repeat r true = do
  refuse_if (is_some r.stop_at) stop_of_repeat
  refuse_if (is_weekly r.repeat && is_empty_days r.weekdays) no_days
checked_repeat r false = refuse_if (has_days r.weekdays) days_of_one_shot

-- `validate_schedule`, at the time `now`
unfoldable pub validate_schedule : ZoneInfo → ℕ → Request → Checked Request
validate_schedule zones now given = do
  timezone ← lift (normalize_schedule_timezone zones given.timezone)
  days ← lift (normalize_schedule_weekdays given.weekdays)
  let r = record given { timezone = timezone; weekdays = int_days days }
  start ← checked_start now r r.planned
  stop ← checked_stop now start r.stop_at
  let r' = record r { start_at = start; stop_at = stop }
  checked_repeat r' (repeats r.repeat)
  refuse_if (is_some r.window_end_time && not (repeats r.repeat)) window_of_one_shot
  refuse_if (is_some stop && is_some r.stop_after_seconds) stop_and_duration
  accepted r'

-- The result of `_build_schedule_config`
pub record Config : Type 0 where
  pub enabled : Bool
  pub start_time : Option DateTime
  pub timezone : Option Text
  pub repeat : Repeat
  pub weekdays : Option (List ℕ)
  pub window_end_time : Option ℕ
  pub stop_after_seconds : Option ℕ
  pub stop_time : Option ℕ

-- `explicit_timezone`, as a truth value
abbrev pub is_named : Option Text → Bool
is_named none = false
is_named (some []) = false
is_named (some (c ∷ s)) = true

abbrev pub config_timezone : ZoneInfo → Option Text → Request → Bool → Checked (Option Text)
config_timezone zones profile r false = accepted none
config_timezone zones profile r true =
    let user = if repeats r.repeat then profile else none in
    if repeats r.repeat || is_named r.timezone || is_named user
    then (do
      name ← lift (resolve_schedule_timezone zones (r.timezone ∷ user ∷ []))
      accepted (some name))
    else accepted none

abbrev pub config_weekdays :
    ZoneInfo → Option Text → Option (List ℤ) → Repeat → Option DateTime → Checked (Option (List ℕ))
config_weekdays zones timezone days weekly (some start) = do
  ws ← lift (resolve_weekly_weekdays zones start timezone days)
  accepted (some ws)
config_weekdays zones timezone days _ _ = accepted none

abbrev pub if_enabled {ℓ} : {A : Type ℓ} → Bool → Option A → Option A
if_enabled true o = o
if_enabled false o = none

-- `_build_schedule_config`, with the time zone in the profile of the user
unfoldable pub build_schedule_config : ZoneInfo → Option Text → Request → Checked Config
build_schedule_config zones profile r = do
  timezone ← config_timezone zones profile r r.planned
  let start = if_enabled r.planned r.start_at
  days ← config_weekdays zones timezone r.weekdays r.repeat start
  stop ← lift (
      compute_schedule_stop_time zones start r.stop_at timezone r.window_end_time
        r.stop_after_seconds)
  accepted (record {
    enabled = r.planned;
    start_time = start;
    timezone = timezone;
    repeat = if r.planned then r.repeat else never;
    weekdays = days;
    window_end_time = if_enabled r.planned r.window_end_time;
    stop_after_seconds = if_enabled r.planned r.stop_after_seconds;
    stop_time = stop;
  })

abbrev pub repeat_text : Repeat → Text
repeat_text never = codes "none"
repeat_text daily = codes "daily"
repeat_text weekly = codes "weekly"

abbrev pub instant : Option DateTime → Option ℕ
instant none = none
instant (some d) = some (ensure_utc d)

-- The columns that both modes of an update write.
abbrev pub write_stop : Config → Stream → Stream
write_stop c s = record s { scheduled_stop_time = c.stop_time; scheduled_stop_attempted_at = none }

abbrev pub write_plan : Config → Stream → Stream
write_plan c s = record s {
  scheduled_start_enabled = true;
  scheduled_start_time = instant c.start_time;
  scheduled_start_attempted_at = none;
  schedule_timezone = c.timezone;
  schedule_repeat = some (repeat_text c.repeat);
  schedule_weekdays = int_days c.weekdays;
  schedule_window_end_time = c.window_end_time;
  schedule_stop_after_seconds = c.stop_after_seconds;
  status = if is_idle s.status then scheduled else s.status;
}

abbrev pub drop_plan : Stream → Stream
drop_plan s = record s {
  scheduled_start_enabled = false;
  scheduled_start_time = none;
  scheduled_start_attempted_at = none;
  schedule_timezone = none;
  schedule_repeat = some (codes "none");
  schedule_weekdays = none;
  schedule_window_end_time = none;
  schedule_stop_after_seconds = none;
  status = if is_scheduled s.status then stopped else s.status;
}

-- The schedule part of `update_stream_schedule`: `edits` says that the request names destinations or
-- settings, and `allowed` is what `ensure_schedule_update_allowed` says of the row.
unfoldable pub update_stream_schedule :
    ZoneInfo → Option Text → (Stream → Bool) → Bool → Request → Stream → Checked Stream
unfolding build_schedule_config
update_stream_schedule zones profile allowed edits r s = do
  config ← build_schedule_config zones profile r
  refuse_if (edits && is_busy s.status) config_while_running
  refuse_if (r.planned && not (allowed s)) start_while_running
  accepted (write_stop config (if r.planned then write_plan config s else drop_plan s))

-- A request as it comes in: it is validated, and then it changes the row.
unfoldable pub plan_stream :
    ZoneInfo → ℕ → Option Text → (Stream → Bool) → Bool → Request → Stream → Checked Stream
unfolding validate_schedule update_stream_schedule
plan_stream zones now profile allowed edits given s = do
  r ← validate_schedule zones now given
  update_stream_schedule zones profile allowed edits r s
