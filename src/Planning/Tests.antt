-- ===== src/Planning/Tests.antt =====
-- A weekly plan for a stopped stream, a plan for one evening, and a schedule that is dropped.
use youtube_translation.Base.{
  ℕ, ◌*◌, Bool, true, false, not, [], ◌∷◌, none, some, if◌then◌else◌, codes, text_beq, refl, day,
  pos, strip, lstrip, is_space,
}
use youtube_translation.Schedule.Zone.{Zone, aware, naive}
use youtube_translation.Schedule.Normalize.{
  ZoneInfo, never, weekly, normalize_schedule_timezone, normalize_schedule_weekdays,
  resolve_schedule_timezone, sorted_days, insert_day,
}
use youtube_translation.Schedule.Next.{resolve_weekly_weekdays}
use youtube_translation.Schedule.Stop.{compute_schedule_stop_time, at_window_end}
use youtube_translation.Stream.{Stream, stopped, is_busy}
use youtube_translation.Planning.{Checked, accepted, refused, Request, plan_stream}
use youtube_translation.Planning.Launched.{IsPlanned, plan_stream-IsPlanned}
use youtube_translation.Planning.Recurring.{KeepsRepeating, plan_stream-KeepsRepeating}

abbrev utc : Zone
utc = record { offset_at = λ u. day; offset_of = λ fold w. day }

abbrev only_utc : ZoneInfo
only_utc name = if text_beq name (codes "UTC") then some utc else none

abbrev now : ℕ
now = 9 * day

abbrev idle : Stream
idle = record {
  status = stopped;
  pid = none;
  log_path = none;
  error_message = none;
  started_at = none;
  stopped_at = none;
  runtime_last_heartbeat_at = none;
  scheduled_start_enabled = false;
  scheduled_start_time = none;
  scheduled_start_attempted_at = some 3;
  scheduled_stop_time = none;
  scheduled_stop_attempted_at = none;
  schedule_repeat = none;
  schedule_timezone = none;
  schedule_weekdays = none;
  schedule_window_end_time = none;
  schedule_stop_after_seconds = none;
}

abbrev once : Request
once = record {
  planned = true;
  start_at = some (naive (10 * day));
  stop_at = none;
  repeat = never;
  timezone = none;
  weekdays = none;
  window_end_time = none;
  stop_after_seconds = some 3600;
}

abbrev each_week : Request
each_week = record once {
  repeat = weekly;
  timezone = some (codes " UTC");
  weekdays = some (pos 4 ∷ pos 1 ∷ []);
}

abbrev dropping : Request
dropping = record once {
  planned = false;
  stop_at = some (aware (11 * day));
  stop_after_seconds = none;
}

may_plan : Stream → Bool
may_plan s = not (is_busy s.status)

row_of : Checked Stream → Stream
row_of (accepted s) = s
row_of (refused e) = idle

planned : Request → Stream
unfolding row_of plan_stream may_plan normalize_schedule_timezone strip lstrip is_space
    normalize_schedule_weekdays sorted_days insert_day resolve_schedule_timezone
    resolve_weekly_weekdays compute_schedule_stop_time at_window_end
planned r = row_of (plan_stream only_utc now none may_plan false r idle)

plan_stream-IsPlanned_example : IsPlanned now once (planned once)
unfolding planned
plan_stream-IsPlanned_example =
    plan_stream-IsPlanned only_utc now none may_plan false once idle (planned once) refl refl refl

plan_stream-KeepsRepeating_example : KeepsRepeating only_utc (planned each_week)
unfolding planned
plan_stream-KeepsRepeating_example =
    plan_stream-KeepsRepeating only_utc utc now none may_plan false each_week idle
      (planned each_week) refl refl refl (λ e. cc)
