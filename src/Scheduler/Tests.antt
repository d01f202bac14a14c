-- ===== src/Scheduler/Tests.antt =====
-- A turn of the launcher over a concrete row.
use youtube_translation.Base.{
  ℕ, ◌+◌, ◌*◌, ◌≡◌, refl, true, Option, none, some, Text, codes, day, lower, strip, lstrip,
  is_space, min_by,
}
use youtube_translation.Schedule.Zone.{Zone, localize_wall_time}
use youtube_translation.Schedule.Stop.{
  compute_schedule_stop_time, at_window_end, choose_stop, after_seconds,
}
use youtube_translation.Schedule.Normalize.{
  ZoneInfo, normalize_schedule_repeat, normalize_schedule_timezone, get_schedule_zone,
}
use youtube_translation.Schedule.Next.{
  has_recurring_schedule, compute_next_repeating_start, occurrence_after,
}
use youtube_translation.Stream.{Stream, scheduled, running}
use youtube_translation.Scheduler.{done, Runtime, turn, launch}

abbrev utc : Zone
utc = record { offset_at = λ u. day; offset_of = λ fold w. day }

abbrev all_utc : ZoneInfo
all_utc name = some utc

-- A control service that always starts.
abbrev willing : Runtime
willing = record {
  start_stream = λ preserve s. done (record s { status = running });
  stop_stream = λ s. done s;
}

abbrev row : Option Text → ℕ → Option ℕ → Stream
row repeat start stop = record {
  status = scheduled;
  pid = none;
  log_path = none;
  error_message = none;
  started_at = none;
  stopped_at = none;
  runtime_last_heartbeat_at = none;
  scheduled_start_enabled = true;
  scheduled_start_time = some start;
  scheduled_start_attempted_at = none;
  scheduled_stop_time = stop;
  scheduled_stop_attempted_at = none;
  schedule_repeat = repeat;
  schedule_timezone = none;
  schedule_weekdays = none;
  schedule_window_end_time = none;
  schedule_stop_after_seconds = none;
}

abbrev daily_row : Stream
daily_row = row (some (codes "daily")) (9 * day) none

abbrev next_day : Stream
next_day = record daily_row {
  status = running;
  scheduled_start_time = some (10 * day);
  scheduled_start_attempted_at = none;
}

daily_row_launched : launch all_utc willing (9 * day + 5) daily_row ≡ turn next_day true
unfolding launch has_recurring_schedule normalize_schedule_repeat lower strip lstrip is_space
    compute_schedule_stop_time at_window_end choose_stop after_seconds compute_next_repeating_start
    get_schedule_zone normalize_schedule_timezone occurrence_after localize_wall_time min_by
daily_row_launched = refl
