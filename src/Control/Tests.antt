-- ===== src/Control/Tests.antt =====
-- The managed control service at concrete readings.
use youtube_translation.Base.{
  ℕ, ◌+◌, ◌*◌, ◌≡◌, refl, Bool, true, false, [], ◌∷◌, Option, none, some, Text, codes, arith, ltb,
  day, second, lower, strip, lstrip, is_space, min_by,
}
use youtube_translation.Schedule.Zone.{Zone, localize_wall_time}
use youtube_translation.Schedule.Normalize.{
  ZoneInfo, normalize_schedule_repeat, normalize_schedule_timezone, get_schedule_zone,
}
use youtube_translation.Schedule.Next.{
  has_recurring_schedule, compute_next_repeating_start, occurrence_after,
}
use youtube_translation.Schedule.Next.Progress.{IsSteady}
use youtube_translation.Schedule.Stop.{
  compute_schedule_stop_time, at_window_end, choose_stop, after_seconds,
}
use youtube_translation.Heartbeat.{
  Clock, effective_ttl, write_runtime_heartbeat, runtime_heartbeat_is_stale,
  stale_runtime_heartbeat_reason,
}
use youtube_translation.Heartbeat.Lifetime.{ReadsBack, written_heartbeat_expires}
use youtube_translation.Stream.{Stream, Status, stopped, starting, scheduled}
use youtube_translation.Scheduler.{launch}
use youtube_translation.Scheduler.Launch.{HasLater}
use youtube_translation.Control.{Reading}
use youtube_translation.Control.Status.{
  normalized_status, get_stream_status, refresh, mark_status, drop_legacy, settle_status,
}
use youtube_translation.Control.Runtime.{
  StartReading, StopReading, start_stream, start_known, start_unit, mark_start, restore_start,
}
use youtube_translation.Control.Repeated.{poll_idempotent}
use youtube_translation.Control.Scheduled.{managed_recurring_advances, failed_start_restores}

-- A host that writes an instant as a text of that many characters.
abbrev strokes : ℕ → Text
strokes n = b'1' ∷ n ∷ b'1' ∷ []

abbrev read_strokes : Text → Option ℕ
read_strokes (_ ∷ n ∷ _) = some n
read_strokes _ = none

abbrev plain_clock : Clock
plain_clock = record { isoformat = strokes; fromisoformat = read_strokes }

plain_clock-ReadsBack : ReadsBack plain_clock (5 + 90 * second)
unfolding strip lstrip is_space
plain_clock-ReadsBack = (refl, λ e. ground (arith, e))

written_heartbeat_expires_example :
    runtime_heartbeat_is_stale plain_clock
      (some (write_runtime_heartbeat plain_clock 7 (codes "systemd") 5 none 90))
      9
      none
      30
    ≡ ltb (5 + effective_ttl none 90 * second) 9
written_heartbeat_expires_example =
    written_heartbeat_expires plain_clock 7 (codes "systemd") 5 9 none 90 none 30
      plain_clock-ReadsBack

abbrev quiet_unit : Reading
quiet_unit = record {
  active_state = codes "inactive";
  error = none;
  details = none;
  heartbeat = none;
  checked_at = 9;
  now = 9;
  ttl_setting = 90;
}

abbrev row : Status → Stream
row status = record {
  status = status;
  pid = none;
  log_path = none;
  error_message = none;
  started_at = none;
  stopped_at = none;
  runtime_last_heartbeat_at = none;
  scheduled_start_enabled = true;
  scheduled_start_time = some (9 * day);
  scheduled_start_attempted_at = none;
  scheduled_stop_time = some 8;
  scheduled_stop_attempted_at = none;
  schedule_repeat = some (codes "daily");
  schedule_timezone = none;
  schedule_weekdays = none;
  schedule_window_end_time = none;
  schedule_stop_after_seconds = none;
}

poll_idempotent_example :
    (get_stream_status plain_clock quiet_unit
      (get_stream_status plain_clock quiet_unit (row starting)).0).0
    ≡ (get_stream_status plain_clock quiet_unit (row starting)).0
poll_idempotent_example = poll_idempotent plain_clock quiet_unit (row starting)

-- Readings of a unit that starts or does not, and of one that refuses to stop.
abbrev starts : Bool → StartReading
starts unit_starts = record {
  poll = quiet_unit;
  within_quota = true;
  log_file = some (codes "log");
  unit_active = false;
  unit_starts = unit_starts;
}

abbrev refuses : StopReading
refuses = record { unit_active = true; unit_stops = false; now = 9 }

abbrev stops : StopReading
stops = record { unit_active = true; unit_stops = true; now = 9 }

failed_start_restores_example :
    row stopped ≡ (get_stream_status plain_clock quiet_unit (row stopped)).0
unfolding start_stream start_known start_unit mark_start restore_start get_stream_status refresh
    normalized_status mark_status drop_legacy settle_status stale_runtime_heartbeat_reason
failed_start_restores_example =
    failed_start_restores plain_clock (starts false) false (row stopped) (row stopped) refl

abbrev utc : Zone
utc = record { offset_at = λ u. day; offset_of = λ fold w. day }

abbrev all_utc : ZoneInfo
all_utc name = some utc

all_utc-IsSteady : (name : Text) (z : Zone) → all_utc name ≡ some z → IsSteady z
all_utc-IsSteady name z found fold w u = ground (arith, found)

abbrev next_row : Stream
next_row = record (row starting) {
  log_path = some (codes "log");
  scheduled_start_time = some (10 * day);
  scheduled_stop_time = none;
}

managed_recurring_advances_example : HasLater (9 * day) next_row.scheduled_start_time
unfolding launch has_recurring_schedule normalize_schedule_repeat lower strip lstrip is_space
    compute_schedule_stop_time at_window_end choose_stop after_seconds compute_next_repeating_start
    get_schedule_zone normalize_schedule_timezone occurrence_after localize_wall_time min_by
    start_stream start_known start_unit mark_start get_stream_status refresh normalized_status
    mark_status drop_legacy settle_status stale_runtime_heartbeat_reason
managed_recurring_advances_example =
    managed_recurring_advances all_utc plain_clock (starts true) stops (9 * day + 5) (9 * day)
      (row scheduled) next_row all_utc-IsSteady (omega arith) refl refl refl
