-- ===== src/Stream.antt =====
-- A row of the table `streams` (backend/app/models/database.py), as far as the runtime reads and
-- writes it, and the mutations of backend/app/services/streams/control_helpers.py. Instants are
-- microseconds of UTC.
use youtube_translation.Base.{
  ℕ, ◌≡◌, Bool, true, false, ◌&&◌, ◌||◌, List, Option, none, some, is_some, Text, ℤ, ltb,
}

-- The values that the constraint `check_status` admits.
pub data Status : Type 0 where
  stopped starting running error stopping scheduled : Status

pub record Stream : Type 0 where
  pub status : Status
  pub pid : Option ℕ
  pub log_path : Option Text
  pub error_message : Option Text
  pub started_at : Option ℕ
  pub stopped_at : Option ℕ
  pub runtime_last_heartbeat_at : Option ℕ
  pub scheduled_start_enabled : Bool
  pub scheduled_start_time : Option ℕ
  pub scheduled_start_attempted_at : Option ℕ
  pub scheduled_stop_time : Option ℕ
  pub scheduled_stop_attempted_at : Option ℕ
  pub schedule_repeat : Option Text
  pub schedule_timezone : Option Text
  pub schedule_weekdays : Option (List ℤ)
  pub schedule_window_end_time : Option ℕ
  pub schedule_stop_after_seconds : Option ℕ

-- `status in {"running", "starting"}`, and with "stopping"
abbrev pub is_active : Status → Bool
is_active running = true
is_active starting = true
is_active _ = false

abbrev pub is_busy : Status → Bool
is_busy running = true
is_busy starting = true
is_busy stopping = true
is_busy _ = false

-- `status in {"scheduled", "stopped", "error"}`
abbrev pub is_idle : Status → Bool
is_idle scheduled = true
is_idle stopped = true
is_idle error = true
is_idle _ = false

abbrev pub is_scheduled : Status → Bool
is_scheduled scheduled = true
is_scheduled _ = false

-- `clear_start_schedule`
abbrev pub clear_start_schedule : Stream → Stream
clear_start_schedule s = record s {
  scheduled_start_enabled = false;
  scheduled_start_time = none;
  scheduled_start_attempted_at = none;
}

-- `clear_stop_schedule`
abbrev pub clear_stop_schedule : Stream → Stream
clear_stop_schedule s = record s { scheduled_stop_time = none; scheduled_stop_attempted_at = none }

-- `clear_schedule`
abbrev pub clear_schedule : Stream → Stream
clear_schedule s = clear_stop_schedule (clear_start_schedule s)

-- `finalize_stopped`
abbrev pub finalize_stopped : ℕ → Stream → Stream
finalize_stopped now s = record s { status = stopped; pid = none; stopped_at = some now }

-- `mark_restart_success`
abbrev pub mark_restart_success : Stream → Stream
mark_restart_success s = record s { status = starting; stopped_at = none; error_message = none }

-- `stream_may_still_be_live`, given whether a heartbeat of the stream was read.
abbrev newer_start : Option ℕ → Option ℕ → Bool
newer_start none stopped_at = false
newer_start (some started) none = true
newer_start (some started) (some stopped_at) = ltb stopped_at started

unfoldable pub stream_may_still_be_live : Bool → Stream → Bool
stream_may_still_be_live has_heartbeat s =
    has_heartbeat || newer_start s.started_at s.stopped_at || is_some s.pid

-- A stream that is scheduled, stopped or failed has no process.
abbrev pub NoStrayPid : Stream → Type 0
NoStrayPid s = (is_idle s.status && is_some s.pid) ≡ false
