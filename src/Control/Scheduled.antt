-- ===== src/Control/Scheduled.antt =====
-- The managed control service under the launcher of scheduled streams, and what its failures leave.
use youtube_translation.Base.{
  ℕ, ◌≤◌, ◌≡◌, Bool, true, false, not, [], Option, none, some, Text, arith, day, if◌then◌else◌,
}
use youtube_translation.Schedule.Zone.{Zone}
use youtube_translation.Schedule.Normalize.{ok, ZoneInfo}
use youtube_translation.Schedule.Next.{has_recurring_schedule}
use youtube_translation.Schedule.Next.Progress.{IsSteady}
use youtube_translation.Heartbeat.{Clock, updated_datetime}
use youtube_translation.Stream.{Stream, Status, stopped}
use youtube_translation.Scheduler.{done, raised, turn, launch, is_stop_due}
use youtube_translation.Scheduler.Launch.{KeepsSchedule, HasLater, launched_recurring_advances}
use youtube_translation.Control.{Reading}
use youtube_translation.Control.Status.{
  Draft, normalized_status, is_fresh, is_legacy, resolved_error_message, same_status, mark_status,
  mark_starting, mark_running, mark_heartbeat, drop_legacy, settle_status, settle_error, mark_stale,
  refresh, get_stream_status,
}
use youtube_translation.Control.Runtime.{
  StartReading, StopReading, managed, start_stream, start_known, start_unit, mark_start,
  restore_start, stop_stream, stop_for_runtime,
}

mark_status-KeepsSchedule :
    (normalized previous : Status) (now : ℕ) (u : Option ℕ) (s : Stream)
    → KeepsSchedule s (mark_status normalized previous now u s).0
unfolding mark_status mark_starting mark_running mark_heartbeat drop_legacy
mark_status-KeepsSchedule normalized previous now u s = ground arith

settle-KeepsSchedule :
    (normalized previous : Status) (now : ℕ) (changed legacy : Bool) (message : Text) (d : Draft)
    → KeepsSchedule d.0 (settle_status normalized previous now d).0
      × KeepsSchedule d.0 (settle_error changed legacy message d).0
unfolding settle_status settle_error
settle-KeepsSchedule normalized previous now changed legacy message d = ground arith

refresh-KeepsSchedule :
    (clock : Clock) (r : Reading) (s : Stream) → KeepsSchedule s (refresh clock r s).0
unfolding refresh
refresh-KeepsSchedule clock r s =
    let fresh = is_fresh clock r in
    let normalized = normalized_status r.active_state fresh s.status in
    let updated_at = if fresh then updated_datetime clock r.heartbeat else none in
    let changed = not (same_status normalized s.status) in
    let marked = mark_status normalized s.status r.now updated_at s in
    let settled = settle_status normalized s.status r.now marked in
    ground (
      arith,
      mark_status-KeepsSchedule normalized s.status r.now updated_at s,
      settle-KeepsSchedule normalized s.status r.now changed true [] marked,
      settle-KeepsSchedule normalized s.status r.now changed (is_legacy s.error_message)
          (resolved_error_message r) settled,
    )

-- Polling the status of a stream leaves its repeat mode, its zone and its weekdays alone.
get_stream_status-KeepsSchedule :
    (clock : Clock) (r : Reading) (s : Stream) → KeepsSchedule s (get_stream_status clock r s).0
unfolding get_stream_status mark_stale
get_stream_status-KeepsSchedule clock r s = ground (arith, refresh-KeepsSchedule clock r s)

start_stream-KeepsSchedule :
    (clock : Clock) (r : StartReading) (preserve : Bool) (s s' : Stream)
    → start_stream clock r preserve s ≡ done s'
    → KeepsSchedule s s'
unfolding start_stream start_known start_unit mark_start
start_stream-KeepsSchedule clock r preserve s s' e =
    ground (arith, e, get_stream_status-KeepsSchedule clock r.poll s)

-- With the managed control service, and in zones whose offsets vary by less than a day, a turn of
-- the launcher that launches a recurring stream leaves a next start after the one that was due.
-- That one is at least one day into the calendar.
pub managed_recurring_advances :
    (zones : ZoneInfo) (clock : Clock) (r : StartReading) (p : StopReading) (now start : ℕ)
    (s s' : Stream)
    → ((name : Text) (z : Zone) → zones name ≡ some z → IsSteady z)
    → day ≤ start
    → has_recurring_schedule s.schedule_repeat s.scheduled_start_enabled ≡ ok true
    → s.scheduled_start_time ≡ some start
    → launch zones (managed clock r p) now s ≡ turn s' true
    → HasLater start s'.scheduled_start_time
managed_recurring_advances zones clock r p now start s s' steady old recurring at launched =
    launched_recurring_advances zones (managed clock r p) now start s s' steady
      (λ preserve t t' e. start_stream-KeepsSchedule clock r preserve t t' e) old recurring at
      launched

-- A start that raises leaves the row as polling the status left it, wherever it failed: in the quota,
-- the prerequisites, the check of the unit or the unit's start.
pub failed_start_restores :
    (clock : Clock) (r : StartReading) (preserve : Bool) (s s' : Stream)
    → start_stream clock r preserve s ≡ raised s'
    → s' ≡ (get_stream_status clock r.poll s).0
unfolding start_stream start_known start_unit mark_start restore_start
failed_start_restores clock r preserve s s' e = ground (arith, e)

-- A stop that does not raise leaves a stopped row without a process and without a stop time, which at no
-- instant is due to be stopped.
pub stop_stream_done :
    (p : StopReading) (interval later : ℕ) (s s' : Stream)
    → stop_stream p s ≡ done s'
    → (s'.status ≡ stopped)
      × (s'.pid ≡ none)
      × (s'.scheduled_stop_time ≡ none)
      × (is_stop_due interval later s' ≡ false)
unfolding stop_stream stop_for_runtime is_stop_due
stop_stream_done p interval later s s' e = ground (arith, e)
