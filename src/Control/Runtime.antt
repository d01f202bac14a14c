-- ===== src/Control/Runtime.antt =====
-- `start_stream`, `stop_stream`, `restart_stream` and `ensure_stopped` of
-- backend/app/services/streams/control.py for streams that systemd runs, as the `Runtime` of the
-- launcher. `raised` holds the row as it is committed when the exception leaves.
use youtube_translation.Base.{
  ℕ, Bool, not, ◌&&◌, [], ◌∷◌, Option, none, some, Text, codes, text_beq, any, if◌then◌else◌,
}
use youtube_translation.Heartbeat.{Clock}
use youtube_translation.Stream.{
  Stream, stopped, starting, stopping, is_busy, is_scheduled, clear_start_schedule,
  clear_stop_schedule, clear_schedule, finalize_stopped, mark_restart_success,
  stream_may_still_be_live,
}
use youtube_translation.Scheduler.{Attempt, done, raised, Runtime}
use youtube_translation.Control.{Reading}
use youtube_translation.Control.Status.{is_starting, same_status, get_stream_status}

-- What `start_stream` meets: the reading of `get_stream_status`, whether `check_concurrent_streams`
-- lets it pass, the log file of `validate_stream_launch_prerequisites` if that does not raise, whether
-- the unit is active, and whether `systemctl start` succeeds.
pub record StartReading : Type 0 where
  pub poll : Reading
  pub within_quota : Bool
  pub log_file : Option Text
  pub unit_active : Bool
  pub unit_starts : Bool

-- What the stopping operations meet: whether the unit is active, whether `systemctl stop` succeeds, and the
-- instant of `finalize_stopped`.
pub record StopReading : Type 0 where
  pub unit_active : Bool
  pub unit_stops : Bool
  pub now : ℕ

-- The row that is committed before the unit is started.
unfoldable pub mark_start : Bool → Text → Stream → Stream
mark_start preserve log s =
    let s' = record s {
      status = starting;
      started_at = none;
      stopped_at = none;
      error_message = none;
      log_path = some log;
    } in
    if preserve then s' else clear_start_schedule s'

-- The assignments after a failed start, from the values kept of the row before.
unfoldable pub restore_start : Stream → Stream → Stream
restore_start previous s = record s {
  status = previous.status;
  started_at = previous.started_at;
  stopped_at = previous.stopped_at;
  error_message = previous.error_message;
  log_path = previous.log_path;
  scheduled_start_enabled = previous.scheduled_start_enabled;
  scheduled_start_time = previous.scheduled_start_time;
  scheduled_start_attempted_at = previous.scheduled_start_attempted_at;
}

-- From the commit of the new row on.
unfoldable pub start_unit : Bool → Bool → Text → Stream → Attempt
start_unit starts preserve log s =
    let s' = mark_start preserve log s in if starts then done s' else raised (restore_start s s')

-- From `_acquire_user_start_lock` on.
unfoldable pub start_known : StartReading → Bool → Stream → Attempt
start_known r preserve s =
    if r.within_quota
    then elim r.log_file [
      | none ↦ raised s
      | some log ↦ if r.unit_active then raised s else start_unit r.unit_starts preserve log s
    ]
    else raised s

-- `start_stream`
unfoldable pub start_stream : Clock → StartReading → Bool → Stream → Attempt
start_stream clock r preserve s =
    let polled = (get_stream_status clock r.poll s).0 in
    if is_starting s.status
    then done s
    else if is_busy polled.status
    then done polled
    else start_known r preserve polled

-- `_mark_stop_requested`
abbrev pub mark_stop_requested : Stream → Stream
mark_stop_requested s =
    if same_status s.status stopping then s else record s { status = stopping; pid = none }

-- `_stop_for_runtime`
unfoldable pub stop_for_runtime : StopReading → Stream → Attempt
stop_for_runtime r s =
    if r.unit_active
    then if r.unit_stops
      then done (finalize_stopped r.now (mark_stop_requested s))
      else raised (mark_stop_requested s)
    else done (finalize_stopped r.now s)

-- `stop_stream`
unfoldable pub stop_stream : StopReading → Stream → Attempt
stop_stream r s = elim (stop_for_runtime r s) [
  | raised s' ↦ raised s'
  | done s' ↦
      let s'' = clear_stop_schedule s' in
      done (if is_scheduled s.status then clear_start_schedule s'' else s'')
]

-- `ensure_stopped`
unfoldable pub ensure_stopped : StopReading → Stream → Attempt
ensure_stopped r s =
    if r.unit_active && not r.unit_stops
    then raised s
    else done (clear_schedule (record s { status = stopped; pid = none; stopped_at = some r.now }))

-- `restart_stream`, given whether `systemctl restart` succeeds.
unfoldable pub restart_stream : Bool → Stream → Attempt
restart_stream restarts s =
    if restarts then done (record (mark_restart_success s) { started_at = none }) else raised s

-- `_ensure_systemd_schedule_update_allowed`, given whether a heartbeat of the stream was read: whether
-- it does not raise.
pub schedule_update_allowed : Text → Bool → Stream → Bool
schedule_update_allowed active_state has_heartbeat s =
    not (
      any (text_beq active_state) (codes "active" ∷ codes "activating" ∷ codes "deactivating" ∷ []))
    && not (text_beq active_state [] && stream_may_still_be_live has_heartbeat s)

-- The control service as the launcher sees it.
abbrev pub managed : Clock → StartReading → StopReading → Runtime
managed clock r p = record { start_stream = start_stream clock r; stop_stream = stop_stream p }
