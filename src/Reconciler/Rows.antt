-- ===== src/Reconciler/Rows.antt =====
-- A row between its creation and any order of what the backend does to it where systemd runs the stream.
use youtube_translation.Base.{
  ℕ, ◌≡◌, Bool, false, not, ◌&&◌, Option, none, some, Text, arith, if◌then◌else◌, Option-cases, inl,
  inr,
}
use youtube_translation.Schedule.Normalize.{ZoneInfo}
use youtube_translation.Heartbeat.{Clock, updated_datetime}
use youtube_translation.Stream.{Stream, Status, starting, running, is_scheduled, NoStrayPid}
use youtube_translation.Scheduler.{launch, stop_due}
use youtube_translation.Scheduler.Processes.{attempted, turned, launch-NoStrayPid}
use youtube_translation.Control.{Reading}
use youtube_translation.Control.Status
use youtube_translation.Control.Status.{
  Draft, normalized_status, same_status, is_legacy, resolved_error_message, mark_status,
  mark_starting, mark_running, mark_heartbeat, drop_legacy, settle_status, settle_error, mark_stale,
  refresh, get_stream_status,
}
use youtube_translation.Control.Runtime.{
  StartReading, StopReading, managed, start_stream, start_known, start_unit, mark_start,
  restore_start, stop_stream, stop_for_runtime, ensure_stopped, restart_stream,
}
use youtube_translation.Reconciler.{
  Found, reconcile, reconcile_known, reconcile_ended, mark_ended, mark_runtime_error, confirm,
  sync_runtime_heartbeat_diagnostics, check_periodically, check_known, check_running, drifted,
  drift_to_running, resolve_systemd_running_state, normalize_runtime_state, state_of,
}

-- What can happen to a row. A step that the source aborts leaves the row.
pub data Step (clock : Clock) (zones : ZoneInfo) (s : Stream) : Stream → Type 0 where
  polls : (r : Reading) (s' : Stream) → s' ≡ (get_stream_status clock r s).0 → Step clock zones s s'
  starts :
      (r : StartReading) (preserve : Bool) (s' : Stream)
      → s' ≡ attempted (start_stream clock r preserve s)
      → Step clock zones s s'
  stops : (p : StopReading) (s' : Stream) → s' ≡ attempted (stop_stream p s) → Step clock zones s s'
  ensures :
      (p : StopReading) (s' : Stream) → s' ≡ attempted (ensure_stopped p s) → Step clock zones s s'
  restarts :
      (restarted : Bool) (s' : Stream)
      → s' ≡ attempted (restart_stream restarted s)
      → Step clock zones s s'
  launches :
      (r : StartReading) (p : StopReading) (now : ℕ) (s' : Stream)
      → s' ≡ turned s (launch zones (managed clock r p) now s)
      → Step clock zones s s'
  stops_when_due :
      (r : StartReading) (p : StopReading) (now : ℕ) (s' : Stream)
      → s' ≡ (stop_due zones (managed clock r p) now s).0
      → Step clock zones s s'
  reconciles : (f : Found) (s' : Stream) → s' ≡ (reconcile clock f s).0 → Step clock zones s s'
  checks : (f : Found) (s' : Stream) → s' ≡ check_periodically clock f s → Step clock zones s s'

pub data Reach (clock : Clock) (zones : ZoneInfo) (s : Stream) : Stream → Type 0 where
  here : Reach clock zones s s
  next : {r t : Stream} → Reach clock zones s r → Step clock zones r t → Reach clock zones s t

normalized_status-scheduled :
    (state : Text) (fresh : Bool) (previous : Status)
    → (is_scheduled (normalized_status state fresh previous) && not (is_scheduled previous)) ≡ false
unfolding normalized_status
normalized_status-scheduled state fresh previous = ground arith

settle_mark-NoStrayPid :
    (normalized : Status) (now : ℕ) (u : Option ℕ) (s : Stream)
    → NoStrayPid s
    → (is_scheduled normalized && not (is_scheduled s.status)) ≡ false
    → NoStrayPid (settle_status normalized s.status now (mark_status normalized s.status now u s)).0
unfolding settle_status mark_status mark_starting mark_running mark_heartbeat drop_legacy
settle_mark-NoStrayPid normalized now u s h only = ground arith

settle_error-NoStrayPid :
    (changed legacy : Bool) (message : Text) (d : Draft)
    → NoStrayPid d.0
    → NoStrayPid (settle_error changed legacy message d).0
unfolding settle_error
settle_error-NoStrayPid changed legacy message d h = ground arith

refresh-NoStrayPid :
    (clock : Clock) (r : Reading) (s : Stream) → NoStrayPid s → NoStrayPid (refresh clock r s).0
unfolding refresh
refresh-NoStrayPid clock r s h =
    let fresh = Status.is_fresh clock r in
    let normalized = normalized_status r.active_state fresh s.status in
    let u = if fresh then updated_datetime clock r.heartbeat else none in
    let settled =
      settle_status normalized s.status r.now (mark_status normalized s.status r.now u s) in
    ground (
      arith,
      settle_mark-NoStrayPid normalized r.now u s h
          (normalized_status-scheduled r.active_state fresh s.status),
      settle_error-NoStrayPid (not (same_status normalized s.status)) (is_legacy s.error_message)
          (resolved_error_message r) settled,
    )

get_stream_status-NoStrayPid :
    (clock : Clock) (r : Reading) (s : Stream)
    → NoStrayPid s
    → NoStrayPid (get_stream_status clock r s).0
unfolding get_stream_status mark_stale
get_stream_status-NoStrayPid clock r s h = ground (arith, refresh-NoStrayPid clock r s h)

start_stream-NoStrayPid :
    (clock : Clock) (r : StartReading) (preserve : Bool) (s : Stream)
    → NoStrayPid s
    → NoStrayPid (attempted (start_stream clock r preserve s))
unfolding start_stream start_known start_unit mark_start restore_start
start_stream-NoStrayPid clock r preserve s h =
    ground (arith, get_stream_status-NoStrayPid clock r.poll s h)

stop_stream-NoStrayPid :
    (p : StopReading) (s : Stream) → NoStrayPid s → NoStrayPid (attempted (stop_stream p s))
unfolding stop_stream stop_for_runtime
stop_stream-NoStrayPid p s h = ground arith

stop_due-NoStrayPid :
    (clock : Clock) (zones : ZoneInfo) (r : StartReading) (p : StopReading) (now : ℕ) (s : Stream)
    → NoStrayPid s
    → NoStrayPid (stop_due zones (managed clock r p) now s).0
unfolding stop_due
stop_due-NoStrayPid clock zones r p now s h =
    ground (arith, stop_stream-NoStrayPid p (record s { scheduled_stop_attempted_at = some now }) h)

confirm-NoStrayPid :
    (clock : Clock) (f : Found) (s : Stream) (o : Status × Option Text)
    → NoStrayPid s
    → NoStrayPid (confirm clock f s o).0 × NoStrayPid (check_running clock f s o)
unfolding confirm check_running drift_to_running sync_runtime_heartbeat_diagnostics
    mark_runtime_error
confirm-NoStrayPid clock f s (starting, reason) h = ground arith
confirm-NoStrayPid clock f s (other, some reason) h = ground arith
confirm-NoStrayPid clock f s (other, none) h = ground arith

reconcile_known-NoStrayPid :
    (clock : Clock) (f : Found) (normalized : Status) (s : Stream)
    → NoStrayPid s
    → NoStrayPid (reconcile_known clock f normalized s).0
      × NoStrayPid (check_known clock f normalized s)
unfolding reconcile_known check_known reconcile_ended drifted mark_ended mark_runtime_error
reconcile_known-NoStrayPid clock f running s h =
    confirm-NoStrayPid clock f s (resolve_systemd_running_state clock f) h
reconcile_known-NoStrayPid clock f normalized s h = ground arith

reconcile-NoStrayPid :
    (clock : Clock) (f : Found) (s : Stream)
    → NoStrayPid s
    → NoStrayPid (reconcile clock f s).0 × NoStrayPid (check_periodically clock f s)
unfolding reconcile check_periodically
reconcile-NoStrayPid clock f s h = elim (Option-cases (normalize_runtime_state (state_of f.unit))) [
  | inl e ↦ rw (e, reconcile, check_periodically) (h, h)
  | inr (n, e) ↦ rw (e, reconcile, check_periodically) (reconcile_known-NoStrayPid clock f n s h)
]

Step-NoStrayPid :
    {clock : Clock} {zones : ZoneInfo} {s s' : Stream}
    → Step clock zones s s'
    → NoStrayPid s
    → NoStrayPid s'
unfolding ensure_stopped restart_stream
Step-NoStrayPid {clock} {zones} {s} (polls r s' e) h =
    rw e (get_stream_status-NoStrayPid clock r s h)
Step-NoStrayPid {clock} {zones} {s} (starts r preserve s' e) h =
    rw e (start_stream-NoStrayPid clock r preserve s h)
Step-NoStrayPid {clock} {zones} {s} (stops p s' e) h = rw e (stop_stream-NoStrayPid p s h)
Step-NoStrayPid {clock} {zones} {s} (ensures p s' e) h = ground (arith, e)
Step-NoStrayPid {clock} {zones} {s} (restarts restarted s' e) h = ground (arith, e)
Step-NoStrayPid {clock} {zones} {s} (launches r p now s' e) h = rw e (
    launch-NoStrayPid zones (managed clock r p)
      (λ preserve t k. start_stream-NoStrayPid clock r preserve t k) now s h)
Step-NoStrayPid {clock} {zones} {s} (stops_when_due r p now s' e) h =
    rw e (stop_due-NoStrayPid clock zones r p now s h)
Step-NoStrayPid {clock} {zones} {s} (reconciles f s' e) h =
    rw e (reconcile-NoStrayPid clock f s h).0
Step-NoStrayPid {clock} {zones} {s} (checks f s' e) h = rw e (reconcile-NoStrayPid clock f s h).1

-- Whatever order polls, starts, stops, restarts, turns of the launcher and of both loops of the
-- reconciler come in, a row that is scheduled, stopped or failed has no process, if that held before.
pub Reach-NoStrayPid :
    {clock : Clock} {zones : ZoneInfo} {s s' : Stream}
    → NoStrayPid s
    → Reach clock zones s s'
    → NoStrayPid s'
Reach-NoStrayPid h here = h
Reach-NoStrayPid h (next r step) = Step-NoStrayPid step (Reach-NoStrayPid h r)
