-- ===== src/Reconciler/Tests.antt =====
-- The reconciler at a concrete row, unit and heartbeat.
use youtube_translation.Base.{◌≡◌, refl, false, [], ◌∷◌, none, some, codes, arith}
use youtube_translation.Schedule.Normalize.{ZoneInfo}
use youtube_translation.Heartbeat.{Clock, stale_runtime_heartbeat_reason}
use youtube_translation.Stream.{Stream, running, NoStrayPid}
use youtube_translation.Control.Status.{get_stream_status}
use youtube_translation.Reconciler.{Found, reconcile, check_periodically}
use youtube_translation.Reconciler.Agreement.{
  periodic_agrees, reconcile_agrees_with_poll, reading_of, found,
}
use youtube_translation.Reconciler.Rows.{checks, here, next, Reach-NoStrayPid}

abbrev plain_clock : Clock
plain_clock = record { isoformat = λ n. b'1' ∷ []; fromisoformat = λ t. none }

abbrev any_zone : ZoneInfo
any_zone name = none

abbrev live_row : Stream
live_row = record {
  status = running;
  pid = some 7;
  log_path = none;
  error_message = none;
  started_at = some 3;
  stopped_at = none;
  runtime_last_heartbeat_at = none;
  scheduled_start_enabled = false;
  scheduled_start_time = none;
  scheduled_start_attempted_at = none;
  scheduled_stop_time = none;
  scheduled_stop_attempted_at = none;
  schedule_repeat = none;
  schedule_timezone = none;
  schedule_weekdays = none;
  schedule_window_end_time = none;
  schedule_stop_after_seconds = none;
}

periodic_agrees_example :
    (check_periodically plain_clock (found (codes "failed") [] none 9 90) live_row).status
    ≡ (reconcile plain_clock (found (codes "failed") [] none 9 90) live_row).0.status
periodic_agrees_example =
    periodic_agrees plain_clock (found (codes "failed") [] none 9 90) live_row refl

reconcile_agrees_with_poll_example :
    (get_stream_status plain_clock
      (reading_of (found (codes "dead") [] none 9 90))
      live_row).0.status
    ≡ (reconcile plain_clock (found (codes "dead") [] none 9 90) live_row).0.status
unfolding stale_runtime_heartbeat_reason
reconcile_agrees_with_poll_example =
    reconcile_agrees_with_poll plain_clock (codes "dead") [] none 9 90 live_row refl refl
      (λ e. ground (arith, e)) refl

abbrev dead_unit : Found
dead_unit = found (codes "dead") [] none 9 90

Reach-NoStrayPid_example : NoStrayPid (check_periodically plain_clock dead_unit live_row)
Reach-NoStrayPid_example =
    Reach-NoStrayPid {clock = plain_clock} {zones = any_zone} {s = live_row} refl
      (next here (checks dead_unit (check_periodically plain_clock dead_unit live_row) refl))
