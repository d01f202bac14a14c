-- ===== src/Scheduler.antt =====
-- The launcher of scheduled streams: backend/app/services/streams/scheduler.py. The starting and
-- stopping of a stream enter by `Runtime`, which the control service implements.
pub mod Launch
pub mod Rounds
pub mod Processes
mod Tests
use youtube_translation.Base.{
  ℕ, ◌+◌, ◌*◌, Bool, true, false, ◌&&◌, Option, none, some, leb, if◌then◌else◌, second,
}
use youtube_translation.Schedule.Zone.{aware}
use youtube_translation.Schedule.Normalize.{Result, ok, err, ZoneInfo}
use youtube_translation.Schedule.Next.{has_recurring_schedule, compute_next_repeating_start}
use youtube_translation.Schedule.Stop.{compute_schedule_stop_time}
use youtube_translation.Stream.{
  Stream, Status, stopped, scheduled, is_active, is_idle, is_scheduled,
}

-- How a call of the control service ends: the row after it, or the row that an exception leaves.
pub data Attempt : Type 0 where
  done : Stream → Attempt
  raised : Stream → Attempt

-- `StreamControlService.start_stream(id, preserve_schedule=...)` and `stop_stream` on a row.
pub record Runtime : Type 0 where
  pub start_stream : Bool → Stream → Attempt
  pub stop_stream : Stream → Attempt

abbrev pub reached : ℕ → Option ℕ → Bool
reached now none = false
reached now (some t) = leb t now

-- `attempted_at IS NULL OR attempted_at <= now - retry_interval`
abbrev pub may_retry : ℕ → ℕ → Option ℕ → Bool
may_retry interval now none = true
may_retry interval now (some t) = leb (t + interval * second) now

-- The `WHERE` clause of `launch_due_streams`.
unfoldable pub is_start_due : ℕ → ℕ → Stream → Bool
is_start_due interval now s =
    s.scheduled_start_enabled
    && reached now s.scheduled_start_time
    && is_idle s.status
    && may_retry interval now s.scheduled_start_attempted_at

-- That of `stop_due_streams`.
unfoldable pub is_stop_due : ℕ → ℕ → Stream → Bool
is_stop_due interval now s =
    reached now s.scheduled_stop_time
    && is_active s.status
    && may_retry interval now s.scheduled_stop_attempted_at

-- The row after one turn of the loop, and whether the stream counts as launched. A `ValueError` of
-- `has_recurring_schedule` is raised before the `try`, and ends the round.
pub data Turn : Type 0 where
  aborted : Turn
  turn : Stream → Bool → Turn

module _ (zones : ZoneInfo) (runtime : Runtime) where
  abbrev stop_time_from : Stream → ℕ → Result (Option ℕ)
  stop_time_from s start =
      compute_schedule_stop_time zones (some (aware start)) none s.schedule_timezone
        s.schedule_window_end_time s.schedule_stop_after_seconds

  abbrev next_start : Stream → ℕ → Result (Option ℕ)
  next_start s start =
      compute_next_repeating_start zones (aware start) s.schedule_timezone s.schedule_repeat
        s.schedule_weekdays

  -- `_advance_repeating_schedule`; a failure changes nothing.
  advance_repeating_schedule : Stream → ℕ → Stream
  advance_repeating_schedule s start = elim (next_start s start) [
    | err _ ↦ s
    | ok next ↦ record s {
      scheduled_start_time = next;
      scheduled_start_attempted_at = none;
      scheduled_stop_time = none;
      scheduled_stop_attempted_at = none;
      status = if is_idle s.status then scheduled else s.status;
    }
  ]

  -- What follows a successful start of a recurring stream; the assignments before a failure stay.
  schedule_next : Stream → ℕ → Stream × Bool
  schedule_next s start = elim (stop_time_from s start) [
    | err _ ↦ (s, false)
    | ok stop ↦
        let s' = record s { scheduled_stop_time = stop; scheduled_stop_attempted_at = none } in
        elim (next_start s' start) [
          | err _ ↦ (s', false)
          | ok next ↦
              (record s' { scheduled_start_time = next; scheduled_start_attempted_at = none }, true)
        ]
  ]

  -- From `stream.scheduled_start_attempted_at = now` on.
  attempt_start : ℕ → Bool → ℕ → Stream → Turn
  unfolding schedule_next
  attempt_start now recurring start s =
      elim (runtime.start_stream recurring (record s { scheduled_start_attempted_at = some now })) [
        | raised s' ↦ turn s' false
        | done s' ↦
            let (s'', launched) = schedule_next s' start in
            if recurring then turn s'' launched else turn s' true
      ]

  -- The branch of a one-shot schedule whose window is over.
  clear_expired : Stream → Stream
  clear_expired s = record s {
    scheduled_start_enabled = false;
    scheduled_start_time = none;
    scheduled_start_attempted_at = none;
    scheduled_stop_time = none;
    scheduled_stop_attempted_at = none;
    status = if is_scheduled s.status then stopped else s.status;
  }

  launch_recurring : ℕ → ℕ → Stream → Turn
  unfolding advance_repeating_schedule attempt_start
  launch_recurring now start s = elim (stop_time_from s start) [
    | err _ ↦ turn s false
    | ok stop ↦
        if reached now stop
        then turn (advance_repeating_schedule s start) false
        else attempt_start now true start s
  ]

  launch_one_shot : ℕ → ℕ → Stream → Turn
  unfolding clear_expired attempt_start
  launch_one_shot now start s =
      if reached now s.scheduled_stop_time
      then turn (clear_expired s) false
      else attempt_start now false start s

  launch_known : ℕ → Bool → Stream → Turn
  unfolding launch_recurring launch_one_shot
  launch_known now recurring s = elim s.scheduled_start_time [
    | none ↦
        turn (record s { scheduled_start_enabled = false; scheduled_start_attempted_at = none })
          false
    | some start ↦ if recurring then launch_recurring now start s else launch_one_shot now start s
  ]

  -- One turn of the loop of `launch_due_streams`.
  unfoldable pub launch : ℕ → Stream → Turn
  unfolding launch_known
  launch now s = elim (has_recurring_schedule s.schedule_repeat s.scheduled_start_enabled) [
    | err _ ↦ aborted
    | ok recurring ↦ launch_known now recurring s
  ]

  -- One turn of the loop of `stop_due_streams`.
  unfoldable pub stop_due : ℕ → Stream → Stream × Bool
  stop_due now s =
      elim (runtime.stop_stream (record s { scheduled_stop_attempted_at = some now })) [
        | raised s' ↦ (s', false)
        | done s' ↦
            (record s' { scheduled_stop_time = none; scheduled_stop_attempted_at = none }, true)
      ]
