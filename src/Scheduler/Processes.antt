-- ===== src/Scheduler/Processes.antt =====
-- The launcher and the process of a row.
use youtube_translation.Base.{
  ℕ, Bool, true, false, some, arith, Option-cases, inl, inr, if◌then◌else◌,
}
use youtube_translation.Schedule.Normalize.{ZoneInfo}
use youtube_translation.Stream.{Stream, NoStrayPid}
use youtube_translation.Scheduler.{
  Attempt, done, raised, Runtime, Turn, turn, aborted, launch, advance_repeating_schedule,
  schedule_next, attempt_start, clear_expired, launch_recurring, launch_one_shot, launch_known,
}

abbrev pub attempted : Attempt → Stream
attempted (done s) = s
attempted (raised s) = s

-- The row after a turn; an aborted round leaves it.
abbrev pub turned : Stream → Turn → Stream
turned s aborted = s
turned s (turn s' _) = s'

module _ (zones : ZoneInfo) (runtime : Runtime)
    (start_keeps : (preserve : Bool) (s : Stream)
      → NoStrayPid s
      → NoStrayPid (attempted (runtime.start_stream preserve s))) where
  schedule_next-NoStrayPid :
      (s : Stream) (start : ℕ) → NoStrayPid s → NoStrayPid (schedule_next zones runtime s start).0
  unfolding schedule_next
  schedule_next-NoStrayPid s start h = ground arith

  attempt_start-NoStrayPid :
      (now : ℕ) (recurring : Bool) (start : ℕ) (s : Stream)
      → NoStrayPid s
      → NoStrayPid (turned s (attempt_start zones runtime now recurring start s))
  unfolding attempt_start
  attempt_start-NoStrayPid now recurring start s h =
      on_attempt
        (runtime.start_stream recurring (record s { scheduled_start_attempted_at = some now }))
        (start_keeps recurring (record s { scheduled_start_attempted_at = some now }) h)
    where
      on_attempt :
          (a : Attempt)
          → NoStrayPid (attempted a)
          → NoStrayPid (
              turned s (elim a [
                | raised s' ↦ turn s' false
                | done s' ↦
                    let (s'', launched) = schedule_next zones runtime s' start in
                    if recurring then turn s'' launched else turn s' true
              ]))
      on_attempt (done s') k = ground (arith, schedule_next-NoStrayPid s' start k)
      on_attempt (raised s') k = k

  launch_recurring-NoStrayPid :
      (now start : ℕ) (s : Stream)
      → NoStrayPid s
      → NoStrayPid (turned s (launch_recurring zones runtime now start s))
  unfolding launch_recurring advance_repeating_schedule
  launch_recurring-NoStrayPid now start s h =
      ground (arith, attempt_start-NoStrayPid now true start s h)

  launch_one_shot-NoStrayPid :
      (now start : ℕ) (s : Stream)
      → NoStrayPid s
      → NoStrayPid (turned s (launch_one_shot zones runtime now start s))
  unfolding launch_one_shot clear_expired
  launch_one_shot-NoStrayPid now start s h =
      ground (arith, attempt_start-NoStrayPid now false start s h)

  launch_known-NoStrayPid :
      (now : ℕ) (recurring : Bool) (s : Stream)
      → NoStrayPid s
      → NoStrayPid (turned s (launch_known zones runtime now recurring s))
  unfolding launch_known
  launch_known-NoStrayPid now recurring s h = elim (Option-cases s.scheduled_start_time) [
    | inl e ↦ ground (arith, e)
    | inr (start, e) ↦ ground (
      arith,
      e,
      launch_recurring-NoStrayPid now start s h,
      launch_one_shot-NoStrayPid now start s h,
    )
  ]

  pub launch-NoStrayPid :
      (now : ℕ) (s : Stream) → NoStrayPid s → NoStrayPid (turned s (launch zones runtime now s))
  unfolding launch
  launch-NoStrayPid now s h =
      ground (arith, launch_known-NoStrayPid now true s h, launch_known-NoStrayPid now false s h)
