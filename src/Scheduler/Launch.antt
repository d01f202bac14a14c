-- ===== src/Scheduler/Launch.antt =====
-- What one turn of the launcher does with a stream.
use youtube_translation.Base.{
  ℕ, ◌+◌, ◌*◌, ◌≤◌, ◌<◌, ◌≡◌, ◌≢◌, refl, Bool, true, false, Option, none, some, arith, Text, second,
  day, inl, inr, ◌⊎◌,
}
use youtube_translation.Schedule.Zone.{Zone, aware}
use youtube_translation.Schedule.Normalize.{Result, ok, err, ZoneInfo}
use youtube_translation.Schedule.Next.{has_recurring_schedule}
use youtube_translation.Schedule.Next.Progress.{
  IsSteady, compute_next-Advances, recurring_has_next, Advances,
}
use youtube_translation.Stream.{Stream, scheduled}
use youtube_translation.Scheduler.{
  Attempt, done, raised, Runtime, turn, is_start_due, reached, launch, next_start, launch_known,
  launch_recurring, attempt_start, schedule_next, clear_expired,
}

-- A turn does not launch a one-shot stream whose stop time has passed, whatever the control
-- service would do: it leaves a row that does not count as scheduled and that is due to be
-- started at no instant.
pub expired_one_shot_cleared :
    (zones : ZoneInfo) (runtime : Runtime) (now start stop interval later : ℕ) (s : Stream)
    → has_recurring_schedule s.schedule_repeat s.scheduled_start_enabled ≡ ok false
    → s.scheduled_start_time ≡ some start
    → s.scheduled_stop_time ≡ some stop
    → stop ≤ now
    → (s' : Stream) × (launch zones runtime now s ≡ turn s' false)
      × (s'.status ≢ scheduled)
      × (is_start_due interval later s' ≡ false)
unfolding launch is_start_due
expired_one_shot_cleared zones runtime now start stop interval later s once at until over =
    (clear_expired zones runtime s, rw (once, launch) (ground arith), ground arith, refl)

-- A one-shot stream whose stop time is not reached and whose start fails, in a way that keeps the
-- instant of the attempt in the row, is left as the failure left it, and is not due again before
-- the retry interval is over.
pub failed_start_backs_off :
    (zones : ZoneInfo) (runtime : Runtime) (interval now later start : ℕ) (s s' : Stream)
    → has_recurring_schedule s.schedule_repeat s.scheduled_start_enabled ≡ ok false
    → s.scheduled_start_time ≡ some start
    → reached now s.scheduled_stop_time ≡ false
    → runtime.start_stream false (record s { scheduled_start_attempted_at = some now }) ≡ raised s'
    → s'.scheduled_start_attempted_at ≡ some now
    → later < now + interval * second
    → (launch zones runtime now s ≡ turn s' false) × (is_start_due interval later s' ≡ false)
unfolding launch is_start_due
failed_start_backs_off zones runtime interval now later start s s' once at open_window fails kept
      soon =
    (rw (once, launch) (ground arith), ground arith)

-- The row is left as it was by the runtime, but for what the launcher itself assigns.
abbrev pub KeepsSchedule : Stream → Stream → Type 0
KeepsSchedule s s' =
    (s'.schedule_repeat ≡ s.schedule_repeat)
    × (s'.schedule_timezone ≡ s.schedule_timezone)
    × (s'.schedule_weekdays ≡ s.schedule_weekdays)

-- An instant after the start.
abbrev pub HasLater : ℕ → Option ℕ → Type 0
HasLater start none = ⊥
HasLater start (some u) = start < u

abbrev OkLater : ℕ → Result (Option ℕ) → Type 0
OkLater start (ok o) = HasLater start o
OkLater start (err e) = Unit

Advances-OkLater :
    (start : ℕ) (r : Result (Option ℕ)) → Advances start r → r ≢ ok none → OkLater start r
Advances-OkLater start (ok none) a some_next = absurd (some_next refl)
Advances-OkLater start (ok (some u)) a some_next = a
Advances-OkLater start (err e) a some_next = tt

Attempt-cases : (a : Attempt) → ((t : Stream) × (a ≡ done t)) ⊎ ((t : Stream) × (a ≡ raised t))
Attempt-cases (done t) = inl (t, refl)
Attempt-cases (raised t) = inr (t, refl)

module _ (zones : ZoneInfo) (runtime : Runtime) (start : ℕ) where
  schedule_next_later :
      (t : Stream)
      → OkLater start (next_start zones runtime t start)
      → (schedule_next zones runtime t start).1 ≡ true
      → HasLater start (schedule_next zones runtime t start).0.scheduled_start_time
  unfolding schedule_next
  schedule_next_later t h e = ground arith

  attempt_start_later :
      (now : ℕ) (s s' : Stream)
      → ((t : Stream)
          → runtime.start_stream true (record s { scheduled_start_attempted_at = some now })
            ≡ done t
          → OkLater start (next_start zones runtime t start))
      → attempt_start zones runtime now true start s ≡ turn s' true
      → HasLater start s'.scheduled_start_time
  unfolding attempt_start
  attempt_start_later now s s' ahead e =
      let row = record s { scheduled_start_attempted_at = some now } in
      elim (Attempt-cases (runtime.start_stream true row)) [
        | inl (t, ends) ↦ ground (arith, ends, schedule_next_later t (ahead t ends))
        | inr (t, ends) ↦ ground (arith, ends)
      ]

-- In zones whose offsets vary by less than a day, and with a control service whose successful
-- start keeps the repeat mode, the zone and the weekdays of a row, a turn that launches a
-- recurring stream leaves a next start after the one that was due. That one is at least one day
-- into the calendar.
pub launched_recurring_advances :
    (zones : ZoneInfo) (runtime : Runtime) (now start : ℕ) (s s' : Stream)
    → ((name : Text) (z : Zone) → zones name ≡ some z → IsSteady z)
    → ((preserve : Bool) (t t' : Stream)
        → runtime.start_stream preserve t ≡ done t'
        → KeepsSchedule t t')
    → day ≤ start
    → has_recurring_schedule s.schedule_repeat s.scheduled_start_enabled ≡ ok true
    → s.scheduled_start_time ≡ some start
    → launch zones runtime now s ≡ turn s' true
    → HasLater start s'.scheduled_start_time
unfolding launch launch_known launch_recurring
launched_recurring_advances zones runtime now start s s' steady keeps old recurring at launched =
    let row = record s { scheduled_start_attempted_at = some now } in
    let ahead : (t : Stream)
        → runtime.start_stream true row ≡ done t
        → OkLater start (next_start zones runtime t start) =
      λ t ends.
        let (repeat, timezone, weekdays) = keeps true row t ends in
        rw (repeat, timezone, weekdays)
          (Advances-OkLater start (next_start zones runtime s start)
            (compute_next-Advances zones steady (aware start) s.schedule_timezone s.schedule_repeat
              s.schedule_weekdays old)
            (recurring_has_next zones (aware start) s.schedule_timezone s.schedule_repeat
              s.schedule_weekdays s.scheduled_start_enabled recurring)) in
    ground (arith, attempt_start_later zones runtime start now s s' ahead)
