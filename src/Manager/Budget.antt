-- ===== src/Manager/Budget.antt =====
-- How often a stream that keeps failing is restarted, and after what delays.
use youtube_translation.Base.{
  ℕ, suc, ◌+◌, ◌*◌, ◌^◌, ◌≤◌, max, min, ◌≡◌, refl, Bool, true, false, ◌||◌, List, [], ◌∷◌, Option,
  none, some, Bool-cases, inl, inr, arith, ap, ◌∙◌, ltb,
}
use native.Mathlib.Nat.{mul-le-mul_left, one-le-pow, pow-le-pow_right}
use youtube_translation.Manager.{
  Row, Info, Managed, Host, Started, returned, no_destinations, start_stream, register, attempts_of,
  cleanup_dead_streams, cleanup_stale_stream_info, add_elapsed, is_empty,
}
use youtube_translation.Manager.Failure.{
  Policy, Wreck, Pending, Decision, gives_up, retries, advance_persisted_restart_state,
  mark_stream_failed, backoff, begin_failure, decide_restart, fail, kept_or_failed, restart_from,
  resume_failure, restart_call, has_missing_files,
}

-- What can come over a stream: its process fails, the sleep of the handler ends, or the tables are tidied.
pub data Event : Type 0 where
  fails : Bool → Host → Wreck → Event
  wakes : Host → Wreck → Event
  tidies : ℕ → Event

-- The stream, a handler that sleeps, and how many restarts were announced.
pub record Run : Type 0 where
  pub managed : Managed
  pub sleeping : Option Pending
  pub restarts : ℕ

module _ (policy : Policy) where
  decided : Host → Wreck → ℕ → Managed × Decision → Run
  decided host wreck restarts (m, gives_up) = record {
    managed = fail host wreck m;
    sleeping = none;
    restarts = restarts;
  }
  decided host wreck restarts (m, retries pending) = record {
    managed = m;
    sleeping = some pending;
    restarts = suc restarts;
  }

  failing : Option Pending → Bool → Host → Wreck → Run → Run
  failing (some pending) reads host wreck r = r
  failing none reads host wreck r =
      decided host wreck r.restarts (begin_failure policy reads host r.managed)

  waking : Option Pending → Host → Wreck → Run → Run
  waking none host wreck r = r
  waking (some pending) host wreck r = record r {
    managed = resume_failure host wreck pending r.managed;
    sleeping = none;
  }

  unfoldable pub happen : Run → Event → Run
  unfolding failing waking decided
  happen r (fails reads host wreck) = failing r.sleeping reads host wreck r
  happen r (wakes host wreck) = waking r.sleeping host wreck r
  happen r (tidies now) = record r { managed = cleanup_dead_streams now r.managed }

  unfoldable pub happen_all : Run → List Event → Run
  unfolding happen
  happen_all r [] = r
  happen_all r (event ∷ events) = happen_all (happen r event) events

-- The database answers when the handler of a failure counts.
abbrev Answers : Event → Type 0
Answers (fails reads host wreck) = host.database ≡ true
Answers (wakes host wreck) = Unit
Answers (tidies now) = Unit

abbrev pub AllAnswer : List Event → Type 0
AllAnswer [] = Unit
AllAnswer (event ∷ events) = Answers event × AllAnswer events

abbrev pub counter : Option Row → Option ℕ
counter none = none
counter (some row) = some row.runtime_restart_attempts

add_elapsed-attempts :
    (now : ℕ) (row : Row)
    → (add_elapsed now row).runtime_restart_attempts ≡ row.runtime_restart_attempts
unfolding add_elapsed
add_elapsed-attempts now row = ground arith

marked-counter :
    (host : Host) (wreck : Wreck) (row : Option Row)
    → counter (mark_stream_failed host wreck.message row) ≡ counter row
unfolding mark_stream_failed
marked-counter host wreck none = refl
marked-counter host wreck (some row) = ground (arith, add_elapsed-attempts host.now row)

start-row :
    (host : Host) (info : Info) (m : Managed)
    → (start_stream host (restart_call info) m).0.row ≡ m.row
unfolding start_stream register
start-row host info m = ground arith

kept-counter :
    (host : Host) (wreck : Wreck) (r : Managed × Started)
    → counter (kept_or_failed host wreck r).row ≡ counter r.0.row
unfolding kept_or_failed fail
kept-counter host wreck (m, returned true) = refl
kept-counter host wreck (m, returned false) = marked-counter host wreck m.row
kept-counter host wreck (m, no_destinations) = marked-counter host wreck m.row

restart-counter :
    (host : Host) (wreck : Wreck) (snapshot : Option Info) (m : Managed)
    → counter (restart_from snapshot host wreck m).row ≡ counter m.row
unfolding restart_from fail
restart-counter host wreck none m = marked-counter host wreck m.row
restart-counter host wreck (some info) m =
    elim (Bool-cases (is_empty info.destinations || has_missing_files wreck info.playlists)) [
      | inl e ↦ rw (e, restart_from) (marked-counter host wreck m.row)
      | inr e ↦
          rw (e, restart_from)
            (kept-counter host wreck (start_stream host (restart_call info) m)
              ∙ ap counter (start-row host info m))
    ]

tidied-row : (now : ℕ) (m : Managed) → (cleanup_dead_streams now m).row ≡ m.row
unfolding cleanup_dead_streams cleanup_stale_stream_info
tidied-row now m = ground arith

-- The announced restarts are in the counter of the row, and within the limit.
record Within (policy : Policy) (before : ℕ) (r : Run) : Type 0 where
  attempts : ℕ
  counts : counter r.managed.row ≡ some attempts
  counted : before + r.restarts ≤ attempts
  limited : before + r.restarts ≤ max before policy.ffmpeg_auto_restart_attempts

advanced :
    (host : Host) (k n : ℕ) (row : Option Row)
    → host.database ≡ true
    → counter row ≡ some n
    → (counter (advance_persisted_restart_state host k row).1
        ≡ some (advance_persisted_restart_state host k row).0)
      × (suc n ≤ (advance_persisted_restart_state host k row).0)
unfolding advance_persisted_restart_state
advanced host k n none answers c = ground (arith, c)
advanced host k n (some row) answers c = ground (arith, answers, c)

decided-Within :
    (policy : Policy) (before : ℕ) (r : Run) (host : Host) (wreck : Wreck) (new : ℕ)
    (row : Option Row) (will exceeded : Bool) (m : Managed) (n : ℕ)
    → counter m.row ≡ some n
    → before + r.restarts ≤ n
    → before + r.restarts ≤ max before policy.ffmpeg_auto_restart_attempts
    → counter row ≡ some new
    → suc n ≤ new
    → ltb policy.ffmpeg_auto_restart_attempts new ≡ exceeded
    → Within policy before
        (decided policy host wreck r.restarts (decide_restart will exceeded policy host new row m))
unfolding decided decide_restart fail
decided-Within policy before r host wreck new row false exceeded m n c cn cl cr cs e = record {
  attempts = n;
  counts = marked-counter host wreck m.row ∙ c;
  counted = cn;
  limited = cl;
}
decided-Within policy before r host wreck new row true true m n c cn cl cr cs e = record {
  attempts = new;
  counts = marked-counter host wreck row ∙ cr;
  counted = omega arith;
  limited = cl;
}
decided-Within policy before r host wreck new row true false m n c cn cl cr cs e = record {
  attempts = new;
  counts = cr;
  counted = omega arith;
  limited = ground (arith, e);
}

happen-Within :
    (policy : Policy) (before : ℕ) (r : Run) (event : Event)
    → Answers event
    → Within policy before r
    → Within policy before (happen policy r event)
unfolding happen begin_failure resume_failure
happen-Within policy before r (fails reads host wreck) answers w = on_failure r.sleeping
  where
    on_failure :
        (sleeping : Option Pending)
        → Within policy before (failing policy sleeping reads host wreck r)
    on_failure (some pending) = w
    on_failure none =
        let known =
          advanced host (attempts_of r.managed.info) w.attempts r.managed.row answers w.counts in
        decided-Within policy before r host wreck _ _ _ _ _ w.attempts w.counts w.counted w.limited
          known.0 known.1 refl
happen-Within policy before r (wakes host wreck) answers w = on_waking r.sleeping
  where
    on_waking :
        (sleeping : Option Pending) → Within policy before (waking policy sleeping host wreck r)
    on_waking none = w
    on_waking (some pending) = record {
      attempts = w.attempts;
      counts =
          restart-counter host wreck pending.snapshot (record r.managed { active = none })
          ∙ w.counts;
      counted = w.counted;
      limited = w.limited;
    }
happen-Within policy before r (tidies now) answers w = record {
  attempts = w.attempts;
  counts = ap counter (tidied-row now r.managed) ∙ w.counts;
  counted = w.counted;
  limited = w.limited;
}

happen_all-Within :
    (policy : Policy) (before : ℕ) (r : Run) (events : List Event)
    → AllAnswer events
    → Within policy before r
    → Within policy before (happen_all policy r events)
unfolding happen_all
happen_all-Within policy before r [] answer w = w
happen_all-Within policy before r (event ∷ events) answer w =
    happen_all-Within policy before (happen policy r event) events answer.1
      (happen-Within policy before r event answer.0 w)

-- A run that begins with a stream and no handler.
abbrev pub begins : Managed → Run
begins m = record { managed = m; sleeping = none; restarts = 0 }

-- However often a stream fails, and however the tables of the manager are tidied in between, its automatic
-- restarts and those that its row had counted before are together at most the limit of the settings
-- (or those before, if they are more), where the database answers when failures are counted.
pub restarts_bounded :
    (policy : Policy) (m : Managed) (before : ℕ) (events : List Event)
    → counter m.row ≡ some before
    → AllAnswer events
    → before + (happen_all policy (begins m) events).restarts
      ≤ max before policy.ffmpeg_auto_restart_attempts
restarts_bounded policy m before events c answer =
    (happen_all-Within policy before (begins m) events answer (record {
      attempts = before;
      counts = c;
      counted = omega arith;
      limited = omega arith;
    })).limited

capped_bounds :
    (base limit p q : ℕ)
    → base ≤ p
    → p ≤ q
    → (base ≤ min p (max limit base))
      × (min p (max limit base) ≤ max limit base)
      × (min p (max limit base) ≤ min q (max limit base))
capped_bounds base limit p q h k = (omega arith, omega arith, omega arith)

-- The delay before a restart is at least the base of the settings and at most their limit (or the base,
-- if the limit is less), and no later restart waits less than an earlier one.
pub backoff_bounds :
    (policy : Policy) (a b : ℕ)
    → a ≤ b
    → (policy.ffmpeg_restart_backoff_seconds ≤ backoff policy a)
      × (backoff policy a
          ≤ max policy.ffmpeg_restart_backoff_max_seconds policy.ffmpeg_restart_backoff_seconds)
      × (backoff policy a ≤ backoff policy b)
unfolding backoff
backoff_bounds policy a b h =
    let base = policy.ffmpeg_restart_backoff_seconds in
    capped_bounds base policy.ffmpeg_restart_backoff_max_seconds (base * 2 ^ a) (base * 2 ^ b)
      (omega (arith, mul-le-mul_left base (one-le-pow a 2 (omega arith))))
      (mul-le-mul_left base (pow-le-pow_right (omega arith) h))
