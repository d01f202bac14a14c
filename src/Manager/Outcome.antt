-- ===== src/Manager/Outcome.antt =====
-- How the handling of a failed process ends.
use youtube_translation.Base.{
  ℕ, suc, ◌≤◌, ◌<◌, max, ◌≡◌, refl, Bool, true, false, ◌&&◌, ◌||◌, Option, none, some, Bool-cases,
  inl, inr, ◌⊎◌, is_some, arith, ap, sym, ltb,
}
use youtube_translation.Stream.{error}
use youtube_translation.Manager.{
  Row, Info, Managed, Host, start_stream, register, spawn, inherited, new_info,
  load_persisted_restart_attempts, attempts_of, is_empty,
}
use youtube_translation.Manager.Failure.{
  Policy, Wreck, advance_persisted_restart_state, mark_stream_failed, begin_failure, decide_restart,
  announced, fail, kept_or_failed, restart_from, resume_failure, restart_call, has_missing_files,
  finish_failure, handle_stream_failure,
}

abbrev pub HasFailed : Option Row → Type 0
HasFailed none = Unit
HasFailed (some row) = (row.stream.status ≡ error) × (row.stream.pid ≡ none)

-- No table of the manager has the stream, and its row tells of an error.
pub record IsGone (m : Managed) : Type 0 where
  pub no_process : m.active ≡ none
  pub no_info : m.info ≡ none
  pub failed : HasFailed m.row

-- The process that the host has spawned is the stream's, which has counted at least so many attempts.
pub record IsRestarted (host : Host) (least : ℕ) (m : Managed) : Type 0 where
  pub spawned : is_some host.spawned ≡ true
  pub process : m.active ≡ host.spawned
  pub attempts : least ≤ attempts_of m.info

marked-HasFailed :
    (host : Host) (wreck : Wreck) (row : Option Row)
    → host.database ≡ true
    → HasFailed (mark_stream_failed host wreck.message row)
unfolding mark_stream_failed
marked-HasFailed host wreck none answers = tt
marked-HasFailed host wreck (some row) answers = rw answers (refl, refl)

fail-IsGone :
    (host : Host) (wreck : Wreck) (m : Managed) → host.database ≡ true → IsGone (fail host wreck m)
unfolding fail
fail-IsGone host wreck m answers = record {
  no_process = refl;
  no_info = refl;
  failed = marked-HasFailed host wreck m.row answers;
}

inherited-attempts :
    (old : Option Info) (info : Info)
    → (inherited old info).restart_attempts ≡ info.restart_attempts
inherited-attempts none info = refl
inherited-attempts (some old) info = refl

register-attempts :
    (host : Host) (info : Info) (pid : ℕ) (m : Managed)
    → attempts_of m.info ≤ attempts_of (register host (restart_call info) pid m).info
unfolding register new_info
register-attempts host info pid m = rw (inherited-attempts m.info _) (omega arith)

spawn-settled :
    (host : Host) (wreck : Wreck) (info : Info) (m : Managed) (spawned : Option ℕ)
    → host.database ≡ true
    → host.spawned ≡ spawned
    → IsRestarted host
        (attempts_of m.info)
        (kept_or_failed host wreck (spawn spawned host (restart_call info) m))
      ⊎ IsGone (kept_or_failed host wreck (spawn spawned host (restart_call info) m))
unfolding spawn register kept_or_failed
spawn-settled host wreck info m none answers e = inr (fail-IsGone host wreck m answers)
spawn-settled host wreck info m (some pid) answers e = inl (record {
  spawned = ap is_some e;
  process = sym e;
  attempts = register-attempts host info pid m;
})

restart-settled :
    (host : Host) (wreck : Wreck) (snapshot : Option Info) (m : Managed)
    → host.database ≡ true
    → let r = restart_from snapshot host wreck (record m { active = none }) in
      IsRestarted host (attempts_of m.info) r ⊎ IsGone r
unfolding restart_from start_stream
restart-settled host wreck none m answers =
    inr (fail-IsGone host wreck (record m { active = none }) answers)
restart-settled host wreck (some info) m answers =
    elim (Bool-cases (is_empty info.destinations || has_missing_files wreck info.playlists)) [
      | inl e ↦
          rw (e, restart_from) (inr (fail-IsGone host wreck (record m { active = none }) answers))
      | inr e ↦
          rw (e, restart_from, start_stream, or_left (is_empty info.destinations) _ e)
            (spawn-settled host wreck info (record m { active = none }) host.spawned answers refl)
    ]
  where
    or_left : (a b : Bool) → (a || b) ≡ false → a ≡ false
    or_left a b h = ground arith

IsRestarted-weaken :
    (host : Host) (k n : ℕ) (m : Managed) → k ≤ n → IsRestarted host n m → IsRestarted host k m
IsRestarted-weaken host k n m h r = record {
  spawned = r.spawned;
  process = r.process;
  attempts = omega (arith, r.attempts);
}

-- How a decision is carried out, by the entry that the tables have.
decided-settled :
    (policy : Policy) (before after : Host) (wreck : Wreck) (k new : ℕ) (counted : Option Row)
    (will exceeded : Bool) (info : Option Info) (m : Managed)
    → after.database ≡ true
    → suc k ≤ new
    → let r =
        finish_failure after wreck
          (decide_restart will exceeded policy before new counted (record m { info = info })) in
      (IsRestarted after (suc k) r × (will ≡ true)) ⊎ IsGone r
unfolding decide_restart finish_failure resume_failure restart_from
decided-settled policy before after wreck k new counted false exceeded info m answers h =
    inr (fail-IsGone after wreck (record m { info = info }) answers)
decided-settled policy before after wreck k new counted true true info m answers h =
    inr (fail-IsGone after wreck (record m { info = info; row = counted }) answers)
decided-settled policy before after wreck k new counted true false none m answers h =
    inr (fail-IsGone after wreck (record m { active = none; info = none; row = counted }) answers)
decided-settled policy before after wreck k new counted true false (some info) m answers h =
    elim (restart-settled after wreck (some info) announced_stream answers) [
      | inl r ↦ inl (
        IsRestarted-weaken after (suc k) new
            (restart_from (some info) after wreck (record announced_stream { active = none })) h r,
        refl,
      )
      | inr g ↦ inr g
    ]
  where
    announced_stream : Managed
    announced_stream = record m { info = some (announced before policy new info); row = counted }

advance-lt :
    (host : Host) (k : ℕ) (row : Option Row)
    → suc k ≤ (advance_persisted_restart_state host k row).0
unfolding advance_persisted_restart_state
advance-lt host k none = omega arith
advance-lt host k (some row) = ground arith

-- A failed process has one of two ends, where the database answers: either the process that the host has
-- spawned is the stream's, its entry has counted more attempts than before, and those were below the limit
-- of the settings; or no table has the stream and its row, if there is one, tells of an error.
pub handle_stream_failure_lem :
    (policy : Policy) (reads : Bool) (before after : Host) (wreck : Wreck) (m : Managed)
    → after.database ≡ true
    → let r = handle_stream_failure policy reads before after wreck m in
      (IsRestarted after (suc (attempts_of m.info)) r
        × (attempts_of m.info < policy.ffmpeg_auto_restart_attempts))
      ⊎ IsGone r
unfolding handle_stream_failure begin_failure
handle_stream_failure_lem policy reads before after wreck m answers = below_limit (
    decided-settled policy before after wreck (attempts_of m.info) _ _ _ _ _ m answers
      (advance-lt before (attempts_of m.info) m.row))
  where
    below :
        (loaded : ℕ)
        → (ltb 0 policy.ffmpeg_auto_restart_attempts
            && ltb (max (attempts_of m.info) loaded) policy.ffmpeg_auto_restart_attempts)
          ≡ true
        → attempts_of m.info < policy.ffmpeg_auto_restart_attempts
    below loaded h = ground (arith, h)

    below_limit :
        {R G : Type 0}
        → (R
            × ((ltb 0 policy.ffmpeg_auto_restart_attempts
                  && ltb
                      (max (attempts_of m.info) (load_persisted_restart_attempts reads m.row))
                      policy.ffmpeg_auto_restart_attempts)
                ≡ true))
          ⊎ G
        → (R × (attempts_of m.info < policy.ffmpeg_auto_restart_attempts)) ⊎ G
    below_limit (inl r) = inl (r.0, below (load_persisted_restart_attempts reads m.row) r.1)
    below_limit (inr g) = inr g
