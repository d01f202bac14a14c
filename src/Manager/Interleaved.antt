-- ===== src/Manager/Interleaved.antt =====
-- Stopping a stream: alone, and while the handler of a failure sleeps before a restart.
use youtube_translation.Base.{
  ℕ, ◌≡◌, refl, Bool, true, false, ◌||◌, List, [], ◌∷◌, Option, none, some, Option-cases, inl, inr,
  is_some, arith, ap, ◌∙◌, any, ◌==◌, ==_iff, Text,
}
use youtube_translation.Stream.{stopped}
use youtube_translation.Manager.{
  Row, Info, Managed, Host, start_stream, register, spawn, without, is_empty, exit_cleanly,
  reset_persisted_restart_state, add_elapsed, finalize_stream_success,
}
use youtube_translation.Manager.Failure.{
  Policy, Wreck, Pending, kept_or_failed, restart_from, process_exited, resume_failure,
  restart_call, has_missing_files,
}
use youtube_translation.Manager.Stop.{stop_process, begin_stop, end_stop, stop_stream}

-- The stream runs as one process, which the manager knows, or not at all.
abbrev IsTrackedAs : Option ℕ → Option Info → List ℕ → Type 0
IsTrackedAs none info children = children ≡ []
IsTrackedAs (some pid) info children = (is_some info ≡ true) × (children ≡ pid ∷ [])

abbrev pub IsTracked : Managed → Type 0
IsTracked m = IsTrackedAs m.active m.info m.children

abbrev pub IsStopped : Option Row → Type 0
IsStopped none = Unit
IsStopped (some row) =
    (row.stream.status ≡ stopped) × (row.stream.pid ≡ none) × (row.runtime_restart_attempts ≡ 0)

without_self : (pid : ℕ) → without pid (pid ∷ []) ≡ []
without_self pid = ground (arith, ==_iff pid pid)

-- What a stop leaves of a stream.
pub record IsClear (m : Managed) : Type 0 where
  pub no_process : m.active ≡ none
  pub no_info : m.info ≡ none
  pub no_child : m.children ≡ []

finalized-IsStopped :
    (host : Host) (quota : Option Text) (row : Option Row)
    → host.database ≡ true
    → IsStopped
        (finalize_stream_success host quota (reset_persisted_restart_state host.database row))
unfolding finalize_stream_success reset_persisted_restart_state add_elapsed
finalized-IsStopped host quota none answers = tt
finalized-IsStopped host quota (some row) answers =
    rw answers (elim (Option-cases row.stream.started_at) [
      | inl e ↦ rw (e, add_elapsed) (refl, refl, refl)
      | inr (started, e) ↦ rw (e, add_elapsed) (refl, refl, refl)
    ])

exited_by_hand :
    (policy : Policy) (reads : Bool) (before after : Host) (wreck : Wreck) (returned_zero : Bool)
    (info : Info) (m : Managed)
    → process_exited policy reads before after wreck returned_zero
        (record m { info = some (record info { manual_stop = true }) })
      ≡ exit_cleanly before (record m { info = some (record info { manual_stop = true }) })
unfolding process_exited
exited_by_hand policy reads before after wreck true info m = refl
exited_by_hand policy reads before after wreck false info m = refl

stop_cases :
    (policy : Policy) (reads : Bool) (before after : Host) (wreck : Wreck) (returned_zero : Bool)
    (active : Option ℕ) (info : Option Info) (m : Managed)
    → before.database ≡ true
    → IsTrackedAs active info m.children
    → (r : Managed × Bool) × (stop_stream policy reads before after wreck returned_zero true
          (record m { active = active; info = info })
        ≡ some r)
      × IsClear r.0
      × (r.1 ≡ is_some active)
      × (is_some active ≡ true → IsStopped r.0.row)
unfolding stop_stream begin_stop stop_process end_stop exit_cleanly
stop_cases policy reads before after wreck returned_zero none info m answers t = (
  (record m { active = none; info = none }, false),
  refl,
  record { no_process = refl; no_info = refl; no_child = t },
  refl,
  λ e. ground (arith, e),
)
stop_cases policy reads before after wreck returned_zero (some pid) none m answers t =
    ground (arith, t.0)
stop_cases policy reads before after wreck returned_zero (some pid) (some info) m answers t =
    let signalled : Managed = record m { active = none; children = without pid m.children } in
    let manual : Managed = record signalled { info = some (record info { manual_stop = true }) } in
    (
      (end_stop (exit_cleanly before manual), true),
      ap (λ (n : Managed). some (end_stop n, true))
          (exited_by_hand policy reads before after wreck returned_zero info signalled),
      record {
        no_process = refl;
        no_info = refl;
        no_child = ap (without pid) t.1 ∙ without_self pid;
      },
      refl,
      λ e. finalized-IsStopped before info.quota_stop m.row answers,
    )

-- Stopping a stream returns, and tells whether there was a process: no table has the stream then, no
-- process runs for it, and the row of one that ran is stopped, has no process and counts no restarts, where the
-- database answers, the process ends when it is told to, and the manager knew of it.
pub stop_stream_lem :
    (policy : Policy) (reads : Bool) (before after : Host) (wreck : Wreck) (returned_zero : Bool)
    (m : Managed)
    → before.database ≡ true
    → IsTracked m
    → (r : Managed × Bool) × (stop_stream policy reads before after wreck returned_zero true m
        ≡ some r)
      × IsClear r.0
      × (r.1 ≡ is_some m.active)
      × (is_some m.active ≡ true → IsStopped r.0.row)
stop_stream_lem policy reads before after wreck returned_zero m answers t =
    stop_cases policy reads before after wreck returned_zero m.active m.info m answers t

-- The stream after a stop that came while the handler of a failure slept: the stop takes what is in the
-- table, the handler wakes, and the stop, which waited for the handler, ends.
unfoldable pub stop_during_backoff : Host → Wreck → Pending → Managed → Managed
stop_during_backoff host wreck pending m =
    end_stop (resume_failure host wreck pending (begin_stop true m).0)

or_left : (a b : Bool) → (a || b) ≡ false → a ≡ false
or_left a b h = ground arith

restart-register :
    (host : Host) (wreck : Wreck) (info : Info) (new : ℕ) (m : Managed)
    → host.spawned ≡ some new
    → (is_empty info.destinations || has_missing_files wreck info.playlists) ≡ false
    → restart_from (some info) host wreck (record m { active = none })
      ≡ register host (restart_call info) new (record m { active = none })
unfolding restart_from start_stream spawn kept_or_failed
restart-register host wreck info new m spawned fine =
    rw (fine, restart_from, start_stream, or_left (is_empty info.destinations) _ fine)
      (launched host.spawned spawned)
  where
    launched :
        (found : Option ℕ)
        → found ≡ some new
        → kept_or_failed host wreck
            (spawn found host (restart_call info) (record m { active = none }))
          ≡ register host (restart_call info) new (record m { active = none })
    launched none e = ground (arith, e)
    launched (some pid) e =
        ap (λ p. register host (restart_call info) p (record m { active = none }))
          (ground (arith, e))

-- Where a stream is stopped while the handler of its failed process sleeps before a restart, the stop
-- tells that it has stopped a process and the tables have the stream no more, but the process that the
-- restart starts runs on, if the files and a destination are there and the host can spawn it.
pub stop_during_backoff_leaks :
    (host : Host) (wreck : Wreck) (pending : Pending) (info : Info) (pid new : ℕ) (m : Managed)
    → m.active ≡ some pid
    → pending.snapshot ≡ some info
    → (is_empty info.destinations || has_missing_files wreck info.playlists) ≡ false
    → host.spawned ≡ some new
    → let r = stop_during_backoff host wreck pending m in
      ((begin_stop true m).1 ≡ true)
      × (r.active ≡ none)
      × (r.info ≡ none)
      × (any (λ child. new == child) r.children ≡ true)
unfolding stop_during_backoff begin_stop stop_process end_stop resume_failure register
stop_during_backoff_leaks host wreck pending info pid new m active snapshot fine spawned =
    let idle : Managed = (stop_process m.active true m).0 in
    let runs = λ (n : Managed). any (λ child. new == child) n.children in
    (
      ap (λ a. (stop_process a true m).1) active,
      refl,
      refl,
      ap (λ (s : Option Info). runs (restart_from s host wreck (record idle { active = none })))
            snapshot
          ∙ ap runs (restart-register host wreck info new idle spawned fine)
          ∙ ground (arith, ==_iff new new),
    )
