-- ===== src/Reconciler.antt =====
-- Reconciling the rows of streams with the units of systemd: backend/app/core/stream_reconciler.py with
-- `systemd_enabled()`. One reading stands for what a turn of a loop finds, also where the source
-- reads the heartbeat file more than once in the turn; failures of the database are left out.
pub mod Agreement
pub mod Rows
mod Tests
use youtube_translation.Base.{
  ℕ, suc, ◌+◌, Bool, true, false, not, ◌&&◌, ◌||◌, List, [], ◌∷◌, ◌++◌, Option, none, some, is_some,
  Text, Dict, codes, text_beq, text_eq, any, filter, map, lookup, lower, strip, take, if◌then◌else◌,
}
use youtube_translation.Heartbeat.{
  Clock, Payload, blank, filled, updated_datetime, runtime_heartbeat_is_stale,
  stale_runtime_heartbeat_reason,
}
use youtube_translation.Stream.{
  Stream, Status, stopped, starting, running, error, stopping, scheduled, is_active, is_busy,
}
use youtube_translation.Control.{compact}
use youtube_translation.Control.Status.{
  is_told, is_legacy, is_error, is_starting, is_running, same_status, or_now, with_details,
}

-- `_check_stream_status`: the unit's state with the printed properties, or a failure to ask.
pub data Checked : Type 0 where
  read : Text → Text → Checked
  failed : Checked

-- What a turn finds: the unit, the heartbeat file, the instant, and the time to live of the settings.
pub record Found : Type 0 where
  pub unit : Checked
  pub heartbeat : Option Payload
  pub now : ℕ
  pub ttl_setting : ℕ

-- `_SYSTEMD_STATE_TO_STATUS`
abbrev pub systemd_states : List (Text × Option Status)
systemd_states =
    (codes "active", some running)
    ∷ (codes "activating", some starting)
    ∷ (codes "deactivating", some stopping)
    ∷ (codes "inactive", some stopped)
    ∷ (codes "dead", some stopped)
    ∷ (codes "failed", some error)
    ∷ (codes "unknown", none)
    ∷ []

-- `_normalize_runtime_state`
unfoldable pub normalize_runtime_state : Text → Option Status
normalize_runtime_state state = elim (lookup (lower (strip state)) systemd_states) [
  | none ↦ none
  | some status ↦ status
]

abbrev pub state_of : Checked → Text
state_of (read state details) = state
state_of failed = codes "ERROR"

-- `runtime.get("error") or runtime.get("details")`, printed; it is only looked at for a state that is known.
abbrev details_of : Checked → Text
details_of (read state details) = details
details_of failed = []

module _ (clock : Clock) where
  unfoldable pub is_fresh : Found → Bool
  is_fresh f = elim f.heartbeat [
    | none ↦ false
    | some blank ↦ false
    | some (filled fields) ↦
        not (runtime_heartbeat_is_stale clock (some (filled fields)) f.now none f.ttl_setting)
  ]

  -- `_resolve_systemd_running_state`
  unfoldable pub resolve_systemd_running_state : Found → Status × Option Text
  unfolding is_fresh
  resolve_systemd_running_state f =
      elim (stale_runtime_heartbeat_reason clock f.heartbeat f.now f.ttl_setting) [
        | some reason ↦ (error, some reason)
        | none ↦ (if is_fresh f then running else starting, none)
      ]

  -- `_sync_runtime_heartbeat_diagnostics`
  unfoldable pub sync_runtime_heartbeat_diagnostics : Found → Stream → Stream
  unfolding is_fresh
  sync_runtime_heartbeat_diagnostics f s = elim (updated_datetime clock f.heartbeat) [
    | none ↦ s
    | some u ↦ if is_fresh f then record s { runtime_last_heartbeat_at = some u } else s
  ]

-- `_mark_runtime_error_without_restart`
unfoldable pub mark_runtime_error : ℕ → Text → Stream → Stream
mark_runtime_error now reason s = record s {
  status = error;
  pid = none;
  stopped_at = some (or_now now s.stopped_at);
  error_message = some (take 500 reason);
}

abbrev pub clear_error : Stream → Stream
clear_error s = if is_told s.error_message then record s { error_message = none } else s

-- The rows that both loops write for a unit that has ended while the row counts as live.
unfoldable pub mark_ended : Status → Text → Text → ℕ → Stream → Stream
unfolding mark_runtime_error
mark_ended normalized state detail now s =
    if is_error normalized then mark_runtime_error now (with_details state detail) s else record s {
      status = normalized;
      pid = none;
      stopped_at = some (or_now now s.stopped_at);
      error_message = if is_legacy s.error_message then none else s.error_message;
    }

-- How `reconcile_streams` counts a turn.
pub data Count : Type 0 where
  uncounted as_running as_stopped as_error : Count

abbrev with_reason : Text → Text → Text
with_reason state [] = state
with_reason state (c ∷ s) = state ++ codes ":" ++ c ∷ s

-- The error message of a row that was stopping.
unfoldable pub stopping_message : Status → Text → Text → Option Text → Option Text
stopping_message error state (c ∷ detail) message = some (take 500 (c ∷ detail))
stopping_message _ state detail message =
    if is_told message
    then message
    else some (
        take 500 (
          codes "Stream stopped unexpectedly (detected on reconciliation). State: "
          ++ with_reason state detail))

unfoldable pub reconcile_ended : Status → Text → Text → ℕ → Stream → Stream × Count
unfolding mark_ended stopping_message
reconcile_ended normalized state detail now s =
    let count = if is_error normalized then as_error else as_stopped in
    if is_active s.status then (mark_ended normalized state detail now s, count) else (
      record s {
        status = normalized;
        pid = none;
        stopped_at = some (or_now now s.stopped_at);
        error_message = stopping_message normalized state detail s.error_message;
      },
      count,
    )

module _ (clock : Clock) where
  -- The branch of `reconcile_streams` for an active unit.
  unfoldable pub confirm : Found → Stream → Status × Option Text → Stream × Count
  unfolding mark_runtime_error
  confirm f s (starting, _) =
      (record s { status = starting; started_at = none; stopped_at = none }, uncounted)
  confirm f s (_, some reason) = (mark_runtime_error f.now reason s, as_error)
  confirm f s (_, none) = (
    sync_runtime_heartbeat_diagnostics clock f (
        clear_error (record s {
          status = running;
          started_at = some (or_now f.now s.started_at);
          stopped_at = none;
        })),
    as_running,
  )

  unfoldable pub reconcile_known : Found → Status → Stream → Stream × Count
  reconcile_known f starting s = (clear_error s, uncounted)
  reconcile_known f running s = confirm f s (resolve_systemd_running_state clock f)
  reconcile_known f stopping s = (record s { status = stopping; pid = none }, uncounted)
  reconcile_known f normalized s =
      reconcile_ended normalized (state_of f.unit) (compact (details_of f.unit)) f.now s

  -- A turn of the loop of `reconcile_streams`.
  unfoldable pub reconcile : Found → Stream → Stream × Count
  reconcile f s = elim (normalize_runtime_state (state_of f.unit)) [
    | none ↦ (s, uncounted)
    | some normalized ↦ reconcile_known f normalized s
  ]

  -- The branch of `periodic_reconciliation` for a unit whose state differs from that of the row.
  unfoldable pub drifted : Found → Status → Stream → Stream
  unfolding mark_ended
  drifted f normalized s =
      let detail = compact (details_of f.unit) in
      if is_active s.status
      then mark_ended normalized (state_of f.unit) detail f.now s
      else record s {
        status = normalized;
        pid = none;
        stopped_at = some (or_now f.now s.stopped_at);
        error_message =
            if is_error normalized && is_told (some (details_of f.unit))
            then some (take 500 (details_of f.unit))
            else s.error_message;
      }

  unfoldable pub drift_to_running : Found → Stream → Stream
  drift_to_running f s = sync_runtime_heartbeat_diagnostics clock f (
      clear_error (record s {
        status = running;
        started_at = if is_starting s.status then some f.now else some (or_now f.now s.started_at);
        stopped_at = none;
      }))

  -- The branch for an active unit.
  unfoldable pub check_running : Found → Stream → Status × Option Text → Stream
  unfolding mark_runtime_error
  check_running f s (starting, _) =
      if is_starting s.status
      then s
      else record s { status = starting; started_at = none; stopped_at = none }
  check_running f s (_, some reason) = mark_runtime_error f.now reason s
  check_running f s (_, none) =
      if is_running s.status
      then clear_error (sync_runtime_heartbeat_diagnostics clock f s)
      else drift_to_running f s

  unfoldable pub check_known : Found → Status → Stream → Stream
  check_known f starting s = clear_error s
  check_known f running s = check_running f s (resolve_systemd_running_state clock f)
  check_known f stopping s =
      if same_status stopping s.status then s else record s { status = stopping; pid = none }
  check_known f normalized s = if same_status normalized s.status then s else drifted f normalized s

  -- A turn of the loop of `periodic_reconciliation`.
  unfoldable pub check_periodically : Found → Stream → Stream
  check_periodically f s = elim (normalize_runtime_state (state_of f.unit)) [
    | none ↦ s
    | some normalized ↦ check_known f normalized s
  ]

-- The statistics of `reconcile_streams`.
pub record Stats : Type 0 where
  pub confirmed_running : ℕ
  pub stopped_count : ℕ
  pub errors : ℕ

abbrev add_count : Count → Stats → Stats
add_count uncounted stats = stats
add_count as_running stats = record stats { confirmed_running = suc stats.confirmed_running }
add_count as_stopped stats = record stats { stopped_count = suc stats.stopped_count }
add_count as_error stats = record stats { errors = suc stats.errors }

module _ (clock : Clock) (find : Stream → Found) where
  -- `reconcile_streams` over the table of streams: rows that are not busy are not selected.
  unfoldable pub reconcile_streams : List Stream → List Stream × Stats
  reconcile_streams [] = ([], record { confirmed_running = 0; stopped_count = 0; errors = 0 })
  reconcile_streams (s ∷ rest) =
      let (rows, stats) = reconcile_streams rest in
      let (s', count) = reconcile clock (find s) s in
      if is_busy s.status then (s' ∷ rows, add_count count stats) else (s ∷ rows, stats)

  -- `periodic_reconciliation`
  unfoldable pub periodic_reconciliation : List Stream → List Stream
  periodic_reconciliation rows =
      map (λ s. if is_busy s.status then check_periodically clock (find s) s else s) rows

-- `_cleanup_runtime_artifacts`: the heartbeat files that are left, by the id of their stream.
pub cleanup_runtime_artifacts : List Text → Dict Text Payload → Dict Text Payload
cleanup_runtime_artifacts valid_stream_ids files =
    filter (λ file. any (text_beq file.0) valid_stream_ids) files
