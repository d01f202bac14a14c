-- ===== src/Manager.antt =====
-- The in-process manager of ffmpeg processes, backend/app/streaming/ffmpeg_manager.py, at one stream:
-- its entries in the manager's tables, its row, and the processes that run for it. Starting and the end
-- of a process stand here, Stop has stopping and Failure the handling of a failed process. What ffmpeg,
-- the disk and the host's settings answer is a `Host`; each await is a point where another operation can
-- come between, and an operation that awaits another task is given as its parts.
pub mod Failure
pub mod Stop
pub mod Budget
pub mod Outcome
pub mod Interleaved
mod Tests
use youtube_translation.Base.{
  ℕ, suc, ◌+◌, ◌-◌, max, Bool, true, false, ◌&&◌, ◌*◌, not, List, [], ◌∷◌, Option, none, some,
  is_some, Text, Dict, ltb, take, text_eq, insert, filter, ◌==◌, any, if◌then◌else◌,
}
use youtube_translation.Stream.{Stream, Status, stopped, error}
use youtube_translation.Signals.{Signals, no_signals}

-- `PlaylistFileSet`, as far as a restart looks at it
pub record PlaylistFileSet : Type 0 where
  pub video_playlist : Option Text
  pub audio_playlist : Option Text

-- The columns of the row that the manager writes; durations are microseconds.
pub record Row : Type 0 where
  pub stream : Stream
  pub total_duration : ℕ
  pub runtime_restart_attempts : ℕ
  pub runtime_last_failure_at : Option ℕ

-- `stream_info` of a stream
pub record Info : Type 0 where
  pub started_at : ℕ
  pub pid : ℕ
  pub playlists : PlaylistFileSet
  pub destinations : List (Text × Text)
  pub log_file : Option Text
  pub restart_attempts : ℕ
  pub last_restart_at : Option ℕ
  pub last_failure_at : Option ℕ
  pub last_error_at : Option ℕ
  pub next_restart_at : Option ℕ
  pub metadata : Dict Text Text
  pub recent_errors : List Text
  pub runtime_signal_state : Signals
  pub manual_stop : Bool
  pub quota_stop : Option Text

-- The stream in the manager: `active_streams` with the pid of its process, `stream_info`, the row that the
-- database has, and the pids of the ffmpeg processes that the host runs for it.
pub record Managed : Type 0 where
  pub active : Option ℕ
  pub info : Option Info
  pub row : Option Row
  pub children : List ℕ

-- What an operation meets. `database` tells whether the database answers.
pub record Host : Type 0 where
  pub database : Bool
  pub now : ℕ
  -- The pid of a new process, where the command can be built and the process be spawned.
  pub spawned : Option ℕ

-- What `start_stream` is called with.
pub record Call : Type 0 where
  pub playlists : PlaylistFileSet
  pub destinations : List (Text × Text)
  pub log_file : Option Text
  pub metadata : Dict Text Text
  pub restart : Bool

abbrev pub is_empty {ℓ} : {A : Type ℓ} → List A → Bool
is_empty [] = true
is_empty (x ∷ xs) = false

-- `_load_persisted_restart_attempts`
unfoldable pub load_persisted_restart_attempts : Bool → Option Row → ℕ
load_persisted_restart_attempts database none = 0
load_persisted_restart_attempts database (some row) =
    if database then row.runtime_restart_attempts else 0

-- `_reset_persisted_restart_state`
unfoldable pub reset_persisted_restart_state : Bool → Option Row → Option Row
reset_persisted_restart_state database none = none
reset_persisted_restart_state false (some row) = some row
reset_persisted_restart_state true (some row) =
    some (record row { runtime_restart_attempts = 0; runtime_last_failure_at = none })

-- `existing_info.get("restart_attempts", 0)`
abbrev pub attempts_of : Option Info → ℕ
attempts_of none = 0
attempts_of (some info) = info.restart_attempts

-- `d.update(other)`
abbrev pub update : Dict Text Text → Dict Text Text → Dict Text Text
update d [] = d
update d ((k, v) ∷ other) = update (insert k v d) other

-- What an automatic restart takes over from the entry before.
abbrev pub inherited : Option Info → Info → Info
inherited none info = info
inherited (some old) info = record info {
  last_failure_at = old.last_failure_at;
  metadata = update old.metadata info.metadata;
  recent_errors = old.recent_errors;
  runtime_signal_state = old.runtime_signal_state;
}

-- The entry of a process that has just started.
unfoldable pub new_info : ℕ → ℕ → ℕ → Call → Option Info → Info
new_info now pid attempts call existing =
    let fresh : Info = record {
      started_at = now;
      pid = pid;
      playlists = call.playlists;
      destinations = call.destinations;
      log_file = call.log_file;
      restart_attempts = attempts;
      last_restart_at = if call.restart then some now else none;
      last_failure_at = none;
      last_error_at = none;
      next_restart_at = none;
      metadata = call.metadata;
      recent_errors = [];
      runtime_signal_state = no_signals;
      manual_stop = false;
      quota_stop = none;
    } in
    if call.restart then inherited existing fresh else fresh

-- How a call of `start_stream` ends: by a `ValueError`, or with its result.
pub data Started : Type 0 where
  no_destinations : Started
  returned : Bool → Started

-- The body of `start_stream` once the process runs.
unfoldable pub register : Host → Call → ℕ → Managed → Managed
unfolding load_persisted_restart_attempts reset_persisted_restart_state new_info
register host call pid m =
    let attempts =
      if call.restart
      then max (attempts_of m.info) (load_persisted_restart_attempts host.database m.row)
      else 0 in
    record {
      active = some pid;
      info = some (new_info host.now pid attempts call m.info);
      row = if call.restart then m.row else reset_persisted_restart_state host.database m.row;
      children = pid ∷ m.children;
    }

unfoldable pub spawn : Option ℕ → Host → Call → Managed → Managed × Started
unfolding register
spawn none host call m = (m, returned false)
spawn (some pid) host call m = (register host call pid m, returned true)

-- `start_stream`
unfoldable pub start_stream : Host → Call → Managed → Managed × Started
unfolding spawn
start_stream host call m =
    if is_empty call.destinations
    then (m, no_destinations)
    else if is_some m.active
    then (m, returned false)
    else spawn host.spawned host call m

-- A process that the host runs no more.
abbrev pub without : ℕ → List ℕ → List ℕ
without pid children = filter (λ child. not (pid == child)) children

-- `is_running`: a process that has ended has a return code.
unfoldable pub is_running : Managed → Bool
is_running m = elim m.active [ none ↦ false | some pid ↦ any (λ child. pid == child) m.children ]

-- The rows that the end of a process writes: the time since the start is added to the total.
unfoldable pub add_elapsed : ℕ → Row → Row
add_elapsed now row = elim row.stream.started_at [
  | none ↦ row
  | some started ↦ record row { total_duration = row.total_duration + (now - started) }
]

-- `_finalize_stream_success`, with the message of the quota, which is not empty
unfoldable pub finalize_stream_success : Host → Option Text → Option Row → Option Row
finalize_stream_success host quota none = none
finalize_stream_success host quota (some row) =
    if host.database
    then some (record (add_elapsed host.now row) {
      stream = record row.stream {
        status = stopped;
        pid = none;
        stopped_at = some host.now;
        error_message = elim quota [ none ↦ none | some message ↦ some (take 500 message) ];
      };
    })
    else some row

-- Both tables forget the stream.
abbrev pub forget : Managed → Managed
forget m = record m { active = none; info = none }

abbrev quota_of : Option Info → Option Text
quota_of none = none
quota_of (some info) = info.quota_stop

-- The branch of `_monitor_process` for a process that was stopped or ended by itself.
unfoldable pub exit_cleanly : Host → Managed → Managed
unfolding reset_persisted_restart_state finalize_stream_success
exit_cleanly host m = forget (record m {
  row =
      finalize_stream_success host (quota_of m.info)
        (reset_persisted_restart_state host.database m.row);
})

-- `cleanup_dead_streams`: a process that has ended is forgotten, and so is what is left of a stream that
-- is not active once its last activity is an hour old.
abbrev last_activity : Info → ℕ
last_activity info = elim info.last_error_at [
  | some at ↦ at
  | none ↦ elim info.last_failure_at [ some at ↦ at | none ↦ info.started_at ]
]

unfoldable pub cleanup_stale_stream_info : ℕ → Managed → Managed
cleanup_stale_stream_info now m = elim m.active [
  | some pid ↦ m
  | none ↦ elim m.info [
    | none ↦ m
    | some info ↦
        if ltb now (last_activity info + 3600 * 1000000) then m else record m { info = none }
  ]
]

unfoldable pub cleanup_dead_streams : ℕ → Managed → Managed
unfolding is_running cleanup_stale_stream_info
cleanup_dead_streams now m =
    cleanup_stale_stream_info now (if is_some m.active && not (is_running m) then forget m else m)
