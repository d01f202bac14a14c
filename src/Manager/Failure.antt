-- ===== src/Manager/Failure.antt =====
-- `_handle_stream_failure` of backend/app/streaming/ffmpeg_manager.py, in two parts: up to the delay before
-- a restart, and from there on. The id of a stream is a UUID, as it is in the table.
use youtube_translation.Base.{
  ℕ, ◌+◌, ◌-◌, ◌*◌, ◌^◌, max, min, Bool, true, false, ◌&&◌, ◌||◌, not, Option, none, some, Text,
  ltb, if◌then◌else◌,
}
use youtube_translation.Stream.{error}
use youtube_translation.Manager.{
  PlaylistFileSet, Row, Info, Managed, Host, Call, Started, returned, is_empty,
  load_persisted_restart_attempts, attempts_of, start_stream, add_elapsed, forget, exit_cleanly,
}

-- The settings of automatic restarts
pub record Policy : Type 0 where
  pub ffmpeg_auto_restart_attempts : ℕ
  pub ffmpeg_restart_backoff_seconds : ℕ
  pub ffmpeg_restart_backoff_max_seconds : ℕ

-- What is left of a failed process: the message that `_build_stream_failure_message` makes of its last
-- lines, and which playlist files are on the disk.
pub record Wreck : Type 0 where
  pub message : Text
  pub exists : Text → Bool

-- `_advance_persisted_restart_state` with `increment=True`
unfoldable pub advance_persisted_restart_state : Host → ℕ → Option Row → ℕ × Option Row
advance_persisted_restart_state host in_memory_attempts none = (in_memory_attempts + 1, none)
advance_persisted_restart_state host in_memory_attempts (some row) =
    let new_value = max in_memory_attempts row.runtime_restart_attempts + 1 in
    if host.database
    then (
      new_value,
      some (record row {
        runtime_restart_attempts = new_value;
        runtime_last_failure_at = some host.now;
      }),
    )
    else (in_memory_attempts + 1, some row)

-- `_mark_stream_failed`
unfoldable pub mark_stream_failed : Host → Text → Option Row → Option Row
mark_stream_failed host message none = none
mark_stream_failed host message (some row) =
    if host.database
    then some (record (add_elapsed host.now row) {
      stream = record row.stream {
        status = error;
        pid = none;
        stopped_at = some host.now;
        error_message = some message;
      };
    })
    else some row

-- The seconds before a restart, by the number of restarts before it.
unfoldable pub backoff : Policy → ℕ → ℕ
backoff policy attempts =
    min (policy.ffmpeg_restart_backoff_seconds * 2 ^ attempts)
      (max policy.ffmpeg_restart_backoff_max_seconds policy.ffmpeg_restart_backoff_seconds)

-- A handler that sleeps before a restart: what it has read of the entry, and the attempt that it makes.
pub record Pending : Type 0 where
  pub snapshot : Option Info
  pub new_attempts : ℕ
  pub delay : ℕ

pub data Decision : Type 0 where
  gives_up : Decision
  retries : Pending → Decision

abbrev change_info : (Info → Info) → Managed → Managed
change_info f m = record m { info = elim m.info [ none ↦ none | some info ↦ some (f info) ] }

-- The restart that is announced in the entry of the stream.
abbrev pub announced : Host → Policy → ℕ → Info → Info
announced host policy new_attempts info = record info {
  restart_attempts = new_attempts;
  last_failure_at = some host.now;
  next_restart_at = some (host.now + backoff policy (new_attempts - 1) * 1000000);
}

-- The decision by its two tests, with the row that has counted the attempt.
unfoldable pub decide_restart :
    Bool → Bool → Policy → Host → ℕ → Option Row → Managed → Managed × Decision
decide_restart false exceeded policy host new_attempts row m = (m, gives_up)
decide_restart true true policy host new_attempts row m = (record m { row = row }, gives_up)
decide_restart true false policy host new_attempts row m = (
  change_info (announced host policy new_attempts) (record m { row = row }),
  retries (record {
    snapshot = m.info;
    new_attempts = new_attempts;
    delay = backoff policy (new_attempts - 1);
  }),
)

-- `_handle_stream_failure` up to its sleep. The counter is read first, which may fail on its own.
unfoldable pub begin_failure : Policy → Bool → Host → Managed → Managed × Decision
begin_failure policy reads host m =
    let in_memory_attempts = attempts_of m.info in
    let max_attempts = policy.ffmpeg_auto_restart_attempts in
    let speculative = max in_memory_attempts (load_persisted_restart_attempts reads m.row) in
    let (new_attempts, row) = advance_persisted_restart_state host in_memory_attempts m.row in
    decide_restart (ltb 0 max_attempts && ltb speculative max_attempts)
      (ltb max_attempts new_attempts) policy host new_attempts row
      (change_info (λ info. record info { restart_attempts = speculative }) m)

-- The end of the handler where no process runs.
unfoldable pub fail : Host → Wreck → Managed → Managed
fail host wreck m = forget (record m { row = mark_stream_failed host wreck.message m.row })

abbrev is_missing : Wreck → Option Text → Bool
is_missing wreck none = false
is_missing wreck (some file) = not (wreck.exists file)

abbrev pub has_missing_files : Wreck → PlaylistFileSet → Bool
has_missing_files wreck playlists =
    is_missing wreck playlists.video_playlist || is_missing wreck playlists.audio_playlist

-- The call of `start_stream` that a restart makes.
abbrev pub restart_call : Info → Call
restart_call info = record {
  playlists = info.playlists;
  destinations = info.destinations;
  log_file = info.log_file;
  metadata = info.metadata;
  restart = true;
}

unfoldable pub kept_or_failed : Host → Wreck → Managed × Started → Managed
kept_or_failed host wreck (m, returned true) = m
kept_or_failed host wreck (m, _) = fail host wreck m

-- The restart itself, from what the handler has read before its sleep.
unfoldable pub restart_from : Option Info → Host → Wreck → Managed → Managed
unfolding kept_or_failed
restart_from none host wreck m = fail host wreck m
restart_from (some info) host wreck m =
    if is_empty info.destinations || has_missing_files wreck info.playlists
    then fail host wreck m
    else kept_or_failed host wreck (start_stream host (restart_call info) m)

-- `_handle_stream_failure` from its sleep on
unfoldable pub resume_failure : Host → Wreck → Pending → Managed → Managed
resume_failure host wreck pending m =
    restart_from pending.snapshot host wreck (record m { active = none })

-- `_handle_stream_failure` after its decision, and where nothing comes between its parts
unfoldable pub finish_failure : Host → Wreck → Managed × Decision → Managed
finish_failure host wreck (m, gives_up) = fail host wreck m
finish_failure host wreck (m, retries pending) = resume_failure host wreck pending m

unfoldable pub handle_stream_failure : Policy → Bool → Host → Host → Wreck → Managed → Managed
unfolding finish_failure
handle_stream_failure policy reads before after wreck m =
    finish_failure after wreck (begin_failure policy reads before m)

abbrev stopped_by_hand : Option Info → Bool
stopped_by_hand none = false
stopped_by_hand (some info) = info.manual_stop

-- `_monitor_process` once the process has ended
unfoldable pub process_exited : Policy → Bool → Host → Host → Wreck → Bool → Managed → Managed
process_exited policy reads before after wreck returned_zero m =
    if returned_zero || stopped_by_hand m.info
    then exit_cleanly before m
    else handle_stream_failure policy reads before after wreck m
