-- ===== src/Manager/Tests.antt =====
-- The manager at a concrete stream.
use youtube_translation.Base.{
  ℕ, ◌+◌, ◌≤◌, ◌<◌, max, ◌≡◌, refl, Bool, true, false, ◌⊎◌, List, [], ◌∷◌, Option, none, some,
  codes, any, ◌==◌,
}
use youtube_translation.Stream.{running}
use youtube_translation.Signals.{no_signals}
use youtube_translation.Manager.{Row, Info, Managed, Host}
use youtube_translation.Manager.Failure.{Policy, Wreck, Pending, handle_stream_failure}
use youtube_translation.Manager.Stop.{begin_stop, stop_stream}
use youtube_translation.Manager.Budget.{
  Event, fails, wakes, tidies, begins, happen_all, restarts_bounded,
}
use youtube_translation.Manager.Outcome.{IsRestarted, IsGone, handle_stream_failure_lem}
use youtube_translation.Manager.Interleaved.{
  IsClear, IsStopped, stop_stream_lem, stop_during_backoff, stop_during_backoff_leaks,
}

abbrev twice : Policy
twice = record {
  ffmpeg_auto_restart_attempts = 2;
  ffmpeg_restart_backoff_seconds = 5;
  ffmpeg_restart_backoff_max_seconds = 60;
}

abbrev host_at : ℕ → Option ℕ → Host
host_at now spawned = record { database = true; now = now; spawned = spawned }

abbrev wreck : Wreck
wreck = record { message = codes "FFmpeg exited with code 1."; exists = λ file. true }

abbrev entry : Info
entry = record {
  started_at = 3;
  pid = 7;
  playlists = record { video_playlist = some (codes "v.txt"); audio_playlist = none };
  destinations = (codes "rtmp://a", codes "k") ∷ [];
  log_file = none;
  restart_attempts = 0;
  last_restart_at = none;
  last_failure_at = none;
  last_error_at = none;
  next_restart_at = none;
  metadata = [];
  recent_errors = [];
  runtime_signal_state = no_signals;
  manual_stop = false;
  quota_stop = none;
}

abbrev row : Row
row = record {
  stream = record {
    status = running;
    pid = some 7;
    log_path = none;
    error_message = none;
    started_at = some 3;
    stopped_at = none;
    runtime_last_heartbeat_at = none;
    scheduled_start_enabled = false;
    scheduled_start_time = none;
    scheduled_start_attempted_at = none;
    scheduled_stop_time = none;
    scheduled_stop_attempted_at = none;
    schedule_repeat = none;
    schedule_timezone = none;
    schedule_weekdays = none;
    schedule_window_end_time = none;
    schedule_stop_after_seconds = none;
  };
  total_duration = 0;
  runtime_restart_attempts = 0;
  runtime_last_failure_at = none;
}

-- The stream with those processes.
abbrev managed : List ℕ → Managed
managed children = record {
  active = some 7;
  info = some entry;
  row = some row;
  children = children;
}

abbrev history : List Event
history =
    fails true (host_at 9 none) wreck
    ∷ tidies 10
    ∷ wakes (host_at 11 (some 8)) wreck
    ∷ fails true (host_at 12 none) wreck
    ∷ []

restarts_bounded_example :
    0 + (happen_all twice (begins (managed [])) history).restarts
    ≤ max 0 twice.ffmpeg_auto_restart_attempts
restarts_bounded_example =
    restarts_bounded twice (managed []) 0 history refl (refl, (tt, (tt, (refl, tt))))

handle_stream_failure_lem_example :
    let r =
      handle_stream_failure twice true (host_at 9 none) (host_at 11 (some 8)) wreck (managed []) in
    (IsRestarted (host_at 11 (some 8)) 1 r × (0 < 2)) ⊎ IsGone r
handle_stream_failure_lem_example =
    handle_stream_failure_lem twice true (host_at 9 none) (host_at 11 (some 8)) wreck (managed [])
      refl

stop_stream_lem_example :
    (r : Managed × Bool) × (stop_stream twice true
        (host_at 9 none)
        (host_at 11 none)
        wreck
        false
        true
        (managed (7 ∷ []))
      ≡ some r)
    × IsClear r.0
    × (r.1 ≡ true)
    × (true ≡ true → IsStopped r.0.row)
stop_stream_lem_example =
    stop_stream_lem twice true (host_at 9 none) (host_at 11 none) wreck false (managed (7 ∷ []))
      refl (refl, refl)

abbrev sleeping : Pending
sleeping = record { snapshot = some entry; new_attempts = 1; delay = 5 }

stop_during_backoff_leaks_example :
    let r = stop_during_backoff (host_at 11 (some 8)) wreck sleeping (managed []) in
    ((begin_stop true (managed [])).1 ≡ true)
    × (r.active ≡ none)
    × (r.info ≡ none)
    × (any (λ child. 8 == child) r.children ≡ true)
stop_during_backoff_leaks_example =
    stop_during_backoff_leaks (host_at 11 (some 8)) wreck sleeping entry 7 8 (managed []) refl refl
      refl refl
