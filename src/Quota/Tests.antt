-- ===== src/Quota/Tests.antt =====
-- The limits of a concrete account.
use youtube_translation.Base.{
  ℕ, ◌*◌, ◌^◌, ◌≤◌, max, ◌≡◌, refl, true, false, List, [], ◌∷◌, Option, none, some, codes, arith,
  second, lower, set, ◌+◌, pos,
}
use youtube_translation.Stream.{Stream, Status, starting, stopped}
use youtube_translation.Destination.{
  Net, given, validate_destination_url, validate_filled, parse, checked_scheme, checked_hostname,
  effective_port, checked_port, checked_addresses, is_bad, is_disallowed_address, distinct, resolve,
}
use youtube_translation.Quota.{
  with_limits, Account, TierLimits, active_count, used_time, ensure_destination_allowed,
  check_concurrent_streams, check_count, check_daily_streaming_limit, get_daily_streaming_usage,
  check_host, check_url, verdict_of, check_storage_limit, fits_storage,
}
use youtube_translation.Quota.Daily.{total_run, used_time_lem}
use youtube_translation.Quota.Limits.{starts, here, next, concurrency_bounded}
use youtube_translation.Quota.Storage.{
  Change, stored, uploads, deletes, revalidates, apply_all, all_unseen, storage_bounded,
  stale_uploads_pass,
}
use youtube_translation.Quota.Address.{IsPermitted, ensure_destination_allowed-IsPermitted}

abbrev row : Status → Option ℕ → Option ℕ → Stream
row status started stopped_at = record {
  status = status;
  pid = none;
  log_path = none;
  error_message = none;
  started_at = started;
  stopped_at = stopped_at;
  runtime_last_heartbeat_at = none;
  scheduled_start_enabled = false;
  scheduled_start_time = none;
  scheduled_start_attempted_at = none;
  scheduled_stop_time = none;
  scheduled_stop_attempted_at = none;
  schedule_repeat = none;
  schedule_timezone = none;
  schedule_weekdays = none;
  schedule_window_end_time = none;
  schedule_stop_after_seconds = none;
}

abbrev ran : Stream
ran = row stopped (some (90000 * second)) (some (90060 * second))

used_time_lem_example :
    used_time (100000 * second) (ran ∷ []) ≡ total_run (100000 * second) (ran ∷ [])
used_time_lem_example = used_time_lem (100000 * second) (ran ∷ []) (omega arith, tt)

abbrev free_limits : TierLimits
free_limits = record {
  storage_gb = some 1;
  max_concurrent_streams = some 1;
  max_destinations = some 1;
  max_playlists = none;
  max_assets = some 5;
  daily_streaming_limit_hours = none;
  custom_rtmps_enabled = true;
}

abbrev account : List Stream → Account
account streams = record {
  profile = some (record {
    subscription_tier = codes "free";
    is_suspended = false;
    current_storage_bytes = none;
  });
  limits = some free_limits;
  streams = streams;
  assets = 0;
  playlists = 0;
  destinations = 0;
}

abbrev idle : Stream
idle = row stopped none none

concurrency_bounded_example :
    active_count (set (idle ∷ []) 0 (record idle { status = starting })) ≤ max 0 1
unfolding check_concurrent_streams check_count check_daily_streaming_limit get_daily_streaming_usage
concurrency_bounded_example =
    concurrency_bounded free_limits 1 (account (idle ∷ []))
      (account (set (idle ∷ []) 0 (record idle { status = starting }))) refl refl
      (next here (
        starts 9 0 idle (account (set (idle ∷ []) 0 (record idle { status = starting }))) refl
          refl))

abbrev changes : List Change
changes = uploads 7 (account []).profile ∷ revalidates (pos 2) ∷ deletes 3 ∷ []

storage_bounded_example :
    stored (apply_all changes (account [])).profile
    ≤ max (stored (account []).profile) (1 * 1024 ^ 3) + all_unseen changes (account [])
storage_bounded_example = storage_bounded changes 0 (account []) free_limits refl refl

-- Two uploads of 600 million bytes under a limit of one gibibyte
stale_uploads_pass_example :
    stored
      (apply_all
        (uploads 600000000 (account []).profile ∷ uploads 600000000 (account []).profile ∷ [])
        (account [])).profile
    ≡ stored (account []).profile + 600000000 + 600000000
unfolding check_storage_limit fits_storage with_limits
stale_uploads_pass_example = stale_uploads_pass 600000000 600000000 (account []) refl refl refl

abbrev one_name : Net
one_name = record {
  urlparse = λ url.
      some (record { scheme = codes "rtmp"; hostname = some (codes "a"); port = given 1935 });
  getaddrinfo = λ name. some (some (codes "8.8.8.8") ∷ []);
  ip_address = λ raw. some (record {
    is_unspecified = false;
    is_loopback = false;
    is_link_local = false;
    is_multicast = false;
    is_reserved = false;
    is_private = false;
    is_global = true;
    v4 = some 0x08080808;
  });
}

ensure_destination_allowed-IsPermitted_example :
    IsPermitted one_name (codes "rtmp://a/live") (account [])
unfolding ensure_destination_allowed check_host check_url verdict_of validate_destination_url
    validate_filled parse checked_scheme checked_hostname effective_port checked_port
    checked_addresses is_bad is_disallowed_address distinct resolve lower with_limits
ensure_destination_allowed-IsPermitted_example =
    ensure_destination_allowed-IsPermitted one_name (codes "rtmp://a/live") (account []) refl
