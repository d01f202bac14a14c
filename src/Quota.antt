-- ===== src/Quota.antt =====
-- The limits of a subscription: backend/app/core/quota.py. What a check reads is an `Account`, which a lock
-- of the user keeps still for the checks that count. Instants and durations are microseconds.
pub mod Daily
pub mod Limits
pub mod Storage
pub mod Address
mod Tests
use youtube_translation.Base.{
  ℕ, zero, suc, ℤ, pos, negsuc, ◌+◌, ◌-◌, ◌*◌, ◌^◌, max, min, Bool, true, false, ◌&&◌, ◌||◌, not,
  List, [], ◌∷◌, Option, none, some, Text, codes, ltb, leb, count, lower, ends_with, if◌then◌else◌,
  ◌==◌, second,
}
use youtube_translation.Stream.{Stream, is_active}
use youtube_translation.Destination.{
  Net, Parsed, Checked, accepted, refused, UrlError, bare_value_error, validate_destination_url,
  resolve,
}

-- `SubscriptionTierLimits`; a limit that is absent does not bind.
pub record TierLimits : Type 0 where
  pub storage_gb : Option ℕ
  pub max_concurrent_streams : Option ℕ
  pub max_destinations : Option ℕ
  pub max_playlists : Option ℕ
  pub max_assets : Option ℕ
  pub daily_streaming_limit_hours : Option ℕ
  pub custom_rtmps_enabled : Bool

pub record Profile : Type 0 where
  pub subscription_tier : Text
  pub is_suspended : Bool
  pub current_storage_bytes : Option ℕ

-- What the database has of the user.
pub record Account : Type 0 where
  pub profile : Option Profile
  pub limits : Option TierLimits
  pub streams : List Stream
  pub assets : ℕ
  pub playlists : ℕ
  pub destinations : ℕ

pub data Resource : Type 0 where
  concurrent_streams daily_streaming assets_count playlists_count destinations_count storage :
      Resource

-- Why a check raises: no profile, a suspended account, a tier without limits, `QuotaExceededError`, a host
-- that the tier does not allow, an address that is not valid, and an address that cannot be parsed.
pub data Refusal : Type 0 where
  profile_not_found account_suspended tier_limits_unavailable : Refusal
  quota_exceeded : Resource → Refusal
  custom_rtmps_not_allowed : Refusal
  invalid_destination : UrlError → Refusal
  unparsable_url : Refusal

pub data Verdict : Type 0 where
  allowed : Verdict
  denied : Refusal → Verdict

-- A check after another
unfoldable pub and_then : Verdict → Verdict → Verdict
and_then allowed next = next
and_then (denied refusal) next = denied refusal

-- `check_suspended`
unfoldable pub check_suspended : Account → Verdict
check_suspended account = elim account.profile [
  | none ↦ denied profile_not_found
  | some profile ↦ if profile.is_suspended then denied account_suspended else allowed
]

-- `check_suspended` and `_load_limits`, with which every check begins
unfoldable pub with_limits :
    Option Profile → Option TierLimits → (Profile → TierLimits → Verdict) → Verdict
with_limits none limits check = denied profile_not_found
with_limits (some profile) limits check =
    if profile.is_suspended
    then denied account_suspended
    else elim limits [ none ↦ denied tier_limits_unavailable | some l ↦ check profile l ]

-- `limit is not None and count >= limit`
unfoldable pub check_count : Resource → ℕ → Option ℕ → Verdict
check_count resource current none = allowed
check_count resource current (some limit) =
    if leb limit current then denied (quota_exceeded resource) else allowed

abbrev pub active_count : List Stream → ℕ
active_count streams = count (λ s. is_active s.status) streams

-- The rolling window of a day
abbrev pub window_start : ℕ → ℕ
window_start window_end = window_end - 86400 * second

-- `COALESCE(stopped_at, :window_end)`
abbrev pub end_of : ℕ → Option ℕ → ℕ
end_of window_end none = window_end
end_of window_end (some stopped) = stopped

-- One row of the aggregate in `get_daily_streaming_usage`, as what it adds and what it takes away.
unfoldable pub clipped : ℕ → Option ℕ → Option ℕ → ℕ × ℕ
clipped window_end none stopped_at = (0, 0)
clipped window_end (some started) stopped_at =
    let stop = end_of window_end stopped_at in
    if ltb (window_start window_end) stop && ltb started window_end
    then (min stop window_end, max started (window_start window_end))
    else (0, 0)

unfoldable pub sum_added : ℕ → List Stream → ℕ
unfolding clipped
sum_added window_end [] = 0
sum_added window_end (s ∷ streams) =
    (clipped window_end s.started_at s.stopped_at).0 + sum_added window_end streams

unfoldable pub sum_taken : ℕ → List Stream → ℕ
unfolding clipped
sum_taken window_end [] = 0
sum_taken window_end (s ∷ streams) =
    (clipped window_end s.started_at s.stopped_at).1 + sum_taken window_end streams

-- `used_seconds`, which is never below 0
unfoldable pub used_time : ℕ → List Stream → ℕ
used_time window_end streams = sum_added window_end streams - sum_taken window_end streams

-- `get_daily_streaming_usage`, where the tier has a limit other than 0
pub record Usage : Type 0 where
  pub limit_time : ℕ
  pub used : ℕ
  pub remaining : ℕ
  pub limit_reached : Bool

abbrev pub hours : ℕ → ℕ
hours n = n * 3600 * second

unfoldable pub get_daily_streaming_usage : ℕ → Option ℕ → List Stream → Option Usage
get_daily_streaming_usage now none streams = none
get_daily_streaming_usage now (some limit_hours) streams =
    let remaining = hours limit_hours - used_time now streams in
    if limit_hours == 0
    then none
    else some (record {
      limit_time = hours limit_hours;
      used = used_time now streams;
      remaining = remaining;
      limit_reached = leb remaining 0;
    })

-- `_check_daily_streaming_limit`
unfoldable pub check_daily_streaming_limit : ℕ → Option ℕ → List Stream → Verdict
check_daily_streaming_limit now limit streams = elim (get_daily_streaming_usage now limit streams) [
  | none ↦ allowed
  | some usage ↦
      if ltb usage.used usage.limit_time then allowed else denied (quota_exceeded daily_streaming)
]

-- `check_concurrent_streams`
unfoldable pub check_concurrent_streams : ℕ → Account → Verdict
unfolding with_limits and_then
check_concurrent_streams now account = with_limits account.profile account.limits (λ profile limits.
    and_then
      (check_count concurrent_streams (active_count account.streams) limits.max_concurrent_streams)
      (check_daily_streaming_limit now limits.daily_streaming_limit_hours account.streams))

-- `check_assets_limit`, `check_playlists_limit` and `check_destinations_limit`
unfoldable pub check_assets_limit : Account → Verdict
check_assets_limit account =
    with_limits account.profile account.limits
      (λ profile limits. check_count assets_count account.assets limits.max_assets)

unfoldable pub check_playlists_limit : Account → Verdict
check_playlists_limit account =
    with_limits account.profile account.limits
      (λ profile limits. check_count playlists_count account.playlists limits.max_playlists)

unfoldable pub check_destinations_limit : Account → Verdict
check_destinations_limit account =
    with_limits account.profile account.limits (λ profile limits.
      check_count destinations_count account.destinations limits.max_destinations)

abbrev pub or_zero : Option ℕ → ℕ
or_zero none = 0
or_zero (some n) = n

-- A limit of 0 does not bind, as an absent one.
unfoldable pub fits_storage : ℕ → Option ℕ → Bool
fits_storage bytes storage_gb =
    (or_zero storage_gb == 0) || leb bytes (or_zero storage_gb * 1024 ^ 3)

-- `check_storage_limit`
unfoldable pub check_storage_limit : ℕ → Account → Verdict
check_storage_limit additional_bytes account =
    with_limits account.profile account.limits (λ profile limits.
      if fits_storage (or_zero profile.current_storage_bytes + additional_bytes) limits.storage_gb
      then allowed
      else denied (quota_exceeded storage))

abbrev pub is_granted : Verdict → Bool
is_granted allowed = true
is_granted (denied refusal) = false

-- `apply_storage_delta` of backend/app/services/assets/storage.py
unfoldable pub apply_storage_delta : ℤ → Option ℕ → Option ℕ
apply_storage_delta (pos zero) current = current
apply_storage_delta (pos (suc n)) current = some (or_zero current + suc n)
apply_storage_delta (negsuc n) current = some (or_zero current - suc n)

unfoldable pub change_profile : ℤ → Option Profile → Option Profile
unfolding apply_storage_delta
change_profile delta none = none
change_profile delta (some profile) = some (record profile {
  current_storage_bytes = apply_storage_delta delta profile.current_storage_bytes;
})

unfoldable pub change_storage : ℤ → Account → Account
unfolding change_profile
change_storage delta account = record account { profile = change_profile delta account.profile }

module _ (net : Net) where
  abbrev pub youtube_host : Option Text → Bool
  youtube_host none = false
  youtube_host (some host) =
      ends_with (lower host) (codes "rtmp.youtube.com")
      || ends_with (lower host) (codes "rtmps.youtube.com")

  -- What becomes of an `InvalidDestinationURL`, and of the other error.
  unfoldable pub verdict_of : {A : Type 0} → Checked A → Verdict
  verdict_of (accepted destination) = allowed
  verdict_of (refused bare_value_error) = denied unparsable_url
  verdict_of (refused code) = denied (invalid_destination code)

  -- `validate_destination_url` with the settings of the server
  unfoldable pub check_url : Text → Verdict
  unfolding verdict_of
  check_url url = verdict_of (validate_destination_url net url none none (resolve net))

  -- `ensure_destination_allowed`
  unfoldable pub check_host : TierLimits → Option Parsed → Text → Verdict
  check_host limits none url = denied unparsable_url
  check_host limits (some parsed) url =
      if limits.custom_rtmps_enabled || youtube_host parsed.hostname
      then check_url url
      else denied custom_rtmps_not_allowed

  unfoldable pub ensure_destination_allowed : Text → Account → Verdict
  unfolding check_host
  ensure_destination_allowed url account =
      with_limits account.profile account.limits
        (λ profile limits. check_host limits (net.urlparse url) url)
