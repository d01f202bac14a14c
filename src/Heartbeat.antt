-- ===== src/Heartbeat.antt =====
-- The heartbeat of a managed runner: backend/app/core/stream_runtime_heartbeat.py. Instants are
-- microseconds of UTC. The fields that are dates are texts, as the writer makes them; `Clock` is the
-- host's way from an instant to a text and back.
pub mod Lifetime
use youtube_translation.Base.{
  ℕ, zero, suc, ◌+◌, ◌*◌, Bool, true, false, List, [], ◌∷◌, ◌++◌, Option, none, some, Text, codes,
  ltb, strip, show_nat, second, if◌then◌else◌,
}

-- `datetime.isoformat` of an instant, and `datetime.fromisoformat` with its conversion to UTC; `none` is
-- a `ValueError`.
pub record Clock : Type 0 where
  pub isoformat : ℕ → Text
  pub fromisoformat : Text → Option ℕ

-- The fields of a heartbeat that are read again.
pub record Fields : Type 0 where
  pub runner_pid : ℕ
  pub runtime_mode : Option Text
  pub updated_at : Option Text
  pub expires_at : Option Text

-- The dict that `read_runtime_heartbeat` returns: an empty one, or one with fields.
pub data Payload : Type 0 where
  blank : Payload
  filled : Fields → Payload

-- `max(int(ttl_seconds or settings.stream_runtime_heartbeat_ttl_seconds), 1)`
abbrev pub effective_ttl : Option ℕ → ℕ → ℕ
effective_ttl none setting = if ltb setting 1 then 1 else setting
effective_ttl (some zero) setting = if ltb setting 1 then 1 else setting
effective_ttl (some (suc n)) setting = suc n

module _ (clock : Clock) where
  unfoldable pub solid : Text → Text → Option ℕ
  solid value [] = none
  solid value (_ ∷ _) = clock.fromisoformat value

  -- `_parse_datetime`
  unfoldable pub parse_datetime : Option Text → Option ℕ
  unfolding solid
  parse_datetime none = none
  parse_datetime (some value) = solid value (strip value)

  -- `get_runtime_heartbeat_datetime(payload, "updated_at")`
  unfoldable pub updated_datetime : Option Payload → Option ℕ
  updated_datetime none = none
  updated_datetime (some blank) = none
  updated_datetime (some (filled f)) = parse_datetime f.updated_at

  -- The payload that `write_runtime_heartbeat` stores.
  unfoldable pub write_runtime_heartbeat : ℕ → Text → ℕ → Option ℕ → ℕ → Payload
  write_runtime_heartbeat runner_pid runtime_mode now ttl_seconds setting = filled (record {
    runner_pid = runner_pid;
    runtime_mode = some runtime_mode;
    updated_at = some (clock.isoformat now);
    expires_at = some (clock.isoformat (now + effective_ttl ttl_seconds setting * second));
  })

  -- `runtime_heartbeat_is_stale`
  unfoldable pub runtime_heartbeat_is_stale : Option Payload → ℕ → Option ℕ → ℕ → Bool
  runtime_heartbeat_is_stale none now ttl_seconds setting = false
  runtime_heartbeat_is_stale (some blank) now ttl_seconds setting = false
  runtime_heartbeat_is_stale (some (filled f)) now ttl_seconds setting =
      elim (parse_datetime f.expires_at) [
        | some expires_at ↦ ltb expires_at now
        | none ↦ elim (parse_datetime f.updated_at) [
          | none ↦ true
          | some updated_at ↦ ltb (updated_at + effective_ttl ttl_seconds setting * second) now
        ]
      ]

  -- `a or b` on optional texts, and with a text at the end
  filled_or : Option Text → Text → Text
  filled_or none b = b
  filled_or (some []) b = b
  filled_or (some (c ∷ s)) b = c ∷ s

  reason_text : Fields → Text
  unfolding filled_or
  reason_text f =
      let expires_at = filled_or f.expires_at (filled_or f.updated_at (codes "unknown")) in
      let runtime_mode = filled_or f.runtime_mode (codes "managed") in
      let details = runtime_mode ++ codes " runner heartbeat expired at " ++ expires_at in
      elim f.runner_pid [
        | zero ↦ details
        | suc n ↦ details ++ codes " (runner_pid=" ++ show_nat (suc n) ++ codes ")"
      ]

  -- `stale_runtime_heartbeat_reason`, at an instant, with the time to live of the settings.
  unfoldable pub stale_runtime_heartbeat_reason : Option Payload → ℕ → ℕ → Option Text
  unfolding reason_text
  stale_runtime_heartbeat_reason none now setting = none
  stale_runtime_heartbeat_reason (some blank) now setting = none
  stale_runtime_heartbeat_reason (some (filled f)) now setting =
      if runtime_heartbeat_is_stale (some (filled f)) now none setting
      then some (reason_text f)
      else none
