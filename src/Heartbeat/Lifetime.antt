-- ===== src/Heartbeat/Lifetime.antt =====
-- How long a heartbeat counts.
use youtube_translation.Base.{
  ℕ, ◌+◌, ◌*◌, ◌≡◌, ◌≢◌, refl, [], ◌∷◌, Option, some, Text, ltb, strip, second,
}
use youtube_translation.Heartbeat.{
  Clock, effective_ttl, parse_datetime, solid, write_runtime_heartbeat, runtime_heartbeat_is_stale,
}

-- The host reads the dates that it writes, and they do not consist of white space.
abbrev pub ReadsBack : Clock → ℕ → Type 0
ReadsBack clock u =
    (clock.fromisoformat (clock.isoformat u) ≡ some u) × (strip (clock.isoformat u) ≢ [])

parse-isoformat :
    (clock : Clock) (u : ℕ)
    → ReadsBack clock u
    → parse_datetime clock (some (clock.isoformat u)) ≡ some u
unfolding parse_datetime solid
parse-isoformat clock u h = on_text (strip (clock.isoformat u)) h.1
  where
    on_text : (t : Text) → t ≢ [] → solid clock (clock.isoformat u) t ≡ some u
    on_text [] empty = absurd (empty refl)
    on_text (c ∷ s) some_text = h.0

-- Where the host reads back the date that it writes, a heartbeat written at an instant is stale
-- at another exactly when more than its time to live has passed, whatever time to live the reader
-- goes by: the one it was written with counts.
pub written_heartbeat_expires :
    (clock : Clock) (pid : ℕ) (mode : Text) (now later : ℕ) (ttl : Option ℕ) (setting : ℕ)
    (reader_ttl : Option ℕ) (reader_setting : ℕ)
    → ReadsBack clock (now + effective_ttl ttl setting * second)
    → runtime_heartbeat_is_stale clock
        (some (write_runtime_heartbeat clock pid mode now ttl setting))
        later
        reader_ttl
        reader_setting
      ≡ ltb (now + effective_ttl ttl setting * second) later
unfolding write_runtime_heartbeat runtime_heartbeat_is_stale
written_heartbeat_expires clock pid mode now later ttl setting reader_ttl reader_setting h =
    rw
      (
        parse-isoformat clock (now + effective_ttl ttl setting * second) h,
        runtime_heartbeat_is_stale,
      )
      refl
