-- ===== src/Signals.antt =====
-- The health of a running stream as its ffmpeg log shows it: backend/app/streaming/runtime_signals.py, and
-- `_record_runtime_log_health` with what it calls in backend/app/streaming/ffmpeg_manager.py. A line
-- is the text that `_redact_rtmp_text(line.strip())[:500]` leaves. The dict of a stream has the names of
-- the three degraded signals and "recovery_success"; its values are those that this code writes.
pub mod Window
pub mod Kept
pub mod Spacing
pub mod Alerts
pub mod History
mod Tests
use youtube_translation.Base.{
  ℕ, suc, ◌+◌, ◌-◌, ◌*◌, min, max, Bool, true, false, ◌&&◌, List, [], ◌∷◌, ◌++◌, Option, none, some,
  Text, codes, any, contains_text, lower, drop, take, length, replicate, ltb, leb, second,
  if◌then◌else◌,
}

pub record Signal : Type 0 where
  pub hits : List ℕ
  pub last_emitted_at : Option ℕ
  pub last_seen_at : Option ℕ
  pub last_line : Option Text

pub data Degraded : Type 0 where
  remote_output_reset non_monotonic_dts recovery_storm : Degraded

-- `runtime_signal_state` of a stream
pub record Signals : Type 0 where
  pub remote_output_reset_state : Option Signal
  pub non_monotonic_dts_state : Option Signal
  pub recovery_storm_state : Option Signal
  pub recovery_success_state : Option Signal

abbrev pub get : Degraded → Signals → Option Signal
get remote_output_reset st = st.remote_output_reset_state
get non_monotonic_dts st = st.non_monotonic_dts_state
get recovery_storm st = st.recovery_storm_state

abbrev pub put : Degraded → Signal → Signals → Signals
put remote_output_reset signal st = record st { remote_output_reset_state = some signal }
put non_monotonic_dts signal st = record st { non_monotonic_dts_state = some signal }
put recovery_storm signal st = record st { recovery_storm_state = some signal }

-- `{}`
abbrev pub no_signals : Signals
no_signals = record {
  remote_output_reset_state = none;
  non_monotonic_dts_state = none;
  recovery_storm_state = none;
  recovery_success_state = none;
}

-- `DEGRADED_SIGNAL_SPECS`
pub record Spec : Type 0 where
  pub threshold : ℕ
  pub window_seconds : ℕ
  pub cooldown_seconds : ℕ

abbrev pub degraded_signal_specs : Degraded → Spec
degraded_signal_specs remote_output_reset = record {
  threshold = 3;
  window_seconds = 180;
  cooldown_seconds = 900;
}
degraded_signal_specs non_monotonic_dts = record {
  threshold = 5;
  window_seconds = 300;
  cooldown_seconds = 900;
}
degraded_signal_specs recovery_storm = record {
  threshold = 3;
  window_seconds = 300;
  cooldown_seconds = 900;
}

abbrev pub remote_output_reset_markers : List Text
remote_output_reset_markers =
    codes "broken pipe"
    ∷ codes "connection reset by peer"
    ∷ codes "the specified session has been invalidated"
    ∷ codes "error writing trailer"
    ∷ []

abbrev pub recovery_success_markers : List Text
recovery_success_markers = codes "recovery successful" ∷ []

abbrev pub non_monotonic_dts_markers : List Text
non_monotonic_dts_markers =
    codes "non-monotonic dts" ∷ codes "non monotonically increasing dts" ∷ []

-- `_line_matches_markers`
unfoldable pub line_matches_markers : Text → List Text → Bool
line_matches_markers line markers = any (λ marker. contains_text marker (lower line)) markers

-- The markers of a signal that a line of the log raises; a storm has none.
abbrev pub markers_of : Degraded → List Text
markers_of remote_output_reset = remote_output_reset_markers
markers_of non_monotonic_dts = non_monotonic_dts_markers
markers_of recovery_storm = []

-- A `deque(maxlen=32)` of these.
abbrev pub capped : List ℕ → List ℕ
capped hits = drop (length hits - 32) hits

-- `_default_signal_state`
abbrev pub default_signal : Signal
default_signal = record { hits = []; last_emitted_at = none; last_seen_at = none; last_line = none }

-- `ensure_runtime_signal_state`
unfoldable pub ensure_runtime_signal_state : Option Signal → Signal
ensure_runtime_signal_state none = default_signal
ensure_runtime_signal_state (some signal) = record signal { hits = capped signal.hits }

-- `register_runtime_signal_hit`
unfoldable pub register_runtime_signal_hit : Option Signal → Text → ℕ → Signal
unfolding ensure_runtime_signal_state
register_runtime_signal_hit raw log_line observed_at =
    let signal = ensure_runtime_signal_state raw in
    record signal {
      hits = capped (signal.hits ++ observed_at ∷ []);
      last_seen_at = some observed_at;
      last_line = some (take 500 log_line);
    }

-- The deque without the hits at its left end that are before the window.
unfoldable pub expire : ℕ → ℕ → List ℕ → List ℕ
expire now window_seconds [] = []
expire now window_seconds (hit ∷ hits) =
    let rest = expire now window_seconds hits in
    if ltb (hit + max window_seconds 1 * second) now then rest else hit ∷ hits

-- `count_recent_signal_hits`, which keeps what it counts.
unfoldable pub count_recent_signal_hits : ℕ → ℕ → Signal → ℕ × Signal
count_recent_signal_hits now window_seconds signal =
    let hits = expire now window_seconds (capped signal.hits) in
    (length hits, record signal { hits = hits })

-- `signal_cooldown_elapsed`
unfoldable pub signal_cooldown_elapsed : ℕ → ℕ → Signal → Bool
signal_cooldown_elapsed now cooldown_seconds signal = elim signal.last_emitted_at [
  | none ↦ true
  | some last ↦ leb (last + cooldown_seconds * second) now
]

-- What `_emit_runtime_degraded_signal` hands to `persist_stream_alert_event`.
pub record Alert : Type 0 where
  pub signal : Degraded
  pub occurrence_count : ℕ
  pub observed_at : ℕ

-- `_emit_runtime_degraded_signal`: nothing for a stream whose id is no UUID.
unfoldable pub emit_runtime_degraded_signal :
    Bool → Degraded → Signal → ℕ → Signals → Signals × List Alert
unfolding count_recent_signal_hits
emit_runtime_degraded_signal false name signal now st = (put name signal st, [])
emit_runtime_degraded_signal true name signal now st =
    let (occurrences, counted) =
      count_recent_signal_hits now (degraded_signal_specs name).window_seconds signal in
    (
      put name (record counted { last_emitted_at = some now }) st,
      record { signal = name; occurrence_count = occurrences; observed_at = now } ∷ [],
    )

-- The end of the two functions below, which emit only when enough was seen and the last alert is old.
unfoldable pub emit_when : Bool → Bool → Degraded → Signal → ℕ → Signals → Signals × List Alert
emit_when false is_uuid name signal now st = (put name signal st, [])
emit_when true is_uuid name signal now st = emit_runtime_degraded_signal is_uuid name signal now st

-- `_track_runtime_signal`
unfoldable pub track_runtime_signal : Bool → Degraded → Text → ℕ → Signals → Signals × List Alert
unfolding count_recent_signal_hits register_runtime_signal_hit
track_runtime_signal is_uuid name log_line now st =
    let spec = degraded_signal_specs name in
    let (occurrences, signal) =
      count_recent_signal_hits now spec.window_seconds
        (register_runtime_signal_hit (get name st) log_line now) in
    emit_when
      (leb spec.threshold occurrences && signal_cooldown_elapsed now spec.cooldown_seconds signal)
      is_uuid name signal now st

-- `" | ".join` of the texts that are not empty
abbrev join_lines : Option Text → Option Text → Text
join_lines (some (a ∷ s)) (some (b ∷ t)) = a ∷ s ++ codes " | " ++ b ∷ t
join_lines (some (a ∷ s)) other = a ∷ s
join_lines other (some t) = t
join_lines other none = []

-- The state of a storm that is about to be told.
unfoldable pub struck : ℕ → ℕ → ℕ → Signal → Signal → Signal → Signal
struck now reset_count recovery_count resets successes storm = record storm {
  hits = replicate (min (reset_count + recovery_count) 32) now;
  last_seen_at = some now;
  last_line = some (take 500 (join_lines resets.last_line successes.last_line));
}

-- `_maybe_emit_recovery_storm` where both counters exist
unfoldable pub emit_storm : Bool → ℕ → Signal → Signal → Signal → Signals → Signals × List Alert
unfolding count_recent_signal_hits
emit_storm is_uuid now storm resets successes st =
    let spec = degraded_signal_specs recovery_storm in
    let (reset_count, resets') = count_recent_signal_hits now spec.window_seconds resets in
    let (recovery_count, successes') = count_recent_signal_hits now spec.window_seconds successes in
    let due =
      leb spec.threshold reset_count
      && leb spec.threshold recovery_count
      && signal_cooldown_elapsed now spec.cooldown_seconds storm in
    emit_when due is_uuid recovery_storm
      (if due then struck now reset_count recovery_count resets' successes' storm else storm) now
      (record st {
        remote_output_reset_state = some resets';
        recovery_success_state = some successes';
      })

unfoldable pub storm_of : Option Signal → Option Signal → Bool → ℕ → Signals → Signals × List Alert
storm_of (some resets) (some successes) is_uuid now st =
    emit_storm is_uuid now (ensure_runtime_signal_state st.recovery_storm_state) resets successes st
storm_of (some resets) none is_uuid now st =
    (put recovery_storm (ensure_runtime_signal_state st.recovery_storm_state) st, [])
storm_of none successes is_uuid now st =
    (put recovery_storm (ensure_runtime_signal_state st.recovery_storm_state) st, [])

-- `_maybe_emit_recovery_storm`
unfoldable pub maybe_emit_recovery_storm : Bool → ℕ → Signals → Signals × List Alert
maybe_emit_recovery_storm is_uuid now st =
    storm_of st.remote_output_reset_state st.recovery_success_state is_uuid now st

-- The branch of `_record_runtime_log_health` for a recovery.
unfoldable pub record_recovery : Bool → Text → ℕ → Signals → Signals × List Alert
record_recovery is_uuid line now st = maybe_emit_recovery_storm is_uuid now (record st {
  recovery_success_state = some (register_runtime_signal_hit st.recovery_success_state line now);
})

-- A step after others: the alerts come in order.
abbrev pub followed_by :
    Signals × List Alert → (Signals → Signals × List Alert) → Signals × List Alert
followed_by (st, alerts) step = let (st', more) = step st in (st', alerts ++ more)

-- `_record_runtime_log_health`
unfoldable pub record_runtime_log_health : Bool → ℕ → Text → Signals → Signals × List Alert
record_runtime_log_health is_uuid now line st =
    let only_if = λ (markers : List Text) (step : Signals → Signals × List Alert) (st : Signals).
      if line_matches_markers line markers then step st else (st, []) in
    followed_by
      (followed_by
        (only_if remote_output_reset_markers
          (track_runtime_signal is_uuid remote_output_reset line now) st)
        (only_if recovery_success_markers (record_recovery is_uuid line now)))
      (only_if non_monotonic_dts_markers (track_runtime_signal is_uuid non_monotonic_dts line now))

-- A log, each line with the instant at which it is read.
unfoldable pub record_log : Bool → List (ℕ × Text) → Signals → Signals × List Alert
record_log is_uuid [] st = (st, [])
record_log is_uuid ((now, line) ∷ log) st =
    followed_by (record_runtime_log_health is_uuid now line st) (record_log is_uuid log)

-- An item of `summarize_runtime_incidents`.
pub record Item : Type 0 where
  pub code : Degraded
  pub count : ℕ

unfoldable pub incident : ℕ → Degraded → Signals → List Item
unfolding count_recent_signal_hits
incident now name st = elim (get name st) [
  | none ↦ []
  | some signal ↦
      let spec = degraded_signal_specs name in
      let (occurrences, _) =
        count_recent_signal_hits now spec.window_seconds
          (ensure_runtime_signal_state (some signal)) in
      if ltb occurrences spec.threshold
      then []
      else record { code = name; count = occurrences } ∷ []
]

-- `summarize_runtime_incidents`: the stream is healthy where there is no item.
unfoldable pub summarize_runtime_incidents : ℕ → Signals → List Item
summarize_runtime_incidents now st =
    incident now remote_output_reset st
    ++ incident now non_monotonic_dts st
    ++ incident now recovery_storm st
