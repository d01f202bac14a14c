-- ===== src/Signals/Alerts.antt =====
-- The alerts that a log raises: how far apart they are.
use youtube_translation.Base.{
  ℕ, ◌*◌, ◌≡◌, refl, Bool, true, false, List, [], ◌∷◌, none, some, Text, second, if◌then◌else◌,
}
use youtube_translation.Signals.{
  no_signals, Signals, Degraded, remote_output_reset, non_monotonic_dts, recovery_storm, get,
  register_runtime_signal_hit, track_runtime_signal, record_recovery, record_runtime_log_health,
  record_log, line_matches_markers, recovery_success_markers, remote_output_reset_markers,
  non_monotonic_dts_markers,
}
use youtube_translation.Signals.Spacing.{
  alerted_at, IsSpaced, emitted, cooldown, Follows, chained, quiet, track-Follows,
  maybe_emit-Follows,
}

module _ (is_uuid : Bool) (name : Degraded) (line : Text) (now : ℕ) where
  track_stage :
      (b : Bool) (other : Degraded) (st : Signals)
      → let r = if b then track_runtime_signal is_uuid other line now st else (st, []) in
        Follows name st r.0 r.1
  track_stage false other st = quiet name st st refl
  track_stage true other st = track-Follows is_uuid name other line now st

  recovery_stage :
      (b : Bool) (st : Signals)
      → let r = if b then record_recovery is_uuid line now st else (st, []) in
        Follows name st r.0 r.1
  unfolding record_recovery
  recovery_stage false st = quiet name st st refl
  recovery_stage true st =
      let counted : Signals = record st {
        recovery_success_state =
            some (register_runtime_signal_hit st.recovery_success_state line now);
      } in
      chained name st counted _ [] _ (quiet name st counted (same_emitted name))
        (maybe_emit-Follows is_uuid name now counted)
    where
      same_emitted :
          (name : Degraded)
          → emitted (
              get name (record st {
                recovery_success_state =
                    some (register_runtime_signal_hit st.recovery_success_state line now);
              }))
            ≡ emitted (get name st)
      same_emitted remote_output_reset = refl
      same_emitted non_monotonic_dts = refl
      same_emitted recovery_storm = refl

  line-Follows :
      (st : Signals)
      → Follows name st
          (record_runtime_log_health is_uuid now line st).0
          (record_runtime_log_health is_uuid now line st).1
  unfolding record_runtime_log_health
  line-Follows st =
      chained name st _ _ _ _
        (chained name st _ _ _ _
          (track_stage (line_matches_markers line remote_output_reset_markers) remote_output_reset
            st)
          (recovery_stage (line_matches_markers line recovery_success_markers) _))
        (track_stage (line_matches_markers line non_monotonic_dts_markers) non_monotonic_dts _)

log-Follows :
    (is_uuid : Bool) (name : Degraded) (log : List (ℕ × Text)) (st : Signals)
    → Follows name st (record_log is_uuid log st).0 (record_log is_uuid log st).1
unfolding record_log
log-Follows is_uuid name [] st = quiet name st st refl
log-Follows is_uuid name ((now, line) ∷ log) st =
    chained name st _ _ _ _ (line-Follows is_uuid name line now st) (log-Follows is_uuid name log _)

-- Whatever a log holds and whenever its lines are read, two alerts of one signal are fifteen minutes or
-- more apart.
pub alerts-IsSpaced :
    (is_uuid : Bool) (name : Degraded) (log : List (ℕ × Text))
    → IsSpaced none (900 * second) (alerted_at name (record_log is_uuid log no_signals).1)
alerts-IsSpaced is_uuid name log = from_none name (log-Follows is_uuid name log no_signals)
  where
    from_none :
        (name : Degraded)
        → Follows name no_signals
            (record_log is_uuid log no_signals).0
            (record_log is_uuid log no_signals).1
        → IsSpaced none cooldown (alerted_at name (record_log is_uuid log no_signals).1)
    from_none remote_output_reset f = f.spaced
    from_none non_monotonic_dts f = f.spaced
    from_none recovery_storm f = f.spaced
