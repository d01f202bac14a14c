-- ===== src/Signals/Tests.antt =====
-- The signals of a short log.
use youtube_translation.Base.{ℕ, ◌*◌, ◌≡◌, true, List, [], ◌∷◌, none, Text, codes, arith, second}
use youtube_translation.Signals.{no_signals, remote_output_reset, incident, record_log}
use youtube_translation.Signals.Alerts.{alerts-IsSpaced}
use youtube_translation.Signals.Spacing.{IsSpaced, alerted_at}
use youtube_translation.Signals.History.{incident_of_log, incident-log}

abbrev broken : ℕ → ℕ × Text
broken at = (at * second, codes "av_interleaved_write_frame(): Broken pipe")

abbrev short_log : List (ℕ × Text)
short_log = broken 5 ∷ broken 6 ∷ broken 7 ∷ []

incident-log_example :
    incident (8 * second) remote_output_reset (record_log true short_log no_signals).0
    ≡ incident_of_log (8 * second) remote_output_reset short_log
incident-log_example =
    incident-log true remote_output_reset (8 * second) short_log (λ e. ground (arith, e))
      (omega arith, (omega arith, (omega arith, omega arith)))

alerts-IsSpaced_example :
    IsSpaced none
      (900 * second)
      (alerted_at remote_output_reset (record_log true short_log no_signals).1)
alerts-IsSpaced_example = alerts-IsSpaced true remote_output_reset short_log
