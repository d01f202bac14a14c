-- ===== src/Signals/History.antt =====
-- What the manager's own summary reports of a stream's signals, against the log itself.
use youtube_translation.Base.{
  ℕ, min, inl, inr, ◌<◌, ◌≡◌, ◌≢◌, refl, Bool, true, false, List, [], ◌∷◌, ◌++◌, some, Option-cases,
  Text, arith, ap, sym, subst, count, ltb, map, if◌then◌else◌,
}
use mathlib.Core.List.{append-nil, append_assoc}
use youtube_translation.Signals.{
  no_signals, Signals, Degraded, remote_output_reset, non_monotonic_dts, recovery_storm, get,
  capped, degraded_signal_specs, register_runtime_signal_hit, ensure_runtime_signal_state,
  count_recent_signal_hits, track_runtime_signal, record_recovery, record_runtime_log_health,
  record_log, line_matches_markers, markers_of, incident, Item, recovery_success_markers,
  remote_output_reset_markers, non_monotonic_dts_markers,
}
use youtube_translation.Signals.Window.{
  recent, IsOrdered, Counts, Counts-none, Counts-later, Counts-capped, Counts-counted,
}
use youtube_translation.Signals.Kept.{
  window_of, hits_of, Tracks, track-Tracks, track_other, maybe_emit-Tracks,
}

-- The hit that a line adds to a history.
abbrev hit_if : Bool → ℕ → List ℕ
hit_if true now = now ∷ []
hit_if false now = []

module _ (is_uuid : Bool) (now : ℕ) (line : Text) where
  own_stage :
      (b : Bool) (name : Degraded) (st : Signals) (history : List ℕ)
      → Tracks name now st history
      → Tracks name now
          (if b then track_runtime_signal is_uuid name line now st else (st, [])).0
          (history ++ hit_if b now)
  unfolding Tracks
  own_stage false name st history c =
      subst (λ h. Counts (window_of name) now (hits_of (get name st)) h) (sym (append-nil history))
        c
  own_stage true name st history c = track-Tracks is_uuid name line now st history c

  other_stage :
      (b : Bool) (name other : Degraded) (st : Signals) (history : List ℕ)
      → name ≢ other
      → Tracks name now st history
      → Tracks name now
          (if b then track_runtime_signal is_uuid other line now st else (st, [])).0
          history
  unfolding Tracks
  other_stage false name other st history h c = c
  other_stage true name other st history h c = rw (track_other is_uuid other line now st name h) c

  recovery_stage :
      (b : Bool) (name : Degraded) (st : Signals) (history : List ℕ)
      → name ≢ recovery_storm
      → Tracks name now st history
      → Tracks name now (if b then record_recovery is_uuid line now st else (st, [])).0 history
  unfolding record_recovery Tracks
  recovery_stage false name st history h c = c
  recovery_stage true name st history h c =
      maybe_emit-Tracks is_uuid name now
        (record st {
          recovery_success_state =
              some (register_runtime_signal_hit st.recovery_success_state line now);
        })
        history h (success_aside name c)
    where
      success_aside :
          (name : Degraded)
          → Counts (window_of name) now (hits_of (get name st)) history
          → Counts
              (window_of name)
              now
              (hits_of (
                get name (record st {
                  recovery_success_state =
                      some (register_runtime_signal_hit st.recovery_success_state line now);
                })))
              history
      success_aside remote_output_reset c = c
      success_aside non_monotonic_dts c = c
      success_aside recovery_storm c = c

  line-Tracks :
      (name : Degraded) (st : Signals) (history : List ℕ)
      → name ≢ recovery_storm
      → Tracks name now st history
      → Tracks name now
          (record_runtime_log_health is_uuid now line st).0
          (history ++ hit_if (line_matches_markers line (markers_of name)) now)
  unfolding record_runtime_log_health
  line-Tracks recovery_storm st history h c = absurd (h refl)
  line-Tracks remote_output_reset st history h c =
      other_stage (line_matches_markers line non_monotonic_dts_markers) remote_output_reset
        non_monotonic_dts _ _ (λ e. ground (arith, e))
        (recovery_stage (line_matches_markers line recovery_success_markers) remote_output_reset _ _
          h
          (own_stage (line_matches_markers line remote_output_reset_markers) remote_output_reset st
            history c))
  line-Tracks non_monotonic_dts st history h c =
      own_stage (line_matches_markers line non_monotonic_dts_markers) non_monotonic_dts _ history (
        recovery_stage (line_matches_markers line recovery_success_markers) non_monotonic_dts _
          history h
          (other_stage (line_matches_markers line remote_output_reset_markers) non_monotonic_dts
            remote_output_reset st history (λ e. ground (arith, e)) c))

-- The instants of the lines that raise a signal.
unfoldable pub raised_at : Degraded → List (ℕ × Text) → List ℕ
raised_at name [] = []
raised_at name ((now, line) ∷ log) =
    hit_if (line_matches_markers line (markers_of name)) now ++ raised_at name log

log-Tracks :
    (is_uuid : Bool) (name : Degraded) (lo hi : ℕ) (log : List (ℕ × Text)) (st : Signals)
    (history : List ℕ)
    → name ≢ recovery_storm
    → IsOrdered lo hi (map (λ (e : ℕ × Text). e.0) log)
    → Tracks name lo st history
    → Tracks name hi (record_log is_uuid log st).0 (history ++ raised_at name log)
unfolding record_log raised_at Tracks
log-Tracks is_uuid name lo hi [] st history h ordered c =
    subst (λ past. Counts (window_of name) hi (hits_of (get name st)) past)
      (sym (append-nil history))
      (Counts-later (window_of name) lo hi (hits_of (get name st)) history ordered c)
log-Tracks is_uuid name lo hi ((now, line) ∷ log) st history h ordered c =
    let hits = hit_if (line_matches_markers line (markers_of name)) now in
    subst
      (λ past.
        Tracks name hi (record_log is_uuid log (record_runtime_log_health is_uuid now line st).0).0
          past)
      (append_assoc history hits (raised_at name log))
      (log-Tracks is_uuid name now hi log (record_runtime_log_health is_uuid now line st).0
        (history ++ hits) h ordered.1
        (line-Tracks is_uuid now line name st history h
          (Counts-later (window_of name) lo now (hits_of (get name st)) history ordered.0 c)))

abbrev item_if : ℕ → Degraded → ℕ → List Item
item_if threshold name occurrences =
    if ltb occurrences threshold then [] else record { code = name; count = occurrences } ∷ []

-- The item of a signal in the manager's own summary, as the log has it: the number of lines with a marker of the
-- signal in its window, at most 32, if that reaches the threshold.
abbrev pub incident_of_log : ℕ → Degraded → List (ℕ × Text) → List Item
incident_of_log now name log =
    item_if (degraded_signal_specs name).threshold name
      (min 32 (count (recent (window_of name) now) (raised_at name log)))

threshold-pos : (name : Degraded) → 0 < (degraded_signal_specs name).threshold
threshold-pos remote_output_reset = omega arith
threshold-pos non_monotonic_dts = omega arith
threshold-pos recovery_storm = omega arith

incident-Tracks :
    (name : Degraded) (now : ℕ) (st : Signals) (history : List ℕ)
    → Tracks name now st history
    → incident now name st
      ≡ item_if
          (degraded_signal_specs name).threshold
          name
          (min 32 (count (recent (window_of name) now) history))
unfolding incident Tracks count_recent_signal_hits ensure_runtime_signal_state
incident-Tracks name now st history c = elim (Option-cases (get name st)) [
  | inl e ↦
      let empty : Counts (window_of name) now [] history =
        subst (λ raw. Counts (window_of name) now (hits_of raw) history) e c in
      rw (e, incident) (ground (arith, empty.counts now (omega arith), threshold-pos name))
  | inr (signal, e) ↦
      let kept : Counts (window_of name) now signal.hits history =
        subst (λ raw. Counts (window_of name) now (hits_of raw) history) e c in
      rw (e, incident)
        (ap (item_if (degraded_signal_specs name).threshold name) (
          Counts-counted (window_of name) now (capped signal.hits) history
            (Counts-capped (window_of name) now signal.hits history kept)))
]

-- Whatever a log holds, if its lines come in order of time then the item for resets or for timestamps in the
-- manager's own summary is the one that counting the log itself gives, whose number of lines is
-- capped at the 32 entries of the deque, in spite of what counting throws away and of alerts and
-- storms in between.
pub incident-log :
    (is_uuid : Bool) (name : Degraded) (now : ℕ) (log : List (ℕ × Text))
    → name ≢ recovery_storm
    → IsOrdered 0 now (map (λ (e : ℕ × Text). e.0) log)
    → incident now name (record_log is_uuid log no_signals).0 ≡ incident_of_log now name log
unfolding Tracks
incident-log is_uuid name now log h ordered =
    incident-Tracks name now (record_log is_uuid log no_signals).0 (raised_at name log)
      (log-Tracks is_uuid name 0 now log no_signals [] h ordered (fresh name))
  where
    fresh : (name : Degraded) → Tracks name 0 no_signals []
    fresh remote_output_reset = Counts-none (window_of remote_output_reset) 0
    fresh non_monotonic_dts = Counts-none (window_of non_monotonic_dts) 0
    fresh recovery_storm = Counts-none (window_of recovery_storm) 0
