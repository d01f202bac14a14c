-- ===== src/Signals/Kept.antt =====
-- What the operations on signals keep of the history of a signal.
use youtube_translation.Base.{
  ℕ, ◌≤◌, ◌≡◌, ◌≢◌, refl, Bool, true, false, ◌&&◌, List, [], ◌∷◌, ◌++◌, Option, none, some, Text,
  arith, subst, leb,
}
use youtube_translation.Signals.{
  Signal, Signals, Degraded, remote_output_reset, non_monotonic_dts, recovery_storm, get, put,
  capped, degraded_signal_specs, register_runtime_signal_hit, ensure_runtime_signal_state,
  count_recent_signal_hits, track_runtime_signal, emit_runtime_degraded_signal, emit_when,
  signal_cooldown_elapsed, emit_storm, storm_of, maybe_emit_recovery_storm,
}
use youtube_translation.Signals.Window.{Counts, Counts-capped, Counts-expire, Counts-append}

abbrev pub window_of : Degraded → ℕ
window_of name = (degraded_signal_specs name).window_seconds

abbrev pub hits_of : Option Signal → List ℕ
hits_of none = []
hits_of (some signal) = signal.hits

unfoldable pub Tracks : Degraded → ℕ → Signals → List ℕ → Type 0
Tracks name now st history = Counts (window_of name) now (hits_of (get name st)) history

ensured :
    (w now : ℕ) (raw : Option Signal) (history : List ℕ)
    → Counts w now (hits_of raw) history
    → Counts w now (ensure_runtime_signal_state raw).hits history
unfolding ensure_runtime_signal_state
ensured w now none history c = c
ensured w now (some signal) history c = Counts-capped w now signal.hits history c

registered :
    (w now : ℕ) (raw : Option Signal) (line : Text) (history : List ℕ)
    → Counts w now (hits_of raw) history
    → Counts w now (register_runtime_signal_hit raw line now).hits (history ++ now ∷ [])
unfolding register_runtime_signal_hit
registered w now raw line history c =
    let hits = (ensure_runtime_signal_state raw).hits in
    Counts-capped w now (hits ++ now ∷ []) (history ++ now ∷ [])
      (Counts-append w now hits history (ensured w now raw history c))

counted :
    (w wide now : ℕ) (signal : Signal) (history : List ℕ)
    → w ≤ wide
    → Counts w now signal.hits history
    → Counts w now (count_recent_signal_hits now wide signal).1.hits history
unfolding count_recent_signal_hits
counted w wide now signal history hw c =
    Counts-expire w wide now (capped signal.hits) history hw
      (Counts-capped w now signal.hits history c)

get-put_self :
    (name : Degraded) (signal : Signal) (st : Signals) → get name (put name signal st) ≡ some signal
get-put_self remote_output_reset signal st = refl
get-put_self non_monotonic_dts signal st = refl
get-put_self recovery_storm signal st = refl

get-put_ne :
    (name other : Degraded) (signal : Signal) (st : Signals)
    → name ≢ other
    → get name (put other signal st) ≡ get name st
get-put_ne remote_output_reset remote_output_reset signal st h = absurd (h refl)
get-put_ne remote_output_reset non_monotonic_dts signal st h = refl
get-put_ne remote_output_reset recovery_storm signal st h = refl
get-put_ne non_monotonic_dts remote_output_reset signal st h = refl
get-put_ne non_monotonic_dts non_monotonic_dts signal st h = absurd (h refl)
get-put_ne non_monotonic_dts recovery_storm signal st h = refl
get-put_ne recovery_storm remote_output_reset signal st h = refl
get-put_ne recovery_storm non_monotonic_dts signal st h = refl
get-put_ne recovery_storm recovery_storm signal st h = absurd (h refl)

emit-Tracks :
    (is_uuid : Bool) (name : Degraded) (signal : Signal) (now : ℕ) (st : Signals) (history : List ℕ)
    → Counts (window_of name) now signal.hits history
    → Tracks name now (emit_runtime_degraded_signal is_uuid name signal now st).0 history
unfolding emit_runtime_degraded_signal Tracks count_recent_signal_hits
emit-Tracks false name signal now st history c = rw (get-put_self name signal st) c
emit-Tracks true name signal now st history c =
    rw
      (get-put_self name
        (record (count_recent_signal_hits now (window_of name) signal).1 {
          last_emitted_at = some now;
        })
        st)
      (counted (window_of name) (window_of name) now signal history (omega arith) c)

emit_other :
    (is_uuid : Bool) (name other : Degraded) (signal : Signal) (now : ℕ) (st : Signals)
    → name ≢ other
    → get name (emit_runtime_degraded_signal is_uuid other signal now st).0 ≡ get name st
unfolding emit_runtime_degraded_signal count_recent_signal_hits
emit_other false name other signal now st h = get-put_ne name other signal st h
emit_other true name other signal now st h =
    get-put_ne name other
      (record (count_recent_signal_hits now (window_of other) signal).1 {
        last_emitted_at = some now;
      })
      st h

emit_when-Tracks :
    (due is_uuid : Bool) (name : Degraded) (signal : Signal) (now : ℕ) (st : Signals)
    (history : List ℕ)
    → Counts (window_of name) now signal.hits history
    → Tracks name now (emit_when due is_uuid name signal now st).0 history
unfolding emit_when Tracks
emit_when-Tracks false is_uuid name signal now st history c = rw (get-put_self name signal st) c
emit_when-Tracks true is_uuid name signal now st history c =
    emit-Tracks is_uuid name signal now st history c

emit_when_other :
    (due is_uuid : Bool) (name other : Degraded) (signal : Signal) (now : ℕ) (st : Signals)
    → name ≢ other
    → get name (emit_when due is_uuid other signal now st).0 ≡ get name st
unfolding emit_when
emit_when_other false is_uuid name other signal now st h = get-put_ne name other signal st h
emit_when_other true is_uuid name other signal now st h =
    emit_other is_uuid name other signal now st h

module _ (is_uuid : Bool) (name : Degraded) (line : Text) (now : ℕ) (st : Signals) where
  pub track-Tracks :
      (history : List ℕ)
      → Tracks name now st history
      → Tracks name now (track_runtime_signal is_uuid name line now st).0 (history ++ now ∷ [])
  unfolding track_runtime_signal Tracks
  track-Tracks history c =
      let spec = degraded_signal_specs name in
      let hit : Signal = register_runtime_signal_hit (get name st) line now in
      let found : ℕ × Signal = count_recent_signal_hits now spec.window_seconds hit in
      emit_when-Tracks
        (leb spec.threshold found.0 && signal_cooldown_elapsed now spec.cooldown_seconds found.1)
        is_uuid name found.1 now st (history ++ now ∷ [])
        (counted (window_of name) spec.window_seconds now hit (history ++ now ∷ []) (omega arith)
          (registered (window_of name) now (get name st) line history c))

  pub track_other :
      (other : Degraded)
      → other ≢ name
      → get other (track_runtime_signal is_uuid name line now st).0 ≡ get other st
  unfolding track_runtime_signal
  track_other other h =
      let spec = degraded_signal_specs name in
      let found : ℕ × Signal =
        count_recent_signal_hits now spec.window_seconds
          (register_runtime_signal_hit (get name st) line now) in
      emit_when_other
        (leb spec.threshold found.0 && signal_cooldown_elapsed now spec.cooldown_seconds found.1)
        is_uuid other name found.1 now st h

storm-reset :
    (is_uuid : Bool) (now : ℕ) (storm resets successes : Signal) (st : Signals)
    → get remote_output_reset (emit_storm is_uuid now storm resets successes st).0
      ≡ some (count_recent_signal_hits now 300 resets).1
unfolding emit_storm
storm-reset is_uuid now storm resets successes st =
    emit_when_other _ is_uuid remote_output_reset recovery_storm _ now _ (λ e. ground (arith, e))

storm-dts :
    (is_uuid : Bool) (now : ℕ) (storm resets successes : Signal) (st : Signals)
    → get non_monotonic_dts (emit_storm is_uuid now storm resets successes st).0
      ≡ get non_monotonic_dts st
unfolding emit_storm
storm-dts is_uuid now storm resets successes st =
    emit_when_other _ is_uuid non_monotonic_dts recovery_storm _ now _ (λ e. ground (arith, e))

-- A recovery leaves the counts of the other two signals.
pub maybe_emit-Tracks :
    (is_uuid : Bool) (name : Degraded) (now : ℕ) (st : Signals) (history : List ℕ)
    → name ≢ recovery_storm
    → Tracks name now st history
    → Tracks name now (maybe_emit_recovery_storm is_uuid now st).0 history
unfolding maybe_emit_recovery_storm storm_of Tracks
maybe_emit-Tracks is_uuid name now st history h c =
    storm_of-Tracks name st.remote_output_reset_state st.recovery_success_state h refl c
  where
    storm_of-Tracks :
        (name : Degraded) (resets successes : Option Signal)
        → name ≢ recovery_storm
        → st.remote_output_reset_state ≡ resets
        → Counts (window_of name) now (hits_of (get name st)) history
        → Counts
            (window_of name)
            now
            (hits_of (get name (storm_of resets successes is_uuid now st).0))
            history
    storm_of-Tracks recovery_storm resets successes h e c = absurd (h refl)
    storm_of-Tracks remote_output_reset none successes h e c = c
    storm_of-Tracks remote_output_reset (some resets) none h e c = c
    storm_of-Tracks remote_output_reset (some resets) (some successes) h e c =
        rw
          (storm-reset is_uuid now (ensure_runtime_signal_state st.recovery_storm_state) resets
            successes st)
          (counted 180 300 now resets history (omega arith)
            (subst (λ raw. Counts 180 now (hits_of raw) history) e c))
    storm_of-Tracks non_monotonic_dts none successes h e c = c
    storm_of-Tracks non_monotonic_dts (some resets) none h e c = c
    storm_of-Tracks non_monotonic_dts (some resets) (some successes) h e c =
        rw
          (storm-dts is_uuid now (ensure_runtime_signal_state st.recovery_storm_state) resets
            successes st)
          c
