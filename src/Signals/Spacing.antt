-- ===== src/Signals/Spacing.antt =====
-- Alerts that keep their distance, and that each operation on signals does so.
use youtube_translation.Base.{
  ℕ, ◌+◌, ◌*◌, ◌≡◌, ◌≢◌, refl, Bool, true, false, ◌&&◌, List, [], ◌∷◌, ◌++◌, Option, none, some,
  Option-cases, inl, inr, Text, arith, ap, sym, subst, ◌∙◌, leb, second, if◌then◌else◌,
}
use youtube_translation.Signals.{
  Signal, Signals, Degraded, remote_output_reset, non_monotonic_dts, recovery_storm, get, put,
  degraded_signal_specs, Alert, register_runtime_signal_hit, ensure_runtime_signal_state,
  count_recent_signal_hits, track_runtime_signal, emit_runtime_degraded_signal, emit_when,
  signal_cooldown_elapsed, emit_storm, struck, storm_of, maybe_emit_recovery_storm,
}

abbrev same : Degraded → Degraded → Bool
same remote_output_reset remote_output_reset = true
same non_monotonic_dts non_monotonic_dts = true
same recovery_storm recovery_storm = true
same _ _ = false

-- The instants of the alerts of a signal.
abbrev pub alerted_at : Degraded → List Alert → List ℕ
alerted_at name [] = []
alerted_at name (alert ∷ alerts) =
    let rest = alerted_at name alerts in
    if same name alert.signal then alert.observed_at ∷ rest else rest

abbrev is_after : Option ℕ → ℕ → ℕ → Bool
is_after none gap t = true
is_after (some last) gap t = leb (last + gap) t

-- Each instant is the gap or more after the one before it.
abbrev pub IsSpaced : Option ℕ → ℕ → List ℕ → Type 0
IsSpaced last gap [] = Unit
IsSpaced last gap (t ∷ ts) = (is_after last gap t ≡ true) × IsSpaced (some t) gap ts

abbrev last_after : Option ℕ → List ℕ → Option ℕ
last_after last [] = last
last_after last (t ∷ ts) = last_after (some t) ts

abbrev pub emitted : Option Signal → Option ℕ
emitted none = none
emitted (some signal) = signal.last_emitted_at

abbrev pub cooldown : ℕ
cooldown = 900 * second

-- From one state to the next with these alerts, for a signal.
pub record Follows (name : Degraded) (st st' : Signals) (alerts : List Alert) : Type 0 where
  pub spaced : IsSpaced (emitted (get name st)) cooldown (alerted_at name alerts)
  kept : emitted (get name st') ≡ last_after (emitted (get name st)) (alerted_at name alerts)

alerted_at-append :
    (name : Degraded) (xs ys : List Alert)
    → alerted_at name (xs ++ ys) ≡ alerted_at name xs ++ alerted_at name ys
alerted_at-append name [] ys = refl
alerted_at-append name (x ∷ xs) ys = ground (arith, alerted_at-append name xs ys)

last_after-append :
    (last : Option ℕ) (xs ys : List ℕ)
    → last_after last (xs ++ ys) ≡ last_after (last_after last xs) ys
last_after-append last [] ys = refl
last_after-append last (x ∷ xs) ys = last_after-append (some x) xs ys

IsSpaced-append :
    (last : Option ℕ) (gap : ℕ) (xs ys : List ℕ)
    → IsSpaced last gap xs
    → IsSpaced (last_after last xs) gap ys
    → IsSpaced last gap (xs ++ ys)
IsSpaced-append last gap [] ys hx hy = hy
IsSpaced-append last gap (x ∷ xs) ys hx hy = (hx.0, IsSpaced-append (some x) gap xs ys hx.1 hy)

pub chained :
    (name : Degraded) (st mid st' : Signals) (xs ys : List Alert)
    → Follows name st mid xs
    → Follows name mid st' ys
    → Follows name st st' (xs ++ ys)
chained name st mid st' xs ys f g =
    let last = emitted (get name st) in
    let xt = alerted_at name xs in
    let yt = alerted_at name ys in
    let e = alerted_at-append name xs ys in
    record {
      spaced =
          subst (λ ts. IsSpaced last cooldown ts) (sym e)
            (IsSpaced-append last cooldown xt yt f.spaced
              (subst (λ l. IsSpaced l cooldown yt) f.kept g.spaced));
      kept =
          g.kept
          ∙ ap (λ l. last_after l yt) f.kept
          ∙ sym (last_after-append last xt yt)
          ∙ ap (last_after last) (sym e);
    }

pub quiet :
    (name : Degraded) (st st' : Signals)
    → emitted (get name st') ≡ emitted (get name st)
    → Follows name st st' []
quiet name st st' e = record { spaced = tt; kept = e }

emitted-put :
    (name other : Degraded) (signal : Signal) (st : Signals)
    → signal.last_emitted_at ≡ emitted (get other st)
    → emitted (get name (put other signal st)) ≡ emitted (get name st)
emitted-put remote_output_reset remote_output_reset signal st e = e
emitted-put remote_output_reset non_monotonic_dts signal st e = refl
emitted-put remote_output_reset recovery_storm signal st e = refl
emitted-put non_monotonic_dts remote_output_reset signal st e = refl
emitted-put non_monotonic_dts non_monotonic_dts signal st e = e
emitted-put non_monotonic_dts recovery_storm signal st e = refl
emitted-put recovery_storm remote_output_reset signal st e = refl
emitted-put recovery_storm non_monotonic_dts signal st e = refl
emitted-put recovery_storm recovery_storm signal st e = e

alert-Follows :
    (name other : Degraded) (counted : Signal) (occurrences now : ℕ) (st : Signals)
    → is_after (emitted (get other st)) cooldown now ≡ true
    → Follows name st
        (put other (record counted { last_emitted_at = some now }) st)
        (record { signal = other; occurrence_count = occurrences; observed_at = now } ∷ [])
alert-Follows remote_output_reset remote_output_reset counted occurrences now st h = record {
  spaced = (h, tt);
  kept = refl;
}
alert-Follows remote_output_reset non_monotonic_dts counted occurrences now st h = record {
  spaced = tt;
  kept = refl;
}
alert-Follows remote_output_reset recovery_storm counted occurrences now st h = record {
  spaced = tt;
  kept = refl;
}
alert-Follows non_monotonic_dts remote_output_reset counted occurrences now st h = record {
  spaced = tt;
  kept = refl;
}
alert-Follows non_monotonic_dts non_monotonic_dts counted occurrences now st h = record {
  spaced = (h, tt);
  kept = refl;
}
alert-Follows non_monotonic_dts recovery_storm counted occurrences now st h = record {
  spaced = tt;
  kept = refl;
}
alert-Follows recovery_storm remote_output_reset counted occurrences now st h = record {
  spaced = tt;
  kept = refl;
}
alert-Follows recovery_storm non_monotonic_dts counted occurrences now st h = record {
  spaced = tt;
  kept = refl;
}
alert-Follows recovery_storm recovery_storm counted occurrences now st h = record {
  spaced = (h, tt);
  kept = refl;
}

elapsed_lem :
    (now : ℕ) (signal : Signal)
    → signal_cooldown_elapsed now 900 signal ≡ is_after signal.last_emitted_at cooldown now
unfolding signal_cooldown_elapsed
elapsed_lem now signal = elim (Option-cases signal.last_emitted_at) [
  | inl e ↦ rw (e, signal_cooldown_elapsed) refl
  | inr (last, e) ↦ rw (e, signal_cooldown_elapsed) refl
]

emit_when-Follows :
    (due is_uuid : Bool) (name other : Degraded) (signal : Signal) (now : ℕ) (st : Signals)
    → (due ≡ true → signal_cooldown_elapsed now 900 signal ≡ true)
    → signal.last_emitted_at ≡ emitted (get other st)
    → Follows name st
        (emit_when due is_uuid other signal now st).0
        (emit_when due is_uuid other signal now st).1
unfolding emit_when emit_runtime_degraded_signal count_recent_signal_hits
emit_when-Follows false is_uuid name other signal now st h e =
    quiet name st _ (emitted-put name other signal st e)
emit_when-Follows true false name other signal now st h e =
    quiet name st _ (emitted-put name other signal st e)
emit_when-Follows true true name other signal now st h e =
    let found : ℕ × Signal =
      count_recent_signal_hits now (degraded_signal_specs other).window_seconds signal in
    alert-Follows name other found.1 found.0 now st
      (ap (λ last. is_after last cooldown now) (sym e) ∙ sym (elapsed_lem now signal) ∙ h refl)

registered-emitted :
    (raw : Option Signal) (line : Text) (now : ℕ)
    → (register_runtime_signal_hit raw line now).last_emitted_at ≡ emitted raw
unfolding register_runtime_signal_hit ensure_runtime_signal_state
registered-emitted none line now = refl
registered-emitted (some signal) line now = refl

and_right : (a b : Bool) → (a && b) ≡ true → b ≡ true
and_right a b h = ground arith

pub track-Follows :
    (is_uuid : Bool) (name other : Degraded) (line : Text) (now : ℕ) (st : Signals)
    → Follows name st
        (track_runtime_signal is_uuid other line now st).0
        (track_runtime_signal is_uuid other line now st).1
unfolding track_runtime_signal count_recent_signal_hits
track-Follows is_uuid name other line now st =
    let hit : Signal = register_runtime_signal_hit (get other st) line now in
    let spec = degraded_signal_specs other in
    let found : ℕ × Signal = count_recent_signal_hits now spec.window_seconds hit in
    emit_when-Follows _ is_uuid name other found.1 now st
      (λ due. cooldown_of other found.1 (and_right (leb spec.threshold found.0) _ due))
      (registered-emitted (get other st) line now)
  where
    cooldown_of :
        (other : Degraded) (signal : Signal)
        → signal_cooldown_elapsed now (degraded_signal_specs other).cooldown_seconds signal ≡ true
        → signal_cooldown_elapsed now 900 signal ≡ true
    cooldown_of remote_output_reset signal h = h
    cooldown_of non_monotonic_dts signal h = h
    cooldown_of recovery_storm signal h = h

ensured-emitted :
    (raw : Option Signal) → (ensure_runtime_signal_state raw).last_emitted_at ≡ emitted raw
unfolding ensure_runtime_signal_state
ensured-emitted none = refl
ensured-emitted (some signal) = refl

struck-Follows :
    (due is_uuid : Bool) (name : Degraded) (told storm : Signal) (now : ℕ) (st : Signals)
    → (due ≡ true → signal_cooldown_elapsed now 900 storm ≡ true)
    → told.last_emitted_at ≡ emitted st.recovery_storm_state
    → storm.last_emitted_at ≡ emitted st.recovery_storm_state
    → let r = emit_when due is_uuid recovery_storm (if due then told else storm) now st in
      Follows name st r.0 r.1
struck-Follows false is_uuid name told storm now st h e f =
    emit_when-Follows false is_uuid name recovery_storm storm now st
      (λ due. absurd (false≢true due)) f
  where
    false≢true : false ≢ true
    false≢true e = ground (arith, e)
struck-Follows true is_uuid name told storm now st h e f =
    emit_when-Follows true is_uuid name recovery_storm told now st
      (λ due.
        elapsed_lem now told
        ∙ ap (λ last. is_after last cooldown now) (e ∙ sym f)
        ∙ sym (elapsed_lem now storm)
        ∙ h due)
      e

storm-Follows :
    (is_uuid : Bool) (name : Degraded) (now : ℕ) (resets successes : Signal) (st : Signals)
    → st.remote_output_reset_state ≡ some resets
    → let r =
        emit_storm is_uuid now
          (ensure_runtime_signal_state st.recovery_storm_state)
          resets
          successes
          st in
      Follows name st r.0 r.1
unfolding emit_storm struck count_recent_signal_hits
storm-Follows is_uuid name now resets successes st h =
    let reset_found : ℕ × Signal = count_recent_signal_hits now 300 resets in
    let success_found : ℕ × Signal = count_recent_signal_hits now 300 successes in
    let counted : Signals = record st {
      remote_output_reset_state = some reset_found.1;
      recovery_success_state = some success_found.1;
    } in
    chained name st counted _ [] _ (quiet name st counted (same_emitted name)) (
      struck-Follows _ is_uuid name
        (struck now reset_found.0 success_found.0 reset_found.1 success_found.1
          (ensure_runtime_signal_state st.recovery_storm_state))
        (ensure_runtime_signal_state st.recovery_storm_state) now counted
        (λ due. and_right (leb 3 reset_found.0 && leb 3 success_found.0) _ due)
        (ensured-emitted st.recovery_storm_state) (ensured-emitted st.recovery_storm_state))
  where
    same_emitted :
        (name : Degraded)
        → emitted (
            get name (record st {
              remote_output_reset_state = some (count_recent_signal_hits now 300 resets).1;
              recovery_success_state = some (count_recent_signal_hits now 300 successes).1;
            }))
          ≡ emitted (get name st)
    same_emitted remote_output_reset = ap emitted (sym h)
    same_emitted non_monotonic_dts = refl
    same_emitted recovery_storm = refl

pub maybe_emit-Follows :
    (is_uuid : Bool) (name : Degraded) (now : ℕ) (st : Signals)
    → Follows name st
        (maybe_emit_recovery_storm is_uuid now st).0
        (maybe_emit_recovery_storm is_uuid now st).1
unfolding maybe_emit_recovery_storm storm_of
maybe_emit-Follows is_uuid name now st =
    storm_of-Follows st.remote_output_reset_state st.recovery_success_state refl
  where
    waits :
        Follows name st
          (put recovery_storm (ensure_runtime_signal_state st.recovery_storm_state) st)
          []
    waits = quiet name st _ (
        emitted-put name recovery_storm (ensure_runtime_signal_state st.recovery_storm_state) st
          (ensured-emitted st.recovery_storm_state))

    storm_of-Follows :
        (resets successes : Option Signal)
        → st.remote_output_reset_state ≡ resets
        → Follows name st
            (storm_of resets successes is_uuid now st).0
            (storm_of resets successes is_uuid now st).1
    storm_of-Follows none successes e = waits
    storm_of-Follows (some resets) none e = waits
    storm_of-Follows (some resets) (some successes) e =
        storm-Follows is_uuid name now resets successes st e
