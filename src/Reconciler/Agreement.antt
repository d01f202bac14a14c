-- ===== src/Reconciler/Agreement.antt =====
-- The two loops of the reconciler and the polling of the control service, side by side.
use youtube_translation.Base.{
  ℕ, ◌≡◌, ◌≢◌, refl, ◌∙◌, sym, ap, Bool, true, List, [], ◌∷◌, Option, none, some, Text, codes,
  text_beq, text_beq_sound, any, arith, lower, strip, lstrip, is_space, Option-cases, inl, inr, ◌⊎◌,
}
use youtube_translation.Heartbeat.{Clock, Payload, blank, filled, stale_runtime_heartbeat_reason}
use youtube_translation.Stream.{Stream, Status, starting, running, is_busy}
use youtube_translation.Control.{Reading}
use youtube_translation.Control.Status
use youtube_translation.Control.Status.{
  get_stream_status, refresh, mark_stale, normalized_status, settle_error, settle_status,
  mark_status,
}
use youtube_translation.Control.Repeated.{refresh-status, poll_fresh}
use youtube_translation.Reconciler.{
  read, Found, state_of, normalize_runtime_state, resolve_systemd_running_state,
  sync_runtime_heartbeat_diagnostics, mark_runtime_error, mark_ended, reconcile_ended, confirm,
  reconcile_known, reconcile, drifted, drift_to_running, check_running, check_known,
  check_periodically, is_fresh,
}

sync-status :
    (clock : Clock) (f : Found) (s : Stream)
    → (sync_runtime_heartbeat_diagnostics clock f s).status ≡ s.status
unfolding sync_runtime_heartbeat_diagnostics
sync-status clock f s = ground arith

check_running-confirm :
    (clock : Clock) (f : Found) (s : Stream) (r : Status × Option Text)
    → (check_running clock f s r).status ≡ (confirm clock f s r).0.status
unfolding check_running confirm drift_to_running sync_runtime_heartbeat_diagnostics
    mark_runtime_error
check_running-confirm clock f s (starting, reason) = ground arith
check_running-confirm clock f s (other, some reason) = ground arith
check_running-confirm clock f s (other, none) = ground arith

check_known-reconcile_known :
    (clock : Clock) (f : Found) (normalized : Status) (s : Stream)
    → is_busy s.status ≡ true
    → (check_known clock f normalized s).status ≡ (reconcile_known clock f normalized s).0.status
unfolding check_known reconcile_known reconcile_ended drifted mark_ended
check_known-reconcile_known clock f running s busy =
    check_running-confirm clock f s (resolve_systemd_running_state clock f)
check_known-reconcile_known clock f normalized s busy = ground arith

-- The periodic check gives a live row the same status as the reconciliation at the start of the backend
-- does, whatever the unit and the heartbeat are.
pub periodic_agrees :
    (clock : Clock) (f : Found) (s : Stream)
    → is_busy s.status ≡ true
    → (check_periodically clock f s).status ≡ (reconcile clock f s).0.status
unfolding check_periodically reconcile
periodic_agrees clock f s busy = elim (Option-cases (normalize_runtime_state (state_of f.unit))) [
  | inl e ↦ rw (e, check_periodically, reconcile) refl
  | inr (normalized, e) ↦
      rw (e, check_periodically, reconcile) (check_known-reconcile_known clock f normalized s busy)
]

-- The states in which polling and reconciling mean to say the same.
abbrev pub settled_states : List Text
settled_states =
    codes "active" ∷ codes "deactivating" ∷ codes "inactive" ∷ codes "dead" ∷ codes "failed" ∷ []

-- What polling reads where the reconciler finds the same unit and heartbeat.
abbrev pub reading_of : Found → Reading
reading_of f = record {
  active_state = state_of f.unit;
  error = none;
  details = none;
  heartbeat = f.heartbeat;
  checked_at = f.now;
  now = f.now;
  ttl_setting = f.ttl_setting;
}

is_fresh-same :
    (clock : Clock) (f : Found)
    → f.heartbeat ≢ some blank
    → stale_runtime_heartbeat_reason clock f.heartbeat f.now f.ttl_setting ≡ none
    → Status.is_fresh clock (reading_of f) ≡ is_fresh clock f
unfolding is_fresh stale_runtime_heartbeat_reason
is_fresh-same clock f solid fresh = on_payload f.heartbeat solid fresh
  where
    on_payload :
        (h : Option Payload)
        → h ≢ some blank
        → stale_runtime_heartbeat_reason clock h f.now f.ttl_setting ≡ none
        → Status.is_fresh clock (reading_of (record f { heartbeat = h }))
          ≡ is_fresh clock (record f { heartbeat = h })
    on_payload none solid fresh = refl
    on_payload (some blank) solid fresh = absurd (solid refl)
    on_payload (some (filled fields)) solid fresh = ground (arith, fresh)

settled_cases :
    (state : Text)
    → any (text_beq state) settled_states ≡ true
    → (state ≡ codes "active")
      ⊎ (state ≡ codes "deactivating")
      ⊎ (state ≡ codes "inactive")
      ⊎ (state ≡ codes "dead")
      ⊎ (state ≡ codes "failed")
settled_cases state settled = ground (
  arith,
  text_beq_sound state (codes "active"),
  text_beq_sound state (codes "deactivating"),
  text_beq_sound state (codes "inactive"),
  text_beq_sound state (codes "dead"),
  text_beq_sound state (codes "failed"),
)

abbrev pub found : Text → Text → Option Payload → ℕ → ℕ → Found
found state details heartbeat now ttl_setting = record {
  unit = read state details;
  heartbeat = heartbeat;
  now = now;
  ttl_setting = ttl_setting;
}

reconcile-settled :
    (clock : Clock) (state details : Text) (heartbeat : Option Payload) (now ttl_setting : ℕ)
    (s : Stream)
    → any (text_beq state) settled_states ≡ true
    → is_busy s.status ≡ true
    → stale_runtime_heartbeat_reason clock heartbeat now ttl_setting ≡ none
    → let f = found state details heartbeat now ttl_setting in
      (reconcile clock f s).0.status ≡ normalized_status state (is_fresh clock f) s.status
unfolding reconcile reconcile_known reconcile_ended mark_ended confirm resolve_systemd_running_state
    normalize_runtime_state normalized_status lower strip lstrip is_space
    sync_runtime_heartbeat_diagnostics
reconcile-settled clock state details heartbeat now ttl_setting s settled busy fresh =
    elim (settled_cases state settled) [
      | inl e ↦ rw e (ground (arith, fresh))
      | inr (inl e) ↦ rw e (ground arith)
      | inr (inr (inl e)) ↦ rw e (ground arith)
      | inr (inr (inr (inl e))) ↦ rw e (ground arith)
      | inr (inr (inr (inr e))) ↦ rw e (ground arith)
    ]

-- For a live row and a unit that is active, deactivating, inactive, dead or failed, with a heartbeat
-- that is neither stale nor an empty dict, polling the status and reconciling leave the same status.
pub reconcile_agrees_with_poll :
    (clock : Clock) (state details : Text) (heartbeat : Option Payload) (now ttl_setting : ℕ)
    (s : Stream)
    → any (text_beq state) settled_states ≡ true
    → is_busy s.status ≡ true
    → heartbeat ≢ some blank
    → stale_runtime_heartbeat_reason clock heartbeat now ttl_setting ≡ none
    → let f = found state details heartbeat now ttl_setting in
      (get_stream_status clock (reading_of f) s).0.status ≡ (reconcile clock f s).0.status
reconcile_agrees_with_poll clock state details heartbeat now ttl_setting s settled busy solid
      fresh =
    let f : Found = found state details heartbeat now ttl_setting in
    ap (λ (d : Stream × Bool). d.0.status) (poll_fresh clock (reading_of f) s fresh)
    ∙ refresh-status clock (reading_of f) s
    ∙ ap (λ b. normalized_status state b s.status) (is_fresh-same clock f solid fresh)
    ∙ sym (reconcile-settled clock state details heartbeat now ttl_setting s settled busy fresh)
