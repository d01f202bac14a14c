-- ===== src/Control/Repeated.antt =====
-- Polling twice.
use youtube_translation.Base.{
  ℕ, ◌≡◌, refl, true, not, Option, none, some, Text, arith, inl, inr, if◌then◌else◌, ap, sym, subst,
  ◌∙◌, Option-cases,
}
use youtube_translation.Heartbeat.{Clock, stale_runtime_heartbeat_reason, updated_datetime}
use youtube_translation.Stream.{
  Stream, Status, stopped, starting, running, error, stopping, scheduled,
}
use youtube_translation.Control.{Reading}
use youtube_translation.Control.Polling.{normalized_status_idem}
use youtube_translation.Control.Status.{
  normalized_status, Draft, is_error, is_fresh, is_legacy, resolved_error_message, same_status,
  mark_starting, mark_running, mark_heartbeat, drop_legacy, mark_status, settle_status,
  settle_error, mark_stale, refresh, get_stream_status,
}

-- What `refresh` makes of a row, given its normalized status and the instant of a fresh heartbeat.
unfoldable apply_status : Reading → Status → Option ℕ → Stream → Draft
apply_status r normalized u s =
    let settled =
      settle_status normalized s.status r.now (mark_status normalized s.status r.now u s) in
    if is_error normalized
    then settle_error (not (same_status normalized s.status)) (is_legacy s.error_message)
        (resolved_error_message r) settled
    else settled

apply_status_idem :
    (r : Reading) (normalized : Status) (u : Option ℕ) (s : Stream)
    → (apply_status r normalized u (apply_status r normalized u s).0).0
      ≡ (apply_status r normalized u s).0
unfolding apply_status mark_status mark_starting mark_running mark_heartbeat drop_legacy
    settle_status settle_error
apply_status_idem r starting u s = ground arith
apply_status_idem r running u s = ground arith
apply_status_idem r stopped u s = ground arith
apply_status_idem r error u s = ground arith
apply_status_idem r stopping u s = ground arith
apply_status_idem r scheduled u s = ground arith

same_status_sound : (a b : Status) → same_status a b ≡ true → a ≡ b
same_status_sound a b e = ground (arith, e)

mark_status-status :
    (normalized previous : Status) (now : ℕ) (u : Option ℕ) (s : Stream)
    → (mark_status normalized previous now u s).0.status ≡ s.status
unfolding mark_status mark_starting mark_running mark_heartbeat drop_legacy
mark_status-status normalized previous now u s = ground arith

apply_status-status :
    (r : Reading) (normalized : Status) (u : Option ℕ) (s : Stream)
    → (apply_status r normalized u s).0.status ≡ normalized
unfolding apply_status settle_status settle_error
apply_status-status r normalized u s =
    ground (
      arith,
      same_status_sound normalized s.status,
      mark_status-status normalized s.status r.now u s,
    )

-- The status that a poll leaves where the heartbeat is not stale.
pub refresh-status :
    (clock : Clock) (r : Reading) (s : Stream)
    → (refresh clock r s).0.status ≡ normalized_status r.active_state (is_fresh clock r) s.status
unfolding refresh apply_status
refresh-status clock r s =
    apply_status-status r (normalized_status r.active_state (is_fresh clock r) s.status)
      (if is_fresh clock r then updated_datetime clock r.heartbeat else none) s

refresh_again :
    (clock : Clock) (r : Reading) (s : Stream)
    → (refresh clock r (refresh clock r s).0).0 ≡ (refresh clock r s).0
unfolding refresh apply_status
refresh_again clock r s =
    let fresh = is_fresh clock r in
    let normalized = normalized_status r.active_state fresh s.status in
    let u = if fresh then updated_datetime clock r.heartbeat else none in
    let same : normalized_status r.active_state fresh (apply_status r normalized u s).0.status
        ≡ normalized =
      ap (normalized_status r.active_state fresh) (apply_status-status r normalized u s)
      ∙ normalized_status_idem r.active_state fresh s.status in
    subst
      (λ n.
        (apply_status r n u (apply_status r normalized u s).0).0
        ≡ (apply_status r normalized u s).0)
      (sym same) (apply_status_idem r normalized u s)

pub poll_fresh :
    (clock : Clock) (r : Reading) (s : Stream)
    → stale_runtime_heartbeat_reason clock r.heartbeat r.checked_at r.ttl_setting ≡ none
    → get_stream_status clock r s ≡ refresh clock r s
unfolding get_stream_status
poll_fresh clock r s e = rw (e, get_stream_status) refl

poll_stale :
    (clock : Clock) (r : Reading) (s : Stream) (reason : Text)
    → stale_runtime_heartbeat_reason clock r.heartbeat r.checked_at r.ttl_setting ≡ some reason
    → get_stream_status clock r s ≡ (mark_stale r.now reason s, true)
unfolding get_stream_status
poll_stale clock r s reason e = rw (e, get_stream_status) refl

mark_stale_idem :
    (now : ℕ) (reason : Text) (s : Stream)
    → mark_stale now reason (mark_stale now reason s) ≡ mark_stale now reason s
unfolding mark_stale
mark_stale_idem now reason s = ground arith

-- Polling the status again at the same reading of the unit, the heartbeat and the clock changes nothing
-- more in the row.
pub poll_idempotent :
    (clock : Clock) (r : Reading) (s : Stream)
    → (get_stream_status clock r (get_stream_status clock r s).0).0
      ≡ (get_stream_status clock r s).0
poll_idempotent clock r s =
    elim (Option-cases
      (stale_runtime_heartbeat_reason clock r.heartbeat r.checked_at r.ttl_setting)) [
        | inl e ↦
            rw (poll_fresh clock r s e, poll_fresh clock r (refresh clock r s).0 e)
              (refresh_again clock r s)
        | inr (reason, e) ↦
            rw
              (
                poll_stale clock r s reason e,
                poll_stale clock r (mark_stale r.now reason s) reason e,
              )
              (mark_stale_idem r.now reason s)
      ]
