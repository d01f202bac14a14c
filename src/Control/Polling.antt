-- ===== src/Control/Polling.antt =====
-- What polling the status of a stream does to its row.
use youtube_translation.Base.{
  ℕ, ◌≡◌, refl, Bool, true, false, not, [], ◌∷◌, Option, none, Text, codes, text_beq, any, arith,
  text_beq_sound, ◌⊎◌, inl, inr, if◌then◌else◌,
}
use youtube_translation.Heartbeat.{Clock, updated_datetime}
use youtube_translation.Stream.{
  Stream, Status, stopped, starting, running, error, stopping, scheduled,
}
use youtube_translation.Control.{Reading}
use youtube_translation.Control.Status.{
  normalized_status, Draft, is_starting, is_quiet, is_fresh, is_legacy, resolved_error_message,
  same_status, mark_starting, mark_running, mark_heartbeat, drop_legacy, mark_status, settle_status,
  settle_error, refresh, get_stream_status,
}

-- Assignments that leave nothing to commit leave the row.
mark_status-IsClean :
    (normalized previous : Status) (now : ℕ) (u : Option ℕ) (s : Stream)
    → (mark_status normalized previous now u s).1 ≡ false
    → (mark_status normalized previous now u s).0 ≡ s
unfolding mark_status mark_starting mark_running mark_heartbeat drop_legacy
mark_status-IsClean starting previous now u s clean = ground arith
mark_status-IsClean running previous now u s clean = ground arith
mark_status-IsClean stopped previous now u s clean = ground arith
mark_status-IsClean error previous now u s clean = ground arith
mark_status-IsClean stopping previous now u s clean = ground arith
mark_status-IsClean scheduled previous now u s clean = ground arith

settle_status-IsClean :
    (normalized previous : Status) (now : ℕ) (d : Draft)
    → (settle_status normalized previous now d).1 ≡ false
    → settle_status normalized previous now d ≡ d
unfolding settle_status
settle_status-IsClean normalized previous now d clean = ground arith

settle_error-IsClean :
    (changed legacy : Bool) (message : Text) (d : Draft)
    → (settle_error changed legacy message d).1 ≡ false
    → settle_error changed legacy message d ≡ d
unfolding settle_error
settle_error-IsClean changed legacy message d clean = ground arith

refresh-IsClean :
    (clock : Clock) (r : Reading) (s : Stream)
    → (refresh clock r s).1 ≡ false
    → (refresh clock r s).0 ≡ s
unfolding refresh
refresh-IsClean clock r s clean =
    let fresh = is_fresh clock r in
    let normalized = normalized_status r.active_state fresh s.status in
    let updated_at = if fresh then updated_datetime clock r.heartbeat else none in
    let changed = not (same_status normalized s.status) in
    let marked = mark_status normalized s.status r.now updated_at s in
    let settled = settle_status normalized s.status r.now marked in
    ground (
      arith,
      mark_status-IsClean normalized s.status r.now updated_at s,
      settle_status-IsClean normalized s.status r.now marked,
      settle_error-IsClean changed (is_legacy s.error_message) (resolved_error_message r) settled,
    )

-- Every change that polling the status makes to a row is committed: when there is no commit, the row is
-- the one that was loaded.
pub uncommitted_poll_unchanged :
    (clock : Clock) (r : Reading) (s : Stream)
    → (get_stream_status clock r s).1 ≡ false
    → (get_stream_status clock r s).0 ≡ s
unfolding get_stream_status
uncommitted_poll_unchanged clock r s clean = ground (arith, refresh-IsClean clock r s)

quiet_cases :
    (state : Text)
    → is_quiet state ≡ true
    → (state ≡ []) ⊎ (state ≡ codes "unknown") ⊎ (state ≡ codes "inactive") ⊎ (state ≡ codes "dead")
quiet_cases state quiet = ground (
  arith,
  text_beq_sound state [],
  text_beq_sound state (codes "unknown"),
  text_beq_sound state (codes "inactive"),
  text_beq_sound state (codes "dead"),
)

-- A starting stream whose unit is quiet stays starting only where the unit's state is empty or unknown: the
-- branch that means to preserve it is not reached for an inactive or dead unit.
pub starting_kept_iff :
    (state : Text) (fresh : Bool)
    → is_quiet state ≡ true
    → is_starting (normalized_status state fresh starting)
      ≡ not (any (text_beq state) (codes "inactive" ∷ codes "dead" ∷ []))
unfolding normalized_status
starting_kept_iff state fresh quiet = elim (quiet_cases state quiet) [
  | inl e ↦ rw e (refl)
  | inr (inl e) ↦ rw e refl
  | inr (inr (inl e)) ↦ rw e refl
  | inr (inr (inr e)) ↦ rw e refl
]

-- Looking again at the same reading of the unit and the heartbeat finds the same status.
pub normalized_status_idem :
    (state : Text) (fresh : Bool) (previous : Status)
    → normalized_status state fresh (normalized_status state fresh previous)
      ≡ normalized_status state fresh previous
unfolding normalized_status
normalized_status_idem state fresh previous = ground arith
