-- ===== src/Control/Status.antt =====
-- `get_stream_status` of backend/app/services/streams/control.py for a stream that systemd runs.
use youtube_translation.Base.{
  ℕ, Bool, true, false, not, ◌&&◌, ◌||◌, [], ◌∷◌, ◌++◌, Option, none, some, is_some, Text, codes,
  text_beq, any, lower, contains_text, take, ◌==◌, if◌then◌else◌,
}
use youtube_translation.Heartbeat.{Clock, updated_datetime, stale_runtime_heartbeat_reason}
use youtube_translation.Stream.{
  Stream, Status, stopped, starting, running, error, stopping, scheduled, is_scheduled,
}
use youtube_translation.Control.{Reading, compact}

abbrev pub is_starting : Status → Bool
is_starting starting = true
is_starting _ = false

abbrev pub is_running : Status → Bool
is_running running = true
is_running _ = false

abbrev pub is_error : Status → Bool
is_error error = true
is_error _ = false

abbrev pub same_status : Status → Status → Bool
same_status stopped stopped = true
same_status starting starting = true
same_status running running = true
same_status error error = true
same_status stopping stopping = true
same_status scheduled scheduled = true
same_status _ _ = false

-- `bool(text)` of an optional text
abbrev pub is_told : Option Text → Bool
is_told none = false
is_told (some []) = false
is_told (some (_ ∷ _)) = true

-- `{"", "unknown", "inactive", "dead"}`
abbrev pub is_quiet : Text → Bool
is_quiet state = any (text_beq state) ([] ∷ codes "unknown" ∷ codes "inactive" ∷ codes "dead" ∷ [])

-- `normalized_status`, of the unit's state, whether the heartbeat is fresh, and the status before.
-- Its last branch keeps the status, which is one of the six that it names.
unfoldable pub normalized_status : Text → Bool → Status → Status
normalized_status state fresh previous =
    if is_scheduled previous && is_quiet state
    then scheduled
    else if text_beq state (codes "active")
    then (if fresh then running else starting)
    else if text_beq state (codes "activating")
    then starting
    else if text_beq state (codes "deactivating")
    then stopping
    else if any (text_beq state) (codes "inactive" ∷ codes "dead" ∷ [])
    then stopped
    else if text_beq state (codes "failed")
    then error
    else if is_quiet state && is_starting previous
    then starting
    else previous

-- A row, and whether it has changes to commit.
abbrev pub Draft : Type 0
Draft = Stream × Bool

-- The assignments under `normalized_status == "starting"`.
unfoldable pub mark_starting : Stream → Draft
mark_starting s = (
  record s {
    started_at = none;
    stopped_at = none;
    error_message = if is_told s.error_message then none else s.error_message;
  },
  is_some s.started_at || is_some s.stopped_at || is_told s.error_message,
)

abbrev same_instant : Option ℕ → ℕ → Bool
same_instant none u = false
same_instant (some t) u = t == u

-- The last heartbeat of the row, given the one that was read.
unfoldable pub mark_heartbeat : Option ℕ → Draft → Draft
mark_heartbeat none d = d
mark_heartbeat (some u) (s, dirty) =
    if same_instant s.runtime_last_heartbeat_at u
    then (s, dirty)
    else (record s { runtime_last_heartbeat_at = some u }, true)

abbrev begun : ℕ → Option ℕ → ℕ
begun now none = now
begun now (some u) = u

-- Those under `running`; the heartbeat's instant is that of a fresh one.
unfoldable pub mark_running : Status → ℕ → Option ℕ → Stream → Draft
unfolding mark_heartbeat
mark_running previous now updated_at s =
    let begins = is_starting previous || not (is_some s.started_at) in
    mark_heartbeat updated_at (
      record s {
        started_at = if begins then some (begun now updated_at) else s.started_at;
        stopped_at = none;
        error_message = if is_told s.error_message then none else s.error_message;
      },
      begins || is_some s.stopped_at || is_told s.error_message,
    )

abbrev pub is_legacy : Option Text → Bool
is_legacy none = false
is_legacy (some message) = contains_text (codes "auto-restart") (lower message)

unfoldable pub drop_legacy : Stream → Draft
drop_legacy s =
    if is_legacy s.error_message then (record s { error_message = none }, true) else (s, false)

-- The assignments that the normalized status asks for.
unfoldable pub mark_status : Status → Status → ℕ → Option ℕ → Stream → Draft
unfolding mark_starting mark_running drop_legacy
mark_status starting previous now updated_at s = mark_starting s
mark_status running previous now updated_at s = mark_running previous now updated_at s
mark_status stopped previous now updated_at s = drop_legacy s
mark_status error previous now updated_at s = drop_legacy s
mark_status stopping previous now updated_at s = drop_legacy s
mark_status scheduled previous now updated_at s = drop_legacy s

abbrev pub or_now : ℕ → Option ℕ → ℕ
or_now now none = now
or_now now (some t) = t

abbrev pub ended : ℕ → Stream → Stream
ended now s = record s { pid = none; stopped_at = some (or_now now s.stopped_at) }

-- What a changed status brings with it.
abbrev on_change : Status → ℕ → Stream → Stream
on_change stopped now s = ended now s
on_change error now s = ended now s
on_change stopping now s = record s { pid = none }
on_change _ now s = s

-- The assignment of a changed status.
unfoldable pub settle_status : Status → Status → ℕ → Draft → Draft
settle_status normalized previous now (s, dirty) =
    if same_status normalized previous
    then (s, dirty)
    else (on_change normalized now (record s { status = normalized }), true)

abbrev pub told_or : Option Text → Option Text → Option Text
told_or none b = b
told_or (some []) b = b
told_or (some (c ∷ s)) b = some (c ∷ s)

details_of : Option Text → Text
details_of none = []
details_of (some message) = compact message

unfoldable pub with_details : Text → Text → Text
with_details state [] = codes "Runtime state " ++ state
with_details state (c ∷ s) = codes "Runtime state " ++ state ++ codes ": " ++ c ∷ s

-- `resolved_error_message`, of a status that is an error.
unfoldable pub resolved_error_message : Reading → Text
unfolding details_of with_details
resolved_error_message r =
    take 500 (with_details r.active_state (details_of (told_or r.error r.details)))

abbrev same_message : Option Text → Text → Bool
same_message none m = false
same_message (some n) m = text_beq n m

-- The error message of a row whose status is an error.
unfoldable pub settle_error : Bool → Bool → Text → Draft → Draft
settle_error changed legacy message (s, dirty) =
    if (changed || not (is_told s.error_message) || legacy)
      && not (same_message s.error_message message)
    then (record s { error_message = some message }, true)
    else (s, dirty)

-- The row that is committed for a stale heartbeat.
unfoldable pub mark_stale : ℕ → Text → Stream → Stream
mark_stale now reason s = record (ended now s) {
  status = error;
  error_message = some (take 500 reason);
}

module _ (clock : Clock) where
  abbrev pub is_fresh : Reading → Bool
  is_fresh r =
      is_some r.heartbeat
      && not (is_some (stale_runtime_heartbeat_reason clock r.heartbeat r.checked_at r.ttl_setting))

  -- What follows when the heartbeat is not stale.
  unfoldable pub refresh : Reading → Stream → Draft
  unfolding settle_error
  refresh r s =
      let fresh = is_fresh r in
      let normalized = normalized_status r.active_state fresh s.status in
      let updated_at = if fresh then updated_datetime clock r.heartbeat else none in
      let changed = not (same_status normalized s.status) in
      let settled =
        settle_status normalized s.status r.now
          (mark_status normalized s.status r.now updated_at s) in
      if is_error normalized
      then settle_error changed (is_legacy s.error_message) (resolved_error_message r) settled
      else settled

  -- `get_stream_status`: the row after it, and whether it was committed.
  unfoldable pub get_stream_status : Reading → Stream → Draft
  get_stream_status r s =
      elim (stale_runtime_heartbeat_reason clock r.heartbeat r.checked_at r.ttl_setting) [
        | some reason ↦ (mark_stale r.now reason s, true)
        | none ↦ refresh r s
      ]
