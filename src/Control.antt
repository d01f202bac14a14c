-- ===== src/Control.antt =====
-- The control service of streams that systemd runs: `StreamControlService` of
-- backend/app/services/streams/control.py with `systemd_enabled()`. What an operation reads from
-- outside the row is a record of readings; a step is an operation without other tasks in between.
-- The database's failures, the audit log and the usage snapshot are left out.
pub mod Status
pub mod Runtime
pub mod Polling
pub mod Scheduled
pub mod Repeated
mod Tests
use youtube_translation.Base.{
  ℕ, Bool, true, false, List, [], ◌∷◌, ◌++◌, Option, none, some, Text, is_space, if◌then◌else◌,
  filter, codes,
}
use youtube_translation.Heartbeat.{Payload}

-- What `get_stream_status` reads: the unit's `ActiveState` in lower case or an empty text, its fields
-- `error` and `details`, the heartbeat, the instants at which the heartbeat and the row are looked
-- at, and the time to live of the settings.
pub record Reading : Type 0 where
  pub active_state : Text
  pub error : Option Text
  pub details : Option Text
  pub heartbeat : Option Payload
  pub checked_at : ℕ
  pub now : ℕ
  pub ttl_setting : ℕ

-- `s.split()`: the parts between white space.
split_spaces : Text → List Text
split_spaces [] = [] ∷ []
split_spaces (c ∷ s) =
    let rest = split_spaces s in
    if is_space c then [] ∷ rest else elim rest [ [] ↦ (c ∷ []) ∷ [] | w ∷ ws ↦ (c ∷ w) ∷ ws ]

abbrev is_word : Text → Bool
is_word [] = false
is_word (_ ∷ _) = true

-- `" ".join(words)`
join_words : List Text → Text
join_words [] = []
join_words (w ∷ []) = w
join_words (w ∷ v ∷ ws) = w ++ codes " " ++ join_words (v ∷ ws)

-- `" ".join(str(payload).split())`
unfoldable pub compact : Text → Text
unfolding split_spaces join_words
compact s = join_words (filter is_word (split_spaces s))
