-- ===== src/HotSwap/State.antt =====
-- `class StreamHotSwapState` and `class StreamHotSwapManager` of backend/app/streaming/hot_swap.py.
-- The player tasks run as the turns of `Queue`; a task that is stopped makes no more turns.
pub mod Failures
pub mod NowPlaying
use youtube_translation.Base.{
  ℕ, zero, suc, ◌+◌, ◌%◌, Bool, true, false, List, [], ◌∷◌, Option, none, some, leb, if◌then◌else◌,
  length, get_elem?, replicate, Text, Dict, lookup, insert, erase, text_eq,
}
use youtube_translation.HotSwap.Asset.{Asset, safe_duration}
use youtube_translation.HotSwap.Queue.{
  SlotQueue, Disk, Turn, turned, crashed, Failure, enqueue, replace, slot_asset,
}

-- The parts of a `PlaylistFileSet` that hot swapping reads: what the builder linked each slot file to,
-- the assets, and whether there is a file for the state of the queues.
pub record PlaylistFileSet : Type 0 where
  pub video_slots : List (Option Asset)
  pub audio_slots : List (Option Asset)
  pub video_assets : List Asset
  pub audio_assets : List Asset
  pub queue_state_file : Bool

-- What the state file says of a target; `none` where it says nothing of a key.
pub record SavedQueue : Type 0 where
  pub loop : Option Bool
  pub shuffle : Option Bool
  pub pending : Option (List Asset)

pub record SavedState : Type 0 where
  pub video : SavedQueue
  pub audio : SavedQueue

pub record StreamHotSwapState : Type 0 where
  pub video : Option SlotQueue
  pub audio : Option SlotQueue
  pub queue_state_file : Bool

-- A key of `queues`: "video", "audio", or another text.
pub data Target : Type 0 where
  video audio unknown : Target

pub data SwapError : Type 0 where
  queue_unavailable not_registered no_write_queue_state : SwapError
  failed : Failure → SwapError

abbrev get_flag : Option Bool → Bool → Bool
get_flag none default = default
get_flag (some b) default = b

-- The source of `_populate_queue`.
abbrev source : Option (List Asset) → List Asset → List Asset
source none assets = assets
source (some []) assets = assets
source (some (a ∷ rest)) assets = a ∷ rest

-- A `SlotQueue` as `initialize` makes and populates it, if there is a slot.
unfoldable pub new_queue : List (Option Asset) → SavedQueue → List Asset → Option SlotQueue
new_queue [] saved assets = none
new_queue (file ∷ files) saved assets = some (record {
  slots = length (file ∷ files);
  loop_enabled = get_flag saved.loop true;
  shuffle_enabled = get_flag saved.shuffle false;
  queue = source saved.pending assets;
  assigned = replicate (length (file ∷ files)) none;
  files = file ∷ files;
  playhead = 0;
})

-- `initialize`
pub initialize : SavedState → PlaylistFileSet → StreamHotSwapState
initialize saved p = record {
  video = new_queue p.video_slots saved.video p.video_assets;
  audio = new_queue p.audio_slots saved.audio p.audio_assets;
  queue_state_file = p.queue_state_file;
}

-- `self.queues.get(target)` and an assignment to it
abbrev pub get_queue : Target → StreamHotSwapState → Option SlotQueue
get_queue video s = s.video
get_queue audio s = s.audio
get_queue unknown s = none

abbrev pub set_queue : Target → SlotQueue → StreamHotSwapState → StreamHotSwapState
set_queue video q s = record s { video = some q }
set_queue audio q s = record s { audio = some q }
set_queue unknown q s = s

-- `shutdown`
pub shutdown : StreamHotSwapState → StreamHotSwapState
shutdown s = record s { video = none; audio = none }

-- What an operation of a queue leaves of the state, with the error that follows it, if it did not fail itself.
abbrev pub swapped :
    Target → Turn → Option SwapError → StreamHotSwapState → StreamHotSwapState × Option SwapError
swapped target (turned q) e s = (set_queue target q s, e)
swapped target (crashed f q) e s = (set_queue target q s, some (failed f))

module _ (disk : Disk) where
  -- `StreamHotSwapState.enqueue_asset`, with the error that it raises, if any.
  unfoldable pub enqueue_asset :
      Target → Asset → StreamHotSwapState → StreamHotSwapState × Option SwapError
  enqueue_asset target asset s = elim (get_queue target s) [
    | none ↦ (s, some queue_unavailable)
    | some q ↦ swapped target (enqueue disk asset q) none s
  ]

  -- `StreamHotSwapState.replace_queue`. With a state file it goes on to `self._write_queue_state`,
  -- which the class does not have.
  unfoldable pub replace_queue :
      Target → List Asset → Bool → Bool → StreamHotSwapState → StreamHotSwapState × Option SwapError
  replace_queue target assets loop shuffle s = elim (get_queue target s) [
    | none ↦ (s, some queue_unavailable)
    | some q ↦
        swapped target (replace disk assets loop shuffle q)
          (if s.queue_state_file then some no_write_queue_state else none) s
  ]

-- `_states` of the manager
abbrev pub Manager : Type 0
Manager = Dict Text StreamHotSwapState

-- `register_stream`; the state that the stream had is dropped from the table.
pub register_stream : Text → SavedState → PlaylistFileSet → Manager → Manager
register_stream id saved p m = insert id (initialize saved p) m

-- `unregister_stream`
pub unregister_stream : Text → Manager → Manager
unregister_stream id m = erase id m

-- What a manager's method does with the state of a stream.
abbrev store : Text → StreamHotSwapState × Option SwapError → Manager → Manager × Option SwapError
store id (s, e) m = (insert id s m, e)

module _ (disk : Disk) where
  -- `StreamHotSwapManager.enqueue_asset`
  pub manager_enqueue : Text → Target → Asset → Manager → Manager × Option SwapError
  manager_enqueue id target asset m = elim (lookup id m) [
    | none ↦ (m, some not_registered)
    | some s ↦ store id (enqueue_asset disk target asset s) m
  ]

  -- `StreamHotSwapManager.replace_queue`
  pub manager_replace :
      Text → Target → List Asset → Bool → Bool → Manager → Manager × Option SwapError
  manager_replace id target assets loop shuffle m = elim (lookup id m) [
    | none ↦ (m, some not_registered)
    | some s ↦ store id (replace_queue disk target assets loop shuffle s) m
  ]
