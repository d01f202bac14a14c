-- ===== src/HotSwap/State/NowPlaying.antt =====
-- `StreamHotSwapManager.get_now_playing` of backend/app/streaming/hot_swap.py: what the operator's panel
-- is told. Durations are in microseconds.
use youtube_translation.Base.{
  ℕ, zero, suc, ◌+◌, ◌%◌, Bool, List, [], ◌∷◌, Option, none, some, length, ltb, Text, lookup,
  text_eq, if◌then◌else◌,
}
use youtube_translation.HotSwap.Asset.{Asset, safe_duration}
use youtube_translation.HotSwap.Queue.{SlotQueue, slot_asset}
use youtube_translation.HotSwap.State.{StreamHotSwapState, Manager, Target, video, audio}

pub record Summary : Type 0 where
  pub asset_id : Option Text
  pub filename : Option Text
  pub duration : ℕ

pub record NowPlaying : Type 0 where
  pub target : Target
  pub loop_enabled : Bool
  pub shuffle_enabled : Bool
  pub current : Option Summary
  pub next : Option Summary
  pub queue_remaining_count : ℕ
  pub queue_remaining : ℕ
  pub playhead_index : ℕ
  pub slots_count : ℕ

-- `_summarize`
pub summarize : Option Asset → Option Summary
summarize none = none
summarize (some a) =
    some
      (record { asset_id = a.asset_id; filename = a.filename; duration = safe_duration (some a) })

total_duration : List Asset → ℕ
total_duration [] = 0
total_duration (a ∷ rest) = safe_duration (some a) + total_duration rest

-- The asset that is reported as the next one; there is at least one slot.
pub reported_next : SlotQueue → Option Asset
reported_next q = elim q.queue [
  | head ∷ rest ↦ some head
  | [] ↦
      let current_index = q.playhead % q.slots in
      if ltb 1 q.slots
      then slot_asset q.assigned ((current_index + 1) % q.slots)
      else if q.loop_enabled
      then slot_asset q.assigned current_index
      else none
]

-- The report on a queue, if it has a slot.
pub report : Target → SlotQueue → Option NowPlaying
unfolding total_duration
report target q = elim q.slots [
  | zero ↦ none
  | suc _ ↦ some (record {
    target = target;
    loop_enabled = q.loop_enabled;
    shuffle_enabled = q.shuffle_enabled;
    current = summarize (slot_asset q.assigned (q.playhead % q.slots));
    next = summarize (reported_next q);
    queue_remaining_count = length q.queue;
    queue_remaining = total_duration q.queue;
    playhead_index = q.playhead % q.slots;
    slots_count = q.slots;
  })
]

-- The queue that is reported on.
pub reported_queue : StreamHotSwapState → Option (Target × SlotQueue)
reported_queue s = elim s.video [
  | some q ↦ some (video, q)
  | none ↦ elim s.audio [ some q ↦ some (audio, q) | none ↦ none ]
]

-- `get_now_playing`
pub get_now_playing : Text → Manager → Option NowPlaying
get_now_playing id m = elim (lookup id m) [
  | none ↦ none
  | some s ↦ elim (reported_queue s) [ none ↦ none | some (target, q) ↦ report target q ]
]
