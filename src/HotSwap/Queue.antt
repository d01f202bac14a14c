-- ===== src/HotSwap/Queue.antt =====
-- `class SlotQueue` of backend/app/streaming/hot_swap.py. What runs under the lock of a queue is one
-- step. A slot file holds the asset that was last linked to it; the file of an asset that is not on
-- the disk is not linked, and a write can fail. The slots are counted by their number, and `assigned` has an entry for each.
pub mod Held
pub mod Steps
pub mod Playback
use youtube_translation.Base.{
  ℕ, zero, suc, ◌+◌, ◌%◌, Bool, true, false, ◌&&◌, List, [], ◌∷◌, ◌++◌, Option, none, some, leb,
  if◌then◌else◌, length, get_elem?, set,
}
use youtube_translation.HotSwap.Asset.{Asset}

pub record SlotQueue : Type 0 where
  pub slots : ℕ
  pub loop_enabled : Bool
  pub shuffle_enabled : Bool
  pub queue : List Asset
  pub assigned : List (Option Asset)
  pub files : List (Option Asset)
  pub playhead : ℕ

-- `self.assigned.get(index)`
abbrev pub slot_asset : List (Option Asset) → ℕ → Option Asset
slot_asset assigned i = elim (get_elem? assigned i) [ none ↦ none | some a ↦ a ]

-- `self.queue.popleft()` or `None`, and what is left.
abbrev pub pop_left : List Asset → Option Asset × List Asset
pop_left [] = (none, [])
pop_left (a ∷ rest) = (some a, rest)

-- The exceptions that an operation can end with: the list that has no `appendleft`, and a failure to unlink, to
-- copy or to rename the file of a slot.
pub data Failure : Type 0 where
  attribute_error os_error : Failure

-- How a locked operation ends: the queue after it, or as an exception leaves it.
pub data Turn : Type 0 where
  turned : SlotQueue → Turn
  crashed : Failure → SlotQueue → Turn

abbrev pub continue : Turn → (SlotQueue → Turn) → Turn
continue (turned q) f = f q
continue (crashed e q) f = crashed e q

-- What an operation finds on the disk: which assets are there, which writes of a slot raise an `OSError`, and
-- whether the file that the slot had is still there then.
pub record Disk : Type 0 where
  pub has_asset : Asset → Bool
  pub refuses : ℕ → Option Asset → Bool
  pub keeps : ℕ → Option Asset → Bool

module _ (disk : Disk) where
  -- `PlaylistBuilder._assign_slot_file`, where it does not raise
  slot_file : Option Asset → Option Asset
  slot_file none = none
  slot_file (some a) = if disk.has_asset a then some a else none

  abbrev pub unwritten : ℕ → Option Asset → SlotQueue → SlotQueue
  unwritten i asset q = record q {
    files = if disk.keeps i asset then q.files else set q.files i none;
  }

  -- `_assign_slot`: the slot is assigned only after its file is written.
  unfoldable pub assign_slot : ℕ → Option Asset → SlotQueue → Turn
  unfolding slot_file
  assign_slot i asset q =
      if disk.refuses i asset
      then crashed os_error (unwritten i asset q)
      else turned
          (record q { files = set q.files i (slot_file asset); assigned = set q.assigned i asset })

  unfoldable pub fill_slot : ℕ → SlotQueue → Turn
  unfolding assign_slot
  fill_slot i q = elim (slot_asset q.assigned i) [
    | some _ ↦ turned q
    | none ↦ elim q.queue [
      | [] ↦ turned q
      | asset ∷ rest ↦ assign_slot i (some asset) (record q { queue = rest })
    ]
  ]

  -- The loop of `_maybe_fill_empty_slot`, over the `n` slots from `i` on.
  unfoldable pub fill_slots : ℕ → ℕ → SlotQueue → Turn
  unfolding fill_slot
  fill_slots zero i q = turned q
  fill_slots (suc n) i q = continue (fill_slot i q) (fill_slots n (suc i))

  -- `enqueue`
  unfoldable pub enqueue : Asset → SlotQueue → Turn
  unfolding fill_slots
  enqueue asset q = fill_slots q.slots 0 (record q { queue = q.queue ++ asset ∷ [] })

  -- What follows the loop of `replace`, with the assets that are left.
  abbrev pub replaced : List Asset → SlotQueue → SlotQueue
  replaced assets q = record q {
    queue = assets;
    playhead = if leb 1 q.slots && leb q.slots q.playhead then 0 else q.playhead;
  }

  -- The loop of `replace`, over the `n` slots from `i` on, and what follows it.
  unfoldable pub assign_slots : ℕ → ℕ → List Asset → SlotQueue → Turn
  unfolding assign_slot
  assign_slots zero i assets q = turned (replaced assets q)
  assign_slots (suc n) i assets q =
      let (asset, rest) = pop_left assets in
      continue (assign_slot i asset q) (assign_slots n (suc i) rest)

  -- `replace`; its result, the assigned and the pending assets, are those of the queue after it.
  unfoldable pub replace : List Asset → Bool → Bool → SlotQueue → Turn
  unfolding assign_slots
  replace assets loop shuffle q =
      assign_slots q.slots 0 assets (record q { loop_enabled = loop; shuffle_enabled = shuffle })

  -- What is left of `_advance_slot` once the played asset is back in the queue or not.
  unfoldable pub take_next : ℕ → SlotQueue → Turn
  unfolding assign_slot
  take_next i q =
      let (asset, rest) = pop_left q.queue in assign_slot i asset (record q { queue = rest })

  -- `_advance_slot`. With both flags set, `queue_items` is a list and has no `appendleft`.
  unfoldable pub advance_slot : ℕ → SlotQueue → Turn
  unfolding take_next
  advance_slot i q = elim (slot_asset q.assigned i) [
    | none ↦ take_next i q
    | some asset ↦
        if q.loop_enabled
        then if q.shuffle_enabled
          then crashed attribute_error q
          else take_next i (record q { queue = q.queue ++ asset ∷ [] })
        else take_next i q
  ]

  -- The second locked block of the loop of `_run`; there is at least one slot.
  unfoldable pub run_turn : SlotQueue → Turn
  unfolding advance_slot
  run_turn q = advance_slot q.playhead (record q { playhead = (q.playhead + 1) % q.slots })

-- The loop of `_run`, for a number of turns, with the disk as each of them finds it: an exception ends it, and
-- the queue stays.
unfoldable pub run : (ℕ → Disk) → ℕ → SlotQueue → Turn
unfolding run_turn
run disks zero q = turned q
run disks (suc n) q = continue (run_turn (disks n) q) (run disks n)

-- The queue that an operation leaves.
abbrev pub queue_of : Turn → SlotQueue
queue_of (turned q) = q
queue_of (crashed e q) = q
