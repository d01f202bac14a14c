-- ===== src/HotSwap/Queue/Steps.antt =====
-- A queue between its creation and any interleaving of the operations that its lock admits.
use youtube_translation.Base.{
  ℕ, zero, suc, ◌+◌, ◌%◌, ◌<◌, Bool, true, false, if◌then◌else◌, Option, some, List, [], ◌∷◌, ◌++◌,
  length-set, arith, inl, inr, Option-cases,
}
use youtube_translation.HotSwap.Asset.{Asset}
use youtube_translation.HotSwap.Queue.{
  SlotQueue, Disk, slot_asset, pop_left, Turn, turned, crashed, attribute_error, continue, queue_of,
  enqueue, replace, run_turn, advance_slot, take_next, assign_slot, assign_slots, fill_slots,
  fill_slot,
}
use youtube_translation.HotSwap.Queue.Held.{IsFramed}

-- There is an entry for each slot, at least one slot, and the playhead points at one.
abbrev pub IsWell : SlotQueue → Type 0
IsWell q = IsFramed q × (0 < q.slots) × (q.playhead < q.slots)

-- What the lock of a queue lets one task at a time do to it, whatever is on the disk by then, and also when an
-- exception ends the operation.
pub data Step (q : SlotQueue) : SlotQueue → Type 0 where
  appends : (disk : Disk) (a : Asset) → Step q (queue_of (enqueue disk a q))
  replaces :
      (disk : Disk) (assets : List Asset) (loop shuffle : Bool)
      → Step q (queue_of (replace disk assets loop shuffle q))
  plays : (disk : Disk) → Step q (queue_of (run_turn disk q))

pub data Reach (q : SlotQueue) : SlotQueue → Type 0 where
  here : Reach q q
  next : {r s : SlotQueue} → Reach q r → Step r s → Reach q s

continue-IsWell :
    (t : Turn) (f : SlotQueue → Turn)
    → IsWell (queue_of t)
    → ((r : SlotQueue) → IsWell r → IsWell (queue_of (f r)))
    → IsWell (queue_of (continue t f))
continue-IsWell (turned q) f w later = later q w
continue-IsWell (crashed e q) f w later = w

module _ (disk : Disk) where
  assign_slot-IsWell :
      (i : ℕ) (a : Option Asset) (q : SlotQueue)
      → IsWell q
      → IsWell (queue_of (assign_slot disk i a q))
  unfolding assign_slot
  assign_slot-IsWell i a q w = ground (arith, length-set {0} q.assigned i a)

  fill_slot-IsWell : (i : ℕ) (q : SlotQueue) → IsWell q → IsWell (queue_of (fill_slot disk i q))
  unfolding fill_slot
  fill_slot-IsWell i q w = elim (Option-cases (slot_asset q.assigned i)) [
    | inl e ↦ rw (e, queue_of) (by_queue q.queue)
    | inr (a, e) ↦ rw (e, queue_of) w
  ]
    where
      by_queue :
          (waiting : List Asset)
          → IsWell (
              queue_of (elim waiting [
                | [] ↦ turned q
                | asset ∷ rest ↦ assign_slot disk i (some asset) (record q { queue = rest })
              ]))
      by_queue [] = w
      by_queue (a ∷ rest) = assign_slot-IsWell i (some a) (record q { queue = rest }) w

  fill_slots-IsWell :
      (n i : ℕ) (q : SlotQueue) → IsWell q → IsWell (queue_of (fill_slots disk n i q))
  unfolding fill_slots
  fill_slots-IsWell zero i q w = w
  fill_slots-IsWell (suc n) i q w =
      continue-IsWell (fill_slot disk i q) (fill_slots disk n (suc i)) (fill_slot-IsWell i q w)
        (fill_slots-IsWell n (suc i))

  assign_slots-IsWell :
      (n i : ℕ) (assets : List Asset) (q : SlotQueue)
      → IsWell q
      → IsWell (queue_of (assign_slots disk n i assets q))
  unfolding assign_slots
  assign_slots-IsWell zero i assets q w = ground arith
  assign_slots-IsWell (suc n) i assets q w =
      let (asset, rest) = pop_left assets in
      continue-IsWell (assign_slot disk i asset q) (assign_slots disk n (suc i) rest)
        (assign_slot-IsWell i asset q w) (assign_slots-IsWell n (suc i) rest)

  pub run_turn-IsWell : (q : SlotQueue) → IsWell q → IsWell (queue_of (run_turn disk q))
  unfolding run_turn advance_slot take_next
  run_turn-IsWell q w =
      let wraps : (q.playhead + 1) % q.slots < q.slots = grind arith in
      let q1 = record q { playhead = (q.playhead + 1) % q.slots } in
      let w1 : IsWell q1 = (w.0, w.1, wraps) in
      elim (Option-cases (slot_asset q.assigned q.playhead)) [
        | inl e ↦ rw (e, queue_of) (next_taken q1 w1)
        | inr (a, e) ↦ rw (e, queue_of) (recycled a q1 w1 q.loop_enabled q.shuffle_enabled)
      ]
    where
      next_taken : (r : SlotQueue) → IsWell r → IsWell (queue_of (take_next disk q.playhead r))
      next_taken r v =
          assign_slot-IsWell q.playhead (pop_left r.queue).0
            (record r { queue = (pop_left r.queue).1 }) v

      recycled :
          (a : Asset) (r : SlotQueue)
          → IsWell r
          → (loop shuffle : Bool)
          → IsWell (
              queue_of (
                if loop
                then if shuffle
                  then crashed attribute_error r
                  else take_next disk q.playhead (record r { queue = r.queue ++ a ∷ [] })
                else take_next disk q.playhead r))
      recycled a r v true true = v
      recycled a r v true false = next_taken (record r { queue = r.queue ++ a ∷ [] }) v
      recycled a r v false shuffle = next_taken r v

Step-IsWell : {q q' : SlotQueue} → Step q q' → IsWell q → IsWell q'
unfolding enqueue replace
Step-IsWell {q = q} (appends disk a) w =
    fill_slots-IsWell disk q.slots 0 (record q { queue = q.queue ++ a ∷ [] }) w
Step-IsWell {q = q} (replaces disk assets loop shuffle) w =
    assign_slots-IsWell disk q.slots 0 assets
      (record q { loop_enabled = loop; shuffle_enabled = shuffle }) w
Step-IsWell {q = q} (plays disk) w = run_turn-IsWell disk q w

-- From a queue with at least one slot, an entry for each and the playhead at one, every order
-- of appends, replacements and turns of the player leads to such a queue, also where the write of
-- a slot file fails.
pub Reach-IsWell : {q q' : SlotQueue} → IsWell q → Reach q q' → IsWell q'
Reach-IsWell w here = w
Reach-IsWell w (next r s) = Step-IsWell s (Reach-IsWell w r)
