-- ===== src/HotSwap/Queue/Held.antt =====
-- The assets that a queue holds, in its slots and waiting, under each operation.
use youtube_translation.Base.{
  ℕ, zero, suc, ◌+◌, ◌%◌, ◌<◌, ◌≡◌, refl, Bool, List, [], ◌∷◌, ◌++◌, Option, none, some, Bool-cases,
  subst, sym, if◌then◌else◌, length, set, count, count-append, arith, Option-cases, inl, inr,
}
use youtube_translation.HotSwap.Asset.{Asset}
use youtube_translation.HotSwap.Queue.{
  SlotQueue, Disk, slot_asset, pop_left, Turn, turned, crashed, attribute_error, os_error,
  assign_slot, take_next, advance_slot, run_turn,
}

-- The assets of the slots.
abbrev pub present : List (Option Asset) → List Asset
present [] = []
present (none ∷ slots) = present slots
present (some a ∷ slots) = a ∷ present slots

-- How many of the assets that a queue holds pass a test.
abbrev pub held : (Asset → Bool) → SlotQueue → ℕ
held p q = count p (present q.assigned) + count p q.queue

abbrev pub weight : (Asset → Bool) → Option Asset → ℕ
weight p none = 0
weight p (some a) = count p (a ∷ [])

-- Writing a slot exchanges its asset.
count-present-set :
    (p : Asset → Bool) (slots : List (Option Asset)) (i : ℕ) (a : Option Asset)
    → i < length slots
    → count p (present (set slots i a)) + weight p (slot_asset slots i)
      ≡ count p (present slots) + weight p a
count-present-set p [] i a h = elim h [ ]
count-present-set p (none ∷ slots) zero none h = ground arith
count-present-set p (none ∷ slots) zero (some a) h = ground arith
count-present-set p (some b ∷ slots) zero none h = ground arith
count-present-set p (some b ∷ slots) zero (some a) h = ground arith
count-present-set p (none ∷ slots) (suc i) a h =
    omega (arith, count-present-set p slots i a (omega arith))
count-present-set p (some b ∷ slots) (suc i) a h =
    ground (arith, count-present-set p slots i a (omega arith))

count-pop_left :
    (p : Asset → Bool) (waiting : List Asset)
    → weight p (pop_left waiting).0 + count p (pop_left waiting).1 ≡ count p waiting
count-pop_left p [] = refl
count-pop_left p (a ∷ rest) = ground arith

-- There is an entry for each slot.
abbrev pub IsFramed : SlotQueue → Type 0
IsFramed q = length q.assigned ≡ q.slots

abbrev moved : SlotQueue → SlotQueue
moved q = record q { playhead = (q.playhead + 1) % q.slots }

-- The asset that the played slot puts back into the queue, and the one that it takes.
abbrev pub recycled : SlotQueue → Option Asset
recycled q = if q.loop_enabled then slot_asset q.assigned q.playhead else none

abbrev pub released : SlotQueue → Option Asset
released q = if q.loop_enabled then none else slot_asset q.assigned q.playhead

abbrev with_back : Option Asset → List Asset → List Asset
with_back none waiting = waiting
with_back (some a) waiting = waiting ++ a ∷ []

abbrev pub upcoming : SlotQueue → Option Asset
upcoming q = (pop_left (with_back (recycled q) q.queue)).0

module _ (p : Asset → Bool) where
  -- What a turn does to the number of the assets: it lets the played one go, unless it loops. A failed
  -- write loses the next asset, and the played one is both in its slot and in the queue.
  abbrev pub HeldAfter : SlotQueue → Turn → Type 0
  HeldAfter q (turned q') = held p q' + weight p (released q) ≡ held p q
  HeldAfter q (crashed attribute_error q') = held p q' ≡ held p q
  HeldAfter q (crashed os_error q') =
      held p q' + weight p (upcoming q) ≡ held p q + weight p (recycled q)

  -- The end of taking an asset, for a played slot.
  TakenFrom : ℕ → SlotQueue → Turn → Type 0
  TakenFrom i q (turned q') = held p q' + weight p (slot_asset q.assigned i) ≡ held p q
  TakenFrom i q (crashed e q') =
      (e ≡ os_error) × (held p q' + weight p (pop_left q.queue).0 ≡ held p q)

  take_next-TakenFrom :
      (disk : Disk) (i : ℕ) (q : SlotQueue)
      → i < length q.assigned
      → TakenFrom i q (take_next disk i q)
  unfolding take_next assign_slot TakenFrom
  take_next-TakenFrom disk i q h =
      let popped = count-pop_left p q.queue in
      let exchanged = count-present-set p q.assigned i (pop_left q.queue).0 h in
      elim (Bool-cases (disk.refuses i (pop_left q.queue).0)) [
        | inl fails ↦ rw fails (refl, omega (arith, popped))
        | inr works ↦ rw works (omega (arith, popped, exchanged))
      ]

  -- The played asset does not go back into the queue.
  taken-HeldAfter :
      (q q1 : SlotQueue) (t : Turn)
      → q1.assigned ≡ q.assigned
      → q1.queue ≡ q.queue
      → recycled q ≡ none
      → released q ≡ slot_asset q.assigned q.playhead
      → TakenFrom q.playhead q1 t
      → HeldAfter q t
  unfolding TakenFrom
  taken-HeldAfter q q1 (turned q') same waits back out taken =
      ground (arith, same, waits, out, taken)
  taken-HeldAfter q q1 (crashed attribute_error q') same waits back out taken = cc taken.0
  taken-HeldAfter q q1 (crashed os_error q') same waits back out taken =
      ground (arith, same, waits, back, taken.1)

  -- The played asset is back in the queue.
  looped-HeldAfter :
      (q q2 : SlotQueue) (a : Asset) (t : Turn)
      → q2.assigned ≡ q.assigned
      → q2.queue ≡ q.queue ++ a ∷ []
      → recycled q ≡ some a
      → released q ≡ none
      → slot_asset q.assigned q.playhead ≡ some a
      → TakenFrom q.playhead q2 t
      → HeldAfter q t
  unfolding TakenFrom
  looped-HeldAfter q q2 a (turned q') same waits back out played taken =
      ground (arith, same, waits, out, played, taken, count-append {0} p q.queue (a ∷ []))
  looped-HeldAfter q q2 a (crashed attribute_error q') same waits back out played taken = cc taken.0
  looped-HeldAfter q q2 a (crashed os_error q') same waits back out played taken =
      ground (arith, same, waits, back, taken.1, count-append {0} p q.queue (a ∷ []))

  -- A turn of the player keeps every asset in the slots and the queue when looping, and lets go of
  -- exactly the played one when not; a failed write exchanges the next asset for a copy of the played one.
  pub held-run_turn :
      (disk : Disk) (q : SlotQueue) → q.playhead < length q.assigned → HeldAfter q (run_turn disk q)
  unfolding run_turn advance_slot
  held-run_turn disk q h = elim (Option-cases (slot_asset q.assigned q.playhead)) [
    | inl e ↦
        let is : run_turn disk q ≡ take_next disk q.playhead (moved q) = ground (arith, e) in
        subst (HeldAfter q) (sym is) (not_back (ground (arith, e)) (ground (arith, e)))
    | inr (a, e) ↦ elim (Bool-cases q.loop_enabled) [
      | inr once ↦
          let is : run_turn disk q ≡ take_next disk q.playhead (moved q) =
            ground (arith, e, once) in
          subst (HeldAfter q) (sym is) (not_back (ground (arith, once)) (ground (arith, once)))
      | inl loops ↦ elim (Bool-cases q.shuffle_enabled) [
        | inl shuffles ↦
            let is : run_turn disk q ≡ crashed attribute_error (moved q) =
              ground (arith, e, loops, shuffles) in
            subst (HeldAfter q) (sym is) refl
        | inr keeps_order ↦
            let q2 = record (moved q) { queue = q.queue ++ a ∷ [] } in
            let is : run_turn disk q ≡ take_next disk q.playhead q2 =
              ground (arith, e, loops, keeps_order) in
            subst (HeldAfter q) (sym is) (
              looped-HeldAfter q q2 a (take_next disk q.playhead q2) refl refl
                (ground (arith, loops, e)) (ground (arith, loops)) e
                (take_next-TakenFrom disk q.playhead q2 h))
      ]
    ]
  ]
    where
      not_back :
          recycled q ≡ none
          → released q ≡ slot_asset q.assigned q.playhead
          → HeldAfter q (take_next disk q.playhead (moved q))
      not_back back out =
          taken-HeldAfter q (moved q) (take_next disk q.playhead (moved q)) refl refl back out
            (take_next-TakenFrom disk q.playhead (moved q) h)
