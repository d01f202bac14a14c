-- ===== src/HotSwap/Queue/Playback.antt =====
-- The player over many turns: what looping keeps, what a failed write costs, and how shuffling ends it.
use youtube_translation.Base.{
  ℕ, zero, suc, ◌+◌, ◌%◌, ◌≡◌, refl, ◌∙◌, [], ◌∷◌, ◌++◌, Bool, true, false, Option, some, arith,
  inl, inr, Option-cases,
}
use youtube_translation.HotSwap.Asset.{Asset}
use youtube_translation.HotSwap.Queue.{
  SlotQueue, Disk, slot_asset, Turn, turned, crashed, attribute_error, os_error, continue, queue_of,
  run_turn, run, advance_slot, take_next, assign_slot, pop_left,
}
use youtube_translation.HotSwap.Queue.Held.{
  held, weight, HeldAfter, held-run_turn, recycled, upcoming,
}
use youtube_translation.HotSwap.Queue.Steps.{IsWell, run_turn-IsWell}

-- A turn that a failed write ends, from a queue that holds what the first one held: what the slot should have
-- got is lost, and what it played is there once more.
pub record Exchanged (q q' : SlotQueue) : Type 0 where
  pub last : SlotQueue
  pub disk : Disk
  pub failed : run_turn disk last ≡ crashed os_error q'
  pub kept : (p : Asset → Bool) → held p last ≡ held p q
  pub exchanged :
      (p : Asset → Bool)
      → held p q' + weight p (upcoming last) ≡ held p q + weight p (recycled last)

abbrev pub Conserved : SlotQueue → Turn → Type 0
Conserved q (turned q') = (p : Asset → Bool) → held p q' ≡ held p q
Conserved q (crashed attribute_error q') = (p : Asset → Bool) → held p q' ≡ held p q
Conserved q (crashed os_error q') = Exchanged q q'

run_turn-loop :
    (disk : Disk) (q : SlotQueue) → (queue_of (run_turn disk q)).loop_enabled ≡ q.loop_enabled
unfolding run_turn advance_slot take_next assign_slot
run_turn-loop disk q = elim (Option-cases (slot_asset q.assigned q.playhead)) [
  | inl e ↦ ground (arith, e)
  | inr (a, e) ↦ ground (arith, e)
]

-- From a queue with an entry for each slot and the playhead at one, a looping player loses no asset and makes no
-- copy of one, however many turns it makes, also when an `AttributeError` ends it: the slots and
-- the queue together hold as many assets of every kind as before. When the failed write of a slot
-- file ends it, they did so up to that turn, and then the asset that the slot should have got is
-- lost, and the one that it played is there once more.
pub loop_conserves :
    (disks : ℕ → Disk) (turns : ℕ) (q : SlotQueue)
    → IsWell q
    → q.loop_enabled ≡ true
    → Conserved q (run disks turns q)
unfolding run
loop_conserves disks zero q w loop = λ p. refl
loop_conserves disks (suc turns) q w loop =
    go (run_turn (disks turns) q) refl (run_turn-IsWell (disks turns) q w)
      (run_turn-loop (disks turns) q ∙ loop) (λ p. held-run_turn p (disks turns) q (omega arith))
      (loop_conserves disks turns)
  where
    relate :
        (q1 : SlotQueue) (t : Turn)
        → ((p : Asset → Bool) → held p q1 ≡ held p q)
        → Conserved q1 t
        → Conserved q t
    relate q1 (turned q') same c = λ p. c p ∙ same p
    relate q1 (crashed attribute_error q') same c = λ p. c p ∙ same p
    relate q1 (crashed os_error q') same c = record {
      last = c.last;
      disk = c.disk;
      failed = c.failed;
      kept = λ p. c.kept p ∙ same p;
      exchanged = λ p. omega (arith, c.exchanged p, same p);
    }

    go :
        (t : Turn)
        → run_turn (disks turns) q ≡ t
        → IsWell (queue_of t)
        → (queue_of t).loop_enabled ≡ true
        → ((p : Asset → Bool) → HeldAfter p q t)
        → ((r : SlotQueue) → IsWell r → r.loop_enabled ≡ true → Conserved r (run disks turns r))
        → Conserved q (continue t (run disks turns))
    go (turned q1) is well loops after later =
        relate q1 (run disks turns q1) (λ p. ground (arith, loop, after p)) (later q1 well loops)
    go (crashed attribute_error q1) is well loops after later = after
    go (crashed os_error q1) is well loops after later = record {
      last = q;
      disk = disks turns;
      failed = is;
      kept = λ p. refl;
      exchanged = after;
    }

-- Every write of a slot file succeeds.
abbrev pub AllWritten : (ℕ → Disk) → Type 0
AllWritten disks = (n i : ℕ) (a : Option Asset) → (disks n).refuses i a ≡ false

abbrev IsWritten : Turn → Type 0
IsWritten (turned q) = Unit
IsWritten (crashed attribute_error q) = Unit
IsWritten (crashed os_error q) = ⊥

run_turn-IsWritten :
    (disk : Disk) (q : SlotQueue)
    → ((i : ℕ) (a : Option Asset) → disk.refuses i a ≡ false)
    → IsWritten (run_turn disk q)
unfolding run_turn advance_slot take_next assign_slot
run_turn-IsWritten disk q works = elim (Option-cases (slot_asset q.assigned q.playhead)) [
  | inl e ↦ ground (arith, e, works q.playhead (pop_left q.queue).0)
  | inr (a, e) ↦ ground (
    arith,
    e,
    works q.playhead (pop_left q.queue).0,
    works q.playhead (pop_left (q.queue ++ a ∷ [])).0,
  )
]

run-IsWritten :
    (disks : ℕ → Disk) → AllWritten disks → (n : ℕ) (r : SlotQueue) → IsWritten (run disks n r)
unfolding run
run-IsWritten disks works zero r = tt
run-IsWritten disks works (suc n) r =
    on_turn (run_turn (disks n) r) (run_turn-IsWritten (disks n) r (works n))
      (run-IsWritten disks works n)
  where
    on_turn :
        (t : Turn)
        → IsWritten t
        → ((r' : SlotQueue) → IsWritten (run disks n r'))
        → IsWritten (continue t (run disks n))
    on_turn (turned r') h later = later r'
    on_turn (crashed attribute_error r') h later = tt
    on_turn (crashed os_error r') h later = h

-- Where every write succeeds, the player of a looping queue keeps the assets of it.
pub written_conserves :
    (disks : ℕ → Disk) (p : Asset → Bool) (turns : ℕ) (q : SlotQueue)
    → AllWritten disks
    → IsWell q
    → q.loop_enabled ≡ true
    → held p (queue_of (run disks turns q)) ≡ held p q
written_conserves disks p turns q works w loop =
    go (run disks turns q) (run-IsWritten disks works turns q) (loop_conserves disks turns q w loop)
  where
    go : (t : Turn) → IsWritten t → Conserved q t → held p (queue_of t) ≡ held p q
    go (turned q') h c = c p
    go (crashed attribute_error q') h c = c p
    go (crashed os_error q') h c = absurd h

-- With both flags set, a player whose current slot holds an asset fails at its first turn: no slot
-- and no waiting asset changes, and no later turn is made, however many there would have been.
pub shuffled_loop_stops :
    (disks : ℕ → Disk) (turns : ℕ) (q : SlotQueue) (a : Asset)
    → q.loop_enabled ≡ true
    → q.shuffle_enabled ≡ true
    → slot_asset q.assigned q.playhead ≡ some a
    → run disks (suc turns) q
      ≡ crashed attribute_error (record q { playhead = (q.playhead + 1) % q.slots })
unfolding run run_turn advance_slot
shuffled_loop_stops disks turns q a loop shuffle e = ground (arith, e, loop, shuffle)
