-- ===== src/HotSwap/State/Failures.antt =====
-- Where the state of a stream's queues goes wrong.
use youtube_translation.Base.{
  ℕ, zero, suc, ◌≡◌, refl, Bool, true, List, [], ◌∷◌, Option, none, some, length, replicate, count,
  arith, text_eq, subst, ◌∙◌,
}
use youtube_translation.HotSwap.Asset.{Asset}
use youtube_translation.HotSwap.Queue.{SlotQueue, Disk, queue_of, run}
use youtube_translation.HotSwap.Queue.Held.{held, present}
use youtube_translation.HotSwap.Queue.Steps.{IsWell}
use youtube_translation.HotSwap.Queue.Playback.{AllWritten, written_conserves}
use youtube_translation.HotSwap.State.{SavedQueue, new_queue}

present-replicate :
    (n : ℕ)
    → (length (replicate {A = Option Asset} n none) ≡ n)
      × (present (replicate {A = Option Asset} n none) ≡ [])
present-replicate zero = (refl, refl)
present-replicate (suc n) = (omega (arith, present-replicate n), (present-replicate n).1)

-- A looping queue that holds just the given waiting assets, if there is a queue.
abbrev HoldsJust : (Asset → Bool) → List Asset → Option SlotQueue → Type 0
HoldsJust p waiting none = Unit
HoldsJust p waiting (some q) = IsWell q × (q.loop_enabled ≡ true) × (held p q ≡ count p waiting)

new_queue-HoldsJust :
    (p : Asset → Bool) (file : Option Asset) (files : List (Option Asset)) (saved : SavedQueue)
    (a : Asset) (rest assets : List Asset)
    → saved.loop ≡ some true
    → saved.pending ≡ some (a ∷ rest)
    → HoldsJust p (a ∷ rest) (new_queue (file ∷ files) saved assets)
unfolding new_queue
new_queue-HoldsJust p file files saved a rest assets loop pending =
    ground (arith, present-replicate (length files), loop, pending)

-- When the state file says to loop and lists pending assets, the queue that `initialize` makes
-- holds exactly as many assets of every kind as that list, however many turns the player makes, if
-- every write of a slot file succeeds: an asset that the builder linked to a slot and that is not
-- pending is never in the queue or in a slot of it.
pub linked_assets_forgotten :
    (disks : ℕ → Disk) (p : Asset → Bool) (turns : ℕ) (file : Option Asset)
    (files : List (Option Asset)) (saved : SavedQueue) (a : Asset) (rest assets : List Asset)
    (q : SlotQueue)
    → AllWritten disks
    → saved.loop ≡ some true
    → saved.pending ≡ some (a ∷ rest)
    → new_queue (file ∷ files) saved assets ≡ some q
    → held p (queue_of (run disks turns q)) ≡ count p (a ∷ rest)
unfolding new_queue
linked_assets_forgotten disks p turns file files saved a rest assets q works loop pending made =
    let (well, loops, holds) : HoldsJust p (a ∷ rest) (some q) =
      subst (HoldsJust p (a ∷ rest)) made
        (new_queue-HoldsJust p file files saved a rest assets loop pending) in
    written_conserves disks p turns q works well loops ∙ holds
