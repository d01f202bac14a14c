-- ===== src/HotSwap/Tests.antt =====
-- Queues of one and two slots.
use youtube_translation.Base.{
  ℕ, zero, suc, ◌≡◌, refl, Bool, true, false, List, [], ◌∷◌, none, some, Text, codes, arith, count,
  text_eq,
}
use youtube_translation.HotSwap.Asset.{Asset}
use youtube_translation.HotSwap.Queue.{SlotQueue, Disk, queue_of, enqueue, run}
use youtube_translation.HotSwap.Queue.Held.{held}
use youtube_translation.HotSwap.Queue.Steps.{IsWell, here, next, appends, Reach-IsWell}
use youtube_translation.HotSwap.Queue.Playback.{Conserved, loop_conserves}
use youtube_translation.HotSwap.State.{SavedQueue, new_queue}
use youtube_translation.HotSwap.State.Failures.{linked_assets_forgotten}

abbrev always : Asset → Bool
always a = true

-- A disk that has every asset and refuses no write, at every turn.
abbrev disk : Disk
disk = record { has_asset = always; refuses = λ slot asset. false; keeps = λ slot asset. false }

abbrev disks : ℕ → Disk
disks turn = disk

-- A disk that refuses the write of every slot file.
abbrev full : Disk
full = record disk { refuses = λ slot asset. true }

abbrev full_after_one : ℕ → Disk
full_after_one zero = full
full_after_one (suc turn) = disk

abbrev named : Text → Asset
named n = record { asset_id = some n; filename = none; meta = none }

abbrev song : Asset
song = named (codes "s")

abbrev film : Asset
film = named (codes "f")

-- Two slots with a song and a film in them, and the given flags and waiting assets.
abbrev pair : Bool → Bool → List Asset → SlotQueue
pair loop shuffle waiting = record {
  slots = 2;
  loop_enabled = loop;
  shuffle_enabled = shuffle;
  queue = waiting;
  assigned = some song ∷ some film ∷ [];
  files = some song ∷ some film ∷ [];
  playhead = 0;
}

pair-IsWell : (loop shuffle : Bool) (waiting : List Asset) → IsWell (pair loop shuffle waiting)
pair-IsWell loop shuffle waiting = ground arith

Reach-IsWell_example : IsWell (queue_of (enqueue disk song (pair true false [])))
Reach-IsWell_example = Reach-IsWell (pair-IsWell true false []) (next here (appends disk song))

loop_conserves_example : Conserved (pair true false []) (run full_after_one 2 (pair true false []))
loop_conserves_example =
    loop_conserves full_after_one 2 (pair true false []) (pair-IsWell true false []) refl

abbrev saved : SavedQueue
saved = record { loop = some true; shuffle = none; pending = some (film ∷ []) }

-- What `initialize` makes of one slot that the builder linked a song to.
abbrev fresh : SlotQueue
fresh = record {
  slots = 1;
  loop_enabled = true;
  shuffle_enabled = false;
  queue = film ∷ [];
  assigned = none ∷ [];
  files = some song ∷ [];
  playhead = 0;
}

linked_assets_forgotten_example :
    held always (queue_of (run disks 5 fresh)) ≡ count always (film ∷ [])
unfolding new_queue
linked_assets_forgotten_example =
    linked_assets_forgotten disks always 5 (some song) [] saved film [] (song ∷ []) fresh
      (λ n i a. refl) refl refl refl
