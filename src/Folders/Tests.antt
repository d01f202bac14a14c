-- ===== src/Folders/Tests.antt =====
-- A user with two nested folders, one asset and a move that the check refuses.
use youtube_translation.Base.{
  ℕ, ◌≡◌, ◌⊎◌, true, false, [], ◌∷◌, none, some, refl, Text, codes, lstrip, is_space, lower,
  if◌then◌else◌, length, mem_id, arith,
}
use youtube_translation.Folders.{
  Folder, Library, done, refused, into_descendant, create_folder, update_folder, fetch_folder,
  ensure_not_descendant, flush_failed,
}
use youtube_translation.Folders.Assets.{bulk_move_assets, distinct_from}
use youtube_translation.Folders.Operations.{Above, ensure_not_descendant_exact}
use youtube_translation.Folders.Linked.{links_of}
use youtube_translation.Folders.Invariant.{
  create, Reach, here, next, IsSound, Reach-IsSound, bulk_move_assets_exclusive,
}

abbrev empty : Library
empty = record { folders = []; links = []; assets = (50, 1) ∷ [] }

abbrev root : Folder
root = record { id = 1; user_id = 1; parent_id = none; name = codes "root"; is_root = true }

abbrev folder : ℕ → ℕ → Text → Folder
folder id parent name = record {
  id = id;
  user_id = 1;
  parent_id = some parent;
  name = name;
  is_root = false;
}

abbrev two_folders : Library
two_folders = record empty { folders = root ∷ folder 2 1 (codes "a") ∷ folder 3 2 (codes "b") ∷ [] }

reached : Reach lower empty two_folders
unfolding create_folder lstrip is_space
reached =
    next (next here (create 1 1 2 none (codes " a ") (folder 2 1 (codes "a")) refl))
      (create 1 9 3 (some 2) (codes "b") (folder 3 2 (codes "b")) refl)

empty-IsSound : IsSound empty
unfolding fetch_folder
empty-IsSound = record { forests = λ u id f h. cc; once = λ a f. omega arith }

Reach-IsSound_example : IsSound two_folders
Reach-IsSound_example = Reach-IsSound empty-IsSound reached

-- The outer folder cannot go below the inner one.
ensure_not_descendant_exact_example :
    ((ensure_not_descendant 1 two_folders.folders 2 3 ≡ refused into_descendant)
      × Above 1 two_folders.folders 2 3)
    ⊎ ((ensure_not_descendant 1 two_folders.folders 2 3 ≡ done tt)
        × ¬ Above 1 two_folders.folders 2 3)
unfolding fetch_folder
ensure_not_descendant_exact_example =
    ensure_not_descendant_exact 1 two_folders.folders 2 3 (folder 3 2 (codes "b"))
      ((Reach-IsSound empty-IsSound reached).forests 1) refl

refused_move : update_folder lower 1 2 none (some 3) two_folders ≡ refused into_descendant
unfolding update_folder lower
refused_move = refl

bulk_move_assets_exclusive_example :
    let moved = record two_folders { links = record { asset_id = 50; folder_id = 3 } ∷ [] } in
    ((a : ℕ)
      → links_of a moved.links ≡ (
          if mem_id a (50 ∷ 50 ∷ [])
          then record { asset_id = a; folder_id = 3 } ∷ []
          else links_of a (record { asset_id = 50; folder_id = 2 } ∷ [])))
    × (moved.folders ≡ two_folders.folders)
    × (◌≡◌ {A = ℕ} 1 (length (distinct_from [] (50 ∷ 50 ∷ []))))
unfolding bulk_move_assets
bulk_move_assets_exclusive_example =
    bulk_move_assets_exclusive 1 3 (50 ∷ 50 ∷ [])
      (record two_folders { links = record { asset_id = 50; folder_id = 2 } ∷ [] })
      (record two_folders { links = record { asset_id = 50; folder_id = 3 } ∷ [] }) 1 refl

-- A folder that is renamed and moved at once takes the new name before it leaves: a sibling of that name
-- makes the flush fail, although the new parent has none.
abbrev crowded : Library
crowded = record empty {
  folders = root ∷ folder 2 1 (codes "a") ∷ folder 3 1 (codes "b") ∷ folder 4 1 (codes "c") ∷ [];
}

rename_and_move : update_folder lower 1 2 (some (codes "B")) (some 4) crowded ≡ refused flush_failed
unfolding update_folder lower lstrip is_space
rename_and_move = refl
