-- ===== src/Folders/Invariant.antt =====
-- The libraries that the folder service can reach from an empty one, and a bulk move in them.
use youtube_translation.Base.{
  ℕ, ◌≡◌, Bool, true, List, [], ◌∷◌, Option, if◌then◌else◌, length, ap, subst, sym, Text, mem_id,
  ◌∙◌,
}
use youtube_translation.Folders.{Folder, Library, done, create_folder, update_folder, delete_folder}
use youtube_translation.Folders.Assets.{
  add_asset_to_folder, remove_asset_from_folder, bulk_move_assets, distinct_from,
}
use youtube_translation.Folders.Linked.{
  LinkedOnce, links_of, links-moved, moved-LinkedOnce, distinct-mem, distinct_from-IsDistinct,
}
use youtube_translation.Folders.Kept.{AllForests}
use youtube_translation.Folders.Reached.{created, updated, deleted, linked, unlinked, moved}

-- A request of some user that succeeds.
pub data Step (fold : Text → Text) (db db' : Library) : Type 0 where
  create :
      (u fresh_root fresh : ℕ) (parent_id : Option ℕ) (name : Text) (f : Folder)
      → create_folder fold u fresh_root fresh parent_id name db ≡ done (db', f)
      → Step fold db db'
  update :
      (u id : ℕ) (name : Option Text) (parent_id : Option ℕ) (f : Folder)
      → update_folder fold u id name parent_id db ≡ done (db', f)
      → Step fold db db'
  delete : (u id : ℕ) → delete_folder u id db ≡ done db' → Step fold db db'
  add : (u id asset_id : ℕ) → add_asset_to_folder u id asset_id db ≡ done db' → Step fold db db'
  remove :
      (u id asset_id : ℕ) → remove_asset_from_folder u id asset_id db ≡ done db' → Step fold db db'
  move :
      (u id : ℕ) (given : List ℕ) (exclusive : Bool) (n : ℕ)
      → bulk_move_assets u id given exclusive db ≡ done (db', n)
      → Step fold db db'

pub data Reach (fold : Text → Text) (db : Library) : Library → Type 0 where
  here : Reach fold db db
  next : {mid last : Library} → Reach fold db mid → Step fold mid last → Reach fold db last

-- The parents of every folder lead to one without a parent, all of the same user, and no asset is
-- linked to a folder twice.
pub record IsSound (db : Library) : Type 0 where
  pub forests : AllForests db.folders
  pub once : LinkedOnce db.links

by_folders :
    {db db' : Library}
    → IsSound db
    → (AllForests db.folders → AllForests db'.folders × (db'.links ≡ db.links))
    → IsSound db'
by_folders s kept =
    let (all, same) = kept s.forests in
    record { forests = all; once = subst LinkedOnce (sym same) s.once }

by_links :
    {db db' : Library}
    → IsSound db
    → (LinkedOnce db.links → (db'.folders ≡ db.folders) × LinkedOnce db'.links)
    → IsSound db'
by_links s kept =
    let (same, once) = kept s.once in
    record { forests = subst AllForests (sym same) s.forests; once = once }

pub Step-IsSound :
    {fold : Text → Text} {db db' : Library} → Step fold db db' → IsSound db → IsSound db'
Step-IsSound {fold = fold} {db = db} {db' = db'} (create u fr f pid name new e) s =
    by_folders s (created fold u db fr f pid name db' new e)
Step-IsSound {fold = fold} {db = db} {db' = db'} (update u id name pid new e) s =
    by_folders s (updated fold u db id name pid db' new e)
Step-IsSound {db = db} {db' = db'} (delete u id e) s = by_folders s (deleted u db id db' e)
Step-IsSound {db = db} {db' = db'} (add u id a e) s = by_links s (linked u db id a db' e)
Step-IsSound {db = db} {db' = db'} (remove u id a e) s = by_links s (unlinked u db id a db' e)
Step-IsSound {db = db} {db' = db'} (move u id given exclusive n e) s =
    let (same, rows, count) = moved u db id given exclusive db' n e in
    let ids = distinct_from [] given in
    record {
      forests = subst AllForests (sym same) s.forests;
      once =
          subst LinkedOnce (sym rows)
            (moved-LinkedOnce id exclusive ids db.links (distinct_from-IsDistinct [] given) s.once);
    }

-- Whatever users create, rename, move, delete and link, in any order: in every library reached from a sound
-- one the parents of each folder lead, within the folders of its user, to a folder that has none, and
-- no asset is linked to a folder twice.
pub Reach-IsSound :
    {fold : Text → Text} {db db' : Library} → IsSound db → Reach fold db db' → IsSound db'
Reach-IsSound s here = s
Reach-IsSound s (next r st) = Step-IsSound st (Reach-IsSound s r)

-- After an exclusive bulk move that succeeds, each asset that was named is linked to that folder and to no
-- other, every other asset has the links that it had, the folders are the same, and the number reported
-- is that of the assets named, each counted once.
pub bulk_move_assets_exclusive :
    (u folder_id : ℕ) (given : List ℕ) (db db' : Library) (n : ℕ)
    → bulk_move_assets u folder_id given true db ≡ done (db', n)
    → ((a : ℕ)
        → links_of a db'.links ≡ (
            if mem_id a given
            then record { asset_id = a; folder_id = folder_id } ∷ []
            else links_of a db.links))
      × (db'.folders ≡ db.folders)
      × (n ≡ length (distinct_from [] given))
bulk_move_assets_exclusive u folder_id given db db' n e =
    let (same, rows, count) = moved u db folder_id given true db' n e in
    let ids = distinct_from [] given in
    (
      λ a.
          ap (links_of a) rows
          ∙ links-moved folder_id ids db.links a (distinct_from-IsDistinct [] given)
          ∙ ap
              (λ b.
                if b
                then record { asset_id = a; folder_id = folder_id } ∷ []
                else links_of a db.links)
              (distinct-mem a given),
      same,
      count,
    )
