-- ===== src/Folders/Assets.antt =====
-- The links between assets and folders, and what a bulk move leaves of them.
use youtube_translation.Base.{
  ℕ, ◌==◌, Bool, true, false, not, ◌&&◌, List, [], ◌∷◌, ◌++◌, if◌then◌else◌, any, filter, length,
  mem_id,
}
use youtube_translation.Folders.{
  Link, Library, Reply, done, refused, ◌>>=◌, ◌>>◌, refuse_if, get_folder, asset_not_found,
  already_linked, link_not_found, no_assets, missing_assets,
}

abbrev pub is_owned : ℕ → List (ℕ × ℕ) → ℕ → Bool
is_owned user_id assets id = any (λ (row : ℕ × ℕ). (row.0 == id) && (row.1 == user_id)) assets

abbrev pub is_link : ℕ → ℕ → Link → Bool
is_link asset_id folder_id l = (l.asset_id == asset_id) && (l.folder_id == folder_id)

-- `add_asset_to_folder`
unfoldable pub add_asset_to_folder : ℕ → ℕ → ℕ → Library → Reply Library
unfolding get_folder
add_asset_to_folder user_id folder_id asset_id db = do
  folder ← get_folder user_id db.folders folder_id
  refuse_if (not (is_owned user_id db.assets asset_id)) asset_not_found
  refuse_if (any (is_link asset_id folder.id) db.links) already_linked
  done
      (record db { links = db.links ++ record { asset_id = asset_id; folder_id = folder.id } ∷ [] })

-- `remove_asset_from_folder`
unfoldable pub remove_asset_from_folder : ℕ → ℕ → ℕ → Library → Reply Library
unfolding get_folder
remove_asset_from_folder user_id folder_id asset_id db = do
  folder ← get_folder user_id db.folders folder_id
  refuse_if (not (any (is_link asset_id folder.id) db.links)) link_not_found
  done (record db { links = filter (λ l. not (is_link asset_id folder.id l)) db.links })

-- `list(dict.fromkeys(ids))`, after those that were seen
unfoldable pub distinct_from : List ℕ → List ℕ → List ℕ
distinct_from seen [] = []
distinct_from seen (id ∷ ids) =
    let rest = distinct_from seen ids in
    let more = distinct_from (id ∷ seen) ids in if mem_id id seen then rest else id ∷ more

-- The loop that adds the missing links, and how many it adds.
unfoldable pub missing_links : ℕ → List Link → List ℕ → List Link
missing_links folder_id existing [] = []
missing_links folder_id existing (id ∷ ids) =
    let rest = missing_links folder_id existing ids in
    if any (is_link id folder_id) existing
    then rest
    else record { asset_id = id; folder_id = folder_id } ∷ rest

abbrev pub kept_links : Bool → List ℕ → List Link → List Link
kept_links true ids links = filter (λ (l : Link). not (mem_id l.asset_id ids)) links
kept_links false ids links = links

abbrev pub none_missing : List ℕ → Reply (Unit {0})
none_missing [] = done tt
none_missing (id ∷ ids) = refused (missing_assets (id ∷ ids))

abbrev pub some_given : List ℕ → Reply (Unit {0})
some_given [] = refused no_assets
some_given (id ∷ ids) = done tt

-- `bulk_move_assets`, with the number that it reports.
unfoldable pub bulk_move_assets : ℕ → ℕ → List ℕ → Bool → Library → Reply (Library × ℕ)
unfolding get_folder distinct_from missing_links
bulk_move_assets user_id folder_id given exclusive db = do
  folder ← get_folder user_id db.folders folder_id
  let asset_ids = distinct_from [] given
  some_given asset_ids
  none_missing (filter (λ id. not (is_owned user_id db.assets id)) asset_ids)
  let kept = kept_links exclusive asset_ids db.links
  let inserted = missing_links folder.id kept asset_ids
  done (
    record db { links = kept ++ inserted },
    (if exclusive then length asset_ids else length inserted),
  )
