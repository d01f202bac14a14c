-- ===== src/Folders/Reached.antt =====
-- What each operation of the folder service does to the rows of the library.
use youtube_translation.Base.{
  ℕ, ◌≡◌, ◌==◌, Bool, false, not, ◌||◌, List, [], ◌∷◌, ◌++◌, Option, some, if◌then◌else◌, length,
  any, filter, refl, subst, arith, Text, strip, count, count-append,
}
use youtube_translation.Folders.{
  Folder, Library, Reply, done, Link, refuse_if, fetch_folder, has_parent, replace_folder,
  get_folder, clash, is_taken, is_empty, renamed, reparented, new_folder, asset_not_found,
  already_linked, link_not_found, resolve_parent, create_folder, update_folder, delete_folder,
  folder_not_found, root_deleted, not_empty, empty_name, name_taken,
}
use youtube_translation.Folders.Assets.{
  add_asset_to_folder, remove_asset_from_folder, bulk_move_assets, is_link, distinct_from,
  missing_links, kept_links, some_given, none_missing, is_owned,
}
use youtube_translation.Folders.Forest.{Rooted, fetch-is_folder}
use youtube_translation.Folders.Moves.{without}
use youtube_translation.Folders.Linked.{LinkedOnce, count-filter-le}
use youtube_translation.Folders.Kept.{
  AllForests, bind-done, refuse_if-false, or_refuse-some, append-IsForest, delete-IsForest,
  write-IsForest, resolve_parent_lem,
}
use youtube_translation.Folders.Operations.{reparented-Hangs, renamed-same}

fetched :
    (u : ℕ) (fs : List Folder) (id : ℕ) {f : Folder}
    → get_folder u fs id ≡ done f
    → fetch_folder u fs id ≡ some f
unfolding get_folder
fetched u fs id h = or_refuse-some (fetch_folder u fs id) folder_not_found h

module _ (fold : Text → Text) (u : ℕ) (db : Library) where
  pub created :
      (fresh_root fresh : ℕ) (pid : Option ℕ) (name : Text) (db' : Library) (f : Folder)
      → create_folder fold u fresh_root fresh pid name db ≡ done (db', f)
      → AllForests db.folders
      → AllForests db'.folders × (db'.links ≡ db.links)
  unfolding create_folder
  created fresh_root fresh pid name db' f h forest =
      let (found, s1, h1) = bind-done (resolve_parent fold u fresh_root pid db.folders) _ h in
      let new = new_folder u fresh found.0.id name in
      let (a2, s2, h2) = bind-done (refuse_if (is_empty (strip name)) empty_name) _ h1 in
      let (a3, s3, h3) = bind-done (refuse_if (any (clash fold new) found.1) name_taken) _ h2 in
      made found.0 found.1 s1 h3
    where
      made :
          (parent : Folder) (fs : List Folder)
          → resolve_parent fold u fresh_root pid db.folders ≡ done (parent, fs)
          → ◌≡◌ {A = Reply (Library × Folder)}
              (done (
                record db { folders = fs ++ new_folder u fresh parent.id name ∷ [] },
                new_folder u fresh parent.id name,
              ))
              (done (db', f))
          → AllForests db'.folders × (db'.links ≡ db.links)
      made parent fs found h3 =
          let new = new_folder u fresh parent.id name in
          let (all, below) = resolve_parent_lem fold u fresh_root pid db.folders found forest in
          let is : (fs ++ new ∷ []) ≡ db'.folders = ground (arith, h3) in
          (
            subst AllForests is (
                append-IsForest new fs all
                  (λ p up. subst (Rooted u fs) (ground (arith, up)) below)),
            ground (arith, h3),
          )

  pub updated :
      (id : ℕ) (name : Option Text) (pid : Option ℕ) (db' : Library) (f : Folder)
      → update_folder fold u id name pid db ≡ done (db', f)
      → AllForests db.folders
      → AllForests db'.folders × (db'.links ≡ db.links)
  unfolding update_folder
  updated id name pid db' f h forest =
      let (old, s1, h1) = bind-done (get_folder u db.folders id) _ h in
      let (named, s2, h2) = bind-done (renamed name old) _ h1 in
      let (folder, s3, h3) = bind-done (reparented fold u db.folders pid named) _ h2 in
      let (a4, s4, h4) = bind-done (refuse_if (is_taken fold folder db.folders) name_taken) _ h3 in
      written old named folder (fetched u db.folders id s1) s2 s3 h4
    where
      written :
          (old named folder : Folder)
          → fetch_folder u db.folders id ≡ some old
          → renamed name old ≡ done named
          → reparented fold u db.folders pid named ≡ done folder
          → ◌≡◌ {A = Reply (Library × Folder)}
              (done (record db { folders = replace_folder folder db.folders }, folder))
              (done (db', f))
          → AllForests db'.folders × (db'.links ≡ db.links)
      written old named folder found s2 s3 whole =
          let row = fetch-is_folder u db.folders id old found in
          let kept = renamed-same name old named s2 in
          let owner : u ≡ named.user_id = ground (arith, row, kept) in
          let key : id ≡ named.id = ground (arith, row, kept) in
          let at =
            subst (λ v. fetch_folder v db.folders named.id ≡ some old) owner
              (subst (λ i. fetch_folder u db.folders i ≡ some old) key found) in
          let moved = subst (λ v. reparented fold v db.folders pid named ≡ done folder) owner s3 in
          let (same_id, same_user, hang) =
            reparented-Hangs fold db.folders pid old named folder (forest named.user_id) at kept.2
              moved in
          let is : replace_folder folder db.folders ≡ db'.folders = ground (arith, whole) in
          (
            subst AllForests is (write-IsForest folder db.folders forest hang),
            ground (arith, whole),
          )

module _ (u : ℕ) (db : Library) where
  pub deleted :
      (id : ℕ) (db' : Library)
      → delete_folder u id db ≡ done db'
      → AllForests db.folders
      → AllForests db'.folders × (db'.links ≡ db.links)
  unfolding delete_folder
  deleted id db' h forest =
      let (f, s1, h1) = bind-done (get_folder u db.folders id) _ h in
      let (a2, s2, h2) = bind-done (refuse_if f.is_root root_deleted) _ h1 in
      let used =
        any (has_parent f.id) db.folders || any (λ (l : Link). l.folder_id == f.id) db.links in
      let (a3, s3, h3) = bind-done (refuse_if used not_empty) _ h2 in
      gone f (refuse_if-false used not_empty s3) h3
    where
      gone :
          (f : Folder)
          → (any (has_parent f.id) db.folders || any (λ (l : Link). l.folder_id == f.id) db.links)
            ≡ false
          → ◌≡◌ {A = Reply Library}
              (done (record db { folders = without f.id db.folders }))
              (done db')
          → AllForests db'.folders × (db'.links ≡ db.links)
      gone f empty whole =
          let is : without f.id db.folders ≡ db'.folders = ground (arith, whole) in
          (
            subst AllForests is (delete-IsForest f.id db.folders (ground (arith, empty)) forest),
            ground (arith, whole),
          )

  count-absent :
      (a f : ℕ) (ls : List Link) → any (is_link a f) ls ≡ false → count (is_link a f) ls ≡ 0
  count-absent a f [] h = refl
  count-absent a f (l ∷ ls) h = ground (arith, h, count-absent a f ls)

  pub linked :
      (folder_id asset_id : ℕ) (db' : Library)
      → add_asset_to_folder u folder_id asset_id db ≡ done db'
      → LinkedOnce db.links
      → (db'.folders ≡ db.folders) × LinkedOnce db'.links
  unfolding add_asset_to_folder
  linked folder_id asset_id db' h once =
      let (f, s1, h1) = bind-done (get_folder u db.folders folder_id) _ h in
      let (a2, s2, h2) =
        bind-done (refuse_if (not (is_owned u db.assets asset_id)) asset_not_found) _ h1 in
      let (a3, s3, h3) =
        bind-done (refuse_if (any (is_link asset_id f.id) db.links) already_linked) _ h2 in
      added f.id (refuse_if-false (any (is_link asset_id f.id) db.links) already_linked s3) h3
    where
      added :
          (k : ℕ)
          → any (is_link asset_id k) db.links ≡ false
          → ◌≡◌ {A = Reply Library}
              (done (record db {
                links = db.links ++ record { asset_id = asset_id; folder_id = k } ∷ [];
              }))
              (done db')
          → (db'.folders ≡ db.folders) × LinkedOnce db'.links
      added k absent whole = (
        ground (arith, whole),
        λ a g. ground (
          arith,
          whole,
          once a g,
          absent,
          count-absent asset_id k db.links absent,
          count-append (is_link a g) db.links (record { asset_id = asset_id; folder_id = k } ∷ []),
        ),
      )

  pub unlinked :
      (folder_id asset_id : ℕ) (db' : Library)
      → remove_asset_from_folder u folder_id asset_id db ≡ done db'
      → LinkedOnce db.links
      → (db'.folders ≡ db.folders) × LinkedOnce db'.links
  unfolding remove_asset_from_folder
  unlinked folder_id asset_id db' h once =
      let (f, s1, h1) = bind-done (get_folder u db.folders folder_id) _ h in
      let (a2, s2, h2) =
        bind-done (refuse_if (not (any (is_link asset_id f.id) db.links)) link_not_found) _ h1 in
      taken f.id h2
    where
      taken :
          (k : ℕ)
          → ◌≡◌ {A = Reply Library}
              (done (record db { links = filter (λ l. not (is_link asset_id k l)) db.links }))
              (done db')
          → (db'.folders ≡ db.folders) × LinkedOnce db'.links
      taken k whole = (
        ground (arith, whole),
        λ a g. ground (
          arith,
          whole,
          once a g,
          count-filter-le (is_link a g) (λ l. not (is_link asset_id k l)) db.links,
        ),
      )

  -- The rows that a bulk move leaves, and its report.
  pub moved :
      (folder_id : ℕ) (given : List ℕ) (exclusive : Bool) (db' : Library) (n : ℕ)
      → bulk_move_assets u folder_id given exclusive db ≡ done (db', n)
      → let ids = distinct_from [] given in
        let kept = kept_links exclusive ids db.links in
        (db'.folders ≡ db.folders)
        × (db'.links ≡ kept ++ missing_links folder_id kept ids)
        × (n ≡ (if exclusive then length ids else length (missing_links folder_id kept ids)))
  unfolding bulk_move_assets
  moved folder_id given exclusive db' n h =
      let ids = distinct_from [] given in
      let (f, s1, h1) = bind-done (get_folder u db.folders folder_id) _ h in
      let (a2, s2, h2) = bind-done (some_given ids) _ h1 in
      let (a3, s3, h3) =
        bind-done (none_missing (filter (λ id. not (is_owned u db.assets id)) ids)) _ h2 in
      let row = fetch-is_folder u db.folders folder_id f (fetched u db.folders folder_id s1) in
      end f.id row.0 h3
    where
      end :
          (k : ℕ)
          → k ≡ folder_id
          → (let ids = distinct_from [] given in
              let kept = kept_links exclusive ids db.links in
              let inserted = missing_links k kept ids in
              ◌≡◌ {A = Reply (Library × ℕ)}
                (done (
                  record db { links = kept ++ inserted },
                  (if exclusive then length ids else length inserted),
                ))
                (done (db', n)))
          → let ids = distinct_from [] given in
            let kept = kept_links exclusive ids db.links in
            (db'.folders ≡ db.folders)
            × (db'.links ≡ kept ++ missing_links folder_id kept ids)
            × (n ≡ (if exclusive then length ids else length (missing_links folder_id kept ids)))
      end k same whole = (ground (arith, whole), cc (whole, same), cc (whole, same))
