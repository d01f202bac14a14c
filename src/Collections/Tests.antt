-- ===== src/Collections/Tests.antt =====
-- A collection that names an asset twice.
use youtube_translation.Base.{ℕ, ◌≡◌, List, [], ◌∷◌, codes}
use youtube_translation.Collections.{
  Item, is_seen, normalize_collection_items, replace_collection_items,
}
use youtube_translation.Collections.Assets.{ids, IsFresh, CountedFrom, replace-normalize}

abbrev item : ℕ → ℕ → Item
item asset_id position = record {
  asset_id = asset_id;
  position = position;
  loop_mode = codes "once";
}

abbrev given_items : List Item
given_items = item 7 2 ∷ item 8 1 ∷ item 7 0 ∷ []

replace-normalize_example :
    let rows = replace_collection_items (normalize_collection_items given_items) in
    IsFresh [] (ids rows)
    × ((a : ℕ) → is_seen a (ids rows) ≡ is_seen a (ids given_items))
    × CountedFrom 0 rows
replace-normalize_example = replace-normalize given_items
