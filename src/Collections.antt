-- ===== src/Collections.antt =====
-- The items of a media collection: backend/app/core/collections.py. The ids of assets are numbers.
pub mod Assets
mod Tests
use youtube_translation.Base.{
  ℕ, suc, ◌≤◌, Bool, true, false, ◌||◌, List, [], ◌∷◌, Option, none, some, Text, codes, text_beq,
  any, filter, map, lookup, nat_eq, Dict, is_some, not, ◌==◌, leb, if◌then◌else◌,
}

-- `CollectionItemCreate`, and a row of `CollectionItem`
pub record Item : Type 0 where
  pub asset_id : ℕ
  pub position : ℕ
  pub loop_mode : Text

abbrev pub allowed_loop_modes : List Text
allowed_loop_modes = codes "loop" ∷ codes "once" ∷ codes "shuffle" ∷ []

-- `sorted(items, key=lambda item: item.position)`, which keeps the order of equal positions
unfoldable pub insert_item : Item → List Item → List Item
insert_item item [] = item ∷ []
insert_item item (other ∷ items) =
    let rest = insert_item item items in
    if leb item.position other.position then item ∷ other ∷ items else other ∷ rest

unfoldable pub sorted_items : List Item → List Item
unfolding insert_item
sorted_items [] = []
sorted_items (item ∷ items) = insert_item item (sorted_items items)

abbrev pub is_seen : ℕ → List ℕ → Bool
is_seen asset_id seen = any (λ other. asset_id == other) seen

-- The loop of `normalize_collection_items`: the index counts the items that are left out, too.
unfoldable pub normalize_from : ℕ → List ℕ → List Item → List Item
normalize_from index seen [] = []
normalize_from index seen (item ∷ items) =
    let again = is_seen item.asset_id seen in
    let rest = normalize_from (suc index) (if again then seen else item.asset_id ∷ seen) items in
    if again
    then rest
    else (record {
      asset_id = item.asset_id;
      position = index;
      loop_mode =
          if any (text_beq item.loop_mode) allowed_loop_modes then item.loop_mode else codes "loop";
    })
      ∷ rest

-- `normalize_collection_items`
unfoldable pub normalize_collection_items : List Item → List Item
unfolding normalize_from sorted_items
normalize_collection_items items = normalize_from 0 [] (sorted_items items)

-- How `validate_collection_assets` ends.
pub data Validated : Type 0 where
  valid no_assets : Validated
  missing_assets invalid_asset_type : List ℕ → Validated

-- The assets of the user by their ids, with their types.
abbrev mismatched : Text → Dict ℕ Text → List ℕ
mismatched expected existing =
    map (λ (row : ℕ × Text). row.0) (filter (λ row. not (text_beq row.1 expected)) existing)

abbrev or_mismatched : Option Text → Dict ℕ Text → Validated
or_mismatched none existing = valid
or_mismatched (some []) existing = valid
or_mismatched (some (c ∷ expected)) existing = elim (mismatched (c ∷ expected) existing) [
  | [] ↦ valid
  | id ∷ ids ↦ invalid_asset_type (id ∷ ids)
]

-- `validate_collection_assets`, given all the assets of the user, of which it asks for those of the items
unfoldable pub validate_collection_assets : Dict ℕ Text → List Item → Option Text → Validated
validate_collection_assets assets [] expected_type = no_assets
validate_collection_assets assets (item ∷ items) expected_type =
    let ids = map (λ (i : Item). i.asset_id) (item ∷ items) in
    let existing = filter (λ (row : ℕ × Text). is_seen row.0 ids) assets in
    elim (filter (λ id. not (is_some (lookup id existing))) ids) [
      | [] ↦ or_mismatched expected_type existing
      | id ∷ missing ↦ missing_assets (id ∷ missing)
    ]

-- The rows that `replace_collection_items` writes in place of the old ones
unfoldable pub replace_from : ℕ → List Item → List Item
replace_from position [] = []
replace_from position (item ∷ items) =
    record item { position = position } ∷ replace_from (suc position) items

unfoldable pub replace_collection_items : List Item → List Item
unfolding replace_from
replace_collection_items items = replace_from 0 items
