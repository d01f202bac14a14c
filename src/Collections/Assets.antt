-- ===== src/Collections/Assets.antt =====
-- Which assets a collection holds after it was normalised and replaced.
use youtube_translation.Base.{
  ℕ, suc, ◌≡◌, refl, ap, sym, subst, ◌∙◌, Bool, true, false, not, ◌&&◌, ◌||◌, List, [], ◌∷◌, arith,
  map, ◌==◌, ==_iff, Bool-cases, inl, inr,
}
use youtube_translation.Collections.{
  Item, insert_item, sorted_items, is_seen, normalize_from, normalize_collection_items,
  replace_from, replace_collection_items,
}

abbrev pub ids : List Item → List ℕ
ids items = map (λ (i : Item). i.asset_id) items

-- No id occurs twice, or among those seen before.
abbrev pub IsFresh : List ℕ → List ℕ → Type 0
IsFresh seen [] = Unit
IsFresh seen (id ∷ rest) = (is_seen id seen ≡ false) × IsFresh (id ∷ seen) rest

seen-insert_item :
    (a : ℕ) (item : Item) (items : List Item)
    → is_seen a (ids (insert_item item items)) ≡ ((a == item.asset_id) || is_seen a (ids items))
unfolding insert_item
seen-insert_item a item [] = refl
seen-insert_item a item (other ∷ items) = ground (arith, seen-insert_item a item items)

seen-sorted_items :
    (a : ℕ) (items : List Item) → is_seen a (ids (sorted_items items)) ≡ is_seen a (ids items)
unfolding sorted_items
seen-sorted_items a [] = refl
seen-sorted_items a (item ∷ items) =
    ground (arith, seen-insert_item a item (sorted_items items), seen-sorted_items a items)

normalize_from-IsFresh :
    (index : ℕ) (seen : List ℕ) (items : List Item)
    → IsFresh seen (ids (normalize_from index seen items))
unfolding normalize_from
normalize_from-IsFresh index seen [] = tt
normalize_from-IsFresh index seen (item ∷ items) = elim (Bool-cases (is_seen item.asset_id seen)) [
  | inl e ↦ rw e (normalize_from-IsFresh (suc index) seen items)
  | inr e ↦ rw e (e, normalize_from-IsFresh (suc index) (item.asset_id ∷ seen) items)
]

same_seen : (a b : ℕ) (seen : List ℕ) → (a == b) ≡ true → is_seen a seen ≡ is_seen b seen
same_seen a b seen e = ap (λ id. is_seen id seen) ((==_iff a b).0 e)

-- Bookkeeping for an item that was seen before, and for one that was not.
again_lem :
    (same seen_a seen_id rest : Bool)
    → seen_id ≡ true
    → (same ≡ true → seen_a ≡ seen_id)
    → (rest && not seen_a) ≡ ((same || rest) && not seen_a)
again_lem true seen_a seen_id rest e h = ground (arith, e, h refl)
again_lem false seen_a seen_id rest e h = refl

first_lem :
    (same seen_a seen_id rest : Bool)
    → seen_id ≡ false
    → (same ≡ true → seen_a ≡ seen_id)
    → (same || (rest && not (same || seen_a))) ≡ ((same || rest) && not seen_a)
first_lem true seen_a seen_id rest e h = ground (arith, e, h refl)
first_lem false seen_a seen_id rest e h = refl

seen-normalize_from :
    (a index : ℕ) (seen : List ℕ) (items : List Item)
    → is_seen a (ids (normalize_from index seen items))
      ≡ (is_seen a (ids items) && not (is_seen a seen))
unfolding normalize_from
seen-normalize_from a index seen [] = refl
seen-normalize_from a index seen (item ∷ items) =
    let id = item.asset_id in
    elim (Bool-cases (is_seen id seen)) [
      | inl e ↦ rw e (
          seen-normalize_from a (suc index) seen items
          ∙ again_lem (a == id) (is_seen a seen) (is_seen id seen) (is_seen a (ids items)) e
              (same_seen a id seen))
      | inr e ↦ rw e (
          ap (λ b. (a == id) || b) (seen-normalize_from a (suc index) (id ∷ seen) items)
          ∙ first_lem (a == id) (is_seen a seen) (is_seen id seen) (is_seen a (ids items)) e
              (same_seen a id seen))
    ]

-- The positions from a number on
abbrev pub CountedFrom : ℕ → List Item → Type 0
CountedFrom n [] = Unit
CountedFrom n (item ∷ items) = (item.position ≡ n) × CountedFrom (suc n) items

replaced :
    (n : ℕ) (items : List Item)
    → (ids (replace_from n items) ≡ ids items) × CountedFrom n (replace_from n items)
unfolding replace_from
replaced n [] = (refl, tt)
replaced n (item ∷ items) =
    let rest = replaced (suc n) items in (ap (λ tail. item.asset_id ∷ tail) rest.0, (refl, rest.1))

-- A collection that is replaced by normalised items holds each of their assets exactly once and no other, in
-- places that are counted from 0 without a gap.
pub replace-normalize :
    (items : List Item)
    → let rows = replace_collection_items (normalize_collection_items items) in
      IsFresh [] (ids rows)
      × ((a : ℕ) → is_seen a (ids rows) ≡ is_seen a (ids items))
      × CountedFrom 0 rows
unfolding replace_collection_items normalize_collection_items
replace-normalize items =
    let normalized = normalize_from 0 [] (sorted_items items) in
    let (same, places) = replaced 0 normalized in
    (
      subst (IsFresh []) (sym same) (normalize_from-IsFresh 0 [] (sorted_items items)),
      λ a.
          ap (is_seen a) same
          ∙ seen-normalize_from a 0 [] (sorted_items items)
          ∙ and_true (is_seen a (ids (sorted_items items)))
          ∙ seen-sorted_items a items,
      places,
    )
  where
    and_true : (b : Bool) → (b && true) ≡ b
    and_true true = refl
    and_true false = refl
