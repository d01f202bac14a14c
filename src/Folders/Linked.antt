-- ===== src/Folders/Linked.antt =====
-- What a bulk move of assets leaves of the links, and that no link is ever there twice.
use youtube_translation.Base.{
  ℕ, ◌≤◌, ◌≡◌, ◌≢◌, ◌==◌, Bool, true, false, not, ◌&&◌, List, [], ◌∷◌, ◌++◌, if◌then◌else◌, any,
  filter, length, mem_id, IsDistinct, refl, arith, count, count-append, Bool-cases, inl, inr, All,
  ap, ◌∙◌, subst, sym,
}
use mathlib.Core.List.{append-nil}
use youtube_translation.Folders.{Link}
use youtube_translation.Folders.Assets.{is_link, distinct_from, missing_links, kept_links}

-- The links of an asset
abbrev pub links_of : ℕ → List Link → List Link
links_of a links = filter (λ (l : Link). l.asset_id == a) links

distinct_from-mem :
    (a : ℕ) (seen ids : List ℕ)
    → mem_id a (distinct_from seen ids) ≡ (mem_id a ids && not (mem_id a seen))
unfolding distinct_from
distinct_from-mem a seen [] = refl
distinct_from-mem a seen (id ∷ ids) =
    ground (arith, distinct_from-mem a seen ids, distinct_from-mem a (id ∷ seen) ids)

pub distinct-mem : (a : ℕ) (ids : List ℕ) → mem_id a (distinct_from [] ids) ≡ mem_id a ids
distinct-mem a ids = ground (arith, distinct_from-mem a [] ids)

pub distinct_from-IsDistinct : (seen ids : List ℕ) → IsDistinct (distinct_from seen ids)
unfolding distinct_from
distinct_from-IsDistinct seen [] = tt
distinct_from-IsDistinct seen (id ∷ ids) = elim (Bool-cases (mem_id id seen)) [
  | inl old ↦ rw old (distinct_from-IsDistinct seen ids)
  | inr new ↦ rw new (
      (
        ground (arith, distinct_from-mem id (id ∷ seen) ids),
        distinct_from-IsDistinct (id ∷ seen) ids,
      ))
]

links-append : (a : ℕ) (ls ms : List Link) → links_of a (ls ++ ms) ≡ links_of a ls ++ links_of a ms
links-append a [] ms = refl
links-append a (l ∷ ls) ms = ground (arith, links-append a ls ms)

links-kept :
    (a : ℕ) (ids : List ℕ) (ls : List Link)
    → links_of a (kept_links true ids ls) ≡ (if mem_id a ids then [] else links_of a ls)
links-kept a ids [] = ground arith
links-kept a ids (l ∷ ls) = elim (Bool-cases (l.asset_id == a)) [
  | inl same ↦
      let is : l.asset_id ≡ a = ground (arith, same) in
      let alike = ap (λ x. mem_id x ids) is in ground (arith, same, alike, links-kept a ids ls)
  | inr other ↦ ground (arith, other, links-kept a ids ls)
]

none_kept :
    (a folder_id : ℕ) (ids : List ℕ) (ls : List Link)
    → mem_id a ids ≡ true
    → any (is_link a folder_id) (kept_links true ids ls) ≡ false
none_kept a folder_id ids [] h = refl
none_kept a folder_id ids (l ∷ ls) h = elim (Bool-cases (l.asset_id == a)) [
  | inl same ↦
      let is : l.asset_id ≡ a = ground (arith, same) in
      let alike = ap (λ x. mem_id x ids) is in
      ground (arith, same, alike, h, none_kept a folder_id ids ls)
  | inr other ↦ ground (arith, other, none_kept a folder_id ids ls)
]

-- With nothing there before, each asset gets one link.
module _ (folder_id : ℕ) (existing : List Link) where
  links-missing :
      (a : ℕ) (ids : List ℕ)
      → IsDistinct ids
      → All (λ id. any (is_link id folder_id) existing ≡ false) ids
      → links_of a (missing_links folder_id existing ids)
        ≡ (if mem_id a ids then record { asset_id = a; folder_id = folder_id } ∷ [] else [])
  unfolding missing_links
  links-missing a [] d h = refl
  links-missing a (id ∷ ids) d h = elim (Bool-cases (id == a)) [
    | inl same ↦
        let is : id ≡ a = ground (arith, same) in
        let alike = ap (λ x. mem_id x ids) is in
        ground (arith, same, is, alike, d.0, h.0, links-missing a ids d.1 h.1)
    | inr other ↦ ground (arith, other, h.0, links-missing a ids d.1 h.1)
  ]

  length-missing :
      (ids : List ℕ)
      → All (λ id. any (is_link id folder_id) existing ≡ false) ids
      → length (missing_links folder_id existing ids) ≡ length ids
  unfolding missing_links
  length-missing [] h = refl
  length-missing (id ∷ ids) h = ground (arith, h.0, length-missing ids h.1)

  -- A pair is added at most once, and not at all if it was there.
  count-missing :
      (a : ℕ) (ids : List ℕ)
      → IsDistinct ids
      → count (is_link a folder_id) (missing_links folder_id existing ids)
        ≤ (if mem_id a ids && not (any (is_link a folder_id) existing) then 1 else 0)
  unfolding missing_links
  count-missing a [] d = omega arith
  count-missing a (id ∷ ids) d = elim (Bool-cases (id == a)) [
    | inl same ↦
        let is : id ≡ a = ground (arith, same) in
        let alike = ap (λ x. any (is_link x folder_id) existing) is in
        let fresh = ap (λ x. mem_id x ids) is in
        ground (arith, same, alike, fresh, d.0, count-missing a ids d.1)
    | inr other ↦ ground (arith, other, count-missing a ids d.1)
  ]

  count-missing_other :
      (a f : ℕ) (ids : List ℕ)
      → f ≢ folder_id
      → count (is_link a f) (missing_links folder_id existing ids) ≡ 0
  unfolding missing_links
  count-missing_other a f [] ne = refl
  count-missing_other a f (id ∷ ids) ne = ground (arith, ne, count-missing_other a f ids ne)

count-any : (p : Link → Bool) (ls : List Link) → any p ls ≡ false → count p ls ≡ 0
count-any p [] h = refl
count-any p (l ∷ ls) h = ground (arith, count-any p ls)

pub count-filter-le : (p q : Link → Bool) (ls : List Link) → count p (filter q ls) ≤ count p ls
count-filter-le p q [] = omega arith
count-filter-le p q (l ∷ ls) = ground (arith, count-filter-le p q ls)

count-kept :
    (exclusive : Bool) (ids : List ℕ) (p : Link → Bool) (ls : List Link)
    → count p (kept_links exclusive ids ls) ≤ count p ls
count-kept true ids p ls = count-filter-le p (λ (l : Link). not (mem_id l.asset_id ids)) ls
count-kept false ids p ls = omega arith

-- No pair of an asset and a folder is linked twice.
abbrev pub LinkedOnce : List Link → Type 0
LinkedOnce ls = (a f : ℕ) → count (is_link a f) ls ≤ 1

pub moved-LinkedOnce :
    (folder_id : ℕ) (exclusive : Bool) (ids : List ℕ) (ls : List Link)
    → IsDistinct ids
    → LinkedOnce ls
    → LinkedOnce
        (kept_links exclusive ids ls ++ missing_links folder_id (kept_links exclusive ids ls) ids)
moved-LinkedOnce folder_id exclusive ids ls d once a f =
    let kept = kept_links exclusive ids ls in
    let added = missing_links folder_id kept ids in
    let p = is_link a f in
    let sum = count-append p kept added in
    let few = count-kept exclusive ids p ls in
    elim (Bool-cases (f == folder_id)) [
      | inl same ↦
          let is : f ≡ folder_id = ground (arith, same) in
          let most =
            subst
              (λ g.
                count (is_link a g) added
                ≤ (if mem_id a ids && not (any (is_link a g) kept) then 1 else 0))
              (sym is) (count-missing folder_id kept a ids d) in
          elim (Bool-cases (any p kept)) [
            | inl there ↦ ground (arith, sum, few, once a f, most, there)
            | inr absent ↦ ground (arith, sum, most, count-any p kept absent, absent)
          ]
      | inr other ↦
          let ne : f ≢ folder_id = λ e. ground (arith, other, e) in
          omega (arith, sum, few, once a f, count-missing_other folder_id kept a f ids ne)
    ]

either :
    (b : Bool) (x : Link) (rest : List Link) {xs ys : List Link}
    → xs ≡ (if b then [] else rest)
    → ys ≡ (if b then x ∷ [] else [])
    → xs ++ ys ≡ (if b then x ∷ [] else rest)
either true x rest hx hy = rw (hx, hy) refl
either false x rest hx hy = rw (hx, hy) (append-nil rest)

-- After an exclusive move the moved assets are in that folder alone, and the others are where they were.
pub links-moved :
    (folder_id : ℕ) (ids : List ℕ) (ls : List Link) (a : ℕ)
    → IsDistinct ids
    → links_of a (kept_links true ids ls ++ missing_links folder_id (kept_links true ids ls) ids)
      ≡ (if mem_id a ids
          then record { asset_id = a; folder_id = folder_id } ∷ []
          else links_of a ls)
links-moved folder_id ids ls a d =
    let kept = kept_links true ids ls in
    let each = none_each ids (λ id h. none_kept id folder_id ids ls h) in
    links-append a kept (missing_links folder_id kept ids)
    ∙ either (mem_id a ids) (record { asset_id = a; folder_id = folder_id }) (links_of a ls)
        (links-kept a ids ls) (links-missing folder_id kept a ids d each)
  where
    none_each :
        (xs : List ℕ)
        → ((id : ℕ)
            → mem_id id xs ≡ true
            → any (is_link id folder_id) (kept_links true ids ls) ≡ false)
        → All (λ id. any (is_link id folder_id) (kept_links true ids ls) ≡ false) xs
    none_each [] h = tt
    none_each (x ∷ xs) h = (h x (ground arith), none_each xs (λ id m. h id (ground (arith, m))))
