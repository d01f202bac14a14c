-- ===== src/Folders/Moves.antt =====
-- The operations of folders keep the forest of every user.
use youtube_translation.Base.{
  ℕ, ◌≡◌, ◌≢◌, ◌==◌, true, false, not, ◌&&◌, List, [], ◌∷◌, ◌++◌, none, some, if◌then◌else◌, any,
  find?, filter, refl, sym, subst, arith, mem_id, Bool-cases, inl, inr, ◌∙◌,
}
use youtube_translation.Folders.{Folder, fetch_folder, is_folder, replace_folder, has_parent}
use youtube_translation.Folders.Forest.{Rooted, root, child, IsForest, chain}

-- What a lookup finds after a write, an insertion or a deletion.
pub fetch-replace_self :
    (f g : Folder) (fs : List Folder)
    → fetch_folder f.user_id fs f.id ≡ some g
    → fetch_folder f.user_id (replace_folder f fs) f.id ≡ some f
unfolding fetch_folder replace_folder
fetch-replace_self f g [] h = cc
fetch-replace_self f g (o ∷ fs) h = ground (arith, fetch-replace_self f g fs)

pub fetch-replace_ne :
    (user_id j : ℕ) (f : Folder) (fs : List Folder)
    → ((j == f.id) && (user_id == f.user_id)) ≡ false
    → fetch_folder user_id (replace_folder f fs) j ≡ fetch_folder user_id fs j
unfolding fetch_folder replace_folder
fetch-replace_ne user_id j f [] h = refl
fetch-replace_ne user_id j f (o ∷ fs) h = ground (arith, fetch-replace_ne user_id j f fs)

pub fetch-append :
    (user_id j : ℕ) (f : Folder) (fs gs : List Folder)
    → fetch_folder user_id fs j ≡ some f
    → fetch_folder user_id (fs ++ gs) j ≡ some f
unfolding fetch_folder
fetch-append user_id j f [] gs h = cc
fetch-append user_id j f (o ∷ fs) gs h = ground (arith, fetch-append user_id j f fs gs)

pub fetch-append_new :
    (user_id j : ℕ) (fs gs : List Folder)
    → fetch_folder user_id fs j ≡ none
    → fetch_folder user_id (fs ++ gs) j ≡ fetch_folder user_id gs j
unfolding fetch_folder
fetch-append_new user_id j [] gs h = refl
fetch-append_new user_id j (o ∷ fs) gs h = ground (arith, fetch-append_new user_id j fs gs)

abbrev pub without : ℕ → List Folder → List Folder
without id fs = filter (λ (f : Folder). not (f.id == id)) fs

pub fetch-without :
    (user_id j id : ℕ) (fs : List Folder)
    → fetch_folder user_id (without id fs) j ≡ (if j == id then none else fetch_folder user_id fs j)
unfolding fetch_folder
fetch-without user_id j id [] = ground arith
fetch-without user_id j id (o ∷ fs) = ground (arith, fetch-without user_id j id fs)

parent_present :
    (user_id j p : ℕ) (f : Folder) (fs : List Folder)
    → fetch_folder user_id fs j ≡ some f
    → f.parent_id ≡ some p
    → any (has_parent p) fs ≡ true
unfolding fetch_folder
parent_present user_id j p f [] h e = cc
parent_present user_id j p f (o ∷ fs) h e = ground (arith, e, parent_present user_id j p f fs)

-- A chain of which every row is still there is still a chain.
module _ {user_id : ℕ} {fs gs : List Folder} where
  pub keep_rooted :
      ((j : ℕ) (f : Folder)
        → fetch_folder user_id fs j ≡ some f
        → fetch_folder user_id gs j ≡ some f)
      → {id : ℕ} → Rooted user_id fs id
      → Rooted user_id gs id
  keep_rooted same {id} (root f e n) = root f (same id f e) n
  keep_rooted same {id} (child f p e u r) = child f p (same id f e) u (keep_rooted same r)

-- A deletion leaves the chains of the others, since the folder is above none.
pub rooted-without :
    (user_id id : ℕ) (fs : List Folder)
    → any (has_parent id) fs ≡ false
    → {j : ℕ} → Rooted user_id fs j
    → j ≢ id
    → Rooted user_id (without id fs) j
rooted-without user_id id fs leaf {j} (root f e n) ne =
    root f (ground (arith, fetch-without user_id j id fs, e)) n
rooted-without user_id id fs leaf {j} (child f p e u r) ne =
    let above : p ≢ id = λ same. cc (parent_present user_id j id f fs e (rw (sym same) u), leaf) in
    child f p (ground (arith, fetch-without user_id j id fs, e)) u
      (rooted-without user_id id fs leaf r above)

module _ (f : Folder) (fs : List Folder) where
  -- A chain that does not pass the folder is not changed by a write of it.
  pub rooted-off :
      {j : ℕ} (r : Rooted f.user_id fs j)
      → mem_id f.id (chain r) ≡ false
      → Rooted f.user_id (replace_folder f fs) j
  unfolding chain
  rooted-off {j} (root g e n) off =
      root g (fetch-replace_ne f.user_id j f fs (ground (arith, off)) ∙ e) n
  rooted-off {j} (child g p e u r) off =
      child g p (fetch-replace_ne f.user_id j f fs (ground (arith, off)) ∙ e) u
        (rooted-off r (ground (arith, off)))

-- Where a written folder now hangs: it has no parent, or one from which the chain goes up without it.
pub data Hangs (f : Folder) (fs : List Folder) : Type 0 where
  top : f.parent_id ≡ none → Hangs f fs
  under : (p : ℕ) → f.parent_id ≡ some p → Rooted f.user_id (replace_folder f fs) p → Hangs f fs

module _ (f : Folder) (fs : List Folder) where
  hung :
      {k : ℕ} {g : Folder}
      → Hangs f fs
      → (k == f.id) ≡ true
      → fetch_folder f.user_id fs k ≡ some g
      → Rooted f.user_id (replace_folder f fs) k
  hung {k} {g} hang same e =
      let is : k ≡ f.id = ground (arith, same) in
      let here =
        fetch-replace_self f g fs (subst (λ i. fetch_folder f.user_id fs i ≡ some g) is e) in
      placed hang
        (subst (λ i. fetch_folder f.user_id (replace_folder f fs) i ≡ some f) (sym is) here)
    where
      placed :
          {i : ℕ}
          → Hangs f fs
          → fetch_folder f.user_id (replace_folder f fs) i ≡ some f
          → Rooted f.user_id (replace_folder f fs) i
      placed (top n) at = root f at n
      placed (under p u r) at = child f p at u r

  pub rooted-replace :
      Hangs f fs → {j : ℕ} → Rooted f.user_id fs j → Rooted f.user_id (replace_folder f fs) j
  rooted-replace hang {j} (root g e n) = elim (Bool-cases (j == f.id)) [
    | inl same ↦ hung hang same e
    | inr other ↦ root g (fetch-replace_ne f.user_id j f fs (ground (arith, other)) ∙ e) n
  ]
  rooted-replace hang {j} (child g p e u r) = elim (Bool-cases (j == f.id)) [
    | inl same ↦ hung hang same e
    | inr other ↦
        child g p (fetch-replace_ne f.user_id j f fs (ground (arith, other)) ∙ e) u
          (rooted-replace hang r)
  ]

  -- A lookup after the write finds something only where one did before.
  fetch-replace_was :
      (j : ℕ) (g : Folder)
      → fetch_folder f.user_id (replace_folder f fs) j ≡ some g
      → (o : Folder) × (fetch_folder f.user_id fs j ≡ some o)
  unfolding fetch_folder replace_folder
  fetch-replace_was j g h = was fs h
    where
      was :
          (gs : List Folder)
          → find? (is_folder f.user_id j) (replace_folder f gs) ≡ some g
          → (o : Folder) × (find? (is_folder f.user_id j) gs ≡ some o)
      was [] h = cc
      was (o ∷ gs) h = elim (Bool-cases (is_folder f.user_id j o)) [
        | inl here ↦ (o, rw here refl)
        | inr elsewhere ↦
            let rest = was gs (ground (arith, h, elsewhere)) in (rest.0, rw elsewhere rest.1)
      ]

  -- The write of a folder that hangs somewhere keeps the forest of its user.
  pub replace-IsForest :
      IsForest f.user_id fs → Hangs f fs → IsForest f.user_id (replace_folder f fs)
  replace-IsForest forest hang j g h =
      let (o, e) = fetch-replace_was j g h in rooted-replace hang (forest j o e)
