-- ===== src/Folders/Operations.antt =====
-- What the operations of the folder service do to the library as a whole.
use youtube_translation.Base.{
  ℕ, ◌≡◌, ◌==◌, true, false, List, ◌⊎◌, Option, none, some, if◌then◌else◌, refl, sym, subst, arith,
  mem_id, Bool-cases, inl, inr, Text, strip,
}
use youtube_translation.Folders.{
  Folder, done, refused, refuse_if, or_refuse, fetch_folder, get_folder, is_taken, is_empty,
  renamed, reparented, ensure_not_descendant, into_descendant, folder_not_found, empty_name,
  root_reparented, own_parent, flush_failed,
}
use youtube_translation.Folders.Forest.{
  Rooted, root, child, IsForest, chain, fetch-is_folder, ancestors_exact, chain-IsDistinct,
}
use youtube_translation.Folders.Moves.{Hangs, top, under, rooted-off}
use youtube_translation.Folders.Kept.{bind-done, or_refuse-some}

-- The folder `a` is `j`, or above it.
pub data Above (user_id : ℕ) (fs : List Folder) (a : ℕ) : ℕ → Type 0 where
  here : Above user_id fs a a
  up :
      {j : ℕ} (f : Folder) (parent : ℕ)
      → fetch_folder user_id fs j ≡ some f
      → f.parent_id ≡ some parent
      → Above user_id fs a parent
      → Above user_id fs a j

module _ {user_id : ℕ} {fs : List Folder} where
  chain-Above :
      {j : ℕ} (r : Rooted user_id fs j) (a : ℕ) → mem_id a (chain r) ≡ true → Above user_id fs a j
  unfolding chain
  chain-Above {j} (root f e n) a h =
      let same : a ≡ j = ground (arith, h) in subst (Above user_id fs a) same here
  chain-Above {j} (child f p e u r) a h = elim (Bool-cases (j == a)) [
    | inl eq ↦ let same : a ≡ j = ground (arith, eq) in subst (Above user_id fs a) same here
    | inr ne ↦ up f p e u (chain-Above r a (ground (arith, h, ne)))
  ]

  Above-chain :
      {a j k : ℕ}
      → Above user_id fs a j
      → j ≡ k
      → (r : Rooted user_id fs k) → mem_id a (chain r) ≡ true
  unfolding chain
  Above-chain here same (root f e n) = ground (arith, same)
  Above-chain here same (child f p e u r) = ground (arith, same)
  Above-chain {a} {j} {k} (up g q eg ug above) same (root f e n) =
      let e' = subst (λ i. fetch_folder user_id fs i ≡ some g) same eg in
      absurd (ground (arith, e, e', n, ug))
  Above-chain {a} {j} {k} (up g q eg ug above) same (child f p e u r) =
      let e' = subst (λ i. fetch_folder user_id fs i ≡ some g) same eg in
      let next : q ≡ p = ground (arith, e, e', u, ug) in ground (arith, Above-chain above next r)

  -- The check itself, for a parent that is there.
  ensure_lem :
      (folder_id p : ℕ) (r : Rooted user_id fs p)
      → ensure_not_descendant user_id fs folder_id p
        ≡ (if mem_id folder_id (chain r) then refused into_descendant else done tt)
  unfolding ensure_not_descendant chain
  ensure_lem folder_id p (root f e n) = ground (arith, ancestors_exact (root f e n))
  ensure_lem folder_id p (child f q e u r) = ground (arith, ancestors_exact (child f q e u r))

-- In a forest the check of a move ends, for a new parent that is there: it refuses the parent exactly when
-- the folder is that parent or above it, and lets every other one pass.
pub ensure_not_descendant_exact :
    (user_id : ℕ) (fs : List Folder) (folder_id p : ℕ) (f : Folder)
    → IsForest user_id fs
    → fetch_folder user_id fs p ≡ some f
    → ((ensure_not_descendant user_id fs folder_id p ≡ refused into_descendant)
        × Above user_id fs folder_id p)
      ⊎ ((ensure_not_descendant user_id fs folder_id p ≡ done tt) × ¬ Above user_id fs folder_id p)
ensure_not_descendant_exact user_id fs folder_id p f forest e =
    let r = forest p f e in
    let is = ensure_lem folder_id p r in
    elim (Bool-cases (mem_id folder_id (chain r))) [
      | inl above ↦ inl (ground (arith, is, above), chain-Above r folder_id above)
      | inr below ↦ inr (ground (arith, is, below), λ a. cc (Above-chain a refl r, below))
    ]

pub renamed-same :
    (name : Option Text) (f g : Folder)
    → renamed name f ≡ done g
    → (g.id ≡ f.id) × (g.user_id ≡ f.user_id) × (g.parent_id ≡ f.parent_id)
renamed-same none f g h = ground (arith, h)
renamed-same (some name) f g h =
    let (a, b, whole) = bind-done (refuse_if (is_empty (strip name)) empty_name) _ h in
    ground (arith, whole)

off_chain :
    {user_id : ℕ} {fs : List Folder} (j q : ℕ) (g : Folder) (e : fetch_folder user_id fs j ≡ some g)
    (u : g.parent_id ≡ some q) (r : Rooted user_id fs q)
    → mem_id j (chain r) ≡ false
unfolding chain
off_chain j q g e u r = (chain-IsDistinct (child g q e u r)).0

-- A folder that keeps its parent hangs where it did, and a moved one under its new parent.
old-Hangs :
    (f old : Folder) (fs : List Folder)
    → IsForest f.user_id fs
    → fetch_folder f.user_id fs f.id ≡ some old
    → f.parent_id ≡ old.parent_id
    → Hangs f fs
old-Hangs f old fs forest e same = by_chain (forest f.id old e) refl
  where
    by_chain : {j : ℕ} → Rooted f.user_id fs j → j ≡ f.id → Hangs f fs
    by_chain (root g eg n) is =
        let e' = subst (λ i. fetch_folder f.user_id fs i ≡ some g) is eg in
        top (ground (arith, same, e, e', n))
    by_chain {j} (child g q eg u r) is =
        let e' = subst (λ i. fetch_folder f.user_id fs i ≡ some g) is eg in
        let apart : mem_id j (chain r) ≡ false = off_chain j q g eg u r in
        under q (ground (arith, same, e, e', u))
          (rooted-off f fs r (subst (λ i. mem_id i (chain r) ≡ false) is apart))

moved-Hangs :
    (f : Folder) (fs : List Folder) (p : ℕ) (r : Rooted f.user_id fs p)
    → ensure_not_descendant f.user_id fs f.id p ≡ done tt
    → f.parent_id ≡ some p
    → Hangs f fs
moved-Hangs f fs p r passed is =
    under p is (rooted-off f fs r (ground (arith, ensure_lem f.id p r, passed)))

module _ (fold : Text → Text) (fs : List Folder) where
  pub reparented-Hangs :
      (pid : Option ℕ) (old f g : Folder)
      → IsForest f.user_id fs
      → fetch_folder f.user_id fs f.id ≡ some old
      → f.parent_id ≡ old.parent_id
      → reparented fold f.user_id fs pid f ≡ done g
      → (g.id ≡ f.id) × (g.user_id ≡ f.user_id) × Hangs g fs
  unfolding get_folder
  reparented-Hangs none old f g forest e same h =
      let is : f ≡ g = ground (arith, h) in
      (
        ground (arith, is),
        ground (arith, is),
        subst (λ (x : Folder). Hangs x fs) is (old-Hangs f old fs forest e same),
      )
  reparented-Hangs (some p) old f g forest e same h =
      let u = f.user_id in
      let (a1, s1, h1) = bind-done (refuse_if f.is_root root_reparented) _ h in
      let (a2, s2, h2) = bind-done (refuse_if (p == f.id) own_parent) _ h1 in
      let (a3, s3, h3) = bind-done (refuse_if (is_taken fold f fs) flush_failed) _ h2 in
      let (new_parent, s4, h4) = bind-done (get_folder u fs p) _ h3 in
      let (a5, s5, h5) = bind-done (ensure_not_descendant u fs f.id new_parent.id) _ h4 in
      finish new_parent s4 s5 h5
    where
      got :
          (q : ℕ) (n : Folder)
          → get_folder f.user_id fs q ≡ done n
          → or_refuse (fetch_folder f.user_id fs q) folder_not_found ≡ done n
      got q n h = h

      finish :
          (n : Folder) {a : Unit {0}}
          → get_folder f.user_id fs p ≡ done n
          → ensure_not_descendant f.user_id fs f.id n.id ≡ done a
          → done (record f { parent_id = some n.id }) ≡ done g
          → (g.id ≡ f.id) × (g.user_id ≡ f.user_id) × Hangs g fs
      finish n found passed whole =
          let e' = or_refuse-some (fetch_folder f.user_id fs p) folder_not_found (got p n found) in
          let at : p ≡ n.id = sym (fetch-is_folder f.user_id fs p n e').0 in
          let r = subst (Rooted f.user_id fs) at (forest p n e') in
          let is : record f { parent_id = some n.id } ≡ g = ground (arith, whole) in
          (
            ground (arith, is),
            ground (arith, is),
            subst (λ (x : Folder). Hangs x fs) is
                (moved-Hangs (record f { parent_id = some n.id }) fs n.id r passed refl),
          )
