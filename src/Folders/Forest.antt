-- ===== src/Folders/Forest.antt =====
-- The folders of a user form a forest: what the recursive query finds, and that moves keep it so.
use youtube_translation.Base.{
  ℕ, zero, suc, ◌≡◌, ◌≤◌, ◌==◌, true, List, [], ◌∷◌, none, some, length, find?, refl, sym, subst,
  ap, mem_id, All, IsDistinct, length-distinct-le, Bool-cases, inl, inr, arith,
}
use youtube_translation.Folders.{Folder, fetch_folder, is_folder, ancestors}

-- A folder of the user from which the parents lead to one that has none.
pub data Rooted (user_id : ℕ) (fs : List Folder) : ℕ → Type 0 where
  root :
      {id : ℕ} (f : Folder)
      → fetch_folder user_id fs id ≡ some f
      → f.parent_id ≡ none
      → Rooted user_id fs id
  child :
      {id : ℕ} (f : Folder) (parent : ℕ)
      → fetch_folder user_id fs id ≡ some f
      → f.parent_id ≡ some parent
      → Rooted user_id fs parent
      → Rooted user_id fs id

-- Every folder of the user is below such a one.
abbrev pub IsForest : ℕ → List Folder → Type 0
IsForest user_id fs =
    (id : ℕ) (f : Folder) → fetch_folder user_id fs id ≡ some f → Rooted user_id fs id

-- What is fetched is the row that was asked for.
pub fetch-is_folder :
    (user_id : ℕ) (fs : List Folder) (id : ℕ) (f : Folder)
    → fetch_folder user_id fs id ≡ some f
    → (f.id ≡ id) × (f.user_id ≡ user_id)
unfolding fetch_folder
fetch-is_folder user_id fs id f h = found fs h
  where
    found :
        (gs : List Folder)
        → find? (is_folder user_id id) gs ≡ some f
        → (f.id ≡ id) × (f.user_id ≡ user_id)
    found [] e = cc
    found (g ∷ gs) e = ground (arith, found gs)

module _ {user_id : ℕ} {fs : List Folder} where
  -- The folder and those above it.
  unfoldable pub chain : {id : ℕ} → Rooted user_id fs id → List ℕ
  chain {id} (root f e none_above) = id ∷ []
  chain {id} (child f parent e up r) = id ∷ chain r

  -- The chain of a folder does not depend on how it is found.
  chain_unique :
      {a b : ℕ} (r : Rooted user_id fs a) (r' : Rooted user_id fs b) → a ≡ b → chain r ≡ chain r'
  unfolding chain
  chain_unique {a} {b} (root f e n) (root f' e' n') same = ground (arith, same)
  chain_unique {a} {b} (root f e n) (child f' p' e' u' r') same =
      let e'' = subst (λ i. fetch_folder user_id fs i ≡ some f') (sym same) e' in
      absurd (ground (arith, e, e'', n, u'))
  chain_unique {a} {b} (child f p e u r) (root f' e' n') same =
      let e'' = subst (λ i. fetch_folder user_id fs i ≡ some f') (sym same) e' in
      absurd (ground (arith, e, e'', u, n'))
  chain_unique {a} {b} (child f p e u r) (child f' p' e' u' r') same =
      let e'' = subst (λ i. fetch_folder user_id fs i ≡ some f') (sym same) e' in
      let up : p ≡ p' = ground (arith, e, e'', u, u') in ground (arith, same, chain_unique r r' up)

  -- The query finds the chain, given as many rounds as it has folders.
  ancestors-chain :
      {id : ℕ} (r : Rooted user_id fs id) (rounds : ℕ)
      → length (chain r) ≤ rounds
      → ancestors rounds user_id fs id ≡ some (chain r)
  unfolding ancestors chain
  ancestors-chain r zero h = absurd (not_none r h)
    where
      not_none : {a : ℕ} (q : Rooted user_id fs a) → length (chain q) ≤ 0 → ⊥
      not_none (root f e n) h = omega arith
      not_none (child f p e u q) h = omega arith
  ancestors-chain {id} (root f e n) (suc rounds) h =
      rw (e, ancestors) (rw n (ground (arith, fetch-is_folder user_id fs id f e)))
  ancestors-chain {id} (child f p e u r) (suc rounds) h =
      rw (e, ancestors)
        (rw u (
          rw (ancestors-chain r rounds (omega arith))
            (ground (arith, fetch-is_folder user_id fs id f e))))

abbrev pub ids_of : List Folder → List ℕ
ids_of [] = []
ids_of (f ∷ fs) = f.id ∷ ids_of fs

length-ids : (fs : List Folder) → length (ids_of fs) ≡ length fs
length-ids [] = refl
length-ids (f ∷ fs) = ap suc (length-ids fs)

fetched-mem :
    (user_id : ℕ) (fs : List Folder) (id : ℕ) (f : Folder)
    → fetch_folder user_id fs id ≡ some f
    → mem_id id (ids_of fs) ≡ true
unfolding fetch_folder
fetched-mem user_id [] id f h = cc
fetched-mem user_id (g ∷ fs) id f h = ground (arith, fetched-mem user_id fs id f)

module _ {user_id : ℕ} {fs : List Folder} where
  chain-mem : {id : ℕ} (r : Rooted user_id fs id) → All (λ i. mem_id i (ids_of fs) ≡ true) (chain r)
  unfolding chain
  chain-mem {id} (root f e n) = (fetched-mem user_id fs id f e, tt)
  chain-mem {id} (child f p e u r) = (fetched-mem user_id fs id f e, chain-mem r)

  -- A member of a chain has a chain of its own, which is no longer.
  chain_part :
      {id : ℕ} (r : Rooted user_id fs id) (a : ℕ)
      → mem_id a (chain r) ≡ true
      → (r' : Rooted user_id fs a) × (length (chain r') ≤ length (chain r))
  unfolding chain
  chain_part {id} (root f e n) a h =
      let same : a ≡ id = ground (arith, h) in (root f (rw same e) n, omega arith)
  chain_part {id} (child f p e u r) a h = elim (Bool-cases (id == a)) [
    | inl eq ↦ let same : a ≡ id = ground (arith, eq) in (child f p (rw same e) u r, omega arith)
    | inr ne ↦
        let (r', shorter) = chain_part r a (ground (arith, h, ne)) in (r', omega (arith, shorter))
  ]

  pub chain-IsDistinct : {id : ℕ} (r : Rooted user_id fs id) → IsDistinct (chain r)
  unfolding chain
  chain-IsDistinct (root f e n) = (refl, tt)
  chain-IsDistinct {id} (child f p e u r) = elim (Bool-cases (mem_id id (chain r))) [
    | inl again ↦
        let (r', shorter) = chain_part r id again in
        absurd (omega (arith, ap length (chain_unique (child f p e u r) r' refl), shorter))
    | inr fresh ↦ (fresh, chain-IsDistinct r)
  ]

  -- The query of a forest ends within as many rounds as there are folders, with the chain.
  pub ancestors_exact :
      {id : ℕ} (r : Rooted user_id fs id)
      → ancestors (suc (length fs)) user_id fs id ≡ some (chain r)
  ancestors_exact r = ancestors-chain r (suc (length fs)) (
      omega (
        arith,
        length-ids fs,
        length-distinct-le (chain r) (ids_of fs) (chain-IsDistinct r) (chain-mem r),
      ))
