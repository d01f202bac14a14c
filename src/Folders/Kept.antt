-- ===== src/Folders/Kept.antt =====
-- Every operation of the service keeps every user's folders a forest.
use youtube_translation.Base.{
  ℕ, ◌≡◌, ◌≢◌, ◌==◌, Bool, true, false, List, [], ◌∷◌, ◌++◌, Option, none, some, any, find?, refl,
  sym, subst, ap, arith, Bool-cases, inl, inr, Option-cases, ◌∙◌, Text,
}
use youtube_translation.Folders.{
  Folder, Reply, done, refused, Refusal, ◌>>=◌, refuse_if, or_refuse, fetch_folder, is_folder,
  replace_folder, has_parent, ensure_root_folder, resolve_parent, new_root, or_new_root, is_root_of,
  parent_not_found,
}
use youtube_translation.Folders.Forest.{Rooted, root, child, IsForest, fetch-is_folder}
use youtube_translation.Folders.Moves.{
  Hangs, replace-IsForest, fetch-replace_ne, fetch-append, fetch-append_new, keep_rooted,
  rooted-without, fetch-without, without,
}

-- The folders of each user are a forest.
abbrev pub AllForests : List Folder → Type 0
AllForests fs = (user_id : ℕ) → IsForest user_id fs

pub bind-done {ℓ κ} :
    {A : Type ℓ} {B : Type κ} (m : Reply A) (f : A → Reply B) {b : B}
    → (m >>= f) ≡ done b
    → (a : A) × (m ≡ done a) × (f a ≡ done b)
bind-done (done a) f h = (a, refl, h)
bind-done (refused e) f h = cc

pub refuse_if-false : (b : Bool) (e : Refusal) {u : Unit {0}} → refuse_if b e ≡ done u → b ≡ false
refuse_if-false true e h = cc
refuse_if-false false e h = refl

pub or_refuse-some {ℓ} :
    {A : Type ℓ} (o : Option A) (e : Refusal) {a : A} → or_refuse o e ≡ done a → o ≡ some a
or_refuse-some none e h = cc
or_refuse-some (some x) e h = ground (arith, h)

-- A new folder with no parent, or with one of the folders of its user.
module _ (f : Folder) (fs : List Folder) where
  appended : (u j : ℕ) (g : Folder) → fetch_folder u (f ∷ []) j ≡ some g → (g ≡ f) × (u ≡ f.user_id)
  unfolding fetch_folder
  appended u j g h = ground (arith, h)

  pub append-IsForest :
      AllForests fs
      → ((p : ℕ) → f.parent_id ≡ some p → Rooted f.user_id fs p)
      → AllForests (fs ++ f ∷ [])
  append-IsForest forest hangs u j g h = elim (Option-cases (fetch_folder u fs j)) [
    | inr (o, e) ↦ keep_rooted kept (forest u j o e)
    | inl new ↦
        let e = sym (fetch-append_new u j fs (f ∷ []) new) ∙ h in
        let (is, owner) = appended u j g e in
        elim (Option-cases g.parent_id) [
          | inl no_parent ↦ root g h no_parent
          | inr (p, up) ↦
              let below = hangs p (ap (λ (x : Folder). x.parent_id) (sym is) ∙ up) in
              child g p h up (keep_rooted kept (subst (λ v. Rooted v fs p) (sym owner) below))
        ]
  ]
    where
      kept :
          (k : ℕ) (x : Folder)
          → fetch_folder u fs k ≡ some x
          → fetch_folder u (fs ++ f ∷ []) k ≡ some x
      kept k x e = fetch-append u k x fs (f ∷ []) e

pub delete-IsForest :
    (id : ℕ) (fs : List Folder)
    → any (has_parent id) fs ≡ false
    → AllForests fs
    → AllForests (without id fs)
delete-IsForest id fs leaf forest u j f h =
    let other : j ≢ id = λ same. ground (arith, fetch-without u j id fs, h, same) in
    rooted-without u id fs leaf (forest u j f (ground (arith, fetch-without u j id fs, h))) other

-- A write of a folder of one user keeps the forests of all.
pub write-IsForest :
    (f : Folder) (fs : List Folder) → AllForests fs → Hangs f fs → AllForests (replace_folder f fs)
write-IsForest f fs forest hang u = elim (Bool-cases (u == f.user_id)) [
  | inl same ↦
      let is : u ≡ f.user_id = ground (arith, same) in
      subst (λ v. IsForest v (replace_folder f fs)) (sym is)
        (replace-IsForest f fs (forest f.user_id) hang)
  | inr other ↦ λ j g h.
      let alike = λ (k : ℕ). fetch-replace_ne u k f fs (ground (arith, other)) in
      keep_rooted (λ k x e. alike k ∙ e) (forest u j g (sym (alike j) ∙ h))
]

-- The row of a root is found by its id, or another with that id and owner is.
root_fetched :
    (u : ℕ) (r : Folder) (fs : List Folder)
    → find? (is_root_of u) fs ≡ some r
    → (g : Folder) × (fetch_folder u fs r.id ≡ some g)
unfolding fetch_folder
root_fetched u r [] h = cc
root_fetched u r (o ∷ fs) h = elim (Bool-cases (is_folder u r.id o)) [
  | inl here ↦ (o, rw here refl)
  | inr elsewhere ↦
      let rest = root_fetched u r fs (ground (arith, h, elsewhere)) in (rest.0, rw elsewhere rest.1)
]

module _ (fold : Text → Text) (u fresh : ℕ) where
  ensure_root_lem :
      (fs : List Folder) {parent : Folder} {fs' : List Folder}
      → ensure_root_folder fold u fresh fs ≡ done (parent, fs')
      → AllForests fs
      → AllForests fs' × Rooted u fs' parent.id
  unfolding ensure_root_folder
  ensure_root_lem fs {parent} {fs'} h forest = by_root (find? (is_root_of u) fs) refl h
    where
      by_root :
          (o : Option Folder)
          → find? (is_root_of u) fs ≡ o
          → or_new_root fold u fresh fs o ≡ done (parent, fs')
          → AllForests fs' × Rooted u fs' parent.id
      by_root (some r) e k =
          let (g, found) = root_fetched u r fs e in
          let same : fs ≡ fs' = ground (arith, k) in
          let is : r ≡ parent = ground (arith, k) in
          (
            subst AllForests same forest,
            subst (λ v. Rooted u v parent.id) same
                (subst (λ (p : Folder). Rooted u fs p.id) is (forest u r.id g found)),
          )
      by_root none e k =
          let same : (fs ++ new_root u fresh ∷ []) ≡ fs' = ground (arith, k) in
          let is : new_root u fresh ≡ parent = ground (arith, k) in
          let all' = append-IsForest (new_root u fresh) fs forest (λ p up. absurd (cc up)) in
          let (g, found) =
            root_fetched u (new_root u fresh) (fs ++ new_root u fresh ∷ []) (last fs e) in
          (
            subst AllForests same all',
            subst (λ v. Rooted u v parent.id) same
                (subst (λ (p : Folder). Rooted u (fs ++ new_root u fresh ∷ []) p.id) is
                  (all' u fresh g found)),
          )
        where
          last :
              (gs : List Folder)
              → find? (is_root_of u) gs ≡ none
              → find? (is_root_of u) (gs ++ new_root u fresh ∷ []) ≡ some (new_root u fresh)
          last [] n = ground arith
          last (x ∷ gs) n = ground (arith, n, last gs)

  pub resolve_parent_lem :
      (pid : Option ℕ) (fs : List Folder) {parent : Folder} {fs' : List Folder}
      → resolve_parent fold u fresh pid fs ≡ done (parent, fs')
      → AllForests fs
      → AllForests fs' × Rooted u fs' parent.id
  unfolding resolve_parent
  resolve_parent_lem none fs h forest = ensure_root_lem fs h forest
  resolve_parent_lem (some p) fs {parent} {fs'} h forest =
      let (f, found, whole) = bind-done (or_refuse (fetch_folder u fs p) parent_not_found) _ h in
      let e = or_refuse-some (fetch_folder u fs p) parent_not_found found in
      let same : fs ≡ fs' = ground (arith, whole) in
      let is : f ≡ parent = ground (arith, whole) in
      let named : p ≡ f.id = sym (fetch-is_folder u fs p f e).0 in
      (
        subst AllForests same forest,
        subst (λ v. Rooted u v parent.id) same
            (subst (λ (x : Folder). Rooted u fs x.id) is
              (subst (Rooted u fs) named (forest u p f e))),
      )
