-- ===== src/Folders.antt =====
-- The folders of a media library: backend/app/services/media_folders/service.py over the tables of
-- backend/migrations/015_media_folders.sql. Ids are numbers, and a new one is an argument.
pub mod Forest
pub mod Invariant
pub mod Reached
pub mod Operations
pub mod Linked
pub mod Assets
pub mod Kept
pub mod Moves
mod Tests
use youtube_translation.Base.{
  ℕ, zero, suc, ◌≡◌, ◌==◌, Bool, true, false, not, ◌&&◌, ◌||◌, List, [], ◌∷◌, ◌++◌, map, Option,
  none, some, if◌then◌else◌, Text, codes, text_beq, strip, any, filter, find?, length, mem_id,
}

pub record Folder : Type 0 where
  pub id : ℕ
  pub user_id : ℕ
  pub parent_id : Option ℕ
  pub name : Text
  pub is_root : Bool

-- A row of `asset_folder_links`
pub record Link : Type 0 where
  pub asset_id : ℕ
  pub folder_id : ℕ

-- The three tables; an asset is its id and that of its owner.
pub record Library : Type 0 where
  pub folders : List Folder
  pub links : List Link
  pub assets : List (ℕ × ℕ)

-- The exceptions; `endless` is a recursive query that has no end, and `root_not_made` and `flush_failed`
-- are the `IntegrityError` of a flush that no handler stands round.
pub data Refusal : Type 0 where
  folder_not_found parent_not_found asset_not_found link_not_found : Refusal
  empty_name name_taken root_not_made root_reparented own_parent into_descendant endless : Refusal
  root_deleted not_empty already_linked no_assets flush_failed : Refusal
  missing_assets : List ℕ → Refusal

pub data Reply {ℓ} (A : Type ℓ) : Type ℓ where
  done : A → Reply A
  refused : Refusal → Reply A

infixl 5 ◌>>=◌ ◌>>◌
abbrev pub ◌>>=◌ {ℓ κ} : {A : Type ℓ} {B : Type κ} → Reply A → (A → Reply B) → Reply B
done a >>= f = f a
refused e >>= f = refused e

abbrev pub ◌>>◌ {ℓ} : {B : Type ℓ} → Reply (Unit {0}) → Reply B → Reply B
m >> k = m >>= λ _. k

abbrev pub refuse_if : Bool → Refusal → Reply (Unit {0})
refuse_if true e = refused e
refuse_if false e = done tt

abbrev pub or_refuse {ℓ} : {A : Type ℓ} → Option A → Refusal → Reply A
or_refuse none e = refused e
or_refuse (some a) e = done a

-- `_fetch_folder`
abbrev pub is_folder : ℕ → ℕ → Folder → Bool
is_folder user_id id f = (f.id == id) && (f.user_id == user_id)

unfoldable pub fetch_folder : ℕ → List Folder → ℕ → Option Folder
fetch_folder user_id fs id = find? (is_folder user_id id) fs

unfoldable pub get_folder : ℕ → List Folder → ℕ → Reply Folder
unfolding fetch_folder
get_folder user_id fs id = or_refuse (fetch_folder user_id fs id) folder_not_found

abbrev pub same_parent : Option ℕ → Option ℕ → Bool
same_parent none none = true
same_parent none (some b) = false
same_parent (some a) none = false
same_parent (some a) (some b) = a == b

-- Two rows of which the unique indexes admit one; `fold` is the `lower` of the database.
unfoldable pub clash : (Text → Text) → Folder → Folder → Bool
clash fold f g =
    (f.id == g.id)
    || ((f.user_id == g.user_id)
        && ((same_parent f.parent_id g.parent_id && text_beq (fold f.name) (fold g.name))
            || (f.is_root && g.is_root)))

abbrev pub new_root : ℕ → ℕ → Folder
new_root user_id fresh = record {
  id = fresh;
  user_id = user_id;
  parent_id = none;
  name = codes "root";
  is_root = true;
}

-- `_ensure_root_folder`, `flush` included, by the root that is found.
abbrev pub or_new_root :
    (Text → Text) → ℕ → ℕ → List Folder → Option Folder → Reply (Folder × List Folder)
or_new_root fold user_id fresh fs (some root) = done (root, fs)
or_new_root fold user_id fresh fs none =
    if any (clash fold (new_root user_id fresh)) fs
    then refused root_not_made
    else done (new_root user_id fresh, fs ++ new_root user_id fresh ∷ [])

abbrev pub is_root_of : ℕ → Folder → Bool
is_root_of user_id f = (f.user_id == user_id) && f.is_root

unfoldable pub ensure_root_folder :
    (Text → Text) → ℕ → ℕ → List Folder → Reply (Folder × List Folder)
unfolding clash
ensure_root_folder fold user_id fresh fs =
    or_new_root fold user_id fresh fs (find? (is_root_of user_id) fs)

-- `_resolve_parent`
unfoldable pub resolve_parent :
    (Text → Text) → ℕ → ℕ → Option ℕ → List Folder → Reply (Folder × List Folder)
unfolding ensure_root_folder fetch_folder
resolve_parent fold user_id fresh none fs = ensure_root_folder fold user_id fresh fs
resolve_parent fold user_id fresh (some parent_id) fs = do
  parent ← or_refuse (fetch_folder user_id fs parent_id) parent_not_found
  done (parent, fs)

abbrev pub is_empty : Text → Bool
is_empty [] = true
is_empty (c ∷ s) = false

abbrev pub new_folder : ℕ → ℕ → ℕ → Text → Folder
new_folder user_id fresh parent_id name = record {
  id = fresh;
  user_id = user_id;
  parent_id = some parent_id;
  name = strip name;
  is_root = false;
}

-- `create_folder`, with the ids that a new root and the new folder would get.
unfoldable pub create_folder :
    (Text → Text) → ℕ → ℕ → ℕ → Option ℕ → Text → Library → Reply (Library × Folder)
unfolding resolve_parent clash strip
create_folder fold user_id fresh_root fresh parent_id name db = do
  (parent, fs) ← resolve_parent fold user_id fresh_root parent_id db.folders
  refuse_if (is_empty (strip name)) empty_name
  refuse_if (any (clash fold (new_folder user_id fresh parent.id name)) fs) name_taken
  done (
    record db { folders = fs ++ new_folder user_id fresh parent.id name ∷ [] },
    new_folder user_id fresh parent.id name,
  )

-- The recursive query of `_ensure_not_descendant`: the folder and those above it. Each round of it
-- adds one row; `none` means that the rounds ran out.
unfoldable pub ancestors : ℕ → ℕ → List Folder → ℕ → Option (List ℕ)
ancestors zero user_id fs start = none
ancestors (suc rounds) user_id fs start = elim (fetch_folder user_id fs start) [
  | none ↦ some []
  | some f ↦ elim f.parent_id [
    | none ↦ some (f.id ∷ [])
    | some parent ↦ elim (ancestors rounds user_id fs parent) [
      | none ↦ none
      | some above ↦ some (f.id ∷ above)
    ]
  ]
]

-- `_ensure_not_descendant`
unfoldable pub ensure_not_descendant : ℕ → List Folder → ℕ → ℕ → Reply (Unit {0})
unfolding ancestors
ensure_not_descendant user_id fs folder_id candidate_parent_id = do
  refuse_if (candidate_parent_id == folder_id) into_descendant
  ids ← or_refuse (ancestors (suc (length fs)) user_id fs candidate_parent_id) endless
  refuse_if (mem_id folder_id ids) into_descendant

abbrev pub renamed : Option Text → Folder → Reply Folder
renamed none f = done f
renamed (some name) f = do
  refuse_if (is_empty (strip name)) empty_name
  done (record f { name = strip name })

-- The unique indexes refuse the row beside the others of its table.
abbrev pub is_taken : (Text → Text) → Folder → List Folder → Bool
is_taken fold f fs = any (clash fold f) (filter (λ g. not (is_folder f.user_id f.id g)) fs)

-- The lookup of the new parent flushes the new name first, beside the old parent's other children.
abbrev pub reparented : (Text → Text) → ℕ → List Folder → Option ℕ → Folder → Reply Folder
reparented fold user_id fs none f = done f
reparented fold user_id fs (some parent_id) f = do
  refuse_if f.is_root root_reparented
  refuse_if (parent_id == f.id) own_parent
  refuse_if (is_taken fold f fs) flush_failed
  new_parent ← get_folder user_id fs parent_id
  ensure_not_descendant user_id fs f.id new_parent.id
  done (record f { parent_id = some new_parent.id })

-- The row with the key of `f`, in place of which `f` is written.
unfoldable pub replace_folder : Folder → List Folder → List Folder
replace_folder f [] = []
replace_folder f (g ∷ fs) = (if is_folder f.user_id f.id g then f else g) ∷ replace_folder f fs

-- `update_folder`
unfoldable pub update_folder :
    (Text → Text) → ℕ → ℕ → Option Text → Option ℕ → Library → Reply (Library × Folder)
unfolding get_folder ensure_not_descendant replace_folder clash strip
update_folder fold user_id folder_id name parent_id db = do
  old ← get_folder user_id db.folders folder_id
  named ← renamed name old
  folder ← reparented fold user_id db.folders parent_id named
  refuse_if (is_taken fold folder db.folders) name_taken
  done (record db { folders = replace_folder folder db.folders }, folder)

abbrev pub has_parent : ℕ → Folder → Bool
has_parent id f = same_parent f.parent_id (some id)

-- `delete_folder`
unfoldable pub delete_folder : ℕ → ℕ → Library → Reply Library
unfolding get_folder
delete_folder user_id folder_id db = do
  folder ← get_folder user_id db.folders folder_id
  refuse_if folder.is_root root_deleted
  refuse_if
      (any (has_parent folder.id) db.folders
        || any (λ (l : Link). l.folder_id == folder.id) db.links)
      not_empty
  done (record db { folders = filter (λ (f : Folder). not (f.id == folder.id)) db.folders })
