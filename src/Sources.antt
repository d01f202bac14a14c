-- ===== src/Sources.antt =====
-- What a stream plays: the sources that `create_stream` of backend/app/services/streams/service.py accepts,
-- and the assets that `extract_stream_assets` of backend/app/services/streams/helpers.py takes of them at
-- the start. Ids are numbers.
pub mod Extracted
pub mod Started
mod Tests
use youtube_translation.Base.{
  ℕ, ◌+◌, ◌==◌, Bool, true, false, not, ◌&&◌, ◌||◌, List, [], ◌∷◌, ◌++◌, Option, none, some,
  is_some, if◌then◌else◌, Text, codes, text_beq, lower, any, length, leb, mem_id,
}

-- The refusals, all of status 400 but those of a missing row, which are 404.
pub data Refusal : Type 0 where
  playlist_not_found collection_not_found type_mismatch video_collection_empty : Refusal
  audio_collection_empty source_conflict assets_not_allowed no_assets_selected assets_not_found :
      Refusal
  invalid_mix_mode video_required audio_required : Refusal
  playlist_missing no_video_asset audio_without_assets audio_collection_required file_missing :
      Refusal

pub data Checked {ℓ} (A : Type ℓ) : Type ℓ where
  accepted : A → Checked A
  refused : Refusal → Checked A

infixl 5 ◌>>=◌ ◌>>◌
abbrev pub ◌>>=◌ {ℓ κ} : {A : Type ℓ} {B : Type κ} → Checked A → (A → Checked B) → Checked B
accepted a >>= f = f a
refused e >>= f = refused e

abbrev pub ◌>>◌ {ℓ} : {B : Type ℓ} → Checked (Unit {0}) → Checked B → Checked B
m >> k = m >>= λ _. k

abbrev pub refuse_if : Bool → Refusal → Checked (Unit {0})
refuse_if true e = refused e
refuse_if false e = accepted tt

-- A row of `collection_items`, `playlist_items` or `stream_assets`, the latter two without a loop mode; the
-- asset is missing when it was deleted.
pub record Item : Type 0 where
  pub position : ℕ
  pub loop_mode : Option Text
  pub asset : Option ℕ

pub record Collection : Type 0 where
  pub collection_type : Text
  pub items : List Item

-- The rows of the user.
pub record Rows : Type 0 where
  pub playlist : ℕ → Option (List Item)
  pub collection : ℕ → Option Collection
  pub owns : ℕ → Bool

-- The fields of `StreamCreate` that name a source.
pub record Request : Type 0 where
  pub playlist_id : Option ℕ
  pub asset_ids : List ℕ
  pub video_collection_id : Option ℕ
  pub audio_collection_id : Option ℕ
  pub mix_mode : Option Text

pub data MixMode : Type 0 where
  video_only audio_only mixed : MixMode

-- What of a `Stream` and its relations says what it plays; `playlist_source` is the source type "playlist".
pub record Sources : Type 0 where
  pub playlist_source : Bool
  pub playlist : Option (List Item)
  pub video_collection : Option Collection
  pub audio_collection : Option Collection
  pub stream_assets : List Item
  pub mix_mode : MixMode

abbrev pub is_empty {ℓ} : {A : Type ℓ} → List A → Bool
is_empty [] = true
is_empty (x ∷ xs) = false

abbrev pub found_playlist : Rows → Option ℕ → Checked (Option (List Item))
found_playlist rows none = accepted none
found_playlist rows (some id) = elim (rows.playlist id) [
  | none ↦ refused playlist_not_found
  | some items ↦ accepted (some items)
]

-- `get_collection_for_user`, and the check for emptiness after it
abbrev pub typed_collection : Text → Refusal → Option Collection → Checked (Option Collection)
typed_collection expected empty none = refused collection_not_found
typed_collection expected empty (some c) = do
  refuse_if (not (text_beq c.collection_type expected)) type_mismatch
  refuse_if (is_empty c.items) empty
  accepted (some c)

abbrev pub found_collection : Rows → Text → Refusal → Option ℕ → Checked (Option Collection)
found_collection rows expected empty none = accepted none
found_collection rows expected empty (some id) =
    typed_collection expected empty (rows.collection id)

abbrev pub distinct_count : List ℕ → ℕ
distinct_count [] = 0
distinct_count (id ∷ ids) = (if mem_id id ids then 0 else 1) + distinct_count ids

abbrev pub owned_count : Rows → List ℕ → ℕ
owned_count rows [] = 0
owned_count rows (id ∷ ids) =
    (if mem_id id ids then 0 else if rows.owns id then 1 else 0) + owned_count rows ids

-- `_get_assets`: the query finds each of the user's assets once.
abbrev pub selected : Rows → Bool → List ℕ → Checked (List ℕ)
selected rows true ids = accepted []
selected rows false [] = refused no_assets_selected
selected rows false (id ∷ ids) = do
  refuse_if (not (owned_count rows (id ∷ ids) == distinct_count (id ∷ ids))) assets_not_found
  accepted (id ∷ ids)

abbrev pub known_mix_mode : Text → Checked MixMode
known_mix_mode mode =
    if text_beq mode (codes "video_only")
    then accepted video_only
    else if text_beq mode (codes "audio_only")
    then accepted audio_only
    else if text_beq mode (codes "mixed")
    then accepted mixed
    else refused invalid_mix_mode

abbrev pub default_mix_mode : Bool → Bool → MixMode
default_mix_mode true true = mixed
default_mix_mode true false = video_only
default_mix_mode false true = audio_only
default_mix_mode false false = video_only

-- `_determine_mix_mode`
unfoldable pub determine_mix_mode : Option Text → Bool → Bool → Checked MixMode
determine_mix_mode none video audio = accepted (default_mix_mode video audio)
determine_mix_mode (some mode) video audio = known_mix_mode (lower mode)

abbrev pub needs_video : MixMode → Bool
needs_video audio_only = false
needs_video _ = true

abbrev pub needs_audio : MixMode → Bool
needs_audio video_only = false
needs_audio _ = true

-- `enumerate(selected_assets)`, as rows of `stream_assets`
unfoldable pub asset_links : ℕ → List ℕ → List Item
asset_links position [] = []
asset_links position (id ∷ ids) =
    record { position = position; loop_mode = none; asset = some id }
    ∷ asset_links (position + 1) ids

-- The checks of `create_stream` up to the schedule, and the sources of the row that it adds.
unfoldable pub create_sources : Rows → Request → Checked Sources
unfolding determine_mix_mode asset_links
create_sources rows r = do
  playlist ← found_playlist rows r.playlist_id
  video ←
      found_collection rows (codes "video_background") video_collection_empty r.video_collection_id
  audio ←
      found_collection rows (codes "audio_playlist") audio_collection_empty r.audio_collection_id
  refuse_if (is_some playlist && (is_some video || is_some audio)) source_conflict
  refuse_if ((is_some video || is_some audio) && not (is_empty r.asset_ids)) assets_not_allowed
  assets ← selected rows (is_some playlist || is_some video || is_some audio) r.asset_ids
  mode ← determine_mix_mode r.mix_mode (is_some video) (is_some audio)
  refuse_if (needs_video mode && not (is_some playlist || not (is_empty assets) || is_some video))
      video_required
  refuse_if (needs_audio mode && not (is_some audio)) audio_required
  accepted (record {
    playlist_source = is_some playlist;
    playlist = playlist;
    video_collection = video;
    audio_collection = audio;
    stream_assets = asset_links 0 assets;
    mix_mode = mode;
  })

-- `sorted(items, key=lambda x: x.position)`
unfoldable pub insert_row : Item → List Item → List Item
insert_row item [] = item ∷ []
insert_row item (other ∷ items) =
    let rest = insert_row item items in
    if leb item.position other.position then item ∷ other ∷ items else other ∷ rest

unfoldable pub by_position : List Item → List Item
unfolding insert_row
by_position [] = []
by_position (item ∷ items) = insert_row item (by_position items)

-- An entry of the selection: the asset and its loop mode.
abbrev pub Payload : Type 0
Payload = ℕ × Text

-- `item.loop_mode or "loop"`
abbrev pub or_loop : Option Text → Text
or_loop none = codes "loop"
or_loop (some []) = codes "loop"
or_loop (some (c ∷ s)) = c ∷ s

-- The loop over the items, given which assets have their file.
unfoldable pub payloads : (ℕ → Bool) → List Item → Checked (List Payload)
payloads stored [] = accepted []
payloads stored (item ∷ items) = elim item.asset [
  | none ↦ payloads stored items
  | some id ↦
      if stored id
      then (payloads stored items >>= λ rest. accepted ((id, or_loop item.loop_mode) ∷ rest))
      else refused file_missing
]

-- Rows of a playlist or of a stream's own assets all loop.
abbrev pub looping : List Item → List Item
looping [] = []
looping (item ∷ items) = record item { loop_mode = none } ∷ looping items

abbrev pub video_items :
    Sources → Option Collection → Bool → Option (List Item) → Checked (List Item)
video_items s (some c) source playlist = accepted c.items
video_items s none true none = refused playlist_missing
video_items s none true (some items) = accepted (looping items)
video_items s none false playlist = accepted (looping s.stream_assets)

-- `StreamAssetSelection`
pub record Selection : Type 0 where
  pub video_assets : List Payload
  pub audio_assets : List Payload
  pub mode : MixMode

abbrev pub is_mixed : MixMode → Bool
is_mixed mixed = true
is_mixed _ = false

abbrev pub audio_payloads : (ℕ → Bool) → MixMode → Option Collection → Checked (List Payload)
audio_payloads stored video_only audio = accepted []
audio_payloads stored audio_only none = accepted []
audio_payloads stored mixed none = refused audio_collection_required
audio_payloads stored mode (some c) = do
  refuse_if (is_empty c.items) audio_without_assets
  payloads stored (by_position c.items)

-- `extract_stream_assets`
unfoldable pub extract_stream_assets : (ℕ → Bool) → Sources → Checked Selection
unfolding payloads by_position
extract_stream_assets stored s = do
  items ← video_items s s.video_collection s.playlist_source s.playlist
  video ← payloads stored (by_position items)
  refuse_if (is_empty video && not (is_mixed s.mix_mode)) no_video_asset
  audio ← audio_payloads stored s.mix_mode s.audio_collection
  accepted (record { video_assets = video; audio_assets = audio; mode = s.mix_mode })
