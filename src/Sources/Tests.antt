-- ===== src/Sources/Tests.antt =====
-- A stream of a video collection, and one that plays audio alone.
use youtube_translation.Base.{
  ℕ, ◌≡◌, ◌==◌, Bool, true, false, [], ◌∷◌, Option, none, some, if◌then◌else◌, codes, refl, lower,
  subst,
}
use youtube_translation.Sources.{
  refused, Item, Collection, Rows, Request, video_only, audio_only, Sources, create_sources,
  extract_stream_assets, no_video_asset,
}
use youtube_translation.Sources.Extracted.{audio_alone_never_starts}
use youtube_translation.Sources.Started.{IsStarted, HasFiles, IsWhole, created-IsStarted}

abbrev entry : ℕ → ℕ → Item
entry position asset = record {
  position = position;
  loop_mode = some (codes "once");
  asset = some asset;
}

abbrev backgrounds : Collection
backgrounds = record {
  collection_type = codes "video_background";
  items = entry 2 11 ∷ entry 1 12 ∷ [];
}

abbrev songs : Collection
songs = record { collection_type = codes "audio_playlist"; items = entry 0 21 ∷ [] }

abbrev rows : Rows
rows = record {
  playlist = λ _. none;
  collection = λ id. if id == 1 then some backgrounds else if id == 2 then some songs else none;
  owns = λ _. true;
}

abbrev stored : ℕ → Bool
stored id = true

abbrev video_request : Request
video_request = record {
  playlist_id = none;
  asset_ids = [];
  video_collection_id = some 1;
  audio_collection_id = none;
  mix_mode = none;
}

abbrev audio_request : Request
audio_request = record video_request {
  video_collection_id = none;
  audio_collection_id = some 2;
  mix_mode = some (codes "Audio_Only");
}

abbrev video_stream : Sources
video_stream = record {
  playlist_source = false;
  playlist = none;
  video_collection = some backgrounds;
  audio_collection = none;
  stream_assets = [];
  mix_mode = video_only;
}

abbrev audio_stream : Sources
audio_stream = record video_stream {
  video_collection = none;
  audio_collection = some songs;
  mix_mode = audio_only;
}

both_stored : IsWhole stored backgrounds.items
both_stored = (λ e. cc, ((11, refl, refl), ((12, refl, refl), tt)))

same : (c : Collection) → ◌≡◌ {A = Option Collection} (some backgrounds) (some c) → backgrounds ≡ c
same c e = cc e

video_files : HasFiles stored video_stream
video_files = record {
  video = λ c e. subst (λ (k : Collection). IsWhole stored k.items) (same c e) both_stored;
  audio = λ c e. cc;
  playlist = λ items e. cc;
  links = tt;
}

created-IsStarted_example : IsStarted stored video_stream
unfolding create_sources
created-IsStarted_example =
    created-IsStarted stored rows video_request video_stream refl (λ e. cc) video_files

audio_alone_never_starts_example :
    extract_stream_assets stored audio_stream ≡ refused no_video_asset
unfolding create_sources lower
audio_alone_never_starts_example =
    audio_alone_never_starts rows audio_request audio_stream stored refl refl refl
