-- ===== src/Sources/Extracted.antt =====
-- What the start of a stream makes of the sources that its creation accepted.
use youtube_translation.Base.{
  ℕ, ◌≡◌, Bool, true, false, not, ◌&&◌, ◌||◌, List, [], ◌∷◌, Option, none, some, is_some, codes,
  refl, sym, subst, arith,
}
use youtube_translation.Sources.{
  Refusal, Checked, accepted, refused, ◌>>=◌, refuse_if, Item, Collection, Rows, Request, MixMode,
  video_only, audio_only, mixed, Sources, is_empty, found_playlist, found_collection, selected,
  determine_mix_mode, needs_video, needs_audio, asset_links, create_sources, by_position, payloads,
  extract_stream_assets, no_video_asset, video_collection_empty, audio_collection_empty,
  source_conflict, assets_not_allowed, video_required, audio_required,
}

pub bind-accepted {ℓ κ} :
    {A : Type ℓ} {B : Type κ} (m : Checked A) (f : A → Checked B) {b : B}
    → (m >>= f) ≡ accepted b
    → (a : A) × (m ≡ accepted a) × (f a ≡ accepted b)
bind-accepted (accepted a) f h = (a, refl, h)
bind-accepted (refused e) f h = cc

refuse_if-accepted :
    (b : Bool) (e : Refusal) {u : Unit {0}} → refuse_if b e ≡ accepted u → b ≡ false
refuse_if-accepted true e h = cc
refuse_if-accepted false e h = refl

-- What the checks of a creation have let through.
pub record IsCreated (s : Sources) : Type 0 where
  pub listed : s.playlist_source ≡ is_some s.playlist
  pub one_source :
      (is_some s.playlist && (is_some s.video_collection || is_some s.audio_collection)) ≡ false
  pub own_assets :
      (is_some s.playlist || is_some s.video_collection || is_some s.audio_collection) ≡ true
      → s.stream_assets ≡ []
  pub has_video :
      (needs_video s.mix_mode
        && not (is_some s.playlist || not (is_empty s.stream_assets) || is_some s.video_collection))
      ≡ false
  pub has_audio : (needs_audio s.mix_mode && not (is_some s.audio_collection)) ≡ false

no_links :
    (rows : Rows) (b : Bool) (ids assets : List ℕ)
    → selected rows b ids ≡ accepted assets
    → b ≡ true
    → assets ≡ []
no_links rows true ids assets h e = ground (arith, h)
no_links rows false ids assets h e = cc

links-empty : (assets : List ℕ) → is_empty (asset_links 0 assets) ≡ is_empty assets
unfolding asset_links
links-empty [] = refl
links-empty (a ∷ assets) = refl

links_nil : (assets : List ℕ) → assets ≡ [] → asset_links 0 assets ≡ []
unfolding asset_links
links_nil [] e = refl
links_nil (a ∷ assets) e = cc

pub create_sources-IsCreated :
    (rows : Rows) (r : Request) (s : Sources) → create_sources rows r ≡ accepted s → IsCreated s
unfolding create_sources
create_sources-IsCreated rows r s h =
    let (playlist, s1, h1) = bind-accepted (found_playlist rows r.playlist_id) _ h in
    let (video, s2, h2) =
      bind-accepted
        (found_collection rows (codes "video_background") video_collection_empty
          r.video_collection_id)
        _ h1 in
    let (audio, s3, h3) =
      bind-accepted
        (found_collection rows (codes "audio_playlist") audio_collection_empty
          r.audio_collection_id)
        _ h2 in
    let (a4, s4, h4) =
      bind-accepted
        (refuse_if (is_some playlist && (is_some video || is_some audio)) source_conflict) _ h3 in
    let (a5, s5, h5) =
      bind-accepted
        (refuse_if ((is_some video || is_some audio) && not (is_empty r.asset_ids))
          assets_not_allowed)
        _ h4 in
    let any_source = is_some playlist || is_some video || is_some audio in
    let (assets, s6, h6) = bind-accepted (selected rows any_source r.asset_ids) _ h5 in
    let (mode, s7, h7) =
      bind-accepted (determine_mix_mode r.mix_mode (is_some video) (is_some audio)) _ h6 in
    let lacks_video =
      needs_video mode && not (is_some playlist || not (is_empty assets) || is_some video) in
    let (a8, s8, h8) = bind-accepted (refuse_if lacks_video video_required) _ h7 in
    let lacks_audio = needs_audio mode && not (is_some audio) in
    let (a9, s9, h9) = bind-accepted (refuse_if lacks_audio audio_required) _ h8 in
    let made : Sources = record {
      playlist_source = is_some playlist;
      playlist = playlist;
      video_collection = video;
      audio_collection = audio;
      stream_assets = asset_links 0 assets;
      mix_mode = mode;
    } in
    let is : made ≡ s = ground (arith, h9) in
    subst IsCreated is (record {
      listed = refl;
      one_source =
          refuse_if-accepted (is_some playlist && (is_some video || is_some audio)) source_conflict
            s4;
      own_assets = λ e. links_nil assets (no_links rows any_source r.asset_ids assets s6 e);
      has_video =
          subst
            (λ b. (needs_video mode && not (is_some playlist || not b || is_some video)) ≡ false)
            (sym (links-empty assets)) (refuse_if-accepted lacks_video video_required s8);
      has_audio = refuse_if-accepted lacks_audio audio_required s9;
    })

-- The creation accepts a stream that plays audio alone, without a video collection, and the start then refuses it,
-- whatever files are there: it asks for a video asset in every mode but the mixed one.
pub audio_alone_never_starts :
    (rows : Rows) (r : Request) (s : Sources) (stored : ℕ → Bool)
    → create_sources rows r ≡ accepted s
    → s.mix_mode ≡ audio_only
    → s.video_collection ≡ none
    → extract_stream_assets stored s ≡ refused no_video_asset
unfolding extract_stream_assets payloads by_position
audio_alone_never_starts rows r s stored h mode none_given =
    let c = create_sources-IsCreated rows r s h in
    by_fields s.playlist_source s.playlist s.video_collection s.audio_collection s.stream_assets
      s.mix_mode c mode none_given
  where
    by_fields :
        (source : Bool) (playlist : Option (List Item)) (video audio : Option Collection)
        (links : List Item) (m : MixMode)
        → IsCreated (record {
          playlist_source = source;
          playlist = playlist;
          video_collection = video;
          audio_collection = audio;
          stream_assets = links;
          mix_mode = m;
        })
        → m ≡ audio_only
        → video ≡ none
        → extract_stream_assets stored (record {
          playlist_source = source;
          playlist = playlist;
          video_collection = video;
          audio_collection = audio;
          stream_assets = links;
          mix_mode = m;
        })
          ≡ refused no_video_asset
    by_fields source playlist video audio links video_only c e v = cc
    by_fields source playlist video audio links mixed c e v = cc
    by_fields source playlist (some k) audio links audio_only c e v = cc
    by_fields source playlist none none links audio_only c e v = cc c.has_audio
    by_fields source (some items) none (some k) links audio_only c e v = cc c.one_source
    by_fields true none none (some k) links audio_only c e v = cc c.listed
    by_fields false none none (some k) (x ∷ xs) audio_only c e v = cc (c.own_assets refl)
    by_fields false none none (some k) [] audio_only c e v = refl
