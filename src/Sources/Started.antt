-- ===== src/Sources/Started.antt =====
-- A stream whose assets have their files starts as it was created.
use youtube_translation.Base.{
  ℕ, ◌≡◌, ◌≢◌, Bool, true, false, not, ◌&&◌, ◌||◌, List, [], ◌∷◌, Option, none, some, is_some, leb,
  refl, sym, subst, arith, All, ◌∙◌, Bool-cases, inl, inr,
}
use youtube_translation.Sources.{
  Checked, accepted, ◌>>=◌, Item, Collection, Rows, Request, MixMode, video_only, audio_only, mixed,
  Sources, is_empty, create_sources, by_position, insert_row, payloads, looping, Payload, Selection,
  extract_stream_assets, or_loop, video_items, audio_payloads, refuse_if, is_mixed, no_video_asset,
  ◌>>◌,
}
use youtube_translation.Sources.Extracted.{IsCreated, create_sources-IsCreated}

-- Items of which each has its asset, and the asset its file.
abbrev pub IsWhole : (ℕ → Bool) → List Item → Type 0
IsWhole stored items =
    (items ≢ []) × All (λ (i : Item). (id : ℕ) × (i.asset ≡ some id) × (stored id ≡ true)) items

module _ (stored : ℕ → Bool) where
  abbrev HasFile : Item → Type 0
  HasFile i = (id : ℕ) × (i.asset ≡ some id) × (stored id ≡ true)

  insert-HasFile :
      (i : Item) (items : List Item)
      → HasFile i
      → All HasFile items
      → All HasFile (insert_row i items)
  unfolding insert_row
  insert-HasFile i [] h hs = (h, tt)
  insert-HasFile i (j ∷ items) h hs = elim (Bool-cases (leb i.position j.position)) [
    | inl first ↦ rw first (h, hs)
    | inr later ↦ rw later (hs.0, insert-HasFile i items h hs.1)
  ]

  insert_nonempty : (i : Item) (items : List Item) → is_empty (insert_row i items) ≡ false
  unfolding insert_row
  insert_nonempty i [] = refl
  insert_nonempty i (j ∷ items) = ground arith

  sorted-HasFile : (items : List Item) → All HasFile items → All HasFile (by_position items)
  unfolding by_position
  sorted-HasFile [] h = tt
  sorted-HasFile (i ∷ items) h = insert-HasFile i (by_position items) h.0 (sorted-HasFile items h.1)

  payloads_made :
      (items : List Item)
      → All HasFile items
      → (ps : List Payload) × (payloads stored items ≡ accepted ps) × (is_empty ps ≡ is_empty items)
  unfolding payloads
  payloads_made [] h = ([], refl, refl)
  payloads_made (i ∷ items) ((id, is, there), hs) =
      let (ps, e, same) = payloads_made items hs in
      ((id, or_loop i.loop_mode) ∷ ps, rw (is, payloads) (rw there (rw e refl)), refl)

  looping-HasFile : (items : List Item) → All HasFile items → All HasFile (looping items)
  looping-HasFile [] h = tt
  looping-HasFile (i ∷ items) h = (h.0, looping-HasFile items h.1)

  -- Sorted and turned into the entries of a selection, whole items leave at least one.
  sorted_payloads :
      (items : List Item)
      → IsWhole stored items
      → (ps : List Payload) × (payloads stored (by_position items) ≡ accepted ps)
        × (is_empty ps ≡ false)
  unfolding by_position
  sorted_payloads [] h = absurd (h.0 refl)
  sorted_payloads (i ∷ items) h =
      let (ps, e, same) =
        payloads_made (by_position (i ∷ items)) (sorted-HasFile (i ∷ items) h.1) in
      (ps, e, same ∙ insert_nonempty i (by_position items))

  all_looping : (items : List Item) → IsWhole stored items → IsWhole stored (looping items)
  all_looping [] h = absurd (h.0 refl)
  all_looping (i ∷ items) h = (λ e. cc, looping-HasFile (i ∷ items) h.1)

  -- A selection with a video, and with audio in the mixed mode.
  pub record IsStarted (s : Sources) : Type 0 where
    pub selection : Selection
    pub extracted : extract_stream_assets stored s ≡ accepted selection
    pub has_video : is_empty selection.video_assets ≡ false
    pub has_audio : s.mix_mode ≡ mixed → is_empty selection.audio_assets ≡ false

  -- The assets that the sources name, and the files of them.
  pub record HasFiles (s : Sources) : Type 0 where
    pub video : (c : Collection) → s.video_collection ≡ some c → IsWhole stored c.items
    pub audio : (c : Collection) → s.audio_collection ≡ some c → IsWhole stored c.items
    pub playlist : (items : List Item) → s.playlist ≡ some items → IsWhole stored items
    pub links : All HasFile s.stream_assets

  -- The rest of the extraction, once the video is there.
  abbrev rest_of : MixMode → Option Collection → List Payload → Checked Selection
  rest_of m audio video = do
    refuse_if (is_empty video && not (is_mixed m)) no_video_asset
    a ← audio_payloads stored m audio
    accepted (record { video_assets = video; audio_assets = a; mode = m })

  extract_lem :
      (s : Sources) (items : List Item) (ps : List Payload) {sel : Selection}
      → video_items s s.video_collection s.playlist_source s.playlist ≡ accepted items
      → payloads stored (by_position items) ≡ accepted ps
      → rest_of s.mix_mode s.audio_collection ps ≡ accepted sel
      → extract_stream_assets stored s ≡ accepted sel
  unfolding extract_stream_assets
  extract_lem s items ps chosen made rest = rw chosen (rw made rest)

  rest_video :
      (m : MixMode) (audio : Option Collection) (ps : List Payload)
      → is_empty ps ≡ false
      → m ≡ video_only
      → rest_of m audio ps ≡ accepted (record { video_assets = ps; audio_assets = []; mode = m })
  rest_video video_only audio ps h e = rw h refl
  rest_video audio_only audio ps h e = cc
  rest_video mixed audio ps h e = cc

  rest_mixed :
      (m : MixMode) (k : Collection) (ps qs : List Payload)
      → is_empty ps ≡ false
      → m ≡ mixed
      → is_empty k.items ≡ false
      → payloads stored (by_position k.items) ≡ accepted qs
      → rest_of m (some k) ps ≡ accepted (record { video_assets = ps; audio_assets = qs; mode = m })
  rest_mixed video_only k ps qs h e full made = cc
  rest_mixed audio_only k ps qs h e full made = cc
  rest_mixed mixed k ps qs h e full made = rw h (rw full (rw made refl))

  nonempty : (items : List Item) → IsWhole stored items → is_empty items ≡ false
  nonempty [] h = absurd (h.0 refl)
  nonempty (i ∷ items) h = refl

  not_both : (m : MixMode) → m ≡ video_only → m ≡ mixed → ⊥
  not_both m a b = cc

  video_alone :
      (s : Sources) (items : List Item)
      → s.mix_mode ≡ video_only
      → video_items s s.video_collection s.playlist_source s.playlist ≡ accepted items
      → IsWhole stored items
      → IsStarted s
  video_alone s items mode chosen whole =
      let (ps, made, some_there) = sorted_payloads items whole in
      record {
        selection = record { video_assets = ps; audio_assets = []; mode = s.mix_mode };
        extracted =
            extract_lem s items ps chosen made
              (rest_video s.mix_mode s.audio_collection ps some_there mode);
        has_video = some_there;
        has_audio = λ e. absurd (not_both s.mix_mode mode e);
      }

  video_with_audio :
      (s : Sources) (c k : Collection)
      → s.mix_mode ≡ mixed
      → video_items s s.video_collection s.playlist_source s.playlist ≡ accepted c.items
      → s.audio_collection ≡ some k
      → IsWhole stored c.items
      → IsWhole stored k.items
      → IsStarted s
  video_with_audio s c k mode chosen audio whole audio_there =
      let (ps, made, some_there) = sorted_payloads c.items whole in
      let (qs, made_audio, heard) = sorted_payloads k.items audio_there in
      let rest =
        rest_mixed s.mix_mode k ps qs some_there mode (nonempty k.items audio_there) made_audio in
      record {
        selection = record { video_assets = ps; audio_assets = qs; mode = s.mix_mode };
        extracted = extract_lem s c.items ps chosen made (
            subst
              (λ o.
                rest_of s.mix_mode o ps
                ≡ accepted (record { video_assets = ps; audio_assets = qs; mode = s.mix_mode }))
              (sym audio) rest);
        has_video = some_there;
        has_audio = λ e. heard;
      }

  -- By the source that was accepted.
  by_source :
      (source : Bool) (playlist : Option (List Item)) (video audio : Option Collection)
      (links : List Item) (m : MixMode)
      → let s : Sources = record {
        playlist_source = source;
        playlist = playlist;
        video_collection = video;
        audio_collection = audio;
        stream_assets = links;
        mix_mode = m;
      } in
        IsCreated s → HasFiles s → m ≢ audio_only → IsStarted s
  by_source source playlist video audio links audio_only c f h = absurd (h refl)
  by_source source playlist (some k) audio links video_only c f h =
      video_alone _ k.items refl refl (f.video k refl)
  by_source true (some items) none audio links video_only c f h =
      video_alone _ (looping items) refl refl (all_looping items (f.playlist items refl))
  by_source false (some items) none audio links video_only c f h = cc c.listed
  by_source true none none audio links video_only c f h = cc c.listed
  by_source false none none audio [] video_only c f h = cc c.has_video
  by_source false none none audio (i ∷ links) video_only c f h =
      video_alone _ (looping (i ∷ links)) refl refl (all_looping (i ∷ links) ((λ e. cc), f.links))
  by_source source playlist video none links mixed c f h = cc c.has_audio
  by_source source (some items) video (some k) links mixed c f h =
      absurd (listed_twice video c.one_source)
    where
      listed_twice : (v : Option Collection) → (is_some v || true) ≡ false → ⊥
      listed_twice none e = cc
      listed_twice (some x) e = cc
  by_source source none (some v) (some k) links mixed c f h =
      video_with_audio _ v k refl refl refl (f.video v refl) (f.audio k refl)
  by_source source none none (some k) [] mixed c f h = cc c.has_video
  by_source source none none (some k) (i ∷ links) mixed c f h = cc (c.own_assets refl)

  -- A stream whose creation was accepted starts with what it was created from, in every mode but audio alone, if the
  -- collections and the playlist it names are not empty and each of their items and of its own assets has
  -- an asset with a file: the extraction succeeds, with at least one video, and in the mixed mode
  -- with at least one audio asset.
  pub created-IsStarted :
      (rows : Rows) (r : Request) (s : Sources)
      → create_sources rows r ≡ accepted s
      → s.mix_mode ≢ audio_only
      → HasFiles s
      → IsStarted s
  created-IsStarted rows r s h m f =
      by_source s.playlist_source s.playlist s.video_collection s.audio_collection s.stream_assets
        s.mix_mode (create_sources-IsCreated rows r s h) f m
