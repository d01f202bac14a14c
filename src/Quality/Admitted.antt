-- ===== src/Quality/Admitted.antt =====
-- What a selection keeps to that the evaluation lets through.
use youtube_translation.Base.{
  ℕ, zero, suc, ◌≡◌, ◌≢◌, ◌≤◌, ◌+◌, ◌*◌, Bool, true, false, not, ◌&&◌, List, [], ◌∷◌, ◌++◌, Option,
  none, some, is_some, if◌then◌else◌, Text, ltb, length, refl, subst, arith, All, ◌⊎◌, inl, inr,
}
use youtube_translation.Quality.{
  Violation, AudioMeta, VideoMeta, Media, Limits, when, or_number, or_numbers, exceeds,
  resolution_exceeded, fps_exceeded, fps_out_of_range, guideline_missing, audio_codec_not_allowed,
  audio_sample_rate_low, audio_channels_high, codec_not_allowed, missing_metadata,
  audio_bitrate_out_of_range,
}
use youtube_translation.Quality.Guideline.{
  kbps, normalize_fps, match_guideline, tier_max, bitrate_range,
}
use youtube_translation.Quality.Evaluation.{
  evaluate_stream_quality, preflight, video_violations, audio_violations, each, is_nonempty,
  verdict_of, is_refused, codec_of, is_foreign, fps_violation, video_bitrate, fps_limit,
  measured_violations, supported_codec, audio_bitrate_violations, falls_below,
}
use youtube_translation.Quality.Guided.{
  Obeys, IsUsual, IsGuided, IsUnderTier, append_nil, when_nil, nonempty_nil, each_nil,
  exceeds-Obeys, near_rate, measured_bitrate, under_tier, rule_found,
}

pub record IsGoodVideo (limits : Limits) (asset : Media) : Type 0 where
  pub compatible : asset.compatible_for_copy ≢ some false
  pub audio_known : is_some asset.audio ≡ true
  pub meta : VideoMeta
  pub known : asset.video ≡ some meta
  pub height : ℕ
  pub has_height : meta.height ≡ some height
  pub fps : ℕ
  pub has_fps : meta.fps ≡ some fps
  pub bitrate : ℕ
  pub has_bitrate : video_bitrate asset meta ≡ some bitrate
  pub not_too_tall : Obeys limits.max_resolution_height (some height)
  pub not_too_fast : Obeys (fps_limit limits) (some fps)
  pub usual : IsUsual fps
  pub guided : IsGuided height bitrate
  pub under_tier : IsUnderTier limits.max_video_bitrate_mbps bitrate
  pub codec_allowed :
      is_foreign limits.allowed_video_codecs (codec_of meta.codec_name meta.codec) ≡ false

-- The sample rate that is found is not below 44.1 kHz.
abbrev pub IsSampled : Option ℕ → Type 0
IsSampled (some (suc rate)) = 44100 ≤ suc rate
IsSampled _ = Unit

pub record IsGoodAudio (asset : Media) : Type 0 where
  pub meta : AudioMeta
  pub known : asset.audio ≡ some meta
  pub codec_supported :
      (codec_of meta.codec_name meta.codec ≡ [])
      ⊎ (supported_codec (codec_of meta.codec_name meta.codec) ≡ true)
  pub sampled : IsSampled (or_numbers meta.sample_rates)
  pub bitrate : ℕ
  pub has_bitrate : or_number meta.bitrate asset.bitrate ≡ some bitrate
  pub enough : 128000 ≤ bitrate
  pub few_channels : Obeys (some 4) meta.channels

-- The part of `IsGoodVideo` that the checks before all others give.
record IsComplete (asset : Media) : Type 0 where
  compatible : asset.compatible_for_copy ≢ some false
  audio_known : is_some asset.audio ≡ true

not_refused : (o : Option Bool) → is_refused o ≡ false → o ≢ some false
not_refused none h e = cc
not_refused (some true) h e = cc
not_refused (some false) h e = cc

complete_or : (a b : Bool) → not (a && b) ≡ false → b ≡ true
complete_or true true h = refl
complete_or true false h = cc
complete_or false b h = cc

checked_before : (i : ℕ) (a : Media) → preflight i a ≡ [] → IsComplete a
unfolding preflight
checked_before i a h =
    let (fits, known) = append_nil (when (is_refused a.compatible_for_copy) _ i) _ h in
    record {
      compatible = not_refused a.compatible_for_copy (when_nil _ _ i fits);
      audio_known = complete_or (is_some a.video) (is_some a.audio) (when_nil _ _ i known);
    }

double_not : (b : Bool) → not b ≡ false → b ≡ true
double_not true h = refl
double_not false h = cc

measured :
    (limits : Limits) (i : ℕ) (a : Media) (v : VideoMeta)
    → IsComplete a
    → a.video ≡ some v
    → is_foreign limits.allowed_video_codecs (codec_of v.codec_name v.codec) ≡ false
    → measured_violations limits i a v ≡ []
    → IsGoodVideo limits a
measured limits i a v complete is codec h =
    let rule = match_guideline v.height v.fps in
    let tall = when (exceeds limits.max_resolution_height v.height) resolution_exceeded i in
    let fast = when (exceeds (fps_limit limits) v.fps) fps_exceeded i in
    let odd = when (fps_violation limits.max_fps v.fps (normalize_fps v.fps)) fps_out_of_range i in
    let lost = when (not (is_some rule)) guideline_missing i in
    let (r1, h5) = append_nil (tall ++ fast ++ odd ++ lost) _ h in
    let (r2, h4) = append_nil (tall ++ fast ++ odd) lost r1 in
    let (r3, h3) = append_nil (tall ++ fast) odd r2 in
    let (h1, h2) = append_nil tall fast r3 in
    let (fps, has_fps, usual) = near_rate limits.max_fps v.fps (when_nil _ _ i h3) in
    let (b, has_b, low, high, free) =
      measured_bitrate i (tier_max limits) (bitrate_range rule (tier_max limits))
        (video_bitrate a v) h5 in
    let (height, has_height, guided) =
      rule_found (tier_max limits) rule v.height v.fps b refl
        (double_not (is_some rule) (when_nil _ _ i h4)) low high free in
    record {
      compatible = complete.compatible;
      audio_known = complete.audio_known;
      meta = v;
      known = is;
      height = height;
      has_height = has_height;
      fps = fps;
      has_fps = has_fps;
      bitrate = b;
      has_bitrate = has_b;
      not_too_tall =
          subst (Obeys limits.max_resolution_height) has_height
            (exceeds-Obeys limits.max_resolution_height v.height (when_nil _ _ i h1));
      not_too_fast =
          subst (Obeys (fps_limit limits)) has_fps
            (exceeds-Obeys (fps_limit limits) v.fps (when_nil _ _ i h2));
      usual = usual;
      guided = guided;
      under_tier = under_tier limits b free;
      codec_allowed = codec;
    }

measured_video :
    (limits : Limits) (i : ℕ) (a : Media)
    → IsComplete a
    → video_violations limits i a ≡ []
    → IsGoodVideo limits a
unfolding video_violations
measured_video limits i a complete h = by_meta a.video refl h
  where
    by_codec :
        (v : VideoMeta) (foreign : Bool)
        → a.video ≡ some v
        → is_foreign limits.allowed_video_codecs (codec_of v.codec_name v.codec) ≡ foreign
        → (if foreign then when true codec_not_allowed i else measured_violations limits i a v) ≡ []
        → IsGoodVideo limits a
    by_codec v true is e h = cc
    by_codec v false is e h = measured limits i a v complete is e h

    by_meta :
        (o : Option VideoMeta)
        → a.video ≡ o
        → elim o [
          | none ↦ when true missing_metadata i
          | some video ↦
              if is_foreign limits.allowed_video_codecs (codec_of video.codec_name video.codec)
              then when true codec_not_allowed i
              else measured_violations limits i a video
        ]
          ≡ []
        → IsGoodVideo limits a
    by_meta none is h = cc
    by_meta (some v) is h =
        by_codec v (is_foreign limits.allowed_video_codecs (codec_of v.codec_name v.codec)) is refl
          h

supported_or :
    (codec : Text)
    → (is_nonempty codec && not (supported_codec codec)) ≡ false
    → (codec ≡ []) ⊎ (supported_codec codec ≡ true)
supported_or [] h = inl refl
supported_or (c ∷ s) h = inr (double_not (supported_codec (c ∷ s)) h)

audible :
    (i : ℕ) (value : Option ℕ)
    → audio_bitrate_violations i value ≡ []
    → (b : ℕ) × (value ≡ some b) × (128000 ≤ b)
audible i none h = cc
audible i (some b) h =
    let low = when_nil (ltb b (128 * kbps)) audio_bitrate_out_of_range i h in
    (b, refl, ground (arith, low))

sampled : (o : Option ℕ) → falls_below 44100 o ≡ false → IsSampled o
sampled none h = tt
sampled (some zero) h = tt
sampled (some (suc n)) h = ground (arith, h)

heard :
    (i : ℕ) (a : Media) (m : AudioMeta)
    → a.audio ≡ some m
    → let codec = codec_of m.codec_name m.codec in
      when (is_nonempty codec && not (supported_codec codec)) audio_codec_not_allowed i
          ++ when (falls_below 44100 (or_numbers m.sample_rates)) audio_sample_rate_low i
          ++ audio_bitrate_violations i (or_number m.bitrate a.bitrate)
          ++ when (exceeds (some 4) m.channels) audio_channels_high i
        ≡ []
      → IsGoodAudio a
heard i a m is h =
    let codec = codec_of m.codec_name m.codec in
    let odd = when (is_nonempty codec && not (supported_codec codec)) audio_codec_not_allowed i in
    let low = when (falls_below 44100 (or_numbers m.sample_rates)) audio_sample_rate_low i in
    let (r1, h4) =
      append_nil (odd ++ low ++ audio_bitrate_violations i (or_number m.bitrate a.bitrate)) _ h in
    let (r2, h3) = append_nil (odd ++ low) _ r1 in
    let (h1, h2) = append_nil odd low r2 in
    let (b, has_b, enough) = audible i (or_number m.bitrate a.bitrate) h3 in
    record {
      meta = m;
      known = is;
      codec_supported = supported_or codec (
          when_nil (is_nonempty codec && not (supported_codec codec)) audio_codec_not_allowed i h1);
      sampled =
          sampled (or_numbers m.sample_rates)
            (when_nil (falls_below 44100 (or_numbers m.sample_rates)) audio_sample_rate_low i h2);
      bitrate = b;
      has_bitrate = has_b;
      enough = enough;
      few_channels =
          exceeds-Obeys (some 4) m.channels
            (when_nil (exceeds (some 4) m.channels) audio_channels_high i h4);
    }

heard_audio : (i : ℕ) (a : Media) → audio_violations i a ≡ [] → IsGoodAudio a
unfolding audio_violations
heard_audio i a h = by_fields a.compatible_for_copy a.video a.audio a.bitrate a.overall_bitrate h
  where
    by_fields :
        (c : Option Bool) (v : Option VideoMeta) (m : Option AudioMeta) (b o : Option ℕ)
        → let asset : Media = record {
          compatible_for_copy = c;
          video = v;
          audio = m;
          bitrate = b;
          overall_bitrate = o;
        } in
          audio_violations i asset ≡ [] → IsGoodAudio asset
    by_fields c v none b o h = cc
    by_fields c v (some m) b o h = heard i _ m refl h

-- Complete assets in which the later checks find nothing.
measured_videos :
    (limits : Limits) (i : ℕ) (assets : List Media)
    → All IsComplete assets
    → each (video_violations limits) i assets ≡ []
    → All (IsGoodVideo limits) assets
measured_videos limits i [] complete h = tt
measured_videos limits i (a ∷ assets) complete h =
    let (now, later) =
      append_nil (video_violations limits i a) (each (video_violations limits) (i + 1) assets) h in
    (
      measured_video limits i a complete.0 now,
      measured_videos limits (i + 1) assets complete.1 later,
    )

judged :
    (limits : Limits) (video audio : List Media) (enforced before : Bool)
    → is_nonempty (each preflight 0 video) ≡ before
    → enforced ≡ true
    → (if not enforced
        then verdict_of []
        else if before
        then verdict_of (each preflight 0 video)
        else verdict_of (
            each (video_violations limits) 0 video
            ++ each audio_violations (length video) audio)).ok
      ≡ true
    → All (IsGoodVideo limits) video × All IsGoodAudio audio
judged limits video audio false before e on h = cc
judged limits video audio true true e on h = cc
judged limits video audio true false e on h =
    let complete =
      each_nil IsComplete preflight checked_before 0 video
        (nonempty_nil (each preflight 0 video) e) in
    let all_checked =
      each (video_violations limits) 0 video ++ each audio_violations (length video) audio in
    let (v, a) =
      append_nil (each (video_violations limits) 0 video) _
        (nonempty_nil all_checked (ok_empty all_checked h)) in
    (
      measured_videos limits 0 video complete v,
      each_nil IsGoodAudio audio_violations heard_audio (length video) audio a,
    )
  where
    ok_empty : (vs : List Violation) → (verdict_of vs).ok ≡ true → is_nonempty vs ≡ false
    ok_empty [] h = refl
    ok_empty (x ∷ vs) h = cc

-- Where the limits of a tier are enforced, a selection that the evaluation lets through holds good assets alone. A
-- video is not marked as incompatible, has metadata of its video and its audio, no codec name that the tier does not allow, a height
-- and a frame rate within the tier's limits, a rate near 30 or 60 frames (or 0), and a
-- bit rate within the ceiling of the tier and within a rule of the guidance for its height.
-- An audio asset has a supported codec or no codec name, a bit rate of 128 kbit/s or more, a sample rate of 44.1 kHz or more if one is
-- given, and at most four channels.
pub admitted-AreGood :
    (limits : Limits) (video audio : List Media)
    → limits.enforce_stream_quality ≡ true
    → (evaluate_stream_quality limits video audio).ok ≡ true
    → All (IsGoodVideo limits) video × All IsGoodAudio audio
unfolding evaluate_stream_quality
admitted-AreGood limits video audio on h =
    judged limits video audio limits.enforce_stream_quality (is_nonempty (each preflight 0 video))
      refl on h
