-- ===== src/Quality/Evaluation.antt =====
-- The evaluation itself: what each asset violates, and the verdict with the recommendation.
use youtube_translation.Base.{
  ℕ, zero, suc, ◌+◌, ◌*◌, Bool, true, false, not, ◌&&◌, ◌||◌, List, [], ◌∷◌, ◌++◌, Option, none,
  some, is_some, if◌then◌else◌, Text, codes, text_beq, lower, any, ltb, filter, length,
}
use youtube_translation.Quality.{
  Violation, VideoMeta, Media, Limits, when, or_number, or_text, or_numbers, exceeds,
  incompatible_codecs, missing_metadata, codec_not_allowed, resolution_exceeded, fps_exceeded,
  fps_out_of_range, guideline_missing, bitrate_missing, bitrate_out_of_range,
  audio_metadata_missing, audio_codec_not_allowed, audio_sample_rate_low,
  audio_bitrate_out_of_range, audio_channels_high,
}
use youtube_translation.Quality.Guideline.{
  kbps, normalize_fps, match_guideline, Range, tier_max, bitrate_range,
}

abbrev pub is_refused : Option Bool → Bool
is_refused (some false) = true
is_refused _ = false

-- The checks that come before all others
unfoldable pub preflight : ℕ → Media → List Violation
preflight index asset =
    when (is_refused asset.compatible_for_copy) incompatible_codecs index
    ++ when (not (is_some asset.video && is_some asset.audio)) missing_metadata index

abbrev pub is_nonempty {ℓ} : {A : Type ℓ} → List A → Bool
is_nonempty [] = false
is_nonempty (x ∷ xs) = true

abbrev pub codec_of : Option Text → Option Text → Text
codec_of name codec = lower (or_text name (or_text codec []))

-- `allowed_codecs and codec_name and codec_name not in allowed_codecs`
abbrev pub is_foreign : List Text → Text → Bool
is_foreign allowed codec =
    let given = filter is_nonempty allowed in
    is_nonempty given && is_nonempty codec && not (any (λ c. text_beq (lower c) codec) given)

-- The three tests of the frame rate that exclude one another
abbrev pub fps_violation : Option ℕ → Option ℕ → Option ℕ × Bool → Bool
fps_violation limit none bucket = true
fps_violation limit (some fps) (none, out) = false
fps_violation limit (some fps) (some bucket, out) = exceeds limit (some bucket) || out

abbrev pub below : ℕ → Option ℕ → Bool
below value none = false
below value (some lowest) = ltb value lowest

abbrev pub above : ℕ → Option ℕ → Bool
above value none = false
above value (some highest) = ltb highest value

abbrev pub bitrate_violations : ℕ → Option ℕ → Range → Option ℕ → List Violation
bitrate_violations index tier range none = when true bitrate_missing index
bitrate_violations index tier range (some zero) = when true bitrate_missing index
bitrate_violations index tier range (some (suc n)) =
    when (below (suc n) range.lowest || above (suc n) range.highest) bitrate_out_of_range index
    ++ when (above (suc n) tier) bitrate_out_of_range index

abbrev pub video_bitrate : Media → VideoMeta → Option ℕ
video_bitrate asset video = or_number video.bitrate (or_number asset.bitrate asset.overall_bitrate)

-- `limits.max_fps`, in thousandths
abbrev pub fps_limit : Limits → Option ℕ
fps_limit limits = elim limits.max_fps [ none ↦ none | some n ↦ some (n * 1000) ]

abbrev pub measured_violations : Limits → ℕ → Media → VideoMeta → List Violation
measured_violations limits index asset video =
    let rule = match_guideline video.height video.fps in
    when (exceeds limits.max_resolution_height video.height) resolution_exceeded index
    ++ when (exceeds (fps_limit limits) video.fps) fps_exceeded index
    ++ when (fps_violation limits.max_fps video.fps (normalize_fps video.fps)) fps_out_of_range
        index
    ++ when (not (is_some rule)) guideline_missing index
    ++ bitrate_violations index (tier_max limits) (bitrate_range rule (tier_max limits))
        (video_bitrate asset video)

-- A turn of the loop over the video assets
unfoldable pub video_violations : Limits → ℕ → Media → List Violation
unfolding match_guideline bitrate_range normalize_fps lower
video_violations limits index asset = elim asset.video [
  | none ↦ when true missing_metadata index
  | some video ↦
      if is_foreign limits.allowed_video_codecs (codec_of video.codec_name video.codec)
      then when true codec_not_allowed index
      else measured_violations limits index asset video
]

abbrev pub supported_codec : Text → Bool
supported_codec codec =
    text_beq codec (codes "aac")
    || text_beq codec (codes "mp4a")
    || text_beq codec (codes "mp3")
    || text_beq codec (codes "mpga")

abbrev pub audio_bitrate_violations : ℕ → Option ℕ → List Violation
audio_bitrate_violations index none = when true audio_metadata_missing index
audio_bitrate_violations index (some value) =
    when (ltb value (128 * kbps)) audio_bitrate_out_of_range index

-- `value and value < limit`
abbrev pub falls_below : ℕ → Option ℕ → Bool
falls_below limit (some (suc n)) = ltb (suc n) limit
falls_below limit _ = false

-- A turn of the loop over the audio assets
unfoldable pub audio_violations : ℕ → Media → List Violation
unfolding lower
audio_violations index asset = elim asset.audio [
  | none ↦ when true audio_metadata_missing index
  | some audio ↦
      (let codec = codec_of audio.codec_name audio.codec in
        when (is_nonempty codec && not (supported_codec codec)) audio_codec_not_allowed index
        ++ when (falls_below 44100 (or_numbers audio.sample_rates)) audio_sample_rate_low index
        ++ audio_bitrate_violations index (or_number audio.bitrate asset.bitrate)
        ++ when (exceeds (some 4) audio.channels) audio_channels_high index)
]

-- The loops, with the position of the first asset
abbrev pub each : (ℕ → Media → List Violation) → ℕ → List Media → List Violation
each check index [] = []
each check index (asset ∷ assets) = check index asset ++ each check (index + 1) assets

-- The verdict of `evaluate_stream_quality_sync`: the violations, and whether there are none.
pub record Verdict : Type 0 where
  pub ok : Bool
  pub violations : List Violation

abbrev pub verdict_of : List Violation → Verdict
verdict_of vs = record { ok = not (is_nonempty vs); violations = vs }

unfoldable pub evaluate_stream_quality : Limits → List Media → List Media → Verdict
unfolding preflight video_violations audio_violations
evaluate_stream_quality limits video_assets audio_assets =
    let before = each preflight 0 video_assets in
    if not limits.enforce_stream_quality
    then verdict_of []
    else if is_nonempty before
    then verdict_of before
    else verdict_of (
        each (video_violations limits) 0 video_assets
        ++ each audio_violations (length video_assets) audio_assets)
