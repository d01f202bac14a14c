-- ===== src/Quality/Tests.antt =====
-- A selection of a video in 1080p with a song, under the limits of a plan.
use youtube_translation.Base.{◌*◌, true, [], ◌∷◌, none, some, codes, refl, All, lower}
use youtube_translation.Quality.{AudioMeta, Media, Limits, mbps}
use youtube_translation.Quality.Guideline.{
  normalize_fps, bitrate_guidance, match_guideline, bitrate_range,
}
use youtube_translation.Quality.Evaluation.{
  evaluate_stream_quality, preflight, video_violations, audio_violations,
}
use youtube_translation.Quality.Admitted.{IsGoodVideo, IsGoodAudio, admitted-AreGood}

abbrev sound : AudioMeta
sound = record {
  codec_name = some (codes "AAC");
  codec = none;
  sample_rates = none ∷ some 48000 ∷ none ∷ none ∷ [];
  bitrate = some 192000;
  channels = some 2;
}

abbrev clip : Media
clip = record {
  compatible_for_copy = some true;
  video = some (record {
    codec_name = none;
    codec = some (codes "h264");
    height = some 1080;
    fps = some 29970;
    bitrate = none;
  });
  audio = some sound;
  bitrate = some (5 * mbps);
  overall_bitrate = none;
}

abbrev song : Media
song = record {
  compatible_for_copy = none;
  video = none;
  audio = some sound;
  bitrate = none;
  overall_bitrate = none;
}

abbrev plan : Limits
plan = record {
  enforce_stream_quality = true;
  allowed_video_codecs = codes "H264" ∷ [];
  max_resolution_height = some 1080;
  max_fps = some 30;
  max_video_bitrate_mbps = some 10;
}

admitted-AreGood_example : All (IsGoodVideo plan) (clip ∷ []) × All IsGoodAudio (song ∷ [])
unfolding evaluate_stream_quality preflight video_violations audio_violations normalize_fps
    bitrate_guidance match_guideline bitrate_range lower
admitted-AreGood_example = admitted-AreGood plan (clip ∷ []) (song ∷ []) refl refl
