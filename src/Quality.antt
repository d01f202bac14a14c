-- ===== src/Quality.antt =====
-- The quality that a tier demands of the assets of a stream: `evaluate_stream_quality_sync` of
-- backend/app/core/quota_quality.py, over the table of backend/app/streaming/validator.py. The metadata is
-- what `_safe_int` and `_safe_float` read of it: bit rates in bits per second, and frame rates in
-- thousandths of a frame per second.
pub mod Guideline
pub mod Evaluation
pub mod Guided
pub mod Admitted
mod Tests
use youtube_translation.Base.{
  ℕ, suc, ◌+◌, ◌*◌, ◌-◌, ◌==◌, Bool, true, false, not, ◌&&◌, ◌||◌, List, [], ◌∷◌, ◌++◌, Option,
  none, some, is_some, if◌then◌else◌, Text, codes, text_beq, lower, any, find?, min, leb, ltb, map,
  show_nat,
}

pub data Code : Type 0 where
  incompatible_codecs missing_metadata codec_not_allowed resolution_exceeded fps_exceeded : Code
  fps_out_of_range guideline_missing bitrate_missing bitrate_out_of_range : Code
  audio_metadata_missing audio_codec_not_allowed audio_sample_rate_low : Code
  audio_bitrate_out_of_range audio_channels_high : Code

pub record Violation : Type 0 where
  pub code : Code
  pub position : ℕ

-- `sample_rates` are the values of the four spellings of the key, in the order in which they are looked at.
pub record AudioMeta : Type 0 where
  pub codec_name : Option Text
  pub codec : Option Text
  pub sample_rates : List (Option ℕ)
  pub bitrate : Option ℕ
  pub channels : Option ℕ

pub record VideoMeta : Type 0 where
  pub codec_name : Option Text
  pub codec : Option Text
  pub height : Option ℕ
  pub fps : Option ℕ
  pub bitrate : Option ℕ

-- An entry of the selection; an empty part of the metadata is missing.
pub record Media : Type 0 where
  pub compatible_for_copy : Option Bool
  pub video : Option VideoMeta
  pub audio : Option AudioMeta
  pub bitrate : Option ℕ
  pub overall_bitrate : Option ℕ

-- The columns of `SubscriptionTierLimits` that are read.
pub record Limits : Type 0 where
  pub enforce_stream_quality : Bool
  pub allowed_video_codecs : List Text
  pub max_resolution_height : Option ℕ
  pub max_fps : Option ℕ
  pub max_video_bitrate_mbps : Option ℕ

abbrev pub mbps : ℕ
mbps = 1000000

abbrev pub when : Bool → Code → ℕ → List Violation
when true code position = record { code = code; position = position } ∷ []
when false code position = []

-- `a or b`, of numbers and of texts
abbrev pub or_number : Option ℕ → Option ℕ → Option ℕ
or_number (some (suc n)) b = some (suc n)
or_number _ b = b

abbrev pub or_text : Option Text → Text → Text
or_text (some (c ∷ s)) t = c ∷ s
or_text _ t = t

abbrev pub or_numbers : List (Option ℕ) → Option ℕ
or_numbers [] = none
or_numbers (a ∷ []) = a
or_numbers (a ∷ b ∷ rest) = or_number a (or_numbers (b ∷ rest))

-- `limit and value and value > limit`
abbrev pub exceeds : Option ℕ → Option ℕ → Bool
exceeds (some (suc limit)) (some value) = ltb (suc limit) value
exceeds _ _ = false

abbrev pub distance : ℕ → ℕ → ℕ
distance a b = (a - b) + (b - a)
