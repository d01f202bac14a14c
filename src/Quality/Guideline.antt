-- ===== src/Quality/Guideline.antt =====
-- The guidance on bit rates: the table of backend/app/streaming/validator.py, the rule that
-- backend/app/core/quota_quality.py finds in it for a video, and the range of bit rates it then allows.
use youtube_translation.Base.{
  ℕ, zero, suc, ◌*◌, ◌==◌, Bool, true, false, ◌&&◌, List, [], ◌∷◌, Option, none, some,
  if◌then◌else◌, Text, codes, find?, min, leb, ltb,
}
use youtube_translation.Quality.{Limits, mbps, distance}

-- An entry of `BITRATE_GUIDANCE`, with its rates in bits per second.
pub record Rule : Type 0 where
  pub label : Text
  pub fps : ℕ
  pub min_height : ℕ
  pub max_height : ℕ
  pub min_bitrate : ℕ
  pub max_bitrate : ℕ
  pub target_bitrate : ℕ

abbrev pub kbps : ℕ
kbps = 1000

abbrev rule : Text → ℕ → ℕ → ℕ → ℕ → ℕ → ℕ → Rule
rule label min_height max_height fps low high target = record {
  label = label;
  fps = fps;
  min_height = min_height;
  max_height = max_height;
  min_bitrate = low * kbps;
  max_bitrate = high * kbps;
  target_bitrate = target * kbps;
}

unfoldable pub bitrate_guidance : List Rule
bitrate_guidance =
    rule (codes "4K / 2160p") 2000 2400 60 20000 51000 40000
    ∷ rule (codes "4K / 2160p") 2000 2400 30 13000 34000 25000
    ∷ rule (codes "1440p") 1300 1999 60 9000 18000 15000
    ∷ rule (codes "1440p") 1300 1999 30 6000 13000 10000
    ∷ rule (codes "1080p") 1000 1299 60 4500 9000 7500
    ∷ rule (codes "1080p") 1000 1299 30 3000 6000 4500
    ∷ rule (codes "720p") 600 999 60 2250 6000 4500
    ∷ rule (codes "720p") 600 999 30 1500 4000 3000
    ∷ []

-- `_normalize_fps`
unfoldable pub normalize_fps : Option ℕ → Option ℕ × Bool
normalize_fps none = (none, true)
normalize_fps (some zero) = (none, true)
normalize_fps (some (suc n)) =
    let value = suc n in
    let near_30 = leb (distance value 30000) 3000 in
    let near_60 = leb (distance value 60000) 5000 in
    let closer_to_30 = ltb (distance value 30000) (distance value 60000) in
    if near_30
    then (some 30, false)
    else if near_60
    then (some 60, false)
    else if closer_to_30
    then (some 30, true)
    else (some 60, true)

abbrev pub in_band : ℕ → Rule → Bool
in_band height r = leb r.min_height height && leb height r.max_height

abbrev pub has_bucket : Option ℕ → Rule → Bool
has_bucket none r = true
has_bucket (some bucket) r = r.fps == bucket

abbrev pub or_else {ℓ} : {A : Type ℓ} → Option A → Option A → Option A
or_else none b = b
or_else (some a) b = some a

-- The rule of `_match_guideline`
unfoldable pub match_guideline : Option ℕ → Option ℕ → Option Rule
unfolding normalize_fps bitrate_guidance
match_guideline none fps = none
match_guideline (some height) fps =
    or_else (find? (λ r. in_band height r && has_bucket (normalize_fps fps).0 r) bitrate_guidance)
      (find? (in_band height) bitrate_guidance)

-- The bit rates that are let through, and the one that is recommended.
pub record Range : Type 0 where
  pub lowest : Option ℕ
  pub highest : Option ℕ
  pub target : Option ℕ

abbrev pub tier_max : Limits → Option ℕ
tier_max limits = elim limits.max_video_bitrate_mbps [ none ↦ none | some n ↦ some (n * mbps) ]

abbrev pub raised_to : ℕ → ℕ → ℕ
raised_to low value = if ltb value low then low else value

abbrev pub lowered_to : ℕ → ℕ → ℕ
lowered_to high value = if ltb high value then high else value

abbrev pub ranged : Rule → ℕ → Range
ranged r high = record {
  lowest = some r.min_bitrate;
  highest = some high;
  target = some (lowered_to high (raised_to r.min_bitrate r.target_bitrate));
}

unfoldable pub bitrate_range : Option Rule → Option ℕ → Range
bitrate_range none tier = record { lowest = none; highest = tier; target = none }
bitrate_range (some r) none = ranged r (raised_to r.min_bitrate r.max_bitrate)
bitrate_range (some r) (some tier) = ranged r (raised_to r.min_bitrate (min r.max_bitrate tier))
