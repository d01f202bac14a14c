-- ===== src/HotSwap/Asset.antt =====
-- An asset of a playlist as hot swapping reads it, and `_safe_duration` of
-- backend/app/streaming/hot_swap.py. Durations are in microseconds. An asset is a dict that is not
-- empty, as its callers build it; `_clone_asset` is the identity on values.
use youtube_translation.Base.{
  ℕ, zero, suc, ◌*◌, ◌<◌, List, [], ◌∷◌, Option, none, some, Text, second, arith, ℤ, pos, negsuc,
}

-- A candidate for a duration: what `float` refuses, or its value.
pub data Candidate : Type 0 where
  refused : Candidate
  value : ℤ → Candidate

-- `meta` and the duration of its parts; a missing part has no duration.
pub record Meta : Type 0 where
  pub duration : Candidate
  pub video_duration : Candidate
  pub audio_duration : Candidate

pub record Asset : Type 0 where
  pub asset_id : Option Text
  pub filename : Option Text
  pub meta : Option Meta

first_positive : List Candidate → ℕ
first_positive [] = 10 * second
first_positive (value (pos (suc n)) ∷ cs) = suc n
first_positive (value _ ∷ cs) = first_positive cs
first_positive (refused ∷ cs) = first_positive cs

candidates_of : Option Meta → List Candidate
candidates_of none = refused ∷ refused ∷ refused ∷ []
candidates_of (some m) = m.duration ∷ m.video_duration ∷ m.audio_duration ∷ []

-- `_safe_duration`
unfoldable pub safe_duration : Option Asset → ℕ
unfolding first_positive candidates_of
safe_duration none = 5 * second
safe_duration (some a) = first_positive (candidates_of a.meta)

first_positive_pos : (cs : List Candidate) → 0 < first_positive cs
unfolding first_positive
first_positive_pos [] = omega arith
first_positive_pos (value (pos (suc n)) ∷ cs) = omega arith
first_positive_pos (value (pos zero) ∷ cs) = first_positive_pos cs
first_positive_pos (value (negsuc n) ∷ cs) = first_positive_pos cs
first_positive_pos (refused ∷ cs) = first_positive_pos cs

-- Every duration is positive, so that the playhead always sleeps between two turns.
pub safe_duration_pos : (a : Option Asset) → 0 < safe_duration a
unfolding safe_duration
safe_duration_pos none = omega arith
safe_duration_pos (some a) = first_positive_pos (candidates_of a.meta)
