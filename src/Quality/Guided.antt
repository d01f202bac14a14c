-- ===== src/Quality/Guided.antt =====
-- What it means that the checks of one video find nothing: its frame rate, its bit rate and the rule for both.
use youtube_translation.Base.{
  ℕ, zero, suc, ◌≡◌, ◌≤◌, ◌+◌, ◌*◌, Bool, true, false, ◌&&◌, ◌||◌, List, [], ◌∷◌, ◌++◌, Option,
  none, some, is_some, if◌then◌else◌, find?, leb, ltb, refl, sym, subst, arith, All, ◌⊎◌, inl, inr,
  leb→le, Bool-cases,
}
use youtube_translation.Quality.{Code, Violation, Media, Limits, mbps, when, exceeds, distance}
use youtube_translation.Quality.Guideline.{
  Rule, bitrate_guidance, normalize_fps, match_guideline, Range, tier_max, bitrate_range, or_else,
  in_band, has_bucket,
}
use youtube_translation.Quality.Evaluation.{
  each, is_nonempty, fps_violation, below, above, bitrate_violations,
}

-- A number that is there and not zero stays under a limit that is there and not zero.
abbrev pub Obeys : Option ℕ → Option ℕ → Type 0
Obeys (some (suc limit)) (some value) = value ≤ suc limit
Obeys _ _ = Unit

abbrev pub Contains : Rule → List Rule → Type 0
Contains r [] = ⊥
Contains r (q ∷ qs) = (r ≡ q) ⊎ Contains r qs

-- A rate near 30 or 60 frames, or the rate 0, which passes
abbrev pub IsUsual : ℕ → Type 0
IsUsual zero = Unit
IsUsual (suc n) = (distance (suc n) 30000 ≤ 3000) ⊎ (distance (suc n) 60000 ≤ 5000)

-- A rule of the table for the height, with the bit rate in its range.
pub record IsGuided (height bitrate : ℕ) : Type 0 where
  pub rule : Rule
  pub listed : Contains rule bitrate_guidance
  pub tall : rule.min_height ≤ height
  pub not_taller : height ≤ rule.max_height
  pub enough : rule.min_bitrate ≤ bitrate
  pub not_more : bitrate ≤ rule.max_bitrate

abbrev pub IsUnderTier : Option ℕ → ℕ → Type 0
IsUnderTier none bitrate = Unit
IsUnderTier (some tier) bitrate = bitrate ≤ tier * 1000000

pub append_nil : {A : Type 0} (xs ys : List A) → (xs ++ ys) ≡ [] → (xs ≡ []) × (ys ≡ [])
append_nil [] ys h = (refl, h)
append_nil (x ∷ xs) ys h = cc

pub when_nil : (b : Bool) (c : Code) (i : ℕ) → when b c i ≡ [] → b ≡ false
when_nil true c i h = cc
when_nil false c i h = refl

pub nonempty_nil : {A : Type 0} (xs : List A) → is_nonempty xs ≡ false → xs ≡ []
nonempty_nil [] h = refl
nonempty_nil (x ∷ xs) h = cc

-- No violation of a list, none of each of its assets.
pub each_nil :
    (P : Media → Type 0) (check : ℕ → Media → List Violation)
    → ((i : ℕ) (a : Media) → check i a ≡ [] → P a)
    → (i : ℕ) (assets : List Media) → each check i assets ≡ []
    → All P assets
each_nil P check sound i [] h = tt
each_nil P check sound i (a ∷ assets) h =
    let (now, later) = append_nil (check i a) (each check (i + 1) assets) h in
    (sound i a now, each_nil P check sound (i + 1) assets later)

pub exceeds-Obeys : (limit value : Option ℕ) → exceeds limit value ≡ false → Obeys limit value
exceeds-Obeys none value h = tt
exceeds-Obeys (some zero) value h = tt
exceeds-Obeys (some (suc l)) none h = tt
exceeds-Obeys (some (suc l)) (some v) h = ground (arith, h)

or_true : (b : Bool) → (b || true) ≡ false → ⊥
or_true true h = cc
or_true false h = cc

by_tests :
    (limit : Option ℕ) (f : ℕ) (near_30 near_60 closer : Bool)
    → fps_violation limit (some f) (
        if near_30
        then (some 30, false)
        else if near_60
        then (some 60, false)
        else if closer
        then (some 30, true)
        else (some 60, true))
      ≡ false
    → (near_30 ≡ true) ⊎ (near_60 ≡ true)
by_tests limit f true near_60 closer h = inl refl
by_tests limit f false true closer h = inr refl
by_tests limit f false false true h = absurd (or_true (exceeds limit (some 30)) h)
by_tests limit f false false false h = absurd (or_true (exceeds limit (some 60)) h)

pub near_rate :
    (limit : Option ℕ) (fps : Option ℕ)
    → fps_violation limit fps (normalize_fps fps) ≡ false
    → (f : ℕ) × (fps ≡ some f) × IsUsual f
unfolding normalize_fps
near_rate limit none h = cc
near_rate limit (some zero) h = (zero, refl, tt)
near_rate limit (some (suc n)) h =
    let closer = ltb (distance (suc n) 30000) (distance (suc n) 60000) in
    let near_30 = leb (distance (suc n) 30000) 3000 in
    let near_60 = leb (distance (suc n) 60000) 5000 in
    (
      suc n,
      refl,
      elim (by_tests limit (suc n) near_30 near_60 closer h) [
        | inl near ↦ inl (leb→le (distance (suc n) 30000) 3000 near)
        | inr near ↦ inr (leb→le (distance (suc n) 60000) 5000 near)
      ],
    )

find-Contains :
    (p : Rule → Bool) (rs : List Rule) (r : Rule)
    → find? p rs ≡ some r
    → Contains r rs × (p r ≡ true)
find-Contains p [] r h = cc
find-Contains p (q ∷ rs) r h = elim (Bool-cases (p q)) [
  | inl holds ↦ found (ground (arith, h, holds)) holds
  | inr fails ↦
      (let (there, is) = find-Contains p rs r (ground (arith, h, fails)) in (inr there, is))
]
  where
    found : q ≡ r → p q ≡ true → Contains r (q ∷ rs) × (p r ≡ true)
    found e holds = (inl (sym e), subst (λ x. p x ≡ true) e holds)

and_true : (a b : Bool) → (a && b) ≡ true → (a ≡ true) × (b ≡ true)
and_true true b h = (refl, h)
and_true false b h = cc

or_else-cases :
    {A : Type 0} (a b : Option A) {x : A} → or_else a b ≡ some x → (a ≡ some x) ⊎ (b ≡ some x)
or_else-cases none b h = inr h
or_else-cases (some a) b h = inl h

banded :
    (h : ℕ) (fps : Option ℕ) (r : Rule)
    → match_guideline (some h) fps ≡ some r
    → Contains r bitrate_guidance × (in_band h r ≡ true)
unfolding match_guideline
banded h fps r e = elim (or_else-cases _ _ e) [
  | inl first ↦
      (let (there, is) =
          find-Contains (λ x. in_band h x && has_bucket (normalize_fps fps).0 x) bitrate_guidance r
            first in
        (there, (and_true (in_band h r) (has_bucket (normalize_fps fps).0 r) is).0))
  | inr second ↦ find-Contains (in_band h) bitrate_guidance r second
]

matched :
    (height fps : Option ℕ) (r : Rule)
    → match_guideline height fps ≡ some r
    → (h : ℕ) × (height ≡ some h) × Contains r bitrate_guidance × (in_band h r ≡ true)
unfolding match_guideline
matched none fps r e = cc
matched (some h) fps r e = let (there, is) = banded h fps r e in (h, refl, there, is)

-- In every rule the bit rates are in order.
guidance_in_order : All (λ (r : Rule). r.min_bitrate ≤ r.max_bitrate) bitrate_guidance
unfolding bitrate_guidance
guidance_in_order = ground arith

All-Contains : (P : Rule → Type 0) (rs : List Rule) (r : Rule) → All P rs → Contains r rs → P r
All-Contains P [] r hs there = absurd there
All-Contains P (q ∷ rs) r hs (inl is) = subst P (sym is) hs.0
All-Contains P (q ∷ rs) r hs (inr later) = All-Contains P rs r hs.1 later

module _ (r : Rule) (in_order : r.min_bitrate ≤ r.max_bitrate) (value : ℕ) where
  -- A bit rate that neither the range nor the ceiling refuses is in the range of the rule.
  within :
      (tier : Option ℕ)
      → below value (bitrate_range (some r) tier).lowest ≡ false
      → above value (bitrate_range (some r) tier).highest ≡ false
      → above value tier ≡ false
      → (r.min_bitrate ≤ value) × (value ≤ r.max_bitrate)
  unfolding bitrate_range
  within none low high free = ground (arith, in_order, low, high)
  within (some tier) low high free = ground (arith, in_order, low, high, free)

pub or_false : (a b : Bool) → (a || b) ≡ false → (a ≡ false) × (b ≡ false)
or_false true b h = cc
or_false false b h = (refl, h)

-- What no violation of the bit rate says.
pub measured_bitrate :
    (i : ℕ) (tier : Option ℕ) (range : Range) (value : Option ℕ)
    → bitrate_violations i tier range value ≡ []
    → (b : ℕ) × (value ≡ some b)
      × (below b range.lowest ≡ false)
      × (above b range.highest ≡ false)
      × (above b tier ≡ false)
measured_bitrate i tier range none h = cc
measured_bitrate i tier range (some zero) h = cc
measured_bitrate i tier range (some (suc n)) h =
    let (out, over) =
      append_nil (when (below (suc n) range.lowest || above (suc n) range.highest) _ i) _ h in
    let (low, high) =
      or_false (below (suc n) range.lowest) (above (suc n) range.highest) (when_nil _ _ i out) in
    (suc n, refl, low, high, when_nil _ _ i over)

pub under_tier :
    (limits : Limits) (b : ℕ)
    → above b (tier_max limits) ≡ false
    → IsUnderTier limits.max_video_bitrate_mbps b
under_tier limits b h = by_limit limits.max_video_bitrate_mbps h
  where
    by_limit :
        (l : Option ℕ)
        → above b (elim l [ none ↦ none | some n ↦ some (n * mbps) ]) ≡ false
        → IsUnderTier l b
    by_limit none h = tt
    by_limit (some n) h = ground (arith, h)

pub rule_found :
    (tier : Option ℕ) (rule : Option Rule) (height fps : Option ℕ) (b : ℕ)
    → match_guideline height fps ≡ rule
    → is_some rule ≡ true
    → below b (bitrate_range rule tier).lowest ≡ false
    → above b (bitrate_range rule tier).highest ≡ false
    → above b tier ≡ false
    → (h : ℕ) × (height ≡ some h) × IsGuided h b
rule_found tier none height fps b e there low high free = cc
rule_found tier (some r) height fps b e there low high free =
    let (h, is, listed, inside) = matched height fps r e in
    let in_order =
      All-Contains (λ (q : Rule). q.min_bitrate ≤ q.max_bitrate) bitrate_guidance r
        guidance_in_order listed in
    let (enough, not_more) = within r in_order b tier low high free in
    let (from, to) = and_true (leb r.min_height h) (leb h r.max_height) inside in
    (
      h,
      is,
      record {
        rule = r;
        listed = listed;
        tall = leb→le r.min_height h from;
        not_taller = leb→le h r.max_height to;
        enough = enough;
        not_more = not_more;
      },
    )
