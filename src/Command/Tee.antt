-- ===== src/Command/Tee.antt =====
-- What ffmpeg reads of the tee argument that command_builder.py assembles.
use youtube_translation.Base.{
  ℕ, ◌≡◌, ◌+◌, ◌<◌, ◌==◌, Bool, true, false, ◌||◌, List, [], ◌∷◌, ◌++◌, none, some, if◌then◌else◌,
  Text, show_nat, codes, text_beq, text_beq_sound, All, any-show_nat, ◌∙◌, lower, strip, pos_part,
  Bool-cases, inl, inr, refl, arith,
}
use youtube_translation.Command.Quoting.{
  Without, Without-append, is_special, scan, scan-append, scan-plain, unquoted,
}
use youtube_translation.Command.{
  ◌>>=◌, Urls, Settings, Built, built, refused, is_forbidden, reject_tee_meta, tee_options,
  tee_outputs, build_tee_destination, apply_output_transport_options,
  validate_ffmpeg_tee_onfail_policy, firsts, seconds, flag, queue_size, concat, option_parts,
}

-- A text that the tee takes as it stands.
abbrev pub IsClean : Text → Type 0
IsClean = Without is_forbidden

abbrev pub is_bracket : ℕ → Bool
is_bracket c = c == b']'

module _ (p : ℕ → Bool) where
  concat-Without : (ws : List Text) → All (Without p) ws → Without p (concat ws)
  unfolding concat
  concat-Without [] h = refl
  concat-Without (w ∷ ws) h = Without-append p w (concat ws) h.0 (concat-Without ws h.1)

  flag-Without : ((d : ℕ) → d < 10 → p (48 + d) ≡ false) → (b : Bool) → Without p (flag b)
  flag-Without digit true = ground (arith, digit 1)
  flag-Without digit false = ground (arith, digit 0)

plain_digit : (d : ℕ) → d < 10 → is_special (48 + d) ≡ false
plain_digit d h = ground arith

no_bracket : (d : ℕ) → d < 10 → is_bracket (48 + d) ≡ false
no_bracket d h = ground arith

concat-scan :
    (ws : List Text)
    → All (λ w. scan unquoted w ≡ some unquoted) ws
    → scan unquoted (concat ws) ≡ some unquoted
unfolding concat scan
concat-scan [] h = refl
concat-scan (w ∷ ws) h = scan-append unquoted w (concat ws) h.0 ∙ concat-scan ws h.1

-- No part of the options ends a target, and they leave no quote open.
pub scan-tee_options :
    (s : Settings)
    → Without is_special s.ffmpeg_tee_onfail_policy
    → scan unquoted (tee_options s) ≡ some unquoted
unfolding tee_options scan
scan-tee_options s h =
    let q = queue_size s in
    let m = pos_part s.ffmpeg_output_recovery_max_attempts in
    let b = s.ffmpeg_output_drop_pkts_on_overflow in
    concat-scan (option_parts s) (
      refl,
      (
        scan-plain s.ffmpeg_tee_onfail_policy h,
        (
          refl,
          (
            refl,
            (
              scan-plain (flag b) (flag-Without is_special plain_digit b),
              (
                refl,
                (
                  scan-plain (show_nat q) (any-show_nat is_special q plain_digit),
                  (refl, (scan-plain (show_nat m) (any-show_nat is_special m plain_digit), tt)),
                ),
              ),
            ),
          ),
        ),
      ),
    )

-- None of the parts of the options ends them.
pub tee_options-Without :
    (s : Settings)
    → Without is_bracket s.ffmpeg_tee_onfail_policy
    → Without is_bracket (tee_options s)
unfolding tee_options
tee_options-Without s h =
    let q = queue_size s in
    let m = pos_part s.ffmpeg_output_recovery_max_attempts in
    let b = s.ffmpeg_output_drop_pkts_on_overflow in
    concat-Without is_bracket (option_parts s) (
      refl,
      (
        h,
        (
          refl,
          (
            refl,
            (
              flag-Without is_bracket no_bracket b,
              (
                refl,
                (
                  any-show_nat is_bracket q no_bracket,
                  (refl, (any-show_nat is_bracket m no_bracket, tt)),
                ),
              ),
            ),
          ),
        ),
      ),
    )

pub policy-Without :
    (raw : Text) {policy : Text}
    → validate_ffmpeg_tee_onfail_policy raw ≡ some policy
    → Without is_special policy × Without is_bracket policy
unfolding validate_ffmpeg_tee_onfail_policy
policy-Without raw h = named (lower (strip raw)) h
  where
    named :
        (t : Text) {policy : Text}
        → (if text_beq t (codes "ignore") || text_beq t (codes "abort") then some t else none)
          ≡ some policy
        → Without is_special policy × Without is_bracket policy
    named t e = elim (Bool-cases (text_beq t (codes "ignore"))) [
      | inl is ↦ ground (arith, e, text_beq_sound t (codes "ignore") is)
      | inr other ↦ elim (Bool-cases (text_beq t (codes "abort"))) [
        | inl is ↦ ground (arith, e, other, text_beq_sound t (codes "abort") is)
        | inr neither ↦ ground (arith, e, other, neither)
      ]
    ]

-- What the loop over the destinations leaves, when nothing is refused.
abbrev pub targets : Urls → Settings → List Text → List Text
targets u s [] = []
targets u s (uri ∷ uris) = apply_output_transport_options u s uri ∷ targets u s uris

abbrev pub outputs_for : Settings → List Text → List Text
outputs_for s [] = []
outputs_for s (target ∷ rest) = (tee_options s ++ (b']' ∷ target)) ∷ outputs_for s rest

pub reject-IsClean : (t field : Text) → reject_tee_meta t field ≡ built tt → IsClean t
unfolding reject_tee_meta
reject-IsClean [] field h = refl
reject-IsClean (c ∷ t) field h = ground (arith, h)

pub reject_clean : (t field : Text) → IsClean t → reject_tee_meta t field ≡ built tt
unfolding reject_tee_meta
reject_clean [] field h = refl
reject_clean (c ∷ t) field h = rw h

-- Inversion of a successful bind.
pub bind-built {ℓ κ} :
    {A : Type ℓ} {B : Type κ} (m : Built A) (f : A → Built B) {b : B}
    → (m >>= f) ≡ built b
    → (a : A) × (m ≡ built a) × (f a ≡ built b)
bind-built (built a) f h = (a, refl, h)
bind-built (refused e) f h = cc

module _ (u : Urls) (s : Settings) where
  tee_output_lem :
      (uri output : Text)
      → build_tee_destination u s uri ≡ built output
      → IsClean (apply_output_transport_options u s uri)
        × (output ≡ tee_options s ++ (b']' ∷ apply_output_transport_options u s uri))
  unfolding build_tee_destination
  tee_output_lem uri output h =
      let target = apply_output_transport_options u s uri in
      let (a, passed, rest) = bind-built (reject_tee_meta target (codes "url")) _ h in
      (reject-IsClean target (codes "url") passed, cc rest)

  pub tee_outputs_lem :
      (uris : List Text) (outs : List (Text × Text))
      → tee_outputs u s uris ≡ built outs
      → All IsClean (targets u s uris)
        × (firsts outs ≡ targets u s uris)
        × (seconds outs ≡ outputs_for s (targets u s uris))
  unfolding tee_outputs
  tee_outputs_lem [] outs h = (tt, ground (arith, h), ground (arith, h))
  tee_outputs_lem (uri ∷ uris) outs h =
      let (output, first, more) = bind-built (build_tee_destination u s uri) _ h in
      let (rest, others, whole) = bind-built (tee_outputs u s uris) _ more in
      let here = tee_output_lem uri output first in
      let ih = tee_outputs_lem uris rest others in
      ((here.0, ih.0), ground (arith, whole, ih.1), ground (arith, whole, ih.2, here.1))
