-- ===== src/Tokens/Tests.antt =====
-- Tokens of a host whose ids are numbers.
use youtube_translation.Base.{
  ℕ, ◌+◌, ◌≡◌, refl, [], ◌∷◌, Option, none, some, Text, pos, ltb, ◌++◌, ap, ◌∙◌, codes, strip_solid,
  if◌then◌else◌, is_space,
}
use youtube_translation.Tokens.{Host, generate_download_token, parse_download_token}
use youtube_translation.Tokens.Signed.{
  IsPlain, ReadsBack, IsSigned, download_token_roundtrip, parse_download_token-IsSigned,
}

-- All but the last.
abbrev init : Text → Text
init [] = []
init (c ∷ []) = []
init (c ∷ d ∷ s) = c ∷ init (d ∷ s)

init-append : (s : Text) → init (s ++ b'.' ∷ []) ≡ s
init-append [] = refl
init-append (c ∷ []) = refl
init-append (c ∷ d ∷ s) = ap (λ t. c ∷ t) (init-append (d ∷ s))

abbrev first_of : Text → Option ℕ
first_of [] = none
first_of (c ∷ s) = some c

-- Dots around a text stand for base64.
abbrev dotted : Host ℕ
dotted = record {
  encode = λ t. b'.' ∷ (t ++ b'.' ∷ []);
  decode = λ t. elim t [ [] ↦ none | c ∷ s ↦ some (init s) ];
  sign = λ t. codes "s";
  show_uuid = λ n. n ∷ [];
  parse_uuid = first_of;
  show_int = λ n. n ∷ [];
  parse_int = λ t. elim t [ [] ↦ none | c ∷ s ↦ some (pos c) ];
}

dotted-ReadsBack : (a : ℕ) → IsPlain (a ∷ []) → ReadsBack dotted a 8 90
unfolding is_space
dotted-ReadsBack a plain = record {
  plain_asset = plain;
  plain_user = refl;
  plain_int = refl;
  plain_signature = λ t. refl;
  asset_back = refl;
  user_back = refl;
  int_back = refl;
  text_back = λ t. ap dotted.decode (strip_solid b'.' b'.' t refl refl) ∙ ap some (init-append t);
}

download_token_roundtrip_example :
    parse_download_token dotted 50 (generate_download_token dotted 30 60 7 8).0
    ≡ (if ltb (30 + 60) 50 then none else some (7, 8, pos (30 + 60)))
download_token_roundtrip_example =
    download_token_roundtrip dotted 30 50 60 7 8 (dotted-ReadsBack 7 refl)

parse_download_token-IsSigned_example :
    IsSigned dotted 50 (generate_download_token dotted 30 60 7 8).0 (7, 8, pos 90)
parse_download_token-IsSigned_example =
    parse_download_token-IsSigned dotted 50 (generate_download_token dotted 30 60 7 8).0
      (7, 8, pos 90) (download_token_roundtrip dotted 30 50 60 7 8 (dotted-ReadsBack 7 refl))
