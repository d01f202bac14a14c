-- ===== src/RateLimit/Client.antt =====
-- The key of a client in backend/app/middleware/rate_limiter.py: `_get_client_key` and its parts.
-- What is read from outside the repository enters by `Host`: `urllib.parse.unquote`, PyJWT's
-- `decode`, and the `ipaddress` module.
pub mod Key
use youtube_translation.Base.{
  ℕ, ◌==◌, Bool, true, false, not, ◌&&◌, List, [], ◌∷◌, ◌++◌, Option, none, some, if◌then◌else◌,
  Text, codes, text_beq, starts_with, strip, split, take, drop, filter, any, length,
}

-- The claim `sub` of a decoded token: absent, a string, or another JSON value.
pub data Claim : Type 0 where
  missing : Claim
  text : Text → Claim
  other : Claim

pub record Host : Type 0 where
  -- `urllib.parse.unquote`
  pub unquote : Text → Text
  -- `jwt.decode(token, options={"verify_signature": False})`: `none` when it raises, and the claim
  -- `sub` of the payload, which is a dict.
  pub jwt_decode : Text → Option Claim
  -- whether `ip_network(entry)` and `ip_address(host)` do not raise, and `ip in network`
  pub valid_network : Text → Bool
  pub valid_address : Text → Bool
  pub in_network : Text → Text → Bool

-- What the limiter reads of a request; a header that is absent is `none`.
pub record Request : Type 0 where
  pub path : Text
  pub client_host : Option Text
  pub forwarded_for : Option Text
  pub authorization : Option Text
  pub authenticated_user_id : Option Text

-- `a or b`, for an optional text: an empty text counts as absent.
abbrev pub or_else : Option Text → Option Text → Option Text
or_else (some (c ∷ s)) b = some (c ∷ s)
or_else (some []) b = b
or_else none b = b

abbrev pub or_text : Option Text → Text → Text
or_text (some (c ∷ s)) b = c ∷ s
or_text (some []) b = b
or_text none b = b

abbrev pub first_or_empty : List Text → Text
first_or_empty [] = []
first_or_empty (w ∷ _) = w

-- `_STREAM_ROUTE_ACTIONS`
abbrev pub stream_route_actions : List Text
stream_route_actions = codes "start" ∷ codes "stop" ∷ codes "status" ∷ codes "logs" ∷ []

abbrev is_filled : Text → Bool
is_filled [] = false
is_filled (_ ∷ _) = true

-- The test on the four parts of a path.
unfoldable pub stream_action : List Text → Option Text
stream_action (a ∷ b ∷ c ∷ action ∷ []) =
    if text_beq a (codes "api")
      && text_beq b (codes "streams")
      && any (text_beq action) stream_route_actions
    then some action
    else none
stream_action _ = none

abbrev pub path_parts : Text → List Text
path_parts path = filter is_filled (split b'/' path)

-- `_normalize_endpoint_path`, after `unquote`.
unfoldable pub normalize_unquoted : Text → Text
unfolding stream_action
normalize_unquoted path =
    let normalized_path = or_text (some (strip path)) (codes "/") in
    elim (stream_action (path_parts normalized_path)) [
      | some action ↦ codes "/api/streams/" ++ action
      | none ↦ normalized_path
    ]

module _ (h : Host) where
  unfoldable pub normalize_endpoint_path : Text → Text
  normalize_endpoint_path path = normalize_unquoted (h.unquote path)

  -- `_extract_user_id_from_jwt`
  subject : Option Claim → Option Text
  subject (some (text s)) = some (take 64 s)
  subject _ = none

  bearer_subject : Text → Option Text
  unfolding subject
  bearer_subject header =
      let token = strip (drop 7 header) in
      if starts_with header (codes "Bearer ") && is_filled token
      then subject (h.jwt_decode token)
      else none

  unfoldable pub extract_user_id_from_jwt : Request → Option Text
  unfolding bearer_subject
  extract_user_id_from_jwt r = elim r.authorization [
    | none ↦ none
    | some header ↦ if is_filled header then bearer_subject header else none
  ]

  -- `_is_trusted_proxy`, over the networks that the constructor kept.
  unfoldable pub is_trusted_proxy : List Text → Text → Bool
  is_trusted_proxy networks client_ip =
      h.valid_address client_ip && any (λ n. h.in_network client_ip n) networks

  abbrev peer : Request → Text
  peer r = elim r.client_host [ none ↦ codes "unknown" | some host ↦ host ]

  -- `_get_client_ip`
  unfoldable pub get_client_ip : List Text → Request → Text
  unfolding is_trusted_proxy
  get_client_ip networks r = elim r.forwarded_for [
    | none ↦ peer r
    | some forwarded ↦
        if is_filled forwarded && is_trusted_proxy networks (peer r)
        then or_text (some (strip (first_or_empty (split b',' forwarded)))) (peer r)
        else peer r
  ]

  unfoldable pub user_segment : Request → Text
  unfolding extract_user_id_from_jwt
  user_segment r =
      or_text (or_else r.authenticated_user_id (extract_user_id_from_jwt r)) (codes "anon")

  -- `_get_client_key`
  unfoldable pub get_client_key : List Text → Request → Text
  get_client_key networks r =
      get_client_ip networks r ++ b':' ∷ (user_segment r ++ b':' ∷ normalize_endpoint_path r.path)
