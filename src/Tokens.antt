-- ===== src/Tokens.antt =====
-- The tokens for downloads and uploads: backend/app/services/assets/utils.py. The ids are UUIDs; base64, `hmac`
-- with the secret of the settings, `UUID`, `str` and `int` are parameters. Instants are seconds; a refusal is `none`.
pub mod Signed
mod Tests
use youtube_translation.Base.{
  ℕ, ◌+◌, max, Bool, true, false, ◌&&◌, ◌||◌, not, List, [], ◌∷◌, ◌++◌, Option, none, some, Text, ℤ,
  pos, ltb_ℤ, text_beq, split, strip, if◌then◌else◌,
}

-- What the host gives. `decode` is `none` where base64 or UTF-8 does not decode, the parsers where they raise.
pub record Host {ℓ} (Uuid : Type ℓ) : Type ℓ where
  pub encode : Text → Text
  pub decode : Text → Option Text
  pub sign : Text → Text
  pub show_uuid : Uuid → Text
  pub parse_uuid : Text → Option Uuid
  pub show_int : ℕ → Text
  pub parse_int : Text → Option ℤ

infixl 5 ◌>>=◌
abbrev pub ◌>>=◌ {ℓ κ} : {A : Type ℓ} {B : Type κ} → Option A → (A → Option B) → Option B
none >>= f = none
some a >>= f = f a

-- `":".join`
abbrev pub join3 : Text → Text → Text → Text
join3 a b c = a ++ (b':' ∷ (b ++ (b':' ∷ c)))

module _ {ℓ} {Uuid : Type ℓ} (host : Host Uuid) where
  abbrev pub signed : Text → Text
  signed payload = host.encode (payload ++ (b':' ∷ host.sign payload))

  -- `generate_download_token`
  unfoldable pub generate_download_token : ℕ → ℕ → Uuid → Uuid → Text × ℕ
  generate_download_token now ttl asset_id user_id =
      let expires_at = now + ttl in
      (
        signed
            (join3 (host.show_uuid asset_id) (host.show_uuid user_id) (host.show_int expires_at)),
        expires_at,
      )

  -- `generate_upload_token`
  unfoldable pub generate_upload_token : ℕ → ℕ → Text → Uuid → Text × ℕ
  generate_upload_token now ttl nonce user_id =
      let expires_at = now + max ttl 60 in
      (signed (join3 (host.show_uuid user_id) (host.show_int expires_at) nonce), expires_at)

  -- The time of a token that is over, unless that is allowed.
  abbrev unexpired : Bool → ℕ → ℤ → Bool
  unexpired allow_expired now expires_at = allow_expired || not (ltb_ℤ expires_at (pos now))

  -- What a token holds whose signature is right.
  unfoldable pub download_of : ℕ → Text → Text → Text → Option (Uuid × Uuid × ℤ)
  download_of now asset_id user_id expires_at = do
    at ← host.parse_int expires_at
    a ← host.parse_uuid asset_id
    u ← host.parse_uuid user_id
    if unexpired false now at then some (a, u, at) else none

  unfoldable pub upload_of : Bool → ℕ → Text → Text → Option Uuid
  upload_of allow_expired now user_id expires_at = do
    at ← host.parse_int expires_at
    u ← host.parse_uuid user_id
    if unexpired allow_expired now at then some u else none

  unfoldable pub read_download : ℕ → List Text → Option (Uuid × Uuid × ℤ)
  read_download now (asset_id ∷ user_id ∷ expires_at ∷ signature ∷ []) =
      if text_beq signature (host.sign (join3 asset_id user_id expires_at))
      then download_of now asset_id user_id expires_at
      else none
  read_download now parts = none

  -- `parse_download_token`
  unfoldable pub parse_download_token : ℕ → Text → Option (Uuid × Uuid × ℤ)
  unfolding read_download
  parse_download_token now token = do
    decoded ← host.decode (strip token)
    read_download now (split b':' decoded)

  unfoldable pub read_upload : Bool → ℕ → List Text → Option Uuid
  read_upload allow_expired now (user_id ∷ expires_at ∷ [] ∷ signature ∷ []) = none
  read_upload allow_expired now (user_id ∷ expires_at ∷ (c ∷ nonce) ∷ signature ∷ []) =
      if text_beq signature (host.sign (join3 user_id expires_at (c ∷ nonce)))
      then upload_of allow_expired now user_id expires_at
      else none
  read_upload allow_expired now parts = none

  -- `verify_upload_token`: what is before the last colon has three parts where all has four.
  unfoldable pub verify_upload_token : Bool → ℕ → Text → Option Uuid
  unfolding read_upload
  verify_upload_token allow_expired now token = do
    decoded ← host.decode (strip token)
    read_upload allow_expired now (split b':' decoded)
