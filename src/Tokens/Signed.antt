-- ===== src/Tokens/Signed.antt =====
-- Tokens that are written and read, and what a token that is accepted carries.
use youtube_translation.Base.{
  ℕ, ◌+◌, ◌≡◌, refl, sym, ap, ◌∙◌, max, Bool, true, false, ◌||◌, not, List, [], ◌∷◌, ◌++◌, Option,
  none, some, Text, ℤ, pos, ltb_ℤ, ltb, text_beq, text_beq_refl, text_beq_sound, split,
  split-append, strip, any, ◌==◌, if◌then◌else◌, arith, Bool-cases, inl, inr,
}
use mathlib.Core.List.{append_assoc}
use mathlib.Core.Option.{none-ne-some, some-injective}
use youtube_translation.Tokens.{
  Host, ◌>>=◌, join3, generate_download_token, generate_upload_token, download_of, upload_of,
  read_download, read_upload, parse_download_token, verify_upload_token,
}

-- A text that holds no colon.
abbrev pub IsPlain : Text → Type 0
IsPlain s = any (λ c. c == b':') s ≡ false

split_plain : (s : Text) → IsPlain s → split b':' s ≡ s ∷ []
unfolding split
split_plain [] h = refl
split_plain (c ∷ s) h = ground (arith, h, split_plain s)

split_four :
    (a b c d : Text)
    → IsPlain a
    → IsPlain b
    → IsPlain c
    → IsPlain d
    → split b':' (join3 a b c ++ (b':' ∷ d)) ≡ a ∷ b ∷ c ∷ d ∷ []
split_four a b c d ha hb hc hd =
    ap (split b':') (
      append_assoc a (b':' ∷ (b ++ (b':' ∷ c))) (b':' ∷ d)
      ∙ ap (λ rest. a ++ (b':' ∷ rest)) (append_assoc b (b':' ∷ c) (b':' ∷ d)))
    ∙ split-append b':' a (b ++ (b':' ∷ (c ++ (b':' ∷ d)))) ha
    ∙ ap (λ parts. a ∷ parts) (split-append b':' b (c ++ (b':' ∷ d)) hb)
    ∙ ap (λ parts. a ∷ b ∷ parts) (split-append b':' c d hc)
    ∙ ap (λ parts. a ∷ b ∷ c ∷ parts) (split_plain d hd)

bind_some {κ μ} :
    {A : Type κ} {B : Type μ} (o : Option A) (f : A → Option B) (b : B)
    → (o >>= f) ≡ some b
    → (a : A) × (o ≡ some a) × (f a ≡ some b)
bind_some none f b h = absurd (none-ne-some b h)
bind_some (some a) f b h = (a, refl, h)

negated : (b : Bool) → not b ≡ true → b ≡ false
negated b h = ground (arith, h)

-- A choice that comes out as a value was made for it.
if_some {κ} :
    {A : Type κ} (b : Bool) (x y : A) → (if b then some x else none) ≡ some y → (b ≡ true) × (x ≡ y)
if_some true x y h = (refl, some-injective x y h)
if_some false x y h = absurd (none-ne-some y h)

module _ {ℓ} {Uuid : Type ℓ} (host : Host Uuid) where
  -- The host reads what it writes: these ids, this instant, and base64 of the token, which has no white
  -- space; and no part of the token holds a colon.
  pub record ReadsBack (asset_id user_id : Uuid) (at : ℕ) : Type ℓ where
    pub plain_asset : IsPlain (host.show_uuid asset_id)
    pub plain_user : IsPlain (host.show_uuid user_id)
    pub plain_int : IsPlain (host.show_int at)
    pub plain_signature : (payload : Text) → IsPlain (host.sign payload)
    pub asset_back : host.parse_uuid (host.show_uuid asset_id) ≡ some asset_id
    pub user_back : host.parse_uuid (host.show_uuid user_id) ≡ some user_id
    pub int_back : host.parse_int (host.show_int at) ≡ some (pos at)
    pub text_back : (text : Text) → host.decode (strip (host.encode text)) ≡ some text

  download_read :
      (now : ℕ) (a u e : Text)
      → read_download host now (a ∷ u ∷ e ∷ host.sign (join3 a u e) ∷ [])
        ≡ download_of host now a u e
  unfolding read_download
  download_read now a u e = rw (text_beq_refl (host.sign (join3 a u e))) refl

  -- A download token that is read before it expires gives the asset and the user that it was made for, with its
  -- expiry, and one that is read later gives nothing.
  pub download_token_roundtrip :
      (now later ttl : ℕ) (asset_id user_id : Uuid)
      → ReadsBack asset_id user_id (now + ttl)
      → parse_download_token host later (generate_download_token host now ttl asset_id user_id).0
        ≡ (if ltb (now + ttl) later then none else some (asset_id, user_id, pos (now + ttl)))
  unfolding parse_download_token generate_download_token download_of
  download_token_roundtrip now later ttl asset_id user_id r =
      let a = host.show_uuid asset_id in
      let u = host.show_uuid user_id in
      let e = host.show_int (now + ttl) in
      let text = join3 a u e ++ (b':' ∷ host.sign (join3 a u e)) in
      ap (λ d. d >>= (λ decoded. read_download host later (split b':' decoded))) (r.text_back text)
      ∙ ap (read_download host later) (
          split_four a u e (host.sign (join3 a u e)) r.plain_asset r.plain_user r.plain_int
            (r.plain_signature (join3 a u e)))
      ∙ download_read later a u e
      ∙ rw (r.int_back, r.asset_back, r.user_back) (ground arith)

  -- What a download token carries that is accepted: three texts with the signature of the host, which parse to
  -- the ids and an instant that is not over.
  pub record IsSigned (now : ℕ) (token : Text) (result : Uuid × Uuid × ℤ) : Type ℓ where
    pub decoded : Text
    pub asset_id : Text
    pub user_id : Text
    pub expires_at : Text
    pub is_decoded : host.decode (strip token) ≡ some decoded
    pub parts :
        split b':' decoded
        ≡ asset_id ∷ user_id ∷ expires_at ∷ host.sign (join3 asset_id user_id expires_at) ∷ []
    pub asset : host.parse_uuid asset_id ≡ some result.0
    pub user : host.parse_uuid user_id ≡ some result.1
    pub instant : host.parse_int expires_at ≡ some result.2
    pub unexpired : ltb_ℤ result.2 (pos now) ≡ false

  read_signed :
      (now : ℕ) (parts : List Text) (result : Uuid × Uuid × ℤ)
      → read_download host now parts ≡ some result
      → (a : Text) × (u : Text) × (e : Text) × (parts ≡ a ∷ u ∷ e ∷ host.sign (join3 a u e) ∷ [])
        × (download_of host now a u e ≡ some result)
  unfolding read_download
  read_signed now [] result h = ground (arith, h)
  read_signed now (a ∷ []) result h = ground (arith, h)
  read_signed now (a ∷ u ∷ []) result h = ground (arith, h)
  read_signed now (a ∷ u ∷ e ∷ []) result h = ground (arith, h)
  read_signed now (a ∷ u ∷ e ∷ s ∷ []) result h =
      elim (Bool-cases (text_beq s (host.sign (join3 a u e)))) [
        | inl same ↦ (
          a,
          u,
          e,
          ap (λ (t : Text). a ∷ u ∷ e ∷ t ∷ []) (text_beq_sound s _ same),
          ground (arith, h, same),
        )
        | inr other ↦ ground (arith, h, other)
      ]
  read_signed now (a ∷ u ∷ e ∷ s ∷ t ∷ rest) result h = ground (arith, h)

  -- A download token is accepted only if the host has signed what it carries and its time is not over.
  pub parse_download_token-IsSigned :
      (now : ℕ) (token : Text) (result : Uuid × Uuid × ℤ)
      → parse_download_token host now token ≡ some result
      → IsSigned now token result
  unfolding parse_download_token download_of
  parse_download_token-IsSigned now token result h =
      let (decoded, is_decoded, h1) = bind_some (host.decode (strip token)) _ result h in
      let (a, u, e, parts, h2) = read_signed now (split b':' decoded) result h1 in
      let (at, is_at, h3) = bind_some (host.parse_int e) _ result h2 in
      let (asset, is_asset, h4) = bind_some (host.parse_uuid a) _ result h3 in
      let (user, is_user, h5) = bind_some (host.parse_uuid u) _ result h4 in
      let (fresh, same) = if_some _ (asset, user, at) result h5 in
      record {
        decoded = decoded;
        asset_id = a;
        user_id = u;
        expires_at = e;
        is_decoded = is_decoded;
        parts = parts;
        asset = is_asset ∙ ap (λ (r : Uuid × Uuid × ℤ). some r.0) same;
        user = is_user ∙ ap (λ (r : Uuid × Uuid × ℤ). some r.1) same;
        instant = is_at ∙ ap (λ (r : Uuid × Uuid × ℤ). some r.2) same;
        unexpired =
            ap (λ (r : Uuid × Uuid × ℤ). ltb_ℤ r.2 (pos now)) (sym same)
            ∙ negated (ltb_ℤ at (pos now)) fresh;
      }

  upload_read :
      (allow_expired : Bool) (now : ℕ) (u e : Text) (c : ℕ) (nonce : Text)
      → read_upload host allow_expired now
          (u ∷ e ∷ (c ∷ nonce) ∷ host.sign (join3 u e (c ∷ nonce)) ∷ [])
        ≡ upload_of host allow_expired now u e
  unfolding read_upload
  upload_read allow_expired now u e c nonce =
      rw (text_beq_refl (host.sign (join3 u e (c ∷ nonce)))) refl

  -- An upload token that is read before it expires, which is a minute or more after it was made, gives the user
  -- that it was made for, and one that is read later does so only where that is allowed.
  pub upload_token_roundtrip :
      (allow_expired : Bool) (now later ttl : ℕ) (c : ℕ) (nonce : Text) (user_id : Uuid)
      → IsPlain (c ∷ nonce)
      → ReadsBack user_id user_id (now + max ttl 60)
      → verify_upload_token host allow_expired later
          (generate_upload_token host now ttl (c ∷ nonce) user_id).0
        ≡ (if allow_expired || not (ltb (now + max ttl 60) later) then some user_id else none)
  unfolding verify_upload_token generate_upload_token upload_of
  upload_token_roundtrip allow_expired now later ttl c nonce user_id plain r =
      let u = host.show_uuid user_id in
      let e = host.show_int (now + max ttl 60) in
      let text = join3 u e (c ∷ nonce) ++ (b':' ∷ host.sign (join3 u e (c ∷ nonce))) in
      ap (λ d. d >>= (λ decoded. read_upload host allow_expired later (split b':' decoded)))
        (r.text_back text)
      ∙ ap (read_upload host allow_expired later) (
          split_four u e (c ∷ nonce) (host.sign (join3 u e (c ∷ nonce))) r.plain_user r.plain_int
            plain (r.plain_signature (join3 u e (c ∷ nonce))))
      ∙ upload_read allow_expired later u e c nonce
      ∙ rw (r.int_back, r.user_back) (ground arith)
