-- ===== src/Command/Accepted.antt =====
-- Which destinations command_builder.py accepts.
use youtube_translation.Base.{
  ◌≡◌, ◌↔◌, ◌≢◌, Bool, true, false, List, [], ◌∷◌, ◌++◌, Option, none, some, Text, codes, All, refl,
  arith, strip, if◌then◌else◌, Dict, sym, subst, length, suc,
}
use youtube_translation.Command.{
  ◌>>=◌, Given, Urls, Settings, Parts, OutputArgs, Built, built, reject_tee_meta, normalize_one,
  normalize_destinations, output_args, tee_outputs, tee_options, build_tee_destination,
  build_destination_output_args, apply_output_transport_options, with_options, transport_query,
  is_forbidden, rstrip_slash, or_empty, joined_uri,
}
use youtube_translation.Command.Quoting.{Without-append}
use youtube_translation.Command.Tee.{IsClean, reject-IsClean, reject_clean, bind-built}
use youtube_translation.Command.Outputs.{length-normalize}

-- What is relied on of `urllib.parse`: it takes an address apart into pieces of it, it percent-encodes
-- each of the characters in a query, and it puts pieces together with none of them.
pub record UrlsKeepClean (u : Urls) : Type 0 where
  pub urlsplit_clean :
      (t : Text) (parts : Parts)
      → u.urlsplit t ≡ some parts
      → IsClean t
      → IsClean parts.scheme × IsClean parts.netloc × IsClean parts.path × IsClean parts.fragment
  pub urlencode_clean : (d : Dict Text Text) → IsClean (u.urlencode d)
  pub urlunsplit_clean :
      (parts : Parts)
      → IsClean parts.scheme
      → IsClean parts.netloc
      → IsClean parts.path
      → IsClean parts.query
      → IsClean parts.fragment
      → IsClean (u.urlunsplit parts)

-- A destination whose address and key hold no forbidden character, once trimmed.
pub record IsPlain (dest : Given) : Type 0 where
  pub url : IsClean (rstrip_slash (or_empty dest.url))
  pub key : IsClean (strip (or_empty dest.key))

joined-IsClean : (base key : Text) → IsClean base → IsClean key → IsClean (joined_uri base key)
joined-IsClean [] key hb hk = hk
joined-IsClean (c ∷ base) key hb hk =
    let tail : IsClean (b'/' ∷ key) = hk in
    Without-append is_forbidden (c ∷ base) (b'/' ∷ key) hb tail

normalize_one-IsPlain : (dest : Given) (uri : Text) → normalize_one dest ≡ built uri → IsPlain dest
unfolding normalize_one
normalize_one-IsPlain dest uri h =
    let base = rstrip_slash (or_empty dest.url) in
    let key = strip (or_empty dest.key) in
    let (a, url_ok, more) = bind-built (reject_tee_meta base (codes "url")) _ h in
    let (b, key_ok, whole) = bind-built (reject_tee_meta key (codes "key")) _ more in
    record {
      url = reject-IsClean base (codes "url") url_ok;
      key = reject-IsClean key (codes "key") key_ok;
    }

normalize_one_built :
    (dest : Given) → IsPlain dest → (uri : Text) × (normalize_one dest ≡ built uri) × IsClean uri
unfolding normalize_one
normalize_one_built dest h =
    let base = rstrip_slash (or_empty dest.url) in
    let key = strip (or_empty dest.key) in
    (
      joined_uri base key,
      rw (reject_clean base (codes "url") h.url) (rw (reject_clean key (codes "key") h.key) refl),
      joined-IsClean base key h.url h.key,
    )

normalize-IsPlain :
    (dests : List Given) (uris : List Text)
    → normalize_destinations dests ≡ built uris
    → All IsPlain dests
unfolding normalize_destinations
normalize-IsPlain [] uris h = tt
normalize-IsPlain (dest ∷ dests) uris h =
    let (uri, first, more) = bind-built (normalize_one dest) _ h in
    let (rest, others, whole) = bind-built (normalize_destinations dests) _ more in
    (normalize_one-IsPlain dest uri first, normalize-IsPlain dests rest others)

normalize_built :
    (dests : List Given)
    → All IsPlain dests
    → (uris : List Text) × (normalize_destinations dests ≡ built uris) × All IsClean uris
unfolding normalize_destinations
normalize_built [] h = ([], refl, tt)
normalize_built (dest ∷ dests) h =
    let (uri, first, clean) = normalize_one_built dest h.0 in
    let (uris, rest, others) = normalize_built dests h.1 in
    (uri ∷ uris, rw first (rw rest refl), (clean, others))

-- A step that succeeds before one that does.
bind_both {ℓ κ} :
    {A : Type ℓ} {B : Type κ} (m : Built A) (f : A → Built B) {a : A}
    → m ≡ built a
    → (b : B) × (f a ≡ built b)
    → (b : B) × ((m >>= f) ≡ built b)
bind_both m f e (b, h) = (b, rw e h)

module _ (u : Urls) (keep : UrlsKeepClean u) (s : Settings) where
  transport-IsClean : (uri : Text) → IsClean uri → IsClean (apply_output_transport_options u s uri)
  unfolding apply_output_transport_options
  transport-IsClean uri h = by_parts (u.urlsplit uri) refl
    where
      by_parts : (o : Option Parts) → u.urlsplit uri ≡ o → IsClean (with_options u s uri o)
      by_parts none e = h
      by_parts (some parts) e = by_scheme _
        where
          by_scheme :
              (b : Bool)
              → IsClean (
                  if b
                  then u.urlunsplit
                      (record parts { query = u.urlencode (transport_query u s parts.query) })
                  else uri)
          by_scheme true =
              let c = keep.urlsplit_clean uri parts e h in
              keep.urlunsplit_clean
                (record parts { query = u.urlencode (transport_query u s parts.query) }) c.0 c.1 c.2
                (keep.urlencode_clean (transport_query u s parts.query)) c.3
          by_scheme false = h

  tee_outputs_built :
      (uris : List Text)
      → All IsClean uris
      → (outs : List (Text × Text)) × (tee_outputs u s uris ≡ built outs)
  unfolding tee_outputs build_tee_destination
  tee_outputs_built [] h = ([], refl)
  tee_outputs_built (uri ∷ uris) h =
      let target = apply_output_transport_options u s uri in
      let passed = reject_clean target (codes "url") (transport-IsClean uri h.0) in
      let (outs, rest) = tee_outputs_built uris h.1 in
      let text = tee_options s ++ (b']' ∷ target) in
      let here : build_tee_destination u s uri ≡ built text = rw passed refl in
      bind_both (build_tee_destination u s uri) _ here
        (bind_both (tee_outputs u s uris) _ rest (_, refl))

  args_built :
      (dest : Given) (dests : List Given) (uris : List Text)
      → length uris ≡ suc (length dests)
      → All IsClean uris
      → (args : OutputArgs) × (build_destination_output_args u s uris ≡ built args)
  unfolding build_destination_output_args
  args_built dest dests [] len h = absurd (omega (arith, len))
  args_built dest dests (uri ∷ []) len h = (_, refl)
  args_built dest dests (uri ∷ uri' ∷ uris) len h =
      let (outs, made) = tee_outputs_built (uri ∷ uri' ∷ uris) h in
      bind_both (tee_outputs u s (uri ∷ uri' ∷ uris)) _ made (_, refl)

  nothing_built :
      {dests : List Given} {uris : List Text} {args : OutputArgs}
      → dests ≡ []
      → build_destination_output_args u s uris ≡ built args
      → normalize_destinations dests ≡ built uris
      → ⊥
  unfolding build_destination_output_args normalize_destinations
  nothing_built {uris = uris} {args = args} e made normal =
      let empty : built [] ≡ built uris = rw e at normal in
      let same : [] ≡ uris = cc empty in
      let refusal =
        subst (λ (us : List Text). build_destination_output_args u s us ≡ built args) (sym same)
          made in
      cc refusal

  -- With an address library that adds no forbidden character, a command is built exactly when there is a
  -- destination and every destination, its address and its key trimmed, holds no forbidden character.
  pub output_args_built :
      (dests : List Given)
      → ((args : OutputArgs) × (output_args u s dests ≡ built args))
        ↔ ((dests ≢ []) × All IsPlain dests)
  unfolding output_args
  output_args_built dests = (forward, backward dests)
    where
      forward :
          ((args : OutputArgs) × (output_args u s dests ≡ built args))
          → (dests ≢ []) × All IsPlain dests
      forward (args, h) =
          let (uris, normal, made) = bind-built (normalize_destinations dests) _ h in
          (λ none_given. nothing_built none_given made normal, normalize-IsPlain dests uris normal)

      backward :
          (ds : List Given)
          → (ds ≢ []) × All IsPlain ds
          → (args : OutputArgs) × (output_args u s ds ≡ built args)
      backward [] h = absurd (h.0 refl)
      backward (dest ∷ ds) h =
          let (uris, normal, clean) = normalize_built (dest ∷ ds) h.1 in
          bind_both (normalize_destinations (dest ∷ ds)) _ normal
            (args_built dest ds uris (length-normalize (dest ∷ ds) uris normal) clean)
