-- ===== src/Command/Outputs.antt =====
-- The commands that command_builder.py assembles for the destinations of a stream.
use youtube_translation.Base.{
  ◌≡◌, true, ◌==◌, ℕ, Bool, List, [], ◌∷◌, some, suc, Text, codes, All, length, refl, arith, ap,
  ◌∙◌,
}
use youtube_translation.Command.{
  Given, Urls, Settings, OutputArgs, built, normalize_one, normalize_destinations, output_args,
  join, tee_options, tee_outputs, build_destination_output_args, validate_ffmpeg_tee_onfail_policy,
}
use youtube_translation.Command.Quoting.{
  Without, is_special, scan, scan-append, scan-plain, unquoted, tee_cut, tee_cut-join,
}
use youtube_translation.Command.Tee.{
  IsClean, tee_options-Without, scan-tee_options, policy-Without, is_bracket, targets, outputs_for,
  bind-built, tee_outputs_lem,
}

-- A single quote, which is not among the forbidden characters.
abbrev pub is_quote : ℕ → Bool
is_quote c = c == 39

clean_special : (t : Text) → IsClean t → Without is_quote t → Without is_special t
clean_special [] h q = refl
clean_special (c ∷ t) h q = ground (arith, h, q, clean_special t)

-- Each output closes the quotes of its options and has no others.
outputs-scan :
    (s : Settings) (ts : List Text)
    → scan unquoted (tee_options s) ≡ some unquoted
    → All IsClean ts
    → All (Without is_quote) ts
    → All (λ w. scan unquoted w ≡ some unquoted) (outputs_for s ts)
outputs-scan s [] ho h q = tt
outputs-scan s (t ∷ ts) ho h q =
    let special : Without is_special (b']' ∷ t) = clean_special t h.0 q.0 in
    (
      scan-append unquoted (tee_options s) (b']' ∷ t) ho ∙ scan-plain (b']' ∷ t) special,
      outputs-scan s ts ho h.1 q.1,
    )

length-targets :
    (u : Urls) (s : Settings) (uris : List Text) → length (targets u s uris) ≡ length uris
length-targets u s [] = refl
length-targets u s (uri ∷ uris) = ap suc (length-targets u s uris)

pub length-normalize :
    (dests : List Given) (uris : List Text)
    → normalize_destinations dests ≡ built uris
    → length uris ≡ length dests
unfolding normalize_destinations
length-normalize [] uris h = ground (arith, h)
length-normalize (dest ∷ dests) uris h =
    let (uri, first, more) = bind-built (normalize_one dest) _ h in
    let (rest, others, whole) = bind-built (normalize_destinations dests) _ more in
    ground (arith, whole, length-normalize dests rest others)

-- What the tee reads of the argument of the command, cut by its rule of quoting: as many outputs as there are destinations, each
-- with the options of the settings and one address of the list, on which nothing was forbidden.
pub record ReadsBack (s : Settings) (dests : List Given) (args : OutputArgs) : Type 0 where
  pub argument : Text
  pub command : args.command ≡ codes "-f" ∷ codes "tee" ∷ argument ∷ []
  pub outputs : tee_cut unquoted argument ≡ outputs_for s args.destination_uris
  pub options : Without is_bracket (tee_options s)
  pub addresses : All IsClean args.destination_uris
  pub one_each : length args.destination_uris ≡ length dests

module _ (u : Urls) (s : Settings) (dests : List Given) (args : OutputArgs) where
  built_several :
      (uris : List Text)
      → Without is_special s.ffmpeg_tee_onfail_policy
        × Without is_bracket s.ffmpeg_tee_onfail_policy
      → length uris ≡ length dests
      → build_destination_output_args u s uris ≡ built args
      → args.multi_destination ≡ true
      → All (Without is_quote) args.destination_uris
      → ReadsBack s dests args
  unfolding build_destination_output_args
  built_several [] policy len h multi unquoted_uris = cc
  built_several (uri ∷ []) policy len h multi unquoted_uris = ground (arith, h, multi)
  built_several (uri ∷ uri' ∷ uris) policy len h multi unquoted_uris =
      let (outs, made, whole) = bind-built (tee_outputs u s (uri ∷ uri' ∷ uris)) _ h in
      let (clean, addresses, texts) = tee_outputs_lem u s (uri ∷ uri' ∷ uris) outs made in
      let ts = targets u s (uri ∷ uri' ∷ uris) in
      let uris_are : args.destination_uris ≡ ts = ground (arith, whole, addresses) in
      let quotes : All (Without is_quote) ts = rw uris_are at unquoted_uris in
      let scanned = outputs-scan s ts (scan-tee_options s policy.0) clean quotes in
      record {
        argument = join b'|' (outputs_for s ts);
        command = ground (arith, whole, texts);
        outputs = rw uris_are (tee_cut-join _ _ scanned);
        options = tee_options-Without s policy.1;
        addresses = rw uris_are clean;
        one_each = rw uris_are (length-targets u s (uri ∷ uri' ∷ uris) ∙ len);
      }

  -- If the setting passes its validator, a command for several destinations is built and no address in it
  -- holds a single quote, then its argument, cut by ffmpeg's rule of quoting at each bar that is not
  -- quoted, is one output for each destination: the options of the settings, which hold no closing
  -- bracket, that bracket, and an address free of every forbidden character. No such
  -- destination adds an output or changes the options.
  pub output_args-ReadsBack :
      (raw : Text)
      → validate_ffmpeg_tee_onfail_policy raw ≡ some s.ffmpeg_tee_onfail_policy
      → output_args u s dests ≡ built args
      → args.multi_destination ≡ true
      → All (Without is_quote) args.destination_uris
      → ReadsBack s dests args
  unfolding output_args
  output_args-ReadsBack raw valid h multi quotes =
      let (uris, normal, made) = bind-built (normalize_destinations dests) _ h in
      built_several uris (policy-Without raw valid) (length-normalize dests uris normal) made multi
        quotes
