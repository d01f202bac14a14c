-- ===== src/Command/Tests.antt =====
-- Two destinations under settings that have passed their validators.
use youtube_translation.Base.{
  ◌≡◌, ◌↔◌, ◌≢◌, true, false, List, [], ◌∷◌, ◌++◌, none, some, Text, codes, All, refl, arith, pos,
  strip, lstrip, is_space, lower, ℕ, length,
}
use youtube_translation.Command.{
  Given, Urls, Settings, Parts, OutputArgs, Built, built, refused, output_args, normalize_one,
  validate_ffmpeg_tee_onfail_policy, is_forbidden,
}
use youtube_translation.Command.Quoting.{Without-append, tee_cut, unquoted}
use youtube_translation.Command.Tee.{IsClean}
use youtube_translation.Command.Outputs.{ReadsBack, output_args-ReadsBack}
use youtube_translation.Command.Accepted.{UrlsKeepClean, IsPlain, output_args_built}

-- An address that is all path, with one query put behind it.
abbrev whole_path : Urls
whole_path = record {
  urlsplit = λ t.
      some (record { scheme = codes "RTMP"; netloc = []; path = t; query = []; fragment = [] });
  parse_qsl = λ _. [];
  urlencode = λ _. codes "tcp_keepalive=1&rw_timeout=15000000";
  urlunsplit = λ parts. parts.path ++ (b'?' ∷ parts.query);
}

abbrev default_settings : Settings
default_settings = record {
  ffmpeg_tee_onfail_policy = codes "ignore";
  ffmpeg_output_recovery_max_attempts = pos 12;
  ffmpeg_output_fifo_queue_size = pos 240;
  ffmpeg_output_drop_pkts_on_overflow = true;
  ffmpeg_output_rw_timeout_us = pos 15000000;
  ffmpeg_output_tcp_keepalive = true;
}

abbrev dests : List Given
dests =
    record { url = some (codes "rtmp://a.example/live2//"); key = some (codes " abc ") }
    ∷ record { url = some (codes "rtmp://b.example/app"); key = some (codes "x-1") }
    ∷ []

parts-IsClean :
    (t : Text) (parts : Parts)
    → whole_path.urlsplit t ≡ some parts
    → IsClean t
    → IsClean parts.scheme × IsClean parts.netloc × IsClean parts.path × IsClean parts.fragment
parts-IsClean t parts e h =
    (ground (arith, e), ground (arith, e), ground (arith, e, h), ground (arith, e))

whole_path_clean : UrlsKeepClean whole_path
whole_path_clean = record {
  urlsplit_clean = parts-IsClean;
  urlencode_clean = λ _. refl;
  urlunsplit_clean = λ parts _ _ hp hq _.
      let q : IsClean (b'?' ∷ parts.query) = hq in
      Without-append is_forbidden parts.path (b'?' ∷ parts.query) hp q;
}

-- What is built for them; the other case is never reached.
built_of : Built OutputArgs → OutputArgs
built_of (built args) = args
built_of (refused e) = record {
  command = [];
  destination_uris = [];
  multi_destination = false;
  tee_onfail_policy = none;
}

args : OutputArgs
unfolding built_of output_args
args = built_of (output_args whole_path default_settings dests)

output_args-ReadsBack_example : ReadsBack default_settings dests args
unfolding args validate_ffmpeg_tee_onfail_policy normalize_one strip lstrip is_space lower
output_args-ReadsBack_example =
    output_args-ReadsBack whole_path default_settings dests args (codes " Ignore") refl refl refl
      (refl, (refl, tt))

-- The slashes and the spaces are trimmed, and the options of the transport are set.
args_uris :
    args.destination_uris
    ≡ codes "rtmp://a.example/live2/abc?tcp_keepalive=1&rw_timeout=15000000"
      ∷ codes "rtmp://b.example/app/x-1?tcp_keepalive=1&rw_timeout=15000000"
      ∷ []
unfolding args normalize_one lstrip is_space
args_uris = refl

-- A key that holds one quote is let through, and the tee then reads a single output of two destinations.
abbrev quote_dests : List Given
quote_dests =
    record { url = some (codes "rtmp://a.example/live2"); key = some (codes "a'b") }
    ∷ record { url = some (codes "rtmp://b.example/app"); key = some (codes "x-1") }
    ∷ []

quoted_args : OutputArgs
unfolding built_of output_args
quoted_args = built_of (output_args whole_path default_settings quote_dests)

outputs_read : List Text → ℕ
unfolding tee_cut
outputs_read (format ∷ tee ∷ argument ∷ []) = length (tee_cut unquoted argument)
outputs_read _ = 0

quote_joins_outputs :
    (quoted_args.multi_destination ≡ true) × (outputs_read quoted_args.command ≡ 1)
unfolding quoted_args outputs_read normalize_one strip lstrip is_space lower
quote_joins_outputs = (refl, refl)

output_args_built_example :
    ((args : OutputArgs) × (output_args whole_path default_settings dests ≡ built args))
    ↔ ((dests ≢ []) × All IsPlain dests)
output_args_built_example = output_args_built whole_path whole_path_clean default_settings dests
