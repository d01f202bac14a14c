-- ===== src/Command.antt =====
-- The output arguments of ffmpeg: backend/app/streaming/command_builder.py, with the validators that
-- backend/app/core/config.py runs on the settings it reads. `urllib.parse` is a parameter.
pub mod Quoting
pub mod Tee
pub mod Accepted
pub mod Outputs
mod Tests
use youtube_translation.Base.{
  ℕ, ◌==◌, Bool, true, false, ◌||◌, List, [], ◌∷◌, ◌++◌, Option, none, some, if◌then◌else◌, Text,
  codes, text_beq, strip, lower, any, reverse, lookup, insert, has_key, Dict, text_eq, ℤ, pos_part,
  ltb, ltb_ℤ, pos, max, show_nat,
}

-- `tee_meta` is a `TeeMetaCharacterError` with its field, `no_destination` the `ValueError`.
pub data Failure : Type 0 where
  tee_meta : Text → Failure
  no_destination : Failure

pub data Built {ℓ} (A : Type ℓ) : Type ℓ where
  built : A → Built A
  refused : Failure → Built A

infixl 5 ◌>>=◌ ◌>>◌
abbrev pub ◌>>=◌ {ℓ κ} : {A : Type ℓ} {B : Type κ} → Built A → (A → Built B) → Built B
built a >>= f = f a
refused e >>= f = refused e

abbrev pub ◌>>◌ {ℓ} : {B : Type ℓ} → Built (Unit {0}) → Built B → Built B
m >> k = m >>= λ _. k

-- A character of `TEE_FORBIDDEN_CHARS`
abbrev pub is_forbidden : ℕ → Bool
is_forbidden c =
    (c == b'[') || (c == b']') || (c == b'|') || (c == b'\\') || (c == 10) || (c == 13) || (c == 9)

-- `_reject_tee_meta`
unfoldable pub reject_tee_meta : Text → Text → Built (Unit {0})
reject_tee_meta [] field = built tt
reject_tee_meta (c ∷ value) field =
    if any is_forbidden (c ∷ value) then refused (tee_meta field) else built tt

-- What `urllib.parse` does: the parts of an address, with `none` for an exception, the pairs of a query,
-- and both put together again.
pub record Parts : Type 0 where
  pub scheme : Text
  pub netloc : Text
  pub path : Text
  pub query : Text
  pub fragment : Text

pub record Urls : Type 0 where
  pub urlsplit : Text → Option Parts
  pub parse_qsl : Text → List (Text × Text)
  pub urlencode : Dict Text Text → Text
  pub urlunsplit : Parts → Text

-- The fields of `Settings` that are read here.
pub record Settings : Type 0 where
  pub ffmpeg_tee_onfail_policy : Text
  pub ffmpeg_output_recovery_max_attempts : ℤ
  pub ffmpeg_output_fifo_queue_size : ℤ
  pub ffmpeg_output_drop_pkts_on_overflow : Bool
  pub ffmpeg_output_rw_timeout_us : ℤ
  pub ffmpeg_output_tcp_keepalive : Bool

-- `validate_ffmpeg_tee_onfail_policy`, and the validators of the numbers; `none` is the `ValueError`.
unfoldable pub validate_ffmpeg_tee_onfail_policy : Text → Option Text
validate_ffmpeg_tee_onfail_policy value =
    let normalized = lower (strip value) in
    if text_beq normalized (codes "ignore") || text_beq normalized (codes "abort")
    then some normalized
    else none

unfoldable pub validate_non_negative_ffmpeg_output_values : ℤ → Option ℤ
validate_non_negative_ffmpeg_output_values value = if ltb_ℤ value (pos 0) then none else some value

unfoldable pub validate_ffmpeg_output_fifo_queue_size : ℤ → Option ℤ
validate_ffmpeg_output_fifo_queue_size value = if ltb_ℤ value (pos 1) then none else some value

-- A destination as it is given, with its missing fields.
pub record Given : Type 0 where
  pub url : Option Text
  pub key : Option Text

abbrev pub or_empty : Option Text → Text
or_empty none = []
or_empty (some s) = s

unfoldable pub drop_char : ℕ → Text → Text
drop_char c [] = []
drop_char c (x ∷ s) = if x == c then drop_char c s else x ∷ s

-- `s.rstrip("/")`
unfoldable pub rstrip_slash : Text → Text
unfolding drop_char
rstrip_slash s = reverse (drop_char b'/' (reverse s))

abbrev pub joined_uri : Text → Text → Text
joined_uri [] stream_key = stream_key
joined_uri (c ∷ base_url) stream_key = (c ∷ base_url) ++ (b'/' ∷ stream_key)

-- One turn of `normalize_destinations`
unfoldable pub normalize_one : Given → Built Text
unfolding reject_tee_meta rstrip_slash strip
normalize_one dest = do
  let base_url = rstrip_slash (or_empty dest.url)
  let stream_key = strip (or_empty dest.key)
  reject_tee_meta base_url (codes "url")
  reject_tee_meta stream_key (codes "key")
  built (joined_uri base_url stream_key)

unfoldable pub normalize_destinations : List Given → Built (List Text)
normalize_destinations [] = built []
normalize_destinations (dest ∷ dests) = do
  uri ← normalize_one dest
  uris ← normalize_destinations dests
  built (uri ∷ uris)

-- `dict(pairs)` and `query.setdefault(key, value)`
unfoldable pub dict_of : List (Text × Text) → Dict Text Text → Dict Text Text
dict_of [] d = d
dict_of ((k, v) ∷ pairs) d = dict_of pairs (insert k v d)

unfoldable pub set_default : Text → Text → Dict Text Text → Dict Text Text
set_default k v d = if has_key k d then d else insert k v d

unfoldable pub with_keepalive : Settings → Dict Text Text → Dict Text Text
unfolding set_default
with_keepalive s query =
    if s.ffmpeg_output_tcp_keepalive
    then set_default (codes "tcp_keepalive") (codes "1") query
    else query

-- `max(int(value), 0)` is the positive part.
unfoldable pub with_rw_timeout : Settings → Dict Text Text → Dict Text Text
unfolding set_default
with_rw_timeout s query =
    let rw_timeout = pos_part s.ffmpeg_output_rw_timeout_us in
    if ltb 0 rw_timeout then set_default (codes "rw_timeout") (show_nat rw_timeout) query else query

abbrev pub transport_query : Urls → Settings → Text → Dict Text Text
transport_query u s query = with_rw_timeout s (with_keepalive s (dict_of (u.parse_qsl query) []))

abbrev pub with_options : Urls → Settings → Text → Option Parts → Text
with_options u s uri none = uri
with_options u s uri (some parts) =
    if text_beq (lower parts.scheme) (codes "rtmp") || text_beq (lower parts.scheme) (codes "rtmps")
    then u.urlunsplit (record parts { query = u.urlencode (transport_query u s parts.query) })
    else uri

unfoldable pub apply_output_transport_options : Urls → Settings → Text → Text
unfolding dict_of with_keepalive with_rw_timeout lower
apply_output_transport_options u s uri = with_options u s uri (u.urlsplit uri)

abbrev pub flag : Bool → Text
flag true = codes "1"
flag false = codes "0"

abbrev pub queue_size : Settings → ℕ
queue_size s = max (pos_part s.ffmpeg_output_fifo_queue_size) 1

unfoldable pub concat : List Text → Text
concat [] = []
concat (w ∷ ws) = w ++ concat ws

-- The options before a target of the tee, up to their closing bracket, in parts and together.
abbrev pub option_parts : Settings → List Text
option_parts s =
    codes "[select='v\\:0,a\\:0':onfail="
    ∷ s.ffmpeg_tee_onfail_policy
    ∷ codes ":f=fifo:fifo_format=flv:attempt_recovery=1:recovery_wait_time=5:recover_any_error=1:"
    ∷ codes "restart_with_keyframe=1:drop_pkts_on_overflow="
    ∷ flag s.ffmpeg_output_drop_pkts_on_overflow
    ∷ codes ":queue_size="
    ∷ show_nat (queue_size s)
    ∷ codes ":max_recovery_attempts="
    ∷ show_nat (pos_part s.ffmpeg_output_recovery_max_attempts)
    ∷ []

unfoldable pub tee_options : Settings → Text
unfolding concat show_nat
tee_options s = concat (option_parts s)

unfoldable pub build_tee_destination : Urls → Settings → Text → Built Text
unfolding apply_output_transport_options reject_tee_meta tee_options
build_tee_destination u s uri = do
  let target_uri = apply_output_transport_options u s uri
  reject_tee_meta target_uri (codes "url")
  built (tee_options s ++ (b']' ∷ target_uri))

-- `FFmpegDestinationOutputArgs`
pub record OutputArgs : Type 0 where
  pub command : List Text
  pub destination_uris : List Text
  pub multi_destination : Bool
  pub tee_onfail_policy : Option Text

-- The command for a single destination
unfoldable pub fifo_command : Settings → Text → List Text
unfolding show_nat
fifo_command s target =
    codes "-f"
    ∷ codes "fifo"
    ∷ codes "-fifo_format"
    ∷ codes "flv"
    ∷ codes "-attempt_recovery"
    ∷ codes "1"
    ∷ codes "-recovery_wait_time"
    ∷ codes "5"
    ∷ codes "-recover_any_error"
    ∷ codes "1"
    ∷ codes "-restart_with_keyframe"
    ∷ codes "1"
    ∷ codes "-drop_pkts_on_overflow"
    ∷ flag s.ffmpeg_output_drop_pkts_on_overflow
    ∷ codes "-queue_size"
    ∷ show_nat (queue_size s)
    ∷ codes "-max_recovery_attempts"
    ∷ show_nat (pos_part s.ffmpeg_output_recovery_max_attempts)
    ∷ target
    ∷ []

-- `sep.join(texts)` for a separator of one code point
unfoldable pub join : ℕ → List Text → Text
join sep [] = []
join sep (w ∷ []) = w
join sep (w ∷ w' ∷ ws) = w ++ (sep ∷ join sep (w' ∷ ws))

-- The loop over several destinations: the addresses, and the outputs of the tee.
unfoldable pub tee_outputs : Urls → Settings → List Text → Built (List (Text × Text))
unfolding build_tee_destination apply_output_transport_options
tee_outputs u s [] = built []
tee_outputs u s (uri ∷ uris) = do
  output ← build_tee_destination u s uri
  rest ← tee_outputs u s uris
  built ((apply_output_transport_options u s uri, output) ∷ rest)

abbrev pub firsts : List (Text × Text) → List Text
firsts [] = []
firsts (p ∷ ps) = p.0 ∷ firsts ps

abbrev pub seconds : List (Text × Text) → List Text
seconds [] = []
seconds (p ∷ ps) = p.1 ∷ seconds ps

unfoldable pub build_destination_output_args : Urls → Settings → List Text → Built OutputArgs
unfolding fifo_command apply_output_transport_options tee_outputs join
build_destination_output_args u s [] = refused no_destination
build_destination_output_args u s (uri ∷ []) =
    let target = apply_output_transport_options u s uri in
    built (record {
      command = fifo_command s target;
      destination_uris = target ∷ [];
      multi_destination = false;
      tee_onfail_policy = none;
    })
build_destination_output_args u s (uri ∷ uri' ∷ uris) = do
  outputs ← tee_outputs u s (uri ∷ uri' ∷ uris)
  built (record {
    command = codes "-f" ∷ codes "tee" ∷ join b'|' (seconds outputs) ∷ [];
    destination_uris = firsts outputs;
    multi_destination = true;
    tee_onfail_policy = some s.ffmpeg_tee_onfail_policy;
  })

-- As the manager calls them, one after the other.
unfoldable pub output_args : Urls → Settings → List Given → Built OutputArgs
unfolding normalize_destinations build_destination_output_args
output_args u s dests = do
  uris ← normalize_destinations dests
  build_destination_output_args u s uris
