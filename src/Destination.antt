-- ===== src/Destination.antt =====
-- The check of a destination's address: backend/app/core/rtmp_url_validator.py. `urlparse`, the
-- resolver and the `ipaddress` module are parameters.
pub mod Accepted
mod Tests
use youtube_translation.Base.{
  ℕ, ◌==◌, Bool, true, false, not, ◌&&◌, ◌||◌, List, [], ◌∷◌, ◌++◌, Option, none, some,
  if◌then◌else◌, Text, codes, text_beq, strip, lower, any, leb, ltb,
}

-- The `code` of an `InvalidDestinationURL`; `bare_value_error` is the `ValueError` that `parsed.port` raises
-- for a port that is no number up to 65535.
pub data UrlError : Type 0 where
  missing_url invalid_scheme missing_hostname invalid_hostname_characters denied_port : UrlError
  dns_resolution_failed private_address bare_value_error : UrlError

pub data Checked {ℓ} (A : Type ℓ) : Type ℓ where
  accepted : A → Checked A
  refused : UrlError → Checked A

infixl 5 ◌>>=◌
abbrev pub ◌>>=◌ {ℓ κ} : {A : Type ℓ} {B : Type κ} → Checked A → (A → Checked B) → Checked B
accepted a >>= f = f a
refused e >>= f = refused e

-- `parsed.port`
pub data Port : Type 0 where
  absent : Port
  given : ℕ → Port
  malformed : Port

pub record Parsed : Type 0 where
  pub scheme : Text
  pub hostname : Option Text
  pub port : Port

-- An address of the `ipaddress` module: its predicates, and its value if it is an IPv4 address.
pub record Address : Type 0 where
  pub is_unspecified : Bool
  pub is_loopback : Bool
  pub is_link_local : Bool
  pub is_multicast : Bool
  pub is_reserved : Bool
  pub is_private : Bool
  pub is_global : Bool
  pub v4 : Option ℕ

-- `urlparse`, with `none` for a `ValueError`; the addresses of `getaddrinfo`, where a missing one is
-- `none`, with `none` for a `gaierror`; and `ip_address`, with `none` for a `ValueError`.
pub record Net : Type 0 where
  pub urlparse : Text → Option Parsed
  pub getaddrinfo : Text → Option (List (Option Text))
  pub ip_address : Text → Option Address

pub record ValidatedDestination : Type 0 where
  pub scheme : Text
  pub hostname : Text
  pub port : ℕ
  pub resolved_ips : List Text

-- The module's constants.
abbrev pub allowed_schemes : List Text
allowed_schemes = codes "rtmp" ∷ codes "rtmps" ∷ []

abbrev pub default_allowed_ports : List ℕ
default_allowed_ports = 1935 ∷ 80 ∷ 443 ∷ []

abbrev pub default_denied_ports : List ℕ
default_denied_ports =
    22 ∷ 23 ∷ 25 ∷ 110 ∷ 111 ∷ 139 ∷ 143 ∷ 445 ∷ 1433 ∷ 1521 ∷ 2049 ∷ 3306 ∷ 3389 ∷ 5432 ∷ 5984
    ∷ 6379 ∷ 8080 ∷ 8443 ∷ 9000 ∷ 9090 ∷ 9091 ∷ 9200 ∷ 11211 ∷ 27017 ∷ 50070 ∷ []

-- A character of `HOSTNAME_FORBIDDEN_CHARS`, or one outside the printable ones of ASCII.
abbrev pub is_bad_char : ℕ → Bool
is_bad_char c =
    (c == b'[') || (c == b']') || (c == b'|') || (c == b'\\') || ltb c 0x21 || ltb 0x7e c

abbrev pub has_port : ℕ → List ℕ → Bool
has_port port ports = any (λ p. p == port) ports

-- The ranges 100.64.0.0/10 and 192.0.0.0/24.
abbrev pub in_cgnat : ℕ → Bool
in_cgnat n = leb 0x64400000 n && ltb n 0x64800000

abbrev pub in_protocol_assignments : ℕ → Bool
in_protocol_assignments n = leb 0xc0000000 n && ltb n 0xc0000100

abbrev pub in_v4 : (ℕ → Bool) → Option ℕ → Bool
in_v4 p none = false
in_v4 p (some n) = p n

-- `_is_disallowed_address`: whether it gives a reason.
unfoldable pub is_disallowed_address : Address → Bool
is_disallowed_address a =
    a.is_unspecified
    || a.is_loopback
    || a.is_link_local
    || a.is_multicast
    || a.is_reserved
    || a.is_private
    || in_v4 in_cgnat a.v4
    || in_v4 in_protocol_assignments a.v4
    || not a.is_global

-- The loop of `_resolve` over the addresses, with those that were seen.
unfoldable pub distinct : List Text → List (Option Text) → List Text
distinct seen [] = []
distinct seen (none ∷ rest) = distinct seen rest
distinct seen (some [] ∷ rest) = distinct seen rest
distinct seen (some (c ∷ s) ∷ rest) =
    let skipped = distinct seen rest in
    let kept = distinct ((c ∷ s) ∷ seen) rest in
    if any (text_beq (c ∷ s)) seen then skipped else (c ∷ s) ∷ kept

nonempty : List Text → Checked (List Text)
nonempty [] = refused dns_resolution_failed
nonempty (a ∷ rest) = accepted (a ∷ rest)

unfoldable pub checked_scheme : Parsed → Checked Text
checked_scheme parsed =
    let scheme = lower parsed.scheme in
    if any (text_beq scheme) allowed_schemes then accepted scheme else refused invalid_scheme

unfoldable pub checked_hostname : Option Text → Checked Text
checked_hostname none = refused missing_hostname
checked_hostname (some []) = refused missing_hostname
checked_hostname (some (c ∷ s)) =
    if any is_bad_char (c ∷ s) then refused invalid_hostname_characters else accepted (c ∷ s)

unfoldable pub effective_port : Text → Port → Checked ℕ
effective_port scheme absent = accepted (if text_beq scheme (codes "rtmps") then 443 else 1935)
effective_port scheme (given port) = accepted port
effective_port scheme malformed = refused bare_value_error

unfoldable pub checked_port : List ℕ → List ℕ → ℕ → Checked ℕ
checked_port allowed denied port =
    if has_port port denied
    then refused denied_port
    else if has_port port allowed
    then accepted port
    else refused denied_port

abbrev pub or_ports : Option (List ℕ) → List ℕ → List ℕ
or_ports none default = default
or_ports (some ports) default = ports

module _ (net : Net) where
  -- `_resolve`
  unfoldable pub resolve : Text → Checked (List Text)
  unfolding nonempty
  resolve hostname = elim (net.getaddrinfo hostname) [
    | none ↦ refused dns_resolution_failed
    | some infos ↦ nonempty (distinct [] infos)
  ]

  -- An address that goes to `bad_reasons`.
  unfoldable pub is_bad : Text → Bool
  is_bad raw = elim (net.ip_address raw) [ none ↦ true | some a ↦ is_disallowed_address a ]

  unfoldable pub parse : Text → Checked Parsed
  parse url = elim (net.urlparse (strip url)) [
    | none ↦ refused invalid_hostname_characters
    | some parsed ↦ accepted parsed
  ]

  unfoldable pub checked_addresses : List Text → Checked (List Text)
  checked_addresses addresses =
      if any is_bad addresses then refused private_address else accepted addresses

  -- What follows the first test of `validate_destination_url`.
  unfoldable pub validate_filled :
      Text
      → Option (List ℕ)
      → Option (List ℕ)
      → (Text → Checked (List Text))
      → Checked ValidatedDestination
  validate_filled url allowed_ports denied_ports resolver = do
    parsed ← parse url
    scheme ← checked_scheme parsed
    hostname ← checked_hostname parsed.hostname
    raw_port ← effective_port scheme parsed.port
    port ←
        checked_port (or_ports allowed_ports default_allowed_ports)
          (or_ports denied_ports default_denied_ports) raw_port
    resolved ← resolver hostname
    addresses ← checked_addresses resolved
    accepted
        (record { scheme = scheme; hostname = hostname; port = port; resolved_ips = addresses })

  -- `validate_destination_url`, with the resolver that is given or `_resolve`.
  unfoldable pub validate_destination_url :
      Text
      → Option (List ℕ)
      → Option (List ℕ)
      → (Text → Checked (List Text))
      → Checked ValidatedDestination
  unfolding validate_filled
  validate_destination_url [] allowed_ports denied_ports resolver = refused missing_url
  validate_destination_url (c ∷ s) allowed_ports denied_ports resolver =
      validate_filled (c ∷ s) allowed_ports denied_ports resolver

  -- `split_destinations`
  unfoldable pub split_destinations : List Text → Checked (List ValidatedDestination)
  split_destinations [] = accepted []
  split_destinations (url ∷ urls) = do
    first ← validate_destination_url url none none resolve
    rest ← split_destinations urls
    accepted (first ∷ rest)
