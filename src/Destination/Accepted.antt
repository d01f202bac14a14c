-- ===== src/Destination/Accepted.antt =====
-- What an accepted address is.
use youtube_translation.Base.{
  ℕ, ◌≡◌, refl, Bool, true, false, List, [], ◌∷◌, Option, none, some, if◌then◌else◌, Text, text_beq,
  any, arith, Option-cases, inl, inr, lower, subst, ◌∙◌, ap, sym, strip, codes, ◌⊎◌, ◌≢◌,
  Bool-cases, text_beq_sound,
}
use youtube_translation.Destination.{
  UrlError, Port, given, absent, malformed, Checked, accepted, refused, ◌>>=◌, Parsed, Net,
  ValidatedDestination, allowed_schemes, default_allowed_ports, default_denied_ports, is_bad_char,
  has_port, in_cgnat, is_disallowed_address, is_bad, parse, checked_scheme, checked_hostname,
  effective_port, checked_port, checked_addresses, invalid_scheme, invalid_hostname_characters,
  validate_filled, validate_destination_url, split_destinations, or_ports, resolve, in_v4,
}

-- The port of an address: the one that it names, or the one of its scheme.
abbrev pub HasPort : Port → Text → ℕ → Type 0
HasPort (given named) scheme port = port ≡ named
HasPort absent scheme port =
    ((scheme ≡ codes "rtmps") × (port ≡ 443)) ⊎ ((scheme ≢ codes "rtmps") × (port ≡ 1935))
HasPort malformed scheme port = ⊥

-- What a destination has from the address that was given, its outer white space stripped.
pub record IsOf (net : Net) (url : Text) (v : ValidatedDestination) : Type 0 where
  pub parsed : Parsed
  pub is_parsed : net.urlparse (strip url) ≡ some parsed
  pub scheme : v.scheme ≡ lower parsed.scheme
  pub hostname : parsed.hostname ≡ some v.hostname
  pub port : HasPort parsed.port v.scheme v.port

-- What the checks promise of the destination of an address, for lists of allowed and denied ports.
abbrev pub IsSafe :
    Net → Text → List ℕ → List ℕ → (Text → Checked (List Text)) → ValidatedDestination → Type 0
IsSafe net url allowed denied resolver v =
    IsOf net url v
    × (any (text_beq v.scheme) allowed_schemes ≡ true)
    × (any is_bad_char v.hostname ≡ false)
    × (has_port v.port denied ≡ false)
    × (has_port v.port allowed ≡ true)
    × (resolver v.hostname ≡ accepted v.resolved_ips)
    × (any (is_bad net) v.resolved_ips ≡ false)

accepted_injective {ℓ} : {A : Type ℓ} (a b : A) → accepted a ≡ accepted b → a ≡ b
accepted_injective a b e = cc e

-- A chain is accepted only when each of its steps is.
bind-accepted {ℓ κ} :
    {A : Type ℓ} {B : Type κ} (r : Checked A) (f : A → Checked B) (b : B)
    → r >>= f ≡ accepted b
    → (a : A) × (r ≡ accepted a) × (f a ≡ accepted b)
bind-accepted (accepted a) f b e = (a, refl, e)
bind-accepted (refused u) f b e = absurd (cc e)

if-accepted {ℓ} :
    {A : Type ℓ} (b : Bool) (a final : A) (u : UrlError)
    → (if b then accepted a else refused u) ≡ accepted final
    → (b ≡ true) × (a ≡ final)
if-accepted true a final u e = (refl, cc e)
if-accepted false a final u e = absurd (cc e)

if-refused {ℓ} :
    {A : Type ℓ} (b : Bool) (a final : A) (u : UrlError)
    → (if b then refused u else accepted a) ≡ accepted final
    → (b ≡ false) × (a ≡ final)
if-refused true a final u e = absurd (cc e)
if-refused false a final u e = (refl, cc e)

checked_scheme-accepted :
    (parsed : Parsed) (scheme : Text)
    → checked_scheme parsed ≡ accepted scheme
    → (any (text_beq scheme) allowed_schemes ≡ true) × (scheme ≡ lower parsed.scheme)
unfolding checked_scheme
checked_scheme-accepted parsed scheme e =
    let s = lower parsed.scheme in
    let (known, same) = if-accepted (any (text_beq s) allowed_schemes) s scheme invalid_scheme e in
    (subst (λ t. any (text_beq t) allowed_schemes ≡ true) same known, sym same)

checked_hostname-accepted :
    (name : Option Text) (hostname : Text)
    → checked_hostname name ≡ accepted hostname
    → (any is_bad_char hostname ≡ false) × (name ≡ some hostname)
unfolding checked_hostname
checked_hostname-accepted none hostname e = absurd (cc e)
checked_hostname-accepted (some []) hostname e = absurd (cc e)
checked_hostname-accepted (some (c ∷ s)) hostname e =
    let (clean, same) =
      if-refused (any is_bad_char (c ∷ s)) (c ∷ s) hostname invalid_hostname_characters e in
    (subst (λ t. any is_bad_char t ≡ false) same clean, ap some same)

effective_port-HasPort :
    (scheme : Text) (given_port : Port) (port : ℕ)
    → effective_port scheme given_port ≡ accepted port
    → HasPort given_port scheme port
unfolding effective_port
effective_port-HasPort scheme (given named) port e = sym (accepted_injective named port e)
effective_port-HasPort scheme malformed port e = absurd (cc e)
effective_port-HasPort scheme absent port e = elim (Bool-cases (text_beq scheme (codes "rtmps"))) [
  | inl is ↦ inl (text_beq_sound scheme (codes "rtmps") is, ground (arith, e, is))
  | inr other ↦ inr (
    (λ same. not_both _ (subst (λ t. text_beq t (codes "rtmps") ≡ false) same other) refl),
    ground (arith, e, other),
  )
]
  where
    not_both : (b : Bool) → b ≡ false → b ≡ true → ⊥
    not_both b other is = cc

checked_port-accepted :
    (allowed denied : List ℕ) (port final : ℕ)
    → checked_port allowed denied port ≡ accepted final
    → (has_port final denied ≡ false) × (has_port final allowed ≡ true) × (port ≡ final)
unfolding checked_port
checked_port-accepted allowed denied port final e = ground (arith, e)

checked_addresses-accepted :
    (net : Net) (addresses final : List Text)
    → checked_addresses net addresses ≡ accepted final
    → (addresses ≡ final) × (any (is_bad net) final ≡ false)
unfolding checked_addresses
checked_addresses-accepted net addresses final e = ground (arith, e)

parse-accepted :
    (net : Net) (url : Text) (parsed : Parsed)
    → parse net url ≡ accepted parsed
    → net.urlparse (strip url) ≡ some parsed
unfolding parse
parse-accepted net url parsed e = by_found (net.urlparse (strip url)) e
  where
    by_found :
        (found : Option Parsed)
        → elim found [ none ↦ refused invalid_hostname_characters | some p ↦ accepted p ]
          ≡ accepted parsed
        → found ≡ some parsed
    by_found none e = absurd (cc e)
    by_found (some p) e = ap some (accepted_injective p parsed e)

validate_filled-IsSafe :
    (net : Net) (url : Text) (allowed denied : Option (List ℕ))
    (resolver : Text → Checked (List Text)) (v : ValidatedDestination)
    → validate_filled net url allowed denied resolver ≡ accepted v
    → IsSafe net url
        (or_ports allowed default_allowed_ports)
        (or_ports denied default_denied_ports)
        resolver
        v
unfolding validate_filled
validate_filled-IsSafe net url allowed denied resolver v e =
    let (parsed, is_parsed, e1) = bind-accepted (parse net url) _ v e in
    let (scheme, is_scheme, e2) = bind-accepted (checked_scheme parsed) _ v e1 in
    let (hostname, is_name, e3) = bind-accepted (checked_hostname parsed.hostname) _ v e2 in
    let (raw_port, is_raw, e4) = bind-accepted (effective_port scheme parsed.port) _ v e3 in
    let (port, is_port, e5) =
      bind-accepted
        (checked_port (or_ports allowed default_allowed_ports)
          (or_ports denied default_denied_ports) raw_port)
        _ v e4 in
    let (resolved, is_resolved, e6) = bind-accepted (resolver hostname) _ v e5 in
    let (addresses, are_good, e7) = bind-accepted (checked_addresses net resolved) _ v e6 in
    let (denial, allowance, same_port) =
      checked_port-accepted (or_ports allowed default_allowed_ports)
        (or_ports denied default_denied_ports) raw_port port is_port in
    let (same, good) = checked_addresses-accepted net resolved addresses are_good in
    let (known, named_scheme) = checked_scheme-accepted parsed scheme is_scheme in
    let (clean, named_host) = checked_hostname-accepted parsed.hostname hostname is_name in
    let safe : IsSafe net url (or_ports allowed default_allowed_ports)
        (or_ports denied default_denied_ports) resolver
        (record { scheme = scheme; hostname = hostname; port = port; resolved_ips = addresses }) =
      (
        record {
          parsed = parsed;
          is_parsed = parse-accepted net url parsed is_parsed;
          scheme = named_scheme;
          hostname = named_host;
          port =
              subst (HasPort parsed.port scheme) same_port
                (effective_port-HasPort scheme parsed.port raw_port is_raw);
        },
        known,
        clean,
        denial,
        allowance,
        is_resolved ∙ ap accepted same,
        good,
      ) in
    subst
      (IsSafe net url (or_ports allowed default_allowed_ports)
        (or_ports denied default_denied_ports) resolver)
      (accepted_injective _ v e7) safe

-- A destination that is accepted is the one of the address that was given, its outer white space stripped: it
-- has the scheme of that address in lower case, its host name, and its port or else the one of the
-- scheme. The scheme and the port are allowed, the port is not denied, the host name has no
-- forbidden character, and the destination has only the addresses that the resolver gives for
-- it, none of which is anything but a public IP address.
pub accepted-IsSafe :
    (net : Net) (url : Text) (allowed denied : Option (List ℕ))
    (resolver : Text → Checked (List Text)) (v : ValidatedDestination)
    → validate_destination_url net url allowed denied resolver ≡ accepted v
    → IsSafe net url
        (or_ports allowed default_allowed_ports)
        (or_ports denied default_denied_ports)
        resolver
        v
unfolding validate_destination_url
accepted-IsSafe net url allowed denied resolver v e = on_url url e
  where
    on_url :
        (url : Text)
        → validate_destination_url net url allowed denied resolver ≡ accepted v
        → IsSafe net url
            (or_ports allowed default_allowed_ports)
            (or_ports denied default_denied_ports)
            resolver
            v
    on_url [] e = absurd (cc e)
    on_url (c ∷ s) e = validate_filled-IsSafe net (c ∷ s) allowed denied resolver v e

-- An address of the carrier-grade range, by its value alone.
abbrev pub is_carrier_grade : Net → Text → Bool
is_carrier_grade net raw = elim (net.ip_address raw) [ none ↦ false | some a ↦ in_v4 in_cgnat a.v4 ]

carrier_grade-is_bad :
    (net : Net) (raw : Text) → is_bad net raw ≡ false → is_carrier_grade net raw ≡ false
unfolding is_bad is_disallowed_address
carrier_grade-is_bad net raw good = elim (Option-cases (net.ip_address raw)) [
  | inl e ↦ rw (e, is_carrier_grade) refl
  | inr (a, e) ↦ ground (arith, e)
]

any-carrier_grade :
    (net : Net) (raws : List Text)
    → any (is_bad net) raws ≡ false
    → any (is_carrier_grade net) raws ≡ false
any-carrier_grade net [] good = refl
any-carrier_grade net (raw ∷ raws) good =
    ground (arith, carrier_grade-is_bad net raw, any-carrier_grade net raws)

-- No destination is accepted that resolves to an address of 100.64.0.0/10, even where the host's
-- `ipaddress` module counts those as public.
pub accepted_no_carrier_grade :
    (net : Net) (url : Text) (allowed denied : Option (List ℕ))
    (resolver : Text → Checked (List Text)) (v : ValidatedDestination)
    → validate_destination_url net url allowed denied resolver ≡ accepted v
    → any (is_carrier_grade net) v.resolved_ips ≡ false
accepted_no_carrier_grade net url allowed denied resolver v e =
    any-carrier_grade net v.resolved_ips (accepted-IsSafe net url allowed denied resolver v e).6

-- Destinations that are each safe for the address in the same place, with the default ports and
-- the host's resolver.
abbrev pub AreSafe : Net → List Text → List ValidatedDestination → Type 0
AreSafe net [] [] = Unit
AreSafe net (url ∷ urls) [] = ⊥
AreSafe net [] (v ∷ vs) = ⊥
AreSafe net (url ∷ urls) (v ∷ vs) =
    IsSafe net url default_allowed_ports default_denied_ports (resolve net) v × AreSafe net urls vs

-- A batch is accepted only as a whole: there is one safe destination for each address that was given.
pub split_destinations-AreSafe :
    (net : Net) (urls : List Text) (vs : List ValidatedDestination)
    → split_destinations net urls ≡ accepted vs
    → AreSafe net urls vs
unfolding split_destinations
split_destinations-AreSafe net [] vs e = subst (AreSafe net []) (accepted_injective [] vs e) tt
split_destinations-AreSafe net (url ∷ urls) vs e =
    let first_check = validate_destination_url net url none none (resolve net) in
    let (v, is_first, e1) = bind-accepted first_check _ vs e in
    let (rest, are_rest, e2) = bind-accepted (split_destinations net urls) _ vs e1 in
    subst (AreSafe net (url ∷ urls)) (accepted_injective (v ∷ rest) vs e2) (
      accepted-IsSafe net url none none (resolve net) v is_first,
      split_destinations-AreSafe net urls rest are_rest,
    )
