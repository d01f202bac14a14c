-- ===== src/Quota/Address.antt =====
-- The addresses that a user may add.
use youtube_translation.Base.{◌≡◌, refl, true, ◌||◌, Option, none, some, arith, Text}
use youtube_translation.Destination.{
  Net, Parsed, Checked, accepted, refused, ValidatedDestination, default_allowed_ports,
  default_denied_ports, bare_value_error, resolve,
}
use youtube_translation.Destination.Accepted.{IsSafe, accepted-IsSafe}
use youtube_translation.Quota.{
  Account, TierLimits, allowed, youtube_host, verdict_of, check_url, check_host,
  ensure_destination_allowed,
}
use youtube_translation.Quota.Limits.{with_limits-allowed, if_allowed}

verdict_of-accepted :
    (net : Net) (c : Checked ValidatedDestination)
    → verdict_of net c ≡ allowed
    → (v : ValidatedDestination) × (c ≡ accepted v)
unfolding verdict_of
verdict_of-accepted net (accepted v) h = (v, refl)
verdict_of-accepted net (refused bare_value_error) h = ground (arith, h)
verdict_of-accepted net (refused code) h = ground (arith, h)

-- What an address that a user may add goes with: the parsed address and the limits of the tier, whose hosts
-- have its own, and a destination that is the one of the address and safe with the default ports and the host's resolver.
pub record IsPermitted (net : Net) (url : Text) (account : Account) : Type 0 where
  pub parsed : Parsed
  pub limits : TierLimits
  pub destination : ValidatedDestination
  pub is_parsed : net.urlparse url ≡ some parsed
  pub is_limits : account.limits ≡ some limits
  pub permitted : (limits.custom_rtmps_enabled || youtube_host net parsed.hostname) ≡ true
  pub safe : IsSafe net url default_allowed_ports default_denied_ports (resolve net) destination

check_host-IsPermitted :
    (net : Net) (url : Text) (account : Account) (l : TierLimits) (found : Option Parsed)
    → account.limits ≡ some l
    → net.urlparse url ≡ found
    → check_host net l found url ≡ allowed
    → IsPermitted net url account
unfolding check_host check_url
check_host-IsPermitted net url account l none e f h = ground (arith, h)
check_host-IsPermitted net url account l (some parsed) e f h =
    let (permitted, checked) = if_allowed _ _ _ h in
    let (v, is_valid) = verdict_of-accepted net _ checked in
    record {
      parsed = parsed;
      limits = l;
      destination = v;
      is_parsed = f;
      is_limits = e;
      permitted = permitted;
      safe = accepted-IsSafe net url none none (resolve net) v is_valid;
    }

-- An address that a user may add is one from which `validate_destination_url`, with the default ports and the
-- host's resolver, makes a destination: it has the scheme, the host name and the port of that address
-- and is safe. The host of the address is one of YouTube's where the tier has no others.
pub ensure_destination_allowed-IsPermitted :
    (net : Net) (url : Text) (account : Account)
    → ensure_destination_allowed net url account ≡ allowed
    → IsPermitted net url account
unfolding ensure_destination_allowed
ensure_destination_allowed-IsPermitted net url account h =
    let (p, l, is_profile, is_limits, checked) =
      with_limits-allowed account.profile account.limits _ h in
    check_host-IsPermitted net url account l (net.urlparse url) is_limits refl checked
