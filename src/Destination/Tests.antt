-- ===== src/Destination/Tests.antt =====
-- A host with one name, which resolves to one public address.
use youtube_translation.Base.{◌≡◌, refl, true, false, [], ◌∷◌, none, some, codes, lower}
use youtube_translation.Destination.{
  accepted, given, Address, Net, ValidatedDestination, resolve, default_allowed_ports,
  default_denied_ports, validate_destination_url, validate_filled, checked_scheme, checked_hostname,
  effective_port, checked_port, checked_addresses, is_bad, is_disallowed_address, distinct,
  split_destinations, parse,
}
use youtube_translation.Destination.Accepted.{IsSafe, accepted-IsSafe}

abbrev public_address : Address
public_address = record {
  is_unspecified = false;
  is_loopback = false;
  is_link_local = false;
  is_multicast = false;
  is_reserved = false;
  is_private = false;
  is_global = true;
  v4 = some 0x08080808;
}

abbrev one_name : Net
one_name = record {
  urlparse = λ url.
      some (record { scheme = codes "rtmp"; hostname = some (codes "a"); port = given 1935 });
  getaddrinfo = λ name. some (some (codes "8.8.8.8") ∷ []);
  ip_address = λ raw. some public_address;
}

abbrev destination : ValidatedDestination
destination = record {
  scheme = codes "rtmp";
  hostname = codes "a";
  port = 1935;
  resolved_ips = codes "8.8.8.8" ∷ [];
}

destination_accepted :
    validate_destination_url one_name (codes "rtmp://a/live") none none (resolve one_name)
    ≡ accepted destination
unfolding validate_destination_url validate_filled parse checked_scheme checked_hostname
    effective_port checked_port checked_addresses is_bad is_disallowed_address distinct resolve
    lower
destination_accepted = refl

accepted-IsSafe_example :
    IsSafe one_name
      (codes "rtmp://a/live")
      default_allowed_ports
      default_denied_ports
      (resolve one_name)
      destination
accepted-IsSafe_example =
    accepted-IsSafe one_name (codes "rtmp://a/live") none none (resolve one_name) destination
      destination_accepted

batch_accepted :
    split_destinations one_name (codes "rtmp://a/live" ∷ []) ≡ accepted (destination ∷ [])
unfolding split_destinations validate_destination_url validate_filled parse checked_scheme
    checked_hostname effective_port checked_port checked_addresses is_bad is_disallowed_address
    distinct resolve lower
batch_accepted = refl
