-- ===== src/RateLimit/Tests.antt =====
-- Runs of the rate limiter at concrete inputs.
use youtube_translation.Base.{
  ◌≤◌, ◌≡◌, ◌≢◌, refl, true, false, [], ◌∷◌, ◌*◌, none, some, Text, codes, arith, count, lookup,
  text_eq, second,
}
use youtube_translation.RateLimit.Entry.{RateLimitEntry, new_entry, window_ticks}
use youtube_translation.RateLimit.Entry.Window.{within, admitted, window_bound}
use youtube_translation.RateLimit.Client.{Host, Request, get_client_ip, get_client_key}
use youtube_translation.RateLimit.Client.Key.{same_key-same_ip}
use youtube_translation.RateLimit.Limiter.{RateLimiter, check_rate_limit, is_stale}
use youtube_translation.RateLimit.Limiter.Isolation.{check_rate_limit_isolated}

-- A host whose paths need no decoding, which reads no token and trusts no address.
abbrev plain_host : Host
plain_host = record {
  unquote = λ s. s;
  jwt_decode = λ s. none;
  valid_network = λ s. true;
  valid_address = λ s. true;
  in_network = λ s n. false;
}

abbrev request_from : Text → Request
request_from ip = record {
  path = codes "/api/streams/7/start";
  client_host = some ip;
  forwarded_for = none;
  authorization = none;
  authenticated_user_id = some (codes "u1");
}

abbrev at_home : Request
at_home = request_from (codes "10.0.0.1")

abbrev on_the_road : Request
on_the_road = request_from (codes "10.0.0.2")

abbrev empty_limiter : RateLimiter
empty_limiter = record { clients = []; trusted_networks = [] }

-- Two calls of three in one second are admitted.
abbrev two_a_second : RateLimitEntry
two_a_second = new_entry 2 1

window_bound_example :
    count (within (window_ticks two_a_second) 5) (admitted two_a_second (5 ∷ 6 ∷ 7 ∷ [])) ≤ 2
window_bound_example = window_bound two_a_second 5 0 (5 ∷ 6 ∷ 7 ∷ []) refl (ground arith)

abbrev full_entry : RateLimitEntry
full_entry = record { max_requests = 2; window_seconds = 1; requests = 5 ∷ 6 ∷ [] }

same_key-same_ip_example : get_client_ip plain_host [] at_home ≡ get_client_ip plain_host [] at_home
same_key-same_ip_example = same_key-same_ip plain_host [] at_home at_home refl refl refl

x_ne_key : codes "x" ≢ get_client_key plain_host [] at_home
unfolding get_client_key get_client_ip
x_ne_key e = absurd (cc e)

road_ne_home : get_client_ip plain_host [] on_the_road ≢ get_client_ip plain_host [] at_home
unfolding get_client_ip
road_ne_home e = ground (arith, e)

full_entry_stale : is_stale (5 * second) full_entry ≡ true
unfolding is_stale
full_entry_stale = refl

check_rate_limit_isolated_example :
    lookup (codes "x") (check_rate_limit plain_host empty_limiter at_home 5).2.clients
    ≡ lookup (codes "x") empty_limiter.clients
check_rate_limit_isolated_example =
    check_rate_limit_isolated plain_host empty_limiter at_home 5 (codes "x") (omega arith) x_ne_key
