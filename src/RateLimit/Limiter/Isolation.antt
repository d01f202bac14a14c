-- ===== src/RateLimit/Limiter/Isolation.antt =====
-- What a request does to the other clients, and what a client without a history is given.
use youtube_translation.Base.{
  ℕ, ◌≤◌, ◌<◌, ◌≡◌, ◌≢◌, refl, sym, true, [], ◌∷◌, arith, none, Text, text_eq, Dict, lookup, insert,
  length, lookup-insert_ne, length-insert-le,
}
use youtube_translation.RateLimit.Client.{
  Host, Request, get_client_key, get_client_ip, user_segment, normalize_endpoint_path,
}
use youtube_translation.RateLimit.Client.Key.{same_key-same_ip}
use youtube_translation.RateLimit.Entry.{RateLimitEntry, is_allowed, drop_expired}
use youtube_translation.RateLimit.Limiter.{
  max_clients, RateLimiter, limits_for, check_key, check_rate_limit, entry_for, evict_oldest,
}
use youtube_translation.RateLimit.Limiter.Laws.{limits_for-IsUsable}

evict_oldest_small :
    (key : Text) (clients : Dict Text RateLimitEntry)
    → length clients ≤ max_clients
    → evict_oldest key clients ≡ clients
unfolding evict_oldest
evict_oldest_small key [] h = refl
evict_oldest_small key (c ∷ rest) h = ground arith

-- While the table is not full, a request leaves the record of every client with another key alone.
pub check_rate_limit_isolated :
    (h : Host) (l : RateLimiter) (r : Request) (now : ℕ) (other : Text)
    → length l.clients < max_clients
    → other ≢ get_client_key h l.trusted_networks r
    → lookup other (check_rate_limit h l r now).2.clients ≡ lookup other l.clients
unfolding check_rate_limit check_key
check_rate_limit_isolated h l r now other small differs =
    let key = get_client_key h l.trusted_networks r in
    let limits = limits_for (normalize_endpoint_path h r.path) in
    let e = (is_allowed (entry_for key limits.0 limits.1 l.clients) now).1 in
    rw
      (evict_oldest_small key (insert key e l.clients)
        (omega (arith, length-insert-le key e l.clients)))
      (lookup-insert_ne other key e l.clients differs)

-- A request whose key has no entry is admitted.
fresh_key_admitted :
    (h : Host) (l : RateLimiter) (r : Request) (now : ℕ)
    → lookup (get_client_key h l.trusted_networks r) l.clients ≡ none
    → (check_rate_limit h l r now).0 ≡ true
unfolding check_rate_limit check_key entry_for is_allowed drop_expired
fresh_key_admitted h l r now fresh =
    rw (fresh, entry_for) (ground (arith, limits_for-IsUsable (normalize_endpoint_path h r.path)))

-- However many calls a user has made from one address, so that only that address has an entry for
-- the user and the route, a call to the same route from another address is admitted: the quota is
-- one per address, and not one per user.
pub rotated_address_admitted :
    (h : Host) (l : RateLimiter) (r s : Request) (now : ℕ)
    → user_segment h r ≡ user_segment h s
    → normalize_endpoint_path h r.path ≡ normalize_endpoint_path h s.path
    → get_client_ip h l.trusted_networks s ≢ get_client_ip h l.trusted_networks r
    → ((key : Text) → key ≢ get_client_key h l.trusted_networks r → lookup key l.clients ≡ none)
    → (check_rate_limit h l s now).0 ≡ true
rotated_address_admitted h l r s now user route moved only = fresh_key_admitted h l s now (
    only (get_client_key h l.trusted_networks s)
      (λ same. moved (same_key-same_ip h l.trusted_networks s r (sym user) (sym route) same)))
