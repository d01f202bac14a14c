-- ===== src/RateLimit/Limiter.antt =====
-- `class RateLimiter` of backend/app/middleware/rate_limiter.py: the table of limits, the check of
-- a request, and the clean-up. The lock makes each method one step.
pub mod Laws
pub mod Isolation
pub mod Cleanup
use youtube_translation.Base.{
  ℕ, ◌+◌, ◌*◌, Bool, true, false, not, ◌&&◌, ◌||◌, ◌==◌, List, [], ◌∷◌, Option, none, some, Text,
  codes, text_beq, text_eq, starts_with, if◌then◌else◌, Dict, lookup, insert, erase, has_key,
  length, filter, ltb,
}
use youtube_translation.RateLimit.Client.{Host, Request, get_client_key, normalize_endpoint_path}
use youtube_translation.RateLimit.Entry.{RateLimitEntry, new_entry, is_allowed, window_ticks}

-- `max_clients`, `default_limit` and `default_window`
abbrev pub max_clients : ℕ
max_clients = 10000

abbrev pub default_limits : ℕ × ℕ
default_limits = (60, 60)

-- The table `limits`, in the order in which the prefix search goes through it.
abbrev pub endpoint_limits : List (Text × (ℕ × ℕ))
endpoint_limits =
    (codes "/api/auth/login", (5, 60))
    ∷ (codes "/api/auth/logout", (20, 60))
    ∷ (codes "/api/auth/register", (3, 60))
    ∷ (codes "/api/auth/refresh", (10, 60))
    ∷ (codes "/api/streams/start", (3, 120))
    ∷ (codes "/api/streams/stop", (10, 60))
    ∷ (codes "/api/streams/status", (60, 60))
    ∷ (codes "/api/streams/logs", (15, 60))
    ∷ (codes "/api/assets/upload", (30, 60))
    ∷ (codes "/api/assets/upload-complete", (12, 60))
    ∷ (codes "/api/assets/upload-token", (15, 60))
    ∷ (codes "/api/assets/download-link", (15, 60))
    ∷ (codes "/api/youtube/oauth/start", (10, 60))
    ∷ (codes "/api/youtube/oauth/callback", (10, 60))
    ∷ (codes "/api/admin/alerts", (8, 60))
    ∷ (codes "/api/admin/users", (12, 60))
    ∷ (codes "/api/admin", (20, 60))
    ∷ []

-- The mutable part of a limiter and the networks that its constructor accepted.
pub record RateLimiter : Type 0 where
  pub clients : Dict Text RateLimitEntry
  pub trusted_networks : List Text

-- `__init__`: an entry that is no network is left out.
pub new_limiter : Host → List Text → RateLimiter
new_limiter h trusted_proxies = record {
  clients = [];
  trusted_networks = filter h.valid_network trusted_proxies;
}

-- The first pattern that the path begins with, else the default.
unfoldable pub prefix_limits : Text → List (Text × (ℕ × ℕ)) → ℕ × ℕ
prefix_limits path [] = default_limits
prefix_limits path ((pattern, limits) ∷ rest) =
    if starts_with path pattern then limits else prefix_limits path rest

-- `_get_limits_for_endpoint`, on a normalized path.
unfoldable pub limits_for : Text → ℕ × ℕ
limits_for path = elim (lookup path endpoint_limits) [
  | some limits ↦ limits
  | none ↦ prefix_limits path endpoint_limits
]

-- `self.clients.setdefault`-like creation, and the update of changed limits.
entry_for : Text → ℕ → ℕ → Dict Text RateLimitEntry → RateLimitEntry
entry_for key max_requests window clients = elim (lookup key clients) [
  | none ↦ new_entry max_requests window
  | some e ↦ record e { max_requests = max_requests; window_seconds = window }
]

-- `if len(self.clients) > self.max_clients`, where the oldest key is the first of the dict.
evict_oldest : Text → Dict Text RateLimitEntry → Dict Text RateLimitEntry
evict_oldest key [] = []
evict_oldest key ((oldest, e) ∷ rest) =
    if ltb max_clients (length ((oldest, e) ∷ rest)) && not (text_beq oldest key)
    then rest
    else (oldest, e) ∷ rest

-- The body under the lock of `check_rate_limit`.
unfoldable pub check_key :
    Text → ℕ × ℕ → ℕ → Dict Text RateLimitEntry → Bool × RateLimitEntry × Dict Text RateLimitEntry
unfolding entry_for evict_oldest
check_key key (max_requests, window) now clients =
    let (allowed, e) = is_allowed (entry_for key max_requests window clients) now in
    (allowed, e, evict_oldest key (insert key e clients))

-- `check_rate_limit`
unfoldable pub check_rate_limit :
    Host → RateLimiter → Request → ℕ → Bool × RateLimitEntry × RateLimiter
check_rate_limit h l r now =
    let limits = limits_for (normalize_endpoint_path h r.path) in
    let (allowed, e, clients) =
      check_key (get_client_key h l.trusted_networks r) limits now l.clients in
    (allowed, e, record l { clients = clients })

-- `self.requests[-1]`
last_request : List ℕ → Option ℕ
last_request [] = none
last_request (r ∷ []) = some r
last_request (r ∷ s ∷ rest) = last_request (s ∷ rest)

-- The test of `cleanup_old_entries`.
unfoldable pub is_stale : ℕ → RateLimitEntry → Bool
unfolding last_request
is_stale now e = elim (last_request e.requests) [
  | none ↦ true
  | some r ↦ ltb (r + window_ticks e * 2) now
]

-- `cleanup_old_entries`
pub cleanup_old_entries : ℕ → RateLimiter → RateLimiter
cleanup_old_entries now l = record l {
  clients = filter (λ entry. not (is_stale now entry.1)) l.clients;
}
