-- ===== src/RateLimit/Middleware.antt =====
-- `class RateLimitMiddleware` of backend/app/middleware/rate_limiter.py over the in-memory limiter.
-- A request is one step here: what other requests do while `call_next` runs is left out. The four
-- readings of the clock in a dispatch are arguments.
pub mod Outcomes
use youtube_translation.Base.{
  ℕ, ◌+◌, ◌*◌, ◌/◌, ◌<◌, ◌≤◌, ◌≡◌, refl, Bool, true, false, List, [], ◌∷◌, arith, Text, codes,
  text_beq, text_eq, any, if◌then◌else◌, insert, second, Bool-cases, inl, inr, ◌⊎◌,
}
use youtube_translation.RateLimit.Client.{Host, Request, get_client_key, normalize_endpoint_path}
use youtube_translation.RateLimit.Entry.{RateLimitEntry, get_remaining, get_reset_time}
use youtube_translation.RateLimit.Limiter.{RateLimiter, check_rate_limit, limits_for}

abbrev pub exclude_paths : List Text
exclude_paths =
    codes "/health" ∷ codes "/" ∷ codes "/docs" ∷ codes "/openapi.json" ∷ codes "/redoc" ∷ []

-- How a dispatch ends: past the limiter; the 429 response with `Retry-After`, the limit and the
-- reset instant of its headers; or the handler's response with the limit, the calls that remain,
-- and the reset instant.
pub data Outcome : Type 0 where
  bypassed : Outcome
  rejected : ℕ → ℕ → ℕ → Outcome
  served : ℕ → ℕ → ℕ → Outcome

-- `int(time.time() + reset_time)`
abbrev reset_at : ℕ → ℕ → ℕ
reset_at now reset = (now + reset * second) / second

reject : RateLimitEntry → ℕ → ℕ → Outcome
reject e now1 now2 =
    let reset = get_reset_time e now1 in rejected reset e.max_requests (reset_at now2 reset)

serve : RateLimitEntry → ℕ → ℕ → ℕ → Outcome × RateLimitEntry
serve e now1 now2 now3 =
    let (remaining, e') = get_remaining e now1 in
    (served e.max_requests remaining (reset_at now3 (get_reset_time e' now2)), e')

-- `dispatch`; the entry is shared with the table, so its eviction loop changes the table too.
pub dispatch : Host → RateLimiter → Request → ℕ → ℕ → ℕ → ℕ → Outcome × RateLimiter
unfolding reject serve
dispatch h l r now now1 now2 now3 =
    let (allowed, e, l') = check_rate_limit h l r now in
    let (answer, e') = serve e now1 now2 now3 in
    if any (text_beq r.path) exclude_paths
    then (bypassed, l)
    else if allowed
    then (
      answer,
      record l' { clients = insert (get_client_key h l.trusted_networks r) e' l'.clients },
    )
    else (reject e now1 now2, l')
