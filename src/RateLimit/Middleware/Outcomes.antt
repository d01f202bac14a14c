-- ===== src/RateLimit/Middleware/Outcomes.antt =====
-- What a dispatch answers.
use youtube_translation.Base.{
  ℕ, ◌≤◌, ◌≡◌, Bool, true, false, not, arith, text_beq, any, ◌&&◌, if◌then◌else◌,
}
use youtube_translation.RateLimit.Client.{Host, Request, normalize_endpoint_path}
use youtube_translation.RateLimit.Entry.{get_remaining}
use youtube_translation.RateLimit.Limiter.{RateLimiter, check_rate_limit, limits_for}
use youtube_translation.RateLimit.Limiter.Laws.{entry_limit}
use youtube_translation.RateLimit.Middleware.{
  exclude_paths, Outcome, bypassed, rejected, served, dispatch,
}

abbrev pub is_rejected : Outcome → Bool
is_rejected (rejected _ _ _) = true
is_rejected _ = false

-- What a response reports of a limit.
abbrev pub Reports : ℕ → Outcome → Type 0
Reports limit bypassed = Unit
Reports limit (rejected _ reported _) = reported ≡ limit
Reports limit (served reported remaining _) = (reported ≡ limit) × (remaining ≤ limit)

abbrev pub is_excluded : Request → Bool
is_excluded r = any (text_beq r.path) exclude_paths

-- A request is answered with 429 exactly when its path is not excluded and the limiter refuses it;
-- both kinds of response report the limit of the request's route, and never more calls left than
-- that; and a request to an excluded path leaves the limiter as it was.
pub dispatch_outcome :
    (h : Host) (l : RateLimiter) (r : Request) (now now1 now2 now3 : ℕ)
    → let (outcome, l') = dispatch h l r now now1 now2 now3 in
      (is_rejected outcome ≡ (not (is_excluded r) && not (check_rate_limit h l r now).0))
      × Reports (limits_for (normalize_endpoint_path h r.path)).0 outcome
      × ((if is_excluded r then l' else l) ≡ l)
unfolding dispatch get_remaining
dispatch_outcome h l r now now1 now2 now3 = ground (arith, entry_limit h l r now)
