-- ===== src/RateLimit/Entry.antt =====
-- `class RateLimitEntry` of backend/app/middleware/rate_limiter.py. Python's floating-point clock is
-- a number of ticks of a fixed length, `second` to the second; each reading of it is an argument.
pub mod Window
pub mod Exact
use youtube_translation.Base.{
  ℕ, ◌+◌, ◌-◌, ◌*◌, ◌/◌, Bool, true, false, List, [], ◌∷◌, ◌++◌, ltb, leb, if◌then◌else◌, length,
  second,
}

pub record RateLimitEntry : Type 0 where
  pub max_requests : ℕ
  pub window_seconds : ℕ
  pub requests : List ℕ

-- `RateLimitEntry(max_requests, window_seconds)`
abbrev pub new_entry : ℕ → ℕ → RateLimitEntry
new_entry max_requests window_seconds = record {
  max_requests = max_requests;
  window_seconds = window_seconds;
  requests = [];
}

-- `while self.requests and self.requests[0] < now - self.window_seconds: popleft()`, where the
-- window is given in ticks; the bound is moved to the left, since `now - window` may be negative.
unfoldable pub drop_expired : ℕ → ℕ → List ℕ → List ℕ
drop_expired window now [] = []
drop_expired window now (r ∷ rs) =
    let rest = drop_expired window now rs in if ltb (r + window) now then rest else r ∷ rs

abbrev pub window_ticks : RateLimitEntry → ℕ
window_ticks e = e.window_seconds * second

-- `is_allowed`, with the entry after the call.
unfoldable pub is_allowed : RateLimitEntry → ℕ → Bool × RateLimitEntry
is_allowed e now =
    let kept = drop_expired (window_ticks e) now e.requests in
    if leb e.max_requests (length kept)
    then (false, record e { requests = kept })
    else (true, record e { requests = kept ++ now ∷ [] })

-- `get_remaining`; `max(0, _)` is the truncation of `-`.
unfoldable pub get_remaining : RateLimitEntry → ℕ → ℕ × RateLimitEntry
get_remaining e now =
    let kept = drop_expired (window_ticks e) now e.requests in
    (e.max_requests - length kept, record e { requests = kept })

-- `get_reset_time`; `int` drops the fraction of a second.
reset_after : ℕ → ℕ → List ℕ → ℕ
reset_after window now [] = 0
reset_after window now (oldest ∷ _) = (oldest + window - now) / second

unfoldable pub get_reset_time : RateLimitEntry → ℕ → ℕ
unfolding reset_after
get_reset_time e now = reset_after (window_ticks e) now e.requests
