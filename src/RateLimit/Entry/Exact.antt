-- ===== src/RateLimit/Entry/Exact.antt =====
-- `RateLimitEntry` against a plain count of the recent calls, and what its answers tell a client.
use youtube_translation.Base.{
  ℕ, ◌+◌, ◌*◌, ◌≤◌, ◌<◌, ◌≡◌, refl, Bool, true, List, [], ◌∷◌, arith, ltb, leb, length, count,
  IsSortedFrom, second,
}
use youtube_translation.RateLimit.Entry.{
  RateLimitEntry, drop_expired, window_ticks, is_allowed, get_remaining, get_reset_time,
}
use youtube_translation.RateLimit.Entry.Window.{
  IsBounded, is_allowed-IsBounded, length-drop_expired-le,
}

-- An instant that a call at `now` still counts.
abbrev pub is_recent : ℕ → ℕ → ℕ → Bool
is_recent window now r = leb now (r + window)

all_recent :
    (window now lo : ℕ) (rs : List ℕ)
    → now ≤ lo + window
    → IsSortedFrom lo rs
    → count (is_recent window now) rs ≡ length rs
all_recent window now lo [] h s = refl
all_recent window now lo (r ∷ rs) h s = ground (arith, all_recent window now r rs (omega arith) s.1)

length-drop_expired :
    (window now lo : ℕ) (rs : List ℕ)
    → IsSortedFrom lo rs
    → length (drop_expired window now rs) ≡ count (is_recent window now) rs
unfolding drop_expired
length-drop_expired window now lo [] s = refl
length-drop_expired window now lo (r ∷ rs) s =
    ground (arith, length-drop_expired window now r rs s.1, all_recent window now r rs)

-- On a deque in order, the eviction loop and the test decide exactly whether fewer than
-- `max_requests` of the recorded calls are no older than the window.
pub is_allowed_exact :
    (e : RateLimitEntry) (now lo : ℕ)
    → IsSortedFrom lo e.requests
    → (is_allowed e now).0 ≡ ltb (count (is_recent (window_ticks e) now) e.requests) e.max_requests
unfolding is_allowed
is_allowed_exact e now lo s =
    ground (arith, length-drop_expired (window_ticks e) now lo e.requests s)

-- `get_remaining` reports a positive number exactly when a call at that instant would be admitted.
pub remaining_iff_allowed :
    (e : RateLimitEntry) (now : ℕ) → (is_allowed e now).0 ≡ ltb 0 (get_remaining e now).0
unfolding is_allowed get_remaining
remaining_iff_allowed e now = ground arith

-- A full entry whose oldest call has expired admits the next one.
admitted_after_reset :
    (e : RateLimitEntry) (now later : ℕ) (rs : List ℕ)
    → e.requests ≡ rs
    → length rs ≤ e.max_requests
    → 0 < e.max_requests
    → now + (get_reset_time e now + 1) * second ≤ later
    → (is_allowed e later).0 ≡ true
unfolding is_allowed get_reset_time drop_expired
admitted_after_reset e now later [] same b pos wait = ground arith
admitted_after_reset e now later (oldest ∷ rs) same b pos wait =
    ground (arith, length-drop_expired-le (window_ticks e) later rs)

-- A client that was answered and waits one second more than the reported reset time is admitted,
-- when no other call has come in between.
pub retry_after_suffices :
    (e : RateLimitEntry) (now later : ℕ)
    → IsBounded e
    → 0 < e.max_requests
    → let e' = (is_allowed e now).1 in
      now + (get_reset_time e' now + 1) * second ≤ later → (is_allowed e' later).0 ≡ true
retry_after_suffices e now later b pos wait =
    let e' = (is_allowed e now).1 in
    let keeps = is_allowed-IsBounded e now b in
    admitted_after_reset e' now later e'.requests refl keeps.0 (omega arith) wait
