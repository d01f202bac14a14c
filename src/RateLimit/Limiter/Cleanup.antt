-- ===== src/RateLimit/Limiter/Cleanup.antt =====
-- The clean-up of old entries against the checks that follow it.
use youtube_translation.Base.{
  ℕ, ◌+◌, ◌≤◌, ◌<◌, ◌≡◌, refl, true, List, [], ◌∷◌, arith, none, some, text_eq, IsSortedFrom,
  Option-cases, inl, inr,
}
use youtube_translation.RateLimit.Entry.{RateLimitEntry, is_allowed, drop_expired, window_ticks}
use youtube_translation.RateLimit.Limiter.{is_stale, last_request}

drop_all :
    (window now lo : ℕ) (rs : List ℕ) {r : ℕ}
    → IsSortedFrom lo rs
    → last_request rs ≡ some r
    → r + window < now
    → (lo + window < now) × (drop_expired window now rs ≡ [])
unfolding drop_expired last_request
drop_all window now lo [] s e h = cc
drop_all window now lo (x ∷ []) s e h = ground arith
drop_all window now lo (x ∷ y ∷ rs) {r = r} s e h =
    ground (arith, drop_all window now x (y ∷ rs) {r = r} s.1 e h)

last_request-none : (rs : List ℕ) → last_request rs ≡ none → rs ≡ []
unfolding last_request
last_request-none [] h = refl
last_request-none (x ∷ []) h = cc
last_request-none (x ∷ y ∷ rs) h = absurd (cc (last_request-none (y ∷ rs) h))

drop_stale :
    (e : RateLimitEntry) (now later lo : ℕ)
    → IsSortedFrom lo e.requests
    → is_stale now e ≡ true
    → now ≤ later
    → drop_expired (window_ticks e) later e.requests ≡ []
unfolding is_stale
drop_stale e now later lo s stale after = elim (Option-cases (last_request e.requests)) [
  | inl none_left ↦ rw (last_request-none e.requests none_left) (unfold drop_expired in refl)
  | inr (r, last) ↦ (drop_all (window_ticks e) later lo e.requests {r = r} s last (ground arith)).1
]

-- An entry that the clean-up drops would have answered any later call as an empty one does, if its
-- instants are in order.
pub stale_entry_forgotten :
    (e : RateLimitEntry) (now later lo : ℕ)
    → IsSortedFrom lo e.requests
    → is_stale now e ≡ true
    → now ≤ later
    → is_allowed e later ≡ is_allowed (record e { requests = [] }) later
unfolding is_allowed
stale_entry_forgotten e now later lo s stale after =
    rw (drop_stale e now later lo s stale after) (unfold drop_expired in refl)
