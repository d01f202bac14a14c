-- ===== src/RateLimit/Entry/Window.antt =====
-- The sliding window of `RateLimitEntry`: what a run of calls admits.
use youtube_translation.Base.{
  ℕ, ◌+◌, ◌≤◌, ◌<◌, ◌≡◌, refl, Bool, ◌&&◌, List, [], ◌∷◌, arith, leb, if◌then◌else◌, length, count,
  IsSortedFrom, count-append, length-append, count-le-length, inl, inr, Bool-cases,
}
use youtube_translation.RateLimit.Entry.{RateLimitEntry, drop_expired, window_ticks, is_allowed}

-- The instants among those of a run of `is_allowed` that were let through.
unfoldable pub admitted : RateLimitEntry → List ℕ → List ℕ
admitted e [] = []
admitted e (now ∷ rest) =
    let (allowed, e') = is_allowed e now in
    let later = admitted e' rest in if allowed then now ∷ later else later

-- `t ≤ r ≤ t + window`
abbrev pub within : ℕ → ℕ → ℕ → Bool
within window t r = leb t r && leb r (t + window)

-- Nothing that the loop drops lies within a window that reaches `now`.
count-drop_expired :
    (window now t : ℕ) (rs : List ℕ)
    → now ≤ t + window
    → count (within window t) (drop_expired window now rs) ≡ count (within window t) rs
unfolding drop_expired
count-drop_expired window now t [] h = refl
count-drop_expired window now t (r ∷ rs) h = ground (arith, count-drop_expired window now t rs h)

pub length-drop_expired-le :
    (window now : ℕ) (rs : List ℕ) → length (drop_expired window now rs) ≤ length rs
unfolding drop_expired
length-drop_expired-le window now [] = omega arith
length-drop_expired-le window now (r ∷ rs) = ground (arith, length-drop_expired-le window now rs)

-- An entry never holds more instants than its limit.
abbrev pub IsBounded : RateLimitEntry → Type 0
IsBounded e = length e.requests ≤ e.max_requests

pub is_allowed-IsBounded :
    (e : RateLimitEntry) (now : ℕ)
    → IsBounded e
    → IsBounded (is_allowed e now).1
      × ((is_allowed e now).1.max_requests ≡ e.max_requests)
      × ((is_allowed e now).1.window_seconds ≡ e.window_seconds)
unfolding is_allowed
is_allowed-IsBounded e now h =
    let kept = drop_expired (window_ticks e) now e.requests in
    ground (
      arith,
      length-drop_expired-le (window_ticks e) now e.requests,
      length-append {0} kept (now ∷ []),
    )

-- What is admitted later is no earlier than the next call.
count-admitted_later :
    (w t lo : ℕ) (e : RateLimitEntry) (times : List ℕ)
    → t + w < lo
    → IsSortedFrom lo times
    → count (within w t) (admitted e times) ≡ 0
unfolding admitted
count-admitted_later w t lo e [] h s = refl
count-admitted_later w t lo e (now ∷ rest) h s =
    ground (arith, count-admitted_later w t now (is_allowed e now).1 rest (omega arith) s.1)

-- One call, on the instants that a window starting at `t` counts: a rejected call adds none, and
-- an admitted one its own.
is_allowed_counts :
    (e : RateLimitEntry) (now t : ℕ)
    → now ≤ t + window_ticks e
    → count (within (window_ticks e) t) (is_allowed e now).1.requests
      ≡ count (within (window_ticks e) t) e.requests
        + (if (is_allowed e now).0 then count (within (window_ticks e) t) (now ∷ []) else 0)
unfolding is_allowed
is_allowed_counts e now t h =
    let kept = drop_expired (window_ticks e) now e.requests in
    ground (
      arith,
      count-drop_expired (window_ticks e) now t e.requests h,
      count-append {0} (within (window_ticks e) t) kept (now ∷ []),
    )

window_bound_from :
    (e : RateLimitEntry) (t lo : ℕ) (times : List ℕ)
    → IsBounded e
    → IsSortedFrom lo times
    → count (within (window_ticks e) t) e.requests
        + count (within (window_ticks e) t) (admitted e times)
      ≤ e.max_requests
unfolding admitted
window_bound_from e t lo [] b s =
    omega (arith, count-le-length (within (window_ticks e) t) e.requests)
window_bound_from e t lo (now ∷ rest) b s =
    let p = within (window_ticks e) t in
    let kept = is_allowed-IsBounded e now b in
    let ih = window_bound_from (is_allowed e now).1 t now rest kept.0 s.1 in
    elim (Bool-cases (leb now (t + window_ticks e))) [
      | inl near ↦ ground (arith, ih, is_allowed_counts e now t, kept)
      | inr far ↦ ground (
        arith,
        count-admitted_later (window_ticks e) t now (is_allowed e now).1 rest (ground arith) s.1,
        count-le-length {0} p e.requests,
      )
    ]

-- A fresh entry admits at most `max_requests` calls in any span of one window, both ends included,
-- whatever the nondecreasing instants of the calls are and wherever the span begins.
pub window_bound :
    (e : RateLimitEntry) (t lo : ℕ) (times : List ℕ)
    → e.requests ≡ []
    → IsSortedFrom lo times
    → count (within (window_ticks e) t) (admitted e times) ≤ e.max_requests
window_bound e t lo times fresh s =
    let empty : IsBounded e = rw fresh (omega arith) in
    omega (arith, window_bound_from e t lo times empty s)
