-- ===== src/RateLimit/Limiter/Laws.antt =====
-- The table of limits, and the bound on the number of clients.
use youtube_translation.Base.{
  ℕ, ◌≤◌, ◌<◌, ◌≡◌, List, [], ◌∷◌, arith, some, Text, text_beq, text_beq_iff, text_eq,
  if◌then◌else◌, Dict, lookup, insert, length, inl, inr, Bool-cases, Option-cases, length-insert-le,
}
use youtube_translation.RateLimit.Client.{Host, Request, get_client_key, normalize_endpoint_path}
use youtube_translation.RateLimit.Entry.{RateLimitEntry, is_allowed}
use youtube_translation.RateLimit.Limiter.{
  max_clients, endpoint_limits, RateLimiter, prefix_limits, limits_for, check_key, check_rate_limit,
  entry_for, evict_oldest,
}

-- A limit that admits at least one call in a window of at least a second.
abbrev pub IsUsable : ℕ × ℕ → Type 0
IsUsable limits = (0 < limits.0) × (0 < limits.1)

AllUsable : List (Text × (ℕ × ℕ)) → Type 0
AllUsable [] = Unit
AllUsable (row ∷ rows) = IsUsable row.1 × AllUsable rows

prefix_limits-IsUsable :
    (path : Text) (rows : List (Text × (ℕ × ℕ)))
    → AllUsable rows
    → IsUsable (prefix_limits path rows)
unfolding prefix_limits AllUsable
prefix_limits-IsUsable path [] h = omega arith
prefix_limits-IsUsable path (row ∷ rows) h = ground (arith, prefix_limits-IsUsable path rows h.1)

lookup-IsUsable :
    (path : Text) (rows : List (Text × (ℕ × ℕ))) {limits : ℕ × ℕ}
    → AllUsable rows
    → lookup path rows ≡ some limits
    → IsUsable limits
unfolding AllUsable
lookup-IsUsable path [] h e = cc
lookup-IsUsable path (row ∷ rows) {limits = l} h e =
    ground (arith, lookup-IsUsable path rows {limits = l} h.1)

endpoint_limits-AllUsable : AllUsable endpoint_limits
unfolding AllUsable
endpoint_limits-AllUsable = omega arith

-- Every path has limits that admit a call: no endpoint is shut by its limit.
pub limits_for-IsUsable : (path : Text) → IsUsable (limits_for path)
unfolding limits_for
limits_for-IsUsable path = elim (Option-cases (lookup path endpoint_limits)) [
  | inl e ↦
      rw (e, limits_for) (prefix_limits-IsUsable path endpoint_limits endpoint_limits-AllUsable)
  | inr (limits, e) ↦
      rw (e, limits_for) (lookup-IsUsable path endpoint_limits endpoint_limits-AllUsable e)
]

insert_evict_bounded :
    (key : Text) (e : RateLimitEntry) (clients : Dict Text RateLimitEntry)
    → length clients ≤ max_clients
    → length (evict_oldest key (insert key e clients)) ≤ max_clients
unfolding evict_oldest
insert_evict_bounded key e [] h = ground arith
insert_evict_bounded key e ((j, w) ∷ rest) h = elim (Bool-cases (text_beq key j)) [
  | inl same ↦ rw (same, if◌then◌else◌) (ground arith)
  | inr other ↦
      rw (other, if◌then◌else◌)
        (ground (arith, length-insert-le key e rest, text_beq_iff key j, text_beq_iff j key))
]

-- Checking a request keeps the table within `max_clients` entries, whatever the request is.
pub check_rate_limit_bounded :
    (h : Host) (l : RateLimiter) (r : Request) (now : ℕ)
    → length l.clients ≤ max_clients
    → length (check_rate_limit h l r now).2.clients ≤ max_clients
unfolding check_rate_limit check_key
check_rate_limit_bounded h l r now b =
    insert_evict_bounded (get_client_key h l.trusted_networks r) _ l.clients b

-- The entry that a check returns has the limit of the request's route.
pub entry_limit :
    (h : Host) (l : RateLimiter) (r : Request) (now : ℕ)
    → (check_rate_limit h l r now).1.max_requests
      ≡ (limits_for (normalize_endpoint_path h r.path)).0
unfolding check_rate_limit check_key entry_for is_allowed
entry_limit h l r now = ground arith
