-- ===== src/Quota/Daily.antt =====
-- The time streamed in the last day, as the aggregate of the database gives it and as instants.
-- A row holds its last start and stop alone, so that the earlier runs of a stream do not count.
use youtube_translation.Base.{
  ℕ, zero, suc, ◌+◌, ◌-◌, ◌≤◌, max, min, ◌≡◌, refl, ◌&&◌, List, [], ◌∷◌, Option, none, some, arith,
  ltb, leb, All, if◌then◌else◌,
}
use youtube_translation.Stream.{Stream}
use youtube_translation.Quota.{clipped, sum_added, sum_taken, used_time, window_start, end_of}

-- How many of the n instants from the first on lie in a half-open interval.
pub instants : ℕ → ℕ → ℕ → ℕ → ℕ
instants lo hi first zero = 0
instants lo hi first (suc n) =
    let before = instants lo hi first n in
    if leb lo (first + n) && ltb (first + n) hi then suc before else before

instants_lem : (lo hi first n : ℕ) → instants lo hi first n ≡ min hi (first + n) - max lo first
unfolding instants
instants_lem lo hi first zero = omega arith
instants_lem lo hi first (suc n) = ground (arith, instants_lem lo hi first n)

-- The instants of the last day at which a stream ran.
abbrev pub instants_run : ℕ → Option ℕ → Option ℕ → ℕ
instants_run now none stopped_at = 0
instants_run now (some started) stopped_at =
    instants started (end_of now stopped_at) (window_start now) (now - window_start now)

abbrev pub total_run : ℕ → List Stream → ℕ
total_run now [] = 0
total_run now (s ∷ streams) = instants_run now s.started_at s.stopped_at + total_run now streams

-- A stream that has stopped did so after it had started.
abbrev pub StopsLater : Option ℕ → Option ℕ → Type 0
StopsLater (some started) (some stopped) = started ≤ stopped
StopsLater _ _ = Unit

clipped_lem :
    (now : ℕ) (started_at stopped_at : Option ℕ)
    → StopsLater started_at stopped_at
    → (clipped now started_at stopped_at).0
      ≡ (clipped now started_at stopped_at).1 + instants_run now started_at stopped_at
unfolding clipped
clipped_lem now none stopped_at h = refl
clipped_lem now (some started) none h =
    ground (arith, instants_lem started now (window_start now) (now - window_start now))
clipped_lem now (some started) (some stopped) h =
    ground (arith, h, instants_lem started stopped (window_start now) (now - window_start now))

sum_lem :
    (now : ℕ) (streams : List Stream)
    → All (λ s. StopsLater s.started_at s.stopped_at) streams
    → sum_added now streams ≡ sum_taken now streams + total_run now streams
unfolding sum_added sum_taken
sum_lem now [] h = refl
sum_lem now (s ∷ streams) h =
    omega (arith, clipped_lem now s.started_at s.stopped_at h.0, sum_lem now streams h.1)

-- The time that counts against the daily limit is, where no row has stopped before it started, the number of
-- instants of the last day that lie between the start and the stop that a row of the user holds at
-- the time, added up over the rows.
pub used_time_lem :
    (now : ℕ) (streams : List Stream)
    → All (λ s. StopsLater s.started_at s.stopped_at) streams
    → used_time now streams ≡ total_run now streams
unfolding used_time
used_time_lem now streams h = omega (arith, sum_lem now streams h)
