-- ===== src/Scheduler/Rounds.antt =====
-- A round of the launcher over the table: `launch_due_streams` and `stop_due_streams` of
-- backend/app/services/streams/scheduler.py, around the turns of their loops.
use youtube_translation.Base.{
  ℕ, zero, suc, ◌≤◌, ◌≡◌, ◌≢◌, refl, map, Bool-cases, inl, inr, Bool, true, false, List, [], ◌∷◌,
  Option, none, some, leb, if◌then◌else◌, filter, take, length, count, arith, All,
}
use youtube_translation.Schedule.Normalize.{ZoneInfo}
use youtube_translation.Stream.{Stream}
use youtube_translation.Scheduler.{
  Runtime, aborted, turn, is_start_due, is_stop_due, launch, stop_due,
}

-- `ORDER BY`; rows of one instant keep their order.
abbrev instant : Option ℕ → ℕ
instant none = 0
instant (some t) = t

abbrev start_key : Stream → ℕ
start_key s = instant s.scheduled_start_time

abbrev stop_key : Stream → ℕ
stop_key s = instant s.scheduled_stop_time

insert_by : (Stream → ℕ) → Stream → List Stream → List Stream
insert_by key s [] = s ∷ []
insert_by key s (t ∷ ts) =
    let later = insert_by key s ts in if leb (key s) (key t) then s ∷ t ∷ ts else t ∷ later

ordered_by : (Stream → ℕ) → List Stream → List Stream
ordered_by key [] = []
ordered_by key (s ∷ ss) = insert_by key s (ordered_by key ss)

-- The rows that a round of each kind selects
unfoldable pub due_streams : ℕ → ℕ → ℕ → List Stream → List Stream
unfolding insert_by ordered_by
due_streams interval batch_size now rows =
    take batch_size (ordered_by start_key (filter (is_start_due interval now) rows))

unfoldable pub due_stops : ℕ → ℕ → ℕ → List Stream → List Stream
unfolding insert_by ordered_by
due_stops interval batch_size now rows =
    take batch_size (ordered_by stop_key (filter (is_stop_due interval now) rows))

-- How a round ends: the rows after it, the number launched, and whether an exception ended it.
pub record Round : Type 0 where
  pub rows : List Stream
  pub launched : ℕ
  pub failed : Bool

abbrev add_turn : Stream → Bool → Round → Round
add_turn s launched r = record {
  rows = s ∷ r.rows;
  launched = if launched then suc r.launched else r.launched;
  failed = r.failed;
}

module _ (zones : ZoneInfo) (runtime : Runtime) where
  -- The loop of `launch_due_streams` over the selected rows.
  unfoldable pub launch_each : ℕ → List Stream → Round
  launch_each now [] = record { rows = []; launched = 0; failed = false }
  launch_each now (s ∷ rest) =
      let later = launch_each now rest in
      elim (launch zones runtime now s) [
        | aborted ↦ record { rows = s ∷ rest; launched = 0; failed = true }
        | turn s' launched ↦ add_turn s' launched later
      ]

  -- `launch_due_streams`
  unfoldable pub launch_due_streams : ℕ → ℕ → ℕ → List Stream → Round
  launch_due_streams interval batch_size now table =
      launch_each now (due_streams interval batch_size now table)

  -- The loop of `stop_due_streams`, with the number stopped.
  unfoldable pub stop_each : ℕ → List Stream → List Stream × ℕ
  stop_each now [] = ([], 0)
  stop_each now (s ∷ rest) =
      let (s', ended) = stop_due zones runtime now s in
      let (rows, n) = stop_each now rest in (s' ∷ rows, if ended then suc n else n)

  -- `stop_due_streams`
  unfoldable pub stop_due_streams : ℕ → ℕ → ℕ → List Stream → List Stream × ℕ
  stop_due_streams interval batch_size now table =
      stop_each now (due_stops interval batch_size now table)

  -- The result of a turn that does not raise.
  abbrev pub turn_row : ℕ → Stream → Stream
  turn_row now s = elim (launch zones runtime now s) [ aborted ↦ s | turn s' _ ↦ s' ]

  abbrev pub turn_launched : ℕ → Stream → Bool
  turn_launched now s = elim (launch zones runtime now s) [ aborted ↦ false | turn _ b ↦ b ]

  -- When the repeat mode of every selected stream is known, a round is its turns one by one: no
  -- failure of one stream keeps another from its turn.
  pub launch_each_isolated :
      (now : ℕ) (rows : List Stream)
      → All (λ s. launch zones runtime now s ≢ aborted) rows
      → launch_each now rows ≡ record {
        rows = map (turn_row now) rows;
        launched = count (turn_launched now) rows;
        failed = false;
      }
  unfolding launch_each
  launch_each_isolated now [] h = refl
  launch_each_isolated now (s ∷ rest) h = ground (arith, launch_each_isolated now rest h.1, h.0)

  launched-le-length :
      (now : ℕ) (rows : List Stream) → (launch_each now rows).launched ≤ length rows
  unfolding launch_each
  launched-le-length now [] = omega arith
  launched-le-length now (s ∷ rest) = ground (arith, launched-le-length now rest)

take-le {ℓ} : {A : Type ℓ} (n : ℕ) (xs : List A) → length (take n xs) ≤ n
take-le zero xs = omega arith
take-le (suc n) [] = omega arith
take-le (suc n) (x ∷ xs) = omega (arith, take-le n xs)

All-take {ℓ κ} : {A : Type ℓ} (P : A → Type κ) (n : ℕ) (xs : List A) → All P xs → All P (take n xs)
All-take P zero xs h = tt
All-take P (suc n) [] h = tt
All-take P (suc n) (x ∷ xs) h = (h.0, All-take P n xs h.1)

insert_by-All :
    (P : Stream → Type 0) (key : Stream → ℕ) (s : Stream) (ss : List Stream)
    → P s
    → All P ss
    → All P (insert_by key s ss)
unfolding insert_by
insert_by-All P key s [] h hs = (h, tt)
insert_by-All P key s (t ∷ ts) h hs = elim (Bool-cases (leb (key s) (key t))) [
  | inl le ↦ rw le (h, hs)
  | inr gt ↦ rw gt (hs.0, insert_by-All P key s ts h hs.1)
]

ordered_by-All :
    (P : Stream → Type 0) (key : Stream → ℕ) (ss : List Stream)
    → All P ss
    → All P (ordered_by key ss)
unfolding ordered_by
ordered_by-All P key [] h = tt
ordered_by-All P key (s ∷ ss) h =
    insert_by-All P key s (ordered_by key ss) h.0 (ordered_by-All P key ss h.1)

filter-All {ℓ} : {A : Type ℓ} (p : A → Bool) (xs : List A) → All (λ x. p x ≡ true) (filter p xs)
filter-All p [] = tt
filter-All p (x ∷ xs) = elim (Bool-cases (p x)) [
  | inl e ↦ rw e (e, filter-All p xs)
  | inr e ↦ rw e (filter-All p xs)
]

-- A round turns to due streams only, and launches at most `batch_size` of them.
pub launch_due_streams_bounded :
    (zones : ZoneInfo) (runtime : Runtime) (interval batch_size now : ℕ) (table : List Stream)
    → All (λ s. is_start_due interval now s ≡ true) (due_streams interval batch_size now table)
      × ((launch_due_streams zones runtime interval batch_size now table).launched ≤ batch_size)
unfolding launch_due_streams due_streams
launch_due_streams_bounded zones runtime interval batch_size now table =
    let due = ordered_by start_key (filter (is_start_due interval now) table) in
    (
      All-take (λ s. is_start_due interval now s ≡ true) batch_size due
          (ordered_by-All (λ s. is_start_due interval now s ≡ true) start_key _
            (filter-All (is_start_due interval now) table)),
      omega (
        arith,
        take-le {0} batch_size due,
        launched-le-length zones runtime now (take batch_size due),
      ),
    )

stopped-le-length :
    (zones : ZoneInfo) (runtime : Runtime) (now : ℕ) (rows : List Stream)
    → (stop_each zones runtime now rows).1 ≤ length rows
unfolding stop_each
stopped-le-length zones runtime now [] = omega arith
stopped-le-length zones runtime now (s ∷ rest) =
    ground (arith, stopped-le-length zones runtime now rest)

-- A round stops due streams only, and at most `batch_size` of them.
pub stop_due_streams_bounded :
    (zones : ZoneInfo) (runtime : Runtime) (interval batch_size now : ℕ) (table : List Stream)
    → All (λ s. is_stop_due interval now s ≡ true) (due_stops interval batch_size now table)
      × ((stop_due_streams zones runtime interval batch_size now table).1 ≤ batch_size)
unfolding stop_due_streams due_stops
stop_due_streams_bounded zones runtime interval batch_size now table =
    let due = ordered_by stop_key (filter (is_stop_due interval now) table) in
    (
      All-take (λ s. is_stop_due interval now s ≡ true) batch_size due
          (ordered_by-All (λ s. is_stop_due interval now s ≡ true) stop_key _
            (filter-All (is_stop_due interval now) table)),
      omega (
        arith,
        stopped-le-length zones runtime now (take batch_size due),
        take-le batch_size due,
      ),
    )
