-- ===== src/Schedule/Normalize/Weekdays.antt =====
-- What `normalize_schedule_weekdays` returns.
use youtube_translation.Base.{
  ℕ, ◌<◌, ◌≡◌, refl, Bool, true, false, ◌||◌, List, [], ◌∷◌, Option, none, some, any, map, arith,
  All, ℤ, pos_part, ltb_ℤ, eq_of_parts, Bool-cases, inl, inr, ap, sym, ◌∙◌,
}
use youtube_translation.Schedule.Normalize.{
  Result, ok, err, bad_weekday, insert_day, sorted_days, is_bad_day, normalize_schedule_weekdays,
  checked_days,
}

-- Below the first and strictly ascending from there.
abbrev pub AscendsFrom : ℤ → List ℤ → Type 0
AscendsFrom lo [] = Unit
AscendsFrom lo (d ∷ ds) = (ltb_ℤ lo d ≡ true) × AscendsFrom d ds

abbrev pub IsAscending : List ℕ → Type 0
IsAscending [] = Unit
IsAscending (d ∷ []) = Unit
IsAscending (d ∷ e ∷ ds) = (d < e) × IsAscending (e ∷ ds)

abbrev Ascends : List ℤ → Type 0
Ascends [] = Unit
Ascends (d ∷ ds) = AscendsFrom d ds

insert_day-AscendsFrom :
    (lo d : ℤ) (ds : List ℤ)
    → ltb_ℤ lo d ≡ true
    → AscendsFrom lo ds
    → AscendsFrom lo (insert_day d ds)
unfolding insert_day
insert_day-AscendsFrom lo d [] h a = (h, tt)
insert_day-AscendsFrom lo d (e ∷ ds) h a =
    ground (arith, insert_day-AscendsFrom e d ds, eq_of_parts d e)

insert_day-Ascends : (d : ℤ) (ds : List ℤ) → Ascends ds → Ascends (insert_day d ds)
unfolding insert_day
insert_day-Ascends d [] a = tt
insert_day-Ascends d (e ∷ ds) a = ground (arith, insert_day-AscendsFrom e d ds)

sorted_days-Ascends : (days : List ℤ) → Ascends (sorted_days days)
unfolding sorted_days
sorted_days-Ascends [] = tt
sorted_days-Ascends (d ∷ ds) = insert_day-Ascends d (sorted_days ds) (sorted_days-Ascends ds)

-- Sorting without repeats keeps the answer of every test of whether some day passes.
any-insert_day : (p : ℤ → Bool) (d : ℤ) (ds : List ℤ) → any p (insert_day d ds) ≡ (p d || any p ds)
unfolding insert_day
any-insert_day p d [] = refl
any-insert_day p d (e ∷ ds) = ground (arith, any-insert_day p d ds, eq_of_parts d e)

any-sorted_days : (p : ℤ → Bool) (days : List ℤ) → any p (sorted_days days) ≡ any p days
unfolding sorted_days
any-sorted_days p [] = refl
any-sorted_days p (d ∷ ds) =
    any-insert_day p d (sorted_days ds) ∙ ap (λ b. p d || b) (any-sorted_days p ds)

-- The days of a week as natural numbers.
pos_part-IsAscending :
    (d : ℤ) (ds : List ℤ)
    → any is_bad_day (d ∷ ds) ≡ false
    → AscendsFrom d ds
    → IsAscending (map pos_part (d ∷ ds)) × All (λ w. w < 7) (map pos_part (d ∷ ds))
pos_part-IsAscending d [] good a = ground arith
pos_part-IsAscending d (e ∷ ds) good a = ground (arith, pos_part-IsAscending e ds)

any-map : (p : ℕ → Bool) (ds : List ℤ) → any p (map pos_part ds) ≡ any (λ d. p (pos_part d)) ds
any-map p [] = refl
any-map p (d ∷ ds) = ap (λ b. p (pos_part d) || b) (any-map p ds)

-- The result holds the days of the input and no others, each once, in order, from 0 to 6.
abbrev pub NormalizesTo : List ℤ → List ℕ → Type 0
NormalizesTo days ws =
    IsAscending ws
    × All (λ w. w < 7) ws
    × ((p : ℕ → Bool) → any p ws ≡ any (λ d. p (pos_part d)) days)

-- `normalize_schedule_weekdays` on a list: it raises when some day is out of range; it returns
-- `None` for the empty list; else the same days, sorted and without repeats.
abbrev pub WeekdaysResult : List ℤ → Result (Option (List ℕ)) → Type 0
WeekdaysResult days (err e) = (e ≡ bad_weekday) × (any is_bad_day days ≡ true)
WeekdaysResult days (ok none) = any (λ d. true) days ≡ false
WeekdaysResult days (ok (some ws)) =
    (any is_bad_day days ≡ false) × (any (λ d. true) days ≡ true) × NormalizesTo days ws

checked_days_lem :
    (days ds : List ℤ)
    → Ascends ds
    → ((p : ℤ → Bool) → any p ds ≡ any p days)
    → WeekdaysResult days (checked_days ds)
unfolding checked_days
checked_days_lem days [] a same = sym (same (λ d. true))
checked_days_lem days (d ∷ ds) a same = elim (Bool-cases (any is_bad_day (d ∷ ds))) [
  | inl bad ↦ rw bad (refl, sym (same is_bad_day) ∙ bad)
  | inr good ↦ rw good (
    sym (same is_bad_day) ∙ good,
    sym (same (λ e. true)),
    (
      (pos_part-IsAscending d ds good a).0,
      (pos_part-IsAscending d ds good a).1,
      λ p. any-map p (d ∷ ds) ∙ same (λ e. p (pos_part e)),
    ),
  )
]

-- Every list of days either raises because some day is out of range, is empty and gives `None`, or
-- gives the same days in ascending order without repeats, all below 7.
pub normalize_schedule_weekdays_lem :
    (days : List ℤ) → WeekdaysResult days (normalize_schedule_weekdays (some days))
unfolding normalize_schedule_weekdays
normalize_schedule_weekdays_lem days =
    checked_days_lem days (sorted_days days) (sorted_days-Ascends days)
      (λ p. any-sorted_days p days)
