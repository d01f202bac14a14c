-- ===== src/Base/Clock.antt =====
-- Time as the development counts it, and Python's `min` and `max` with a key.
use Prim.Native.Nat.{ℕ, ◌≤◌}
use mathlib.Core.Bool.{Bool, true, false}
use mathlib.Core.List.{List, [], ◌∷◌}
use native.Mathlib.Omega.{arith}
use youtube_translation.Base.Tests.{ltb, if◌then◌else◌}
use youtube_translation.Base.Lists.{All}

-- A number of microseconds, the resolution of `datetime`.
abbrev pub second : ℕ
second = 1000000

abbrev pub day : ℕ
day = 86400000000

-- `min(x, *xs, key=key)`: the first of the least ones.
unfoldable pub min_by : (ℕ → ℕ) → ℕ → List ℕ → ℕ
min_by key best [] = best
min_by key best (x ∷ xs) = min_by key (if ltb (key x) (key best) then x else best) xs

-- `max(x, *xs, key=key)`: the first of the greatest ones.
unfoldable pub max_by : (ℕ → ℕ) → ℕ → List ℕ → ℕ
max_by key best [] = best
max_by key best (x ∷ xs) = max_by key (if ltb (key best) (key x) then x else best) xs

-- The least one is below the start and all of the list.
pub min_by-le :
    (key : ℕ → ℕ) (best : ℕ) (xs : List ℕ)
    → (key (min_by key best xs) ≤ key best) × All (λ x. key (min_by key best xs) ≤ key x) xs
unfolding min_by
min_by-le key best [] = (omega arith, tt)
min_by-le key best (x ∷ xs) =
    let ih = min_by-le key (if ltb (key x) (key best) then x else best) xs in
    (ground (arith, ih.0), (ground (arith, ih.0), ih.1))

-- What holds of the start and of all of the list holds of the chosen one.
pub min_by-All {ℓ} :
    (P : ℕ → Type ℓ) (key : ℕ → ℕ) (best : ℕ) (xs : List ℕ)
    → P best
    → All P xs
    → P (min_by key best xs)
unfolding min_by
min_by-All P key best [] h hs = h
min_by-All P key best (x ∷ xs) h hs =
    min_by-All P key (if ltb (key x) (key best) then x else best) xs
      (choose (ltb (key x) (key best)) hs.0 h) hs.1
  where
    choose : (b : Bool) → P x → P best → P (if b then x else best)
    choose true p q = p
    choose false p q = q
