-- ===== src/Base/Distinct.antt =====
-- Lists of numbers without repeats, and how long they can be.
use Prim.Native.Nat.{ℕ, suc, ◌≤◌}
use mathlib.Core.Path.{◌≡◌}
use mathlib.Core.Logic.{◌≢◌}
use mathlib.Core.Bool.{Bool, true, false}
use mathlib.Core.List.{List, [], ◌∷◌}
use native.Mathlib.Omega.{arith}
use youtube_translation.Base.Tests.{◌==◌, if◌then◌else◌}
use youtube_translation.Base.Lists.{length, any, All}

abbrev pub mem_id : ℕ → List ℕ → Bool
mem_id id ids = any (λ other. other == id) ids

abbrev pub IsDistinct : List ℕ → Type 0
IsDistinct [] = Unit
IsDistinct (x ∷ xs) = (mem_id x xs ≡ false) × IsDistinct xs

-- The list without its first occurrence of a number
remove_id : ℕ → List ℕ → List ℕ
remove_id a [] = []
remove_id a (x ∷ xs) = if x == a then xs else x ∷ remove_id a xs

length-remove :
    (a : ℕ) (xs : List ℕ) → mem_id a xs ≡ true → suc (length (remove_id a xs)) ≡ length xs
unfolding remove_id
length-remove a [] h = cc
length-remove a (x ∷ xs) h = ground (arith, length-remove a xs)

mem-remove : (a b : ℕ) (xs : List ℕ) → a ≢ b → mem_id b xs ≡ true → mem_id b (remove_id a xs) ≡ true
unfolding remove_id
mem-remove a b [] ne h = cc
mem-remove a b (x ∷ xs) ne h = ground (arith, mem-remove a b xs)

All-remove :
    (a : ℕ) (xs ys : List ℕ)
    → mem_id a xs ≡ false
    → All (λ x. mem_id x ys ≡ true) xs
    → All (λ x. mem_id x (remove_id a ys) ≡ true) xs
All-remove a [] ys h hs = tt
All-remove a (x ∷ xs) ys h hs =
    (mem-remove a x ys (ground arith) hs.0, All-remove a xs ys (ground arith) hs.1)

-- Distinct members of a list are no more than it has.
pub length-distinct-le :
    (xs ys : List ℕ) → IsDistinct xs → All (λ x. mem_id x ys ≡ true) xs → length xs ≤ length ys
length-distinct-le [] ys d h = omega arith
length-distinct-le (x ∷ xs) ys d h = omega (
  arith,
  length-remove x ys h.0,
  length-distinct-le xs (remove_id x ys) d.1 (All-remove x xs ys d.0 h.1),
)
