-- ===== src/Base/Strip.antt =====
-- Stripping white space twice is stripping it once.
use Prim.Native.Nat.{ℕ}
use mathlib.Core.Path.{◌≡◌, refl, ap, ◌∙◌}
use mathlib.Core.Logic.{◌⊎◌, inl, inr}
use mathlib.Core.Bool.{false}
use mathlib.Core.List.{[], ◌∷◌, ◌++◌, reverse, reverse-append, reverse-cons}
use youtube_translation.Base.Tests.{Bool-cases}
use youtube_translation.Base.Strings.{Text, is_space, lstrip, strip, lstrip_solid, strip_solid}

-- What is left is empty, or begins with other than white space.
lstrip-cases :
    (t : Text)
    → (lstrip t ≡ []) ⊎ ((a : ℕ) × (r : Text) × (lstrip t ≡ a ∷ r) × (is_space a ≡ false))
unfolding lstrip
lstrip-cases [] = inl refl
lstrip-cases (c ∷ t) = elim (Bool-cases (is_space c)) [
  | inl space ↦ rw space (lstrip-cases t)
  | inr solid ↦ inr (c, t, rw solid refl, solid)
]

-- A last character that is none stays at the end.
lstrip-append : (t : Text) (a : ℕ) → is_space a ≡ false → lstrip (t ++ a ∷ []) ≡ lstrip t ++ a ∷ []
unfolding lstrip
lstrip-append [] a h = rw h refl
lstrip-append (c ∷ t) a h = elim (Bool-cases (is_space c)) [
  | inl space ↦ rw space (lstrip-append t a h)
  | inr solid ↦ rw solid refl
]

strip_single : (a : ℕ) → is_space a ≡ false → strip (a ∷ []) ≡ a ∷ []
unfolding strip
strip_single a h = rw (lstrip_solid a [] h) (rw (lstrip_solid a [] h) refl)

strip_left :
    (s : Text) (a : ℕ) (r : Text)
    → lstrip s ≡ a ∷ r
    → is_space a ≡ false
    → strip s ≡ a ∷ reverse (lstrip (reverse r))
unfolding strip
strip_left s a r e h = rw e (
    rw (reverse-cons a r)
      (rw (lstrip-append (reverse r) a h) (reverse-append (lstrip (reverse r)) (a ∷ []))))

strip_blank : (s : Text) → lstrip s ≡ [] → strip s ≡ []
unfolding strip lstrip
strip_blank s e = rw e refl

lstrip_nil : lstrip [] ≡ []
unfolding lstrip
lstrip_nil = refl

pub strip_idem : (s : Text) → strip (strip s) ≡ strip s
strip_idem s = elim (lstrip-cases s) [
  | inl empty ↦
      ap strip (strip_blank s empty) ∙ strip_blank [] lstrip_nil ∙ (rw (strip_blank s empty) refl)
  | inr (a, r, e, solid) ↦
      let left = strip_left s a r e solid in
      elim (lstrip-cases (reverse r)) [
        | inl alone ↦
            let one : strip s ≡ a ∷ [] = left ∙ rw alone refl in
            ap strip one ∙ strip_single a solid ∙ (rw one refl)
        | inr (b, r', e', solid') ↦
            let two : strip s ≡ a ∷ (reverse r' ++ b ∷ []) =
              left ∙ rw e' (ap (λ t. a ∷ t) (reverse-cons b r')) in
            ap strip two ∙ strip_solid a b (reverse r') solid solid' ∙ (rw two refl)
      ]
]
