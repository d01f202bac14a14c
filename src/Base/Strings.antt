-- ===== src/Base/Strings.antt =====
-- Python's `str` as its code points, and the methods that the source calls on it.
use Prim.Native.Char.{code}
use Prim.Native.String.{String}
use Prim.Native.Nat.{ℕ, zero, suc, ◌+◌, ◌/◌, ◌%◌, ◌<◌}
use mathlib.Core.Path.{◌≡◌, refl, subst}
use mathlib.Core.Logic.{◌↔◌}
use mathlib.Core.Bool.{Bool, true, false, ◌&&◌, ◌||◌}
use mathlib.Core.List.{List, [], ◌∷◌, ◌++◌, reverse, reverse-append, reverse-cons, reverse-reverse}
use native.Mathlib.Omega.{arith}
use youtube_translation.Base.Tests.{leb, ◌==◌, if◌then◌else◌, Eq}
use youtube_translation.Base.Lists.{any}

abbrev pub Text : Type 0
Text = List ℕ

-- The code points of a literal.
abbrev pub codes : String → Text
codes String.[] = []
codes (String.◌∷◌ c s) = code c ∷ codes s

abbrev pub text_beq : Text → Text → Bool
text_beq [] [] = true
text_beq [] (y ∷ t) = false
text_beq (x ∷ s) [] = false
text_beq (x ∷ s) (y ∷ t) = (x == y) && text_beq s t

pub text_beq_refl : (s : Text) → text_beq s s ≡ true
text_beq_refl [] = refl
text_beq_refl (x ∷ s) = ground (arith, text_beq_refl s)

pub text_beq_sound : (s t : Text) → text_beq s t ≡ true → s ≡ t
text_beq_sound [] [] h = refl
text_beq_sound [] (y ∷ t) h = cc
text_beq_sound (x ∷ s) [] h = cc
text_beq_sound (x ∷ s) (y ∷ t) h = ground (arith, text_beq_sound s t)

pub text_beq_iff : (s t : Text) → (text_beq s t ≡ true) ↔ (s ≡ t)
text_beq_iff s t = (text_beq_sound s t, λ e. subst (λ u. text_beq s u ≡ true) e (text_beq_refl s))

instance abbrev pub text_eq : Eq Text
text_eq = record { beq = text_beq; beq_iff = text_beq_iff }

-- `s.startswith(p)`
abbrev pub starts_with : Text → Text → Bool
starts_with s [] = true
starts_with [] (y ∷ p) = false
starts_with (x ∷ s) (y ∷ p) = (x == y) && starts_with s p

-- `s.endswith(p)`
abbrev pub ends_with : Text → Text → Bool
ends_with s p = starts_with (reverse s) (reverse p)

-- `p in s`
abbrev pub contains_text : Text → Text → Bool
contains_text p [] = text_beq p []
contains_text p (x ∷ s) = starts_with (x ∷ s) p || contains_text p s

-- The code points that `str.strip` removes and `str.isspace` accepts.
unfoldable pub is_space : ℕ → Bool
is_space c =
    (leb 9 c && leb c 13)
    || (leb 28 c && leb c 32)
    || (c == 0x85)
    || (c == 0xa0)
    || (c == 0x1680)
    || (leb 0x2000 c && leb c 0x200a)
    || (c == 0x2028)
    || (c == 0x2029)
    || (c == 0x202f)
    || (c == 0x205f)
    || (c == 0x3000)

unfoldable pub lstrip : Text → Text
lstrip [] = []
lstrip (c ∷ s) = if is_space c then lstrip s else c ∷ s

-- `s.strip()`
unfoldable pub strip : Text → Text
strip s = reverse (lstrip (reverse (lstrip s)))

-- A text that begins and ends with other than white space keeps all of itself.
pub lstrip_solid : (a : ℕ) (s : Text) → is_space a ≡ false → lstrip (a ∷ s) ≡ a ∷ s
unfolding lstrip
lstrip_solid a s h = rw h

pub strip_solid :
    (a b : ℕ) (s : Text)
    → is_space a ≡ false
    → is_space b ≡ false
    → strip (a ∷ (s ++ b ∷ [])) ≡ a ∷ (s ++ b ∷ [])
unfolding strip
strip_solid a b s ha hb = rw (lstrip_solid a (s ++ b ∷ []) ha) (
    rw (reverse-append (a ∷ s) (b ∷ [])) (
      rw (lstrip_solid b (reverse (a ∷ s)) hb)
        (rw (reverse-cons b (reverse (a ∷ s))) (rw (reverse-reverse (a ∷ s)) refl))))

-- `s.lower()`. Of the code points outside ASCII only the Kelvin sign and the dotted capital I have
-- a lower case that holds an ASCII letter; the others stay, as the source only compares the result
-- with ASCII texts.
abbrev pub lower_char : ℕ → Text
lower_char c =
    if leb b'A' c && leb c b'Z'
    then (c + 32) ∷ []
    else if c == 0x212a
    then b'k' ∷ []
    else if c == 0x130
    then b'i' ∷ 0x307 ∷ []
    else c ∷ []

unfoldable pub lower : Text → Text
lower [] = []
lower (c ∷ s) = lower_char c ++ lower s

-- `s.split(sep)` for a separator of one code point; the result is never empty.
abbrev pub push_char : ℕ → List Text → List Text
push_char c [] = (c ∷ []) ∷ []
push_char c (w ∷ ws) = (c ∷ w) ∷ ws

unfoldable pub split : ℕ → Text → List Text
split sep [] = [] ∷ []
split sep (c ∷ s) = let rest = split sep s in if c == sep then [] ∷ rest else push_char c rest

-- A separator ends the first part when that holds none itself.
pub split-append :
    (sep : ℕ) (w rest : Text)
    → any (λ c. c == sep) w ≡ false
    → split sep (w ++ sep ∷ rest) ≡ w ∷ split sep rest
unfolding split
split-append sep [] rest h = ground arith
split-append sep (c ∷ w) rest h = ground (arith, split-append sep w rest)

-- `s[:n]` is `take n s`. The decimal digits of a number, as an f-string prints an `int`.
pub digits_from : ℕ → ℕ → Text → Text
digits_from zero n acc = acc
digits_from (suc fuel) n acc =
    let acc' = (48 + n % 10) ∷ acc in
    let rest = digits_from fuel (n / 10) acc' in if leb 10 n then rest else acc'

-- `str(n)`: a number has at most as many digits as its value plus one.
unfoldable pub show_nat : ℕ → Text
unfolding digits_from
show_nat n = digits_from (suc n) n []

-- What no digit has, no character of a printed number has.
pub any-digits_from :
    (p : ℕ → Bool) (fuel n : ℕ) (acc : Text)
    → ((d : ℕ) → d < 10 → p (48 + d) ≡ false)
    → any p acc ≡ false
    → any p (digits_from fuel n acc) ≡ false
unfolding digits_from
any-digits_from p zero n acc hd ha = ha
any-digits_from p (suc fuel) n acc hd ha =
    let here = hd (n % 10) (omega arith) in
    let longer : any p ((48 + n % 10) ∷ acc) ≡ false = ground arith in
    ground (arith, any-digits_from p fuel (n / 10) ((48 + n % 10) ∷ acc) hd longer)

pub any-show_nat :
    (p : ℕ → Bool) (n : ℕ) → ((d : ℕ) → d < 10 → p (48 + d) ≡ false) → any p (show_nat n) ≡ false
unfolding show_nat
any-show_nat p n hd = any-digits_from p (suc n) n [] hd refl
