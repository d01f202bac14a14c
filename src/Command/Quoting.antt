-- ===== src/Command/Quoting.antt =====
-- How ffmpeg's tee cuts the argument of command_builder.py into outputs.
use youtube_translation.Base.{
  ℕ, ◌≡◌, ◌==◌, Bool, false, ◌||◌, List, [], ◌∷◌, ◌++◌, none, some, if◌then◌else◌, Text, push_char,
  Option, any, All, ◌∙◌, Bool-cases, inl, inr, refl, arith, ap,
}
use youtube_translation.Command.{join}

-- No character of the text has the property.
abbrev pub Without : (ℕ → Bool) → Text → Type 0
Without p s = any p s ≡ false

module _ (p : ℕ → Bool) where
  pub Without-append : (s t : Text) → Without p s → Without p t → Without p (s ++ t)
  Without-append [] t hs ht = ht
  Without-append (c ∷ s) t hs ht = ground (arith, Without-append s t)

-- ffmpeg's rule of quoting, by its documentation: between single quotes every character stands for itself,
-- and outside them a backslash takes the one behind it.
pub data Quoting : Type 0 where
  unquoted quoted escaped : Quoting

abbrev pub ends : Quoting → ℕ → Bool
ends unquoted c = c == b'|'
ends quoted c = false
ends escaped c = false

abbrev pub after : Quoting → ℕ → Quoting
after unquoted c = if c == 39 then quoted else if c == b'\\' then escaped else unquoted
after quoted c = if c == 39 then unquoted else quoted
after escaped c = unquoted

-- The outputs that the tee reads of its argument: it is cut at each bar that is not quoted.
unfoldable pub tee_cut : Quoting → Text → List Text
tee_cut quoting [] = [] ∷ []
tee_cut quoting (c ∷ t) =
    let rest = tee_cut (after quoting c) t in if ends quoting c then [] ∷ rest else push_char c rest

-- Where the reader of a text stands behind it, if no bar in it ends an output.
unfoldable pub scan : Quoting → Text → Option Quoting
scan quoting [] = some quoting
scan quoting (c ∷ t) = let rest = scan (after quoting c) t in if ends quoting c then none else rest

pub scan-append :
    (r : Quoting) (s t : Text) {r' : Quoting} → scan r s ≡ some r' → scan r (s ++ t) ≡ scan r' t
unfolding scan
scan-append r [] t h = ground (arith, h)
scan-append r (c ∷ s) t {r' = r'} h = elim (Bool-cases (ends r c)) [
  | inl stops ↦ ground (arith, h, stops)
  | inr goes ↦
      let rest : scan (after r c) s ≡ some r' = ground (arith, h, goes) in
      let later = scan-append (after r c) s t {r' = r'} rest in ground (arith, goes, later)
]

-- A character that means something to the reader outside quotes.
abbrev pub is_special : ℕ → Bool
is_special c = (c == b'|') || (c == 39) || (c == b'\\')

pub scan-plain : (t : Text) → Without is_special t → scan unquoted t ≡ some unquoted
unfolding scan
scan-plain [] h = refl
scan-plain (c ∷ t) h = ground (arith, h, scan-plain t)

-- A text that closes its quotes and in which no bar ends an output is cut off whole.
tee_cut-append :
    (r : Quoting) (w rest : Text)
    → scan r w ≡ some unquoted
    → tee_cut r (w ++ (b'|' ∷ rest)) ≡ w ∷ tee_cut unquoted rest
unfolding tee_cut scan
tee_cut-append unquoted [] rest h = refl
tee_cut-append quoted [] rest h = cc
tee_cut-append escaped [] rest h = cc
tee_cut-append r (c ∷ w) rest h = elim (Bool-cases (ends r c)) [
  | inl stops ↦ ground (arith, h, stops)
  | inr goes ↦
      let after_it : scan (after r c) w ≡ some unquoted = ground (arith, h, goes) in
      rw goes (ap (push_char c) (tee_cut-append (after r c) w rest after_it))
]

tee_cut_last : (r : Quoting) (w : Text) → scan r w ≡ some unquoted → tee_cut r w ≡ w ∷ []
unfolding tee_cut scan
tee_cut_last r [] h = refl
tee_cut_last r (c ∷ w) h = elim (Bool-cases (ends r c)) [
  | inl stops ↦ ground (arith, h, stops)
  | inr goes ↦ ground (arith, goes, tee_cut_last (after r c) w (ground (arith, h, goes)))
]

-- Joining such texts by bars is undone by the reader.
pub tee_cut-join :
    (w : Text) (ws : List Text)
    → All (λ v. scan unquoted v ≡ some unquoted) (w ∷ ws)
    → tee_cut unquoted (join b'|' (w ∷ ws)) ≡ w ∷ ws
unfolding join
tee_cut-join w [] h = tee_cut_last unquoted w h.0
tee_cut-join w (w' ∷ ws) h =
    tee_cut-append unquoted w (join b'|' (w' ∷ ws)) h.0 ∙ ap (λ t. w ∷ t) (tee_cut-join w' ws h.1)
