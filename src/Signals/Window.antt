-- ===== src/Signals/Window.antt =====
-- The deque of a signal: its bound, and what stays in it after counting.
use youtube_translation.Base.{
  ℕ, zero, suc, min, Bool-cases, inl, inr, ◌+◌, ◌-◌, ◌*◌, ◌≤◌, max, ◌≡◌, refl, Bool, true, List, [],
  ◌∷◌, ◌++◌, arith, ap, ◌∙◌, count-append, count-le-length, drop, length, count, ltb, leb, second,
}
use youtube_translation.Signals.{capped, expire}

length-drop : (n : ℕ) (xs : List ℕ) → length (drop n xs) ≡ length xs - n
length-drop zero xs = omega arith
length-drop (suc n) [] = omega arith
length-drop (suc n) (x ∷ xs) = omega (arith, length-drop n xs)

pub length-capped : (hits : List ℕ) → length (capped hits) ≤ 32
length-capped hits = omega (arith, length-drop (length hits - 32) hits)

-- Whether a hit is in the window of an instant.
abbrev pub recent : ℕ → ℕ → ℕ → Bool
recent w now hit = leb now (hit + max w 1 * second)

-- Hits in order of time between two instants.
abbrev pub IsOrdered : ℕ → ℕ → List ℕ → Type 0
IsOrdered lo hi [] = lo ≤ hi
IsOrdered lo hi (t ∷ ts) = (lo ≤ t) × IsOrdered t hi ts

IsOrdered-le : (lo hi : ℕ) (ts : List ℕ) → IsOrdered lo hi ts → lo ≤ hi
IsOrdered-le lo hi [] h = h
IsOrdered-le lo hi (t ∷ ts) h = omega (arith, h.0, IsOrdered-le t hi ts h.1)

IsOrdered-widen :
    (lo lo' hi hi' : ℕ) (ts : List ℕ)
    → lo' ≤ lo
    → hi ≤ hi'
    → IsOrdered lo hi ts
    → IsOrdered lo' hi' ts
IsOrdered-widen lo lo' hi hi' [] hl hh h = omega arith
IsOrdered-widen lo lo' hi hi' (t ∷ ts) hl hh h =
    (omega (arith, h.0), IsOrdered-widen t t hi hi' ts (omega arith) hh h.1)

IsOrdered-tail : (lo hi t : ℕ) (ts : List ℕ) → IsOrdered lo hi (t ∷ ts) → IsOrdered lo hi ts
IsOrdered-tail lo hi t ts h = IsOrdered-widen t lo hi hi ts h.0 (omega arith) h.1

IsOrdered-append :
    (lo hi t : ℕ) (ts : List ℕ) → hi ≤ t → IsOrdered lo hi ts → IsOrdered lo t (ts ++ t ∷ [])
IsOrdered-append lo hi t [] hh h = (omega arith, omega arith)
IsOrdered-append lo hi t (u ∷ ts) hh h = (h.0, IsOrdered-append u hi t ts hh h.1)

IsOrdered-drop : (lo hi n : ℕ) (ts : List ℕ) → IsOrdered lo hi ts → IsOrdered lo hi (drop n ts)
IsOrdered-drop lo hi zero ts h = h
IsOrdered-drop lo hi (suc n) [] h = h
IsOrdered-drop lo hi (suc n) (t ∷ ts) h = IsOrdered-drop lo hi n ts (IsOrdered-tail lo hi t ts h)

IsOrdered-expire :
    (lo hi now w : ℕ) (ts : List ℕ) → IsOrdered lo hi ts → IsOrdered lo hi (expire now w ts)
unfolding expire
IsOrdered-expire lo hi now w [] h = h
IsOrdered-expire lo hi now w (t ∷ ts) h = elim (Bool-cases (ltb (t + max w 1 * second) now)) [
  | inl e ↦ rw e (IsOrdered-expire lo hi now w ts (IsOrdered-tail lo hi t ts h))
  | inr e ↦ rw e h
]

-- What follows a hit of the window is in the window.
count_all_recent :
    (w now lo hi : ℕ) (ts : List ℕ)
    → recent w now lo ≡ true
    → IsOrdered lo hi ts
    → count (recent w now) ts ≡ length ts
count_all_recent w now lo hi [] r h = refl
count_all_recent w now lo hi (t ∷ ts) r h =
    ground (arith, h.0, count_all_recent w now t hi ts (ground (arith, h.0)) h.1)

-- Taking away what an earlier instant or a wider window has no more does not change the count.
count-expire :
    (w wide now now' : ℕ) (ts : List ℕ)
    → w ≤ wide
    → now ≤ now'
    → count (recent w now') (expire now wide ts) ≡ count (recent w now') ts
unfolding expire
count-expire w wide now now' [] hw hn = refl
count-expire w wide now now' (t ∷ ts) hw hn = ground (arith, count-expire w wide now now' ts hw hn)

count-drop :
    (w now lo hi n : ℕ) (ts : List ℕ)
    → IsOrdered lo hi ts
    → n ≤ length ts - 32
    → min 32 (count (recent w now) (drop n ts)) ≡ min 32 (count (recent w now) ts)
count-drop w now lo hi zero ts h hn = refl
count-drop w now lo hi (suc n) [] h hn = refl
count-drop w now lo hi (suc n) (t ∷ ts) h hn = elim (Bool-cases (recent w now t)) [
  | inl r ↦
      ground (
        arith,
        r,
        count-drop w now t hi n ts h.1 (omega arith),
        count_all_recent w now t hi ts r h.1,
      )
  | inr r ↦ ground (arith, r, count-drop w now t hi n ts h.1 (omega arith))
]

-- The count is the number of hits in the window.
pub length-expire :
    (w now lo hi : ℕ) (ts : List ℕ)
    → IsOrdered lo hi ts
    → length (expire now w ts) ≡ count (recent w now) ts
unfolding expire
length-expire w now lo hi [] h = refl
length-expire w now lo hi (t ∷ ts) h = elim (Bool-cases (ltb (t + max w 1 * second) now)) [
  | inl e ↦ ground (arith, e, length-expire w now t hi ts h.1)
  | inr e ↦ ground (arith, e, count_all_recent w now t hi ts (ground (arith, e)) h.1)
]

-- What a signal keeps tells as much of its whole history, as far as a window of that length can ask.
pub record Counts (w now : ℕ) (hits history : List ℕ) : Type 0 where
  pub ordered : IsOrdered 0 now hits
  pub counts :
      (now' : ℕ)
      → now ≤ now'
      → min 32 (count (recent w now') hits) ≡ min 32 (count (recent w now') history)

pub Counts-none : (w now : ℕ) → Counts w now [] []
Counts-none w now = record { ordered = omega arith; counts = λ now' h. refl }

pub Counts-later :
    (w now now' : ℕ) (hits history : List ℕ)
    → now ≤ now'
    → Counts w now hits history
    → Counts w now' hits history
Counts-later w now now' hits history h c = record {
  ordered = IsOrdered-widen 0 0 now now' hits (omega arith) h c.ordered;
  counts = λ u hu. c.counts u (omega arith);
}

pub Counts-capped :
    (w now : ℕ) (hits history : List ℕ)
    → Counts w now hits history
    → Counts w now (capped hits) history
Counts-capped w now hits history c = record {
  ordered = IsOrdered-drop 0 now (length hits - 32) hits c.ordered;
  counts =
      λ u hu. count-drop w u 0 now (length hits - 32) hits c.ordered (omega arith) ∙ c.counts u hu;
}

pub Counts-expire :
    (w wide now : ℕ) (hits history : List ℕ)
    → w ≤ wide
    → Counts w now hits history
    → Counts w now (expire now wide hits) history
Counts-expire w wide now hits history hw c = record {
  ordered = IsOrdered-expire 0 now now wide hits c.ordered;
  counts = λ u hu. ap (min 32) (count-expire w wide now u hits hw hu) ∙ c.counts u hu;
}

pub Counts-append :
    (w now : ℕ) (hits history : List ℕ)
    → Counts w now hits history
    → Counts w now (hits ++ now ∷ []) (history ++ now ∷ [])
Counts-append w now hits history c = record {
  ordered = IsOrdered-append 0 now now hits (omega arith) c.ordered;
  counts = λ u hu. omega (
    arith,
    c.counts u hu,
    count-append (recent w u) hits (now ∷ []),
    count-append (recent w u) history (now ∷ []),
  );
}

-- Counting finds the number of hits of the history in the window, up to the bound of the deque.
pub Counts-counted :
    (w now : ℕ) (hits history : List ℕ)
    → Counts w now hits history
    → length (expire now w (capped hits)) ≡ min 32 (count (recent w now) history)
Counts-counted w now hits history c =
    let kept : Counts w now (capped hits) history = Counts-capped w now hits history c in
    omega (
      arith,
      length-expire w now 0 now (capped hits) kept.ordered,
      kept.counts now (omega arith),
      count-le-length (recent w now) (capped hits),
      length-capped hits,
    )
