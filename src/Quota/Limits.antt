-- ===== src/Quota/Limits.antt =====
-- The limit on the streams of a user that run at once.
use youtube_translation.Base.{
  ℕ, zero, suc, ◌≤◌, ◌<◌, max, ◌≡◌, refl, ap, sym, ◌∙◌, Bool, true, false, List, [], ◌∷◌, Option,
  none, some, arith, set, count, if◌then◌else◌,
}
use youtube_translation.Stream.{Stream, starting, is_active}
use youtube_translation.Quota.{
  Account, Profile, TierLimits, Verdict, allowed, denied, Refusal, concurrent_streams, and_then,
  with_limits, check_count, check_concurrent_streams, active_count,
}

pub with_limits-allowed :
    (profile : Option Profile) (limits : Option TierLimits) (check : Profile → TierLimits → Verdict)
    → with_limits profile limits check ≡ allowed
    → (p : Profile) × (l : TierLimits) × (profile ≡ some p)
      × (limits ≡ some l)
      × (check p l ≡ allowed)
unfolding with_limits
with_limits-allowed none limits check h = ground (arith, h)
with_limits-allowed (some p) none check h = ground (arith, h)
with_limits-allowed (some p) (some l) check h = (p, l, refl, refl, ground (arith, h))

and_then-left : (a b : Verdict) → and_then a b ≡ allowed → a ≡ allowed
unfolding and_then
and_then-left allowed b h = refl
and_then-left (denied r) b h = ground (arith, h)

count-set_le :
    (p : Stream → Bool) (xs : List Stream) (i : ℕ) (v : Stream)
    → count p (set xs i v) ≤ suc (count p xs)
count-set_le p [] i v = omega arith
count-set_le p (x ∷ xs) zero v = ground arith
count-set_le p (x ∷ xs) (suc i) v = ground (arith, count-set_le p xs i v)

count-set_not :
    (p : Stream → Bool) (xs : List Stream) (i : ℕ) (v : Stream)
    → p v ≡ false
    → count p (set xs i v) ≤ count p xs
count-set_not p [] i v h = omega arith
count-set_not p (x ∷ xs) zero v h = ground (arith, h)
count-set_not p (x ∷ xs) (suc i) v h = ground (arith, count-set_not p xs i v h)

pub if_allowed :
    (b : Bool) (v : Verdict) (r : Refusal)
    → (if b then v else denied r) ≡ allowed
    → (b ≡ true) × (v ≡ allowed)
if_allowed true v r h = (refl, h)
if_allowed false v r h = ground (arith, h)

-- What happens to the streams of an account: one starts once the check has let it, or one ends.
pub data Step (account : Account) : Account → Type 0 where
  starts :
      (now i : ℕ) (s : Stream) (account' : Account)
      → check_concurrent_streams now account ≡ allowed
      → account'
        ≡ record account { streams = set account.streams i (record s { status = starting }) }
      → Step account account'
  ends :
      (i : ℕ) (s : Stream) (account' : Account)
      → is_active s.status ≡ false
      → account' ≡ record account { streams = set account.streams i s }
      → Step account account'

pub data Reach (account : Account) : Account → Type 0 where
  here : Reach account account
  next : {a b : Account} → Reach account a → Step a b → Reach account b

check_count-below :
    (current : ℕ) (limit : Option ℕ) (n : ℕ)
    → check_count concurrent_streams current limit ≡ allowed
    → limit ≡ some n
    → current < n
unfolding check_count
check_count-below current none n h e = ground (arith, e)
check_count-below current (some limit) n h e = ground (arith, h, e)

pub limits_injective : (a b : TierLimits) → some a ≡ some b → a ≡ b
limits_injective a b e = ap (λ (t : Option TierLimits). elim t [ none ↦ a | some u ↦ u ]) e

checked-below :
    (now : ℕ) (account : Account) (limits : TierLimits) (n : ℕ)
    → check_concurrent_streams now account ≡ allowed
    → account.limits ≡ some limits
    → limits.max_concurrent_streams ≡ some n
    → active_count account.streams < n
unfolding check_concurrent_streams
checked-below now account limits n h e f =
    let (p, l, is_profile, is_limits, checked) =
      with_limits-allowed account.profile account.limits _ h in
    check_count-below (active_count account.streams) l.max_concurrent_streams n
      (and_then-left _ _ checked)
      (ap (λ (t : TierLimits). t.max_concurrent_streams)
          (limits_injective l limits (sym is_limits ∙ e))
        ∙ f)

-- The limits stay, and the streams that run are within them.
record Within (before n : ℕ) (limits : TierLimits) (account : Account) : Type 0 where
  same_limits : account.limits ≡ some limits
  bounded : active_count account.streams ≤ max before n

Step-Within :
    (before n : ℕ) (limits : TierLimits) (a b : Account)
    → limits.max_concurrent_streams ≡ some n
    → Step a b
    → Within before n limits a
    → Within before n limits b
Step-Within before n limits a b f (starts now i s account' check e) w = record {
  same_limits = ap Account.limits e ∙ w.same_limits;
  bounded = omega (
    arith,
    checked-below now a limits n check w.same_limits f,
    count-set_le (λ t. is_active t.status) a.streams i (record s { status = starting }),
    ap (λ (c : Account). active_count c.streams) e,
  );
}
Step-Within before n limits a b f (ends i s account' inactive e) w = record {
  same_limits = ap Account.limits e ∙ w.same_limits;
  bounded = omega (
    arith,
    w.bounded,
    count-set_not (λ t. is_active t.status) a.streams i s inactive,
    ap (λ (c : Account). active_count c.streams) e,
  );
}

Reach-Within :
    (before n : ℕ) (limits : TierLimits) (a b : Account)
    → limits.max_concurrent_streams ≡ some n
    → Within before n limits a
    → Reach a b
    → Within before n limits b
Reach-Within before n limits a b f w here = w
Reach-Within before n limits a b f w (next {a = c} r step) =
    Step-Within before n limits c b f step (Reach-Within before n limits a c f w r)

-- However starts that the check has let and ends of streams follow each other, each under the lock of the
-- user, no more streams run or start than the tier allows, or than did at first if they were more.
pub concurrency_bounded :
    (limits : TierLimits) (n : ℕ) (a b : Account)
    → a.limits ≡ some limits
    → limits.max_concurrent_streams ≡ some n
    → Reach a b
    → active_count b.streams ≤ max (active_count a.streams) n
concurrency_bounded limits n a b e f r =
    (Reach-Within (active_count a.streams) n limits a b f
      (record { same_limits = e; bounded = omega arith }) r).bounded
