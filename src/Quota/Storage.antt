-- ===== src/Quota/Storage.antt =====
-- The storage of a user under uploads and deletions.
use youtube_translation.Base.{
  ℕ, zero, suc, ◌+◌, ◌*◌, ◌^◌, ◌≤◌, max, ◌≡◌, refl, ap, sym, ◌∙◌, true, List, [], ◌∷◌, Option, none,
  some, arith, pos, negsuc, ℤ, pos_part, leb, leb→le, is_some, if◌then◌else◌, Bool-cases, inl, inr,
}
use youtube_translation.Quota.{
  Account, Profile, TierLimits, Verdict, allowed, denied, is_granted, change_storage,
  change_profile, apply_storage_delta, check_storage_limit, or_zero, fits_storage,
}
use youtube_translation.Quota.Limits.{with_limits-allowed, limits_injective, if_allowed}

unfoldable pub stored : Option Profile → ℕ
stored none = 0
stored (some profile) = or_zero profile.current_storage_bytes

-- What changes the storage of a user: the end of an upload, with the profile that its request has loaded before it
-- waited for the lock, the deletion of an asset, or a revalidation that finds another size.
pub data Change : Type 0 where
  uploads : ℕ → Option Profile → Change
  deletes : ℕ → Change
  revalidates : ℤ → Change

-- The check reads the loaded profile, and the charge adds to the row as it is by then.
unfoldable pub finish_upload : ℕ → Option Profile → Account → Account
finish_upload bytes loaded account =
    if is_granted (check_storage_limit bytes (record account { profile = loaded }))
    then change_storage (pos bytes) account
    else account

unfoldable pub apply : Change → Account → Account
unfolding finish_upload
apply (uploads bytes loaded) account = finish_upload bytes loaded account
apply (deletes zero) account = account
apply (deletes (suc n)) account = change_storage (negsuc n) account
apply (revalidates delta) account = change_storage delta account

unfoldable pub apply_all : List Change → Account → Account
unfolding apply
apply_all [] account = account
apply_all (change ∷ changes) account = apply_all changes (apply change account)

-- The bytes that a change adds although no check has seen them beside what is stored: those of an upload
-- whose loaded profile has fewer bytes than the row by now, and the growth of an asset.
abbrev pub unseen : Change → Account → ℕ
unseen (uploads bytes loaded) account =
    if leb (stored account.profile) (stored loaded) then 0 else bytes
unseen (deletes n) account = 0
unseen (revalidates delta) account = pos_part delta

unfoldable pub all_unseen : List Change → Account → ℕ
unfolding apply
all_unseen [] account = 0
all_unseen (change ∷ changes) account =
    unseen change account + all_unseen changes (apply change account)

stored-change_profile :
    (n : ℕ) (profile : Option Profile)
    → (stored (change_profile (pos n) profile) ≤ stored profile + n)
      × (stored (change_profile (negsuc n) profile) ≤ stored profile)
unfolding change_profile apply_storage_delta stored
stored-change_profile n none = (omega arith, omega arith)
stored-change_profile zero (some p) = ground arith
stored-change_profile (suc n) (some p) = ground arith

fits :
    (bytes g : ℕ) (limit : Option ℕ)
    → fits_storage bytes limit ≡ true
    → limit ≡ some (suc g)
    → bytes ≤ suc g * 1024 ^ 3
unfolding fits_storage
fits bytes g none h e = ground (arith, e)
fits bytes g (some n) h e = ground (arith, h, e)

is_granted_sound : (v : Verdict) → is_granted v ≡ true → v ≡ allowed
is_granted_sound allowed h = refl
is_granted_sound (denied r) h = ground (arith, h)

check_storage-below :
    (bytes g : ℕ) (account : Account) (limits : TierLimits)
    → check_storage_limit bytes account ≡ allowed
    → account.limits ≡ some limits
    → limits.storage_gb ≡ some (suc g)
    → stored account.profile + bytes ≤ suc g * 1024 ^ 3
unfolding check_storage_limit stored
check_storage-below bytes g account limits h e f =
    let (p, l, is_profile, is_limits, checked) =
      with_limits-allowed account.profile account.limits _ h in
    let below =
      fits (or_zero p.current_storage_bytes + bytes) g l.storage_gb (if_allowed _ _ _ checked).0 (
        ap (λ (t : TierLimits). t.storage_gb) (limits_injective l limits (sym is_limits ∙ e))
        ∙ f) in
    omega (arith, below, ap stored is_profile)

-- What the end of an upload leaves, at most.
finish_upload-stored :
    (bytes g : ℕ) (loaded : Option Profile) (account : Account) (limits : TierLimits)
    → account.limits ≡ some limits
    → limits.storage_gb ≡ some (suc g)
    → stored (finish_upload bytes loaded account).profile
      ≤ max (stored account.profile) (suc g * 1024 ^ 3) + unseen (uploads bytes loaded) account
unfolding finish_upload change_storage
finish_upload-stored bytes g loaded account limits e f =
    let seen = record account { profile = loaded } in
    let grown = (stored-change_profile bytes account.profile).0 in
    elim (Bool-cases (is_granted (check_storage_limit bytes seen))) [
      | inl h ↦
          let below = check_storage-below bytes g seen limits (is_granted_sound _ h) e f in
          rw (h, finish_upload)
            (elim (Bool-cases (leb (stored account.profile) (stored loaded))) [
              | inl fresh ↦
                  let enough = leb→le (stored account.profile) (stored loaded) fresh in
                  rw fresh (omega (arith, below, grown, enough))
              | inr stale ↦ rw stale (omega (arith, grown))
            ])
      | inr h ↦ rw (h, finish_upload) (omega arith)
    ]

apply-stored :
    (change : Change) (g : ℕ) (account : Account) (limits : TierLimits)
    → account.limits ≡ some limits
    → limits.storage_gb ≡ some (suc g)
    → stored (apply change account).profile
      ≤ max (stored account.profile) (suc g * 1024 ^ 3) + unseen change account
unfolding apply change_storage
apply-stored (uploads bytes loaded) g account limits e f =
    finish_upload-stored bytes g loaded account limits e f
apply-stored (deletes zero) g account limits e f = omega arith
apply-stored (deletes (suc n)) g account limits e f =
    omega (arith, (stored-change_profile n account.profile).1)
apply-stored (revalidates (pos n)) g account limits e f =
    omega (arith, (stored-change_profile n account.profile).0)
apply-stored (revalidates (negsuc n)) g account limits e f =
    omega (arith, (stored-change_profile n account.profile).1)

limits-apply :
    (change : Change) (account : Account) → (apply change account).limits ≡ account.limits
unfolding apply finish_upload change_storage
limits-apply (uploads bytes loaded) account = ground arith
limits-apply (deletes zero) account = refl
limits-apply (deletes (suc n)) account = refl
limits-apply (revalidates delta) account = refl

-- However uploads, deletions and revalidations follow each other, the storage of a user whose tier has a limit
-- other than 0 stays within it, or within what it was at first if that was more, but for the bytes
-- that no check has seen: those of the uploads whose loaded profile had fewer bytes than the row by
-- the time of the charge, and the growth of revalidated assets.
pub storage_bounded :
    (changes : List Change) (g : ℕ) (account : Account) (limits : TierLimits)
    → account.limits ≡ some limits
    → limits.storage_gb ≡ some (suc g)
    → stored (apply_all changes account).profile
      ≤ max (stored account.profile) (suc g * 1024 ^ 3) + all_unseen changes account
unfolding apply_all all_unseen
storage_bounded [] g account limits e f = omega arith
storage_bounded (change ∷ changes) g account limits e f =
    let step = apply-stored change g account limits e f in
    let later =
      storage_bounded changes g (apply change account) limits (limits-apply change account ∙ e) f in
    omega (arith, step, later)

granted_upload :
    (bytes : ℕ) (loaded : Option Profile) (account : Account)
    → check_storage_limit bytes (record account { profile = loaded }) ≡ allowed
    → finish_upload bytes loaded account ≡ change_storage (pos bytes) account
unfolding finish_upload
granted_upload bytes loaded account h = rw h refl

stored-charged :
    (n : ℕ) (profile : Option Profile)
    → is_some profile ≡ true
    → (stored (change_profile (pos n) profile) ≡ stored profile + n)
      × (is_some (change_profile (pos n) profile) ≡ true)
unfolding change_profile apply_storage_delta stored
stored-charged n none h = cc
stored-charged zero (some p) h = (omega arith, refl)
stored-charged (suc n) (some p) h = (omega arith, refl)

-- Two uploads of which each fits with what the profile said before both are let through together, whatever the limit,
-- when both requests have loaded the profile before either is charged: the storage grows by the bytes
-- of both.
pub stale_uploads_pass :
    (a b : ℕ) (account : Account)
    → is_some account.profile ≡ true
    → check_storage_limit a account ≡ allowed
    → check_storage_limit b account ≡ allowed
    → let loaded = account.profile in
      stored (apply_all (uploads a loaded ∷ uploads b loaded ∷ []) account).profile
      ≡ stored account.profile + a + b
unfolding apply_all apply change_storage
stale_uploads_pass a b account known fits_a fits_b =
    let loaded = account.profile in
    let after = change_storage (pos a) account in
    let first = granted_upload a loaded account fits_a in
    let second_one = granted_upload b loaded after fits_b in
    let (grown, still) = stored-charged a loaded known in
    let (grown_again, _) = stored-charged b after.profile still in
    rw first (rw second_one (omega (arith, grown, grown_again)))
