-- ===== src/RateLimit/Client/Key.antt =====
-- What the key of a client tells apart, and the route families of `_normalize_endpoint_path`.
use mathlib.Core.List.{append_assoc, append_cancel_right}
use youtube_translation.Base.{
  ℕ, ◌≡◌, refl, Bool, true, false, ◌==◌, List, [], ◌∷◌, ◌++◌, arith, Text, codes, any, text_beq,
  text_beq_sound, is_space, strip, strip_solid, split, split-append, ◌⊎◌, inl, inr,
}
use youtube_translation.RateLimit.Client.{
  Host, Request, stream_route_actions, normalize_unquoted, get_client_ip, get_client_key,
  user_segment, normalize_endpoint_path, is_filled, path_parts,
}

-- Two requests of one user to one route have the same key only if they come from the same
-- address.
pub same_key-same_ip :
    (h : Host) (networks : List Text) (r s : Request)
    → user_segment h r ≡ user_segment h s
    → normalize_endpoint_path h r.path ≡ normalize_endpoint_path h s.path
    → get_client_key h networks r ≡ get_client_key h networks s
    → get_client_ip h networks r ≡ get_client_ip h networks s
unfolding get_client_key
same_key-same_ip h networks r s user route key =
    append_cancel_right (get_client_ip h networks r) (get_client_ip h networks s)
      (b':' ∷ (user_segment h s ++ b':' ∷ normalize_endpoint_path h s.path))
      (rw (user, route) at key)

no_slash : Text → Bool
no_slash w = any (λ c. c == b'/') w

split_last : (w : Text) → no_slash w ≡ false → split b'/' w ≡ w ∷ []
unfolding no_slash split
split_last [] h = refl
split_last (c ∷ w) h = ground (arith, split_last w)

-- The path of a stream's route, whose action is `init` and one more code point.
module _ (id init : Text) (b : ℕ) where
  abbrev action : Text
  action = init ++ b ∷ []

  abbrev route : Text
  route = codes "/api/streams/" ++ (id ++ b'/' ∷ action)

  strip-route : is_space b ≡ false → strip route ≡ route
  strip-route hb =
      let rest = codes "api/streams/" ++ (id ++ b'/' ∷ init) in
      let e : route ≡ b'/' ∷ (rest ++ b ∷ []) = simp append_assoc in
      rw e (strip_solid b'/' b rest (unfold is_space in refl) hb)

  split-route :
      no_slash id ≡ false
      → no_slash action ≡ false
      → split b'/' route ≡ [] ∷ codes "api" ∷ codes "streams" ∷ id ∷ action ∷ []
  unfolding no_slash
  split-route hid ha =
      rw (split-append b'/' [] (codes "api/streams/" ++ (id ++ b'/' ∷ action)) refl) (
        rw (split-append b'/' (codes "api") (codes "streams/" ++ (id ++ b'/' ∷ action)) refl) (
          rw (split-append b'/' (codes "streams") (id ++ b'/' ∷ action) refl)
            (rw (split-append b'/' id action hid) (rw (split_last action ha)))))

  normalize-route :
      is_space b ≡ false
      → is_filled id ≡ true
      → is_filled action ≡ true
      → no_slash id ≡ false
      → no_slash action ≡ false
      → any (text_beq action) stream_route_actions ≡ true
      → normalize_unquoted route ≡ codes "/api/streams/" ++ action
  unfolding normalize_unquoted
  normalize-route hb fid fa hid ha known =
      rw (strip-route hb, normalize_unquoted)
        (rw (split-route hid ha, path_parts) (rw (fid, fa) (rw known)))

IsAction : Text → Type 0
IsAction action =
    (action ≡ codes "start")
    ⊎ ((action ≡ codes "stop") ⊎ ((action ≡ codes "status") ⊎ (action ≡ codes "logs")))

IsAction-of_known :
    (action : Text) → any (text_beq action) stream_route_actions ≡ true → IsAction action
unfolding IsAction
IsAction-of_known action h = ground (
  arith,
  text_beq_sound action (codes "start"),
  text_beq_sound action (codes "stop"),
  text_beq_sound action (codes "status"),
  text_beq_sound action (codes "logs"),
)

-- Every path `/api/streams/<id>/<action>` with one of the four actions belongs to the family
-- `/api/streams/<action>`, whatever the nonempty id without a slash is.
pub stream_route_family :
    (id action : Text)
    → is_filled id ≡ true
    → any (λ c. c == b'/') id ≡ false
    → any (text_beq action) stream_route_actions ≡ true
    → normalize_unquoted (codes "/api/streams/" ++ (id ++ b'/' ∷ action))
      ≡ codes "/api/streams/" ++ action
unfolding IsAction no_slash is_space
stream_route_family id action filled plain known = elim (IsAction-of_known action known) [
  | inl e ↦ rw e (normalize-route id (codes "star") b't' refl filled refl plain refl refl)
  | inr (inl e) ↦ rw e (normalize-route id (codes "sto") b'p' refl filled refl plain refl refl)
  | inr (inr (inl e)) ↦
      rw e (normalize-route id (codes "statu") b's' refl filled refl plain refl refl)
  | inr (inr (inr e)) ↦
      rw e (normalize-route id (codes "log") b's' refl filled refl plain refl refl)
]
