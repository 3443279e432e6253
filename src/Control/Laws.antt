-- ===== src/Control/Laws.antt =====
-- The registry of BluetoothAudioSessionInstance keeps one session for each type.
use device_blackshark_penros.Base.{
  List, [], ap, arith, if_neg, if_pos, ite, refl, some, subst, ◌∙◌, ◌∷◌, ◌≡◌, ◌≢◌,
}
use device_blackshark_penros.Control.Sessions.{
  Registry, find, get_session_instance, or_new, put, session, with_session,
}
use device_blackshark_penros.Session.Core.{Session, new_session}
use device_blackshark_penros.Session.Types.{SessionType, SessionType-discrete}

find-put :
    (t u : SessionType) (s : Session) (m : List (SessionType × Session))
    → find u (put t s m) ≡ ite (SessionType-discrete t u) (some s) (find u m)
find-put t u s [] = ground arith
find-put t u s ((v, r) ∷ m) = ground (arith, find-put t u s m)

find-put_self :
    (t : SessionType) (s : Session) (m : List (SessionType × Session)) → find t (put t s m) ≡ some s
find-put_self t s m = find-put t t s m ∙ if_pos (SessionType-discrete t t) refl _ _

put-put :
    (t : SessionType) (s s' : Session) (m : List (SessionType × Session))
    → put t s' (put t s m) ≡ put t s' m
put-put t s s' [] = ground arith
put-put t s s' ((v, r) ∷ m) = ground (arith, put-put t s s' m)

-- An operation on the session of one type changes that session as the operation says, and the
-- session of no other type; it answers what the operation answers on that session.
pub with_session_lem :
    {X : Type 0} (r : Registry) (t u : SessionType) (f : Session → X × Session)
    → let (x, r') = with_session r t f in
      (x ≡ (f (session r t)).0)
      × (session r' u ≡ ite (SessionType-discrete t u) (f (session r t)).1 (session r u))
unfolding with_session session
with_session_lem r t u f = (
  refl,
  elim (SessionType-discrete t u) [
    | yes p ↦ rw (put-put t, find-put t u, if_pos _ p) (rw (if_pos _ p))
    | no n ↦ rw (put-put t, find-put t u, if_neg _ n) (rw (if_neg _ n))
  ],
)

-- GetSessionInstance makes a session once: asked again for the same type it answers the same
-- session, and the map does not change.
pub get_session_instance_again :
    (r : Registry) (t : SessionType)
    → let (s, r') = get_session_instance r t in get_session_instance r' t ≡ (s, r')
unfolding get_session_instance
get_session_instance_again r t =
    let s = or_new t (find t r.sessions_map) in rw (find-put_self t s r.sessions_map, put-put t s s)

module _ {X : Type 0} (r : Registry) (t : SessionType) (f : Session → X × Session) where
  pub session-with_session_self : session (with_session r t f).1 t ≡ (f (session r t)).1
  session-with_session_self =
      (with_session_lem r t t f).1 ∙ if_pos (SessionType-discrete t t) refl _ _

  pub session-with_session_other :
      (u : SessionType) → t ≢ u → session (with_session r t f).1 u ≡ session r u
  session-with_session_other u ne =
      (with_session_lem r t u f).1 ∙ if_neg (SessionType-discrete t u) ne _ _

  -- An operation that only reads its session changes no session.
  pub session-with_session_read :
      (u : SessionType)
      → (f (session r t)).1 ≡ session r t
      → session (with_session r t f).1 u ≡ session r u
  session-with_session_read u same = elim (SessionType-discrete t u) [
    | yes p ↦
        subst (λ v. session (with_session r t f).1 v ≡ session r v) p
          (session-with_session_self ∙ same)
    | no n ↦ session-with_session_other u n
  ]

-- Each entry of the registry is a session of its type.
abbrev pub IsRegistry : Registry → Type 0
IsRegistry r = (t : SessionType) → (session r t).session_type ≡ t

pub empty-IsRegistry : IsRegistry (record { sessions_map = [] })
unfolding session new_session
empty-IsRegistry t = refl

-- It stays so under every operation that keeps the type of its session.
pub with_session-IsRegistry :
    {X : Type 0} (r : Registry) (t : SessionType) (f : Session → X × Session)
    → IsRegistry r
    → (f (session r t)).1.session_type ≡ t
    → IsRegistry (with_session r t f).1
with_session-IsRegistry r t f h kept u = elim (SessionType-discrete t u) [
  | yes p ↦
      subst (λ v. (session (with_session r t f).1 v).session_type ≡ v) p
        (ap (λ s. s.session_type) (session-with_session_self r t f) ∙ kept)
  | no n ↦ ap (λ s. s.session_type) (session-with_session_other r t f u n) ∙ h u
]
