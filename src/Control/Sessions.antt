-- ===== src/Control/Sessions.antt =====
-- BluetoothAudioSessionInstance of BluetoothAudioSession.{h,cpp}: the sessions, made when they are
-- first asked for. The map owns the sessions, and an operation on one changes it in place.
use device_blackshark_penros.Base.{List, Option, [], ite, none, some, ◌∷◌}
use device_blackshark_penros.Session.Core.{Session, new_session}
use device_blackshark_penros.Session.Types.{SessionType, SessionType-discrete}

pub record Registry : Type 0 where
  pub sessions_map : List (SessionType × Session)

abbrev pub find : SessionType → List (SessionType × Session) → Option Session
find t [] = none
find t ((u, s) ∷ m) = ite (SessionType-discrete u t) (some s) (find t m)

abbrev pub put : SessionType → Session → List (SessionType × Session) → List (SessionType × Session)
put t s [] = (t, s) ∷ []
put t s ((u, r) ∷ m) = ite (SessionType-discrete u t) ((u, s) ∷ m) ((u, r) ∷ put t s m)

abbrev pub or_new : SessionType → Option Session → Session
or_new t none = new_session t
or_new t (some s) = s

unfoldable pub get_session_instance : Registry → SessionType → Session × Registry
get_session_instance r t =
    let s = or_new t (find t r.sessions_map) in
    (s, record { sessions_map = put t s r.sessions_map })

-- An operation on the session of a type, and what it answers.
unfoldable pub with_session :
    {X : Type 0} → Registry → SessionType → (Session → X × Session) → X × Registry
unfolding get_session_instance
with_session r t f =
    let (s, r') = get_session_instance r t in
    let (x, s') = f s in (x, record { sessions_map = put t s' r'.sessions_map })

-- The session of a type, as its next operation finds it.
unfoldable pub session : Registry → SessionType → Session
session r t = or_new t (find t r.sessions_map)
