-- ===== src/Control/Invariant.antt =====
-- The invariant of all sessions of the registry.
use device_blackshark_penros.Base.{subst, sym}
use device_blackshark_penros.Control.Laws.{
  IsRegistry, session-with_session_other, session-with_session_self,
}
use device_blackshark_penros.Control.Sessions.{Registry, session, with_session}
use device_blackshark_penros.Session.Cookies.{SessionCode}
use device_blackshark_penros.Session.Core.{Session}
use device_blackshark_penros.Session.Lifecycle.{Inv}
use device_blackshark_penros.Session.Types.{SessionType, SessionType-discrete}

pub record AllInv (code : SessionCode) (r : Registry) : Type 0 where
  pub each : (t : SessionType) → Inv code t (session r t)

pub AllInv-IsRegistry : {code : SessionCode} {r : Registry} → AllInv code r → IsRegistry r
AllInv-IsRegistry v t = (v.each t).same_type

pub with_session-AllInv :
    {X : Type 0} {code : SessionCode} {r : Registry} (t : SessionType) (f : Session → X × Session)
    → ((s : Session) → Inv code t s → Inv code t (f s).1)
    → AllInv code r
    → AllInv code (with_session r t f).1
with_session-AllInv {code = code} {r = r} t f keeps v = record {
  each = λ u. elim (SessionType-discrete t u) [
    | yes e ↦
        subst (λ w. Inv code w (session (with_session r t f).1 w)) e
          (subst (Inv code t) (sym (session-with_session_self r t f))
            (keeps (session r t) (v.each t)))
    | no ne ↦ subst (Inv code u) (sym (session-with_session_other r t f u ne)) (v.each u)
  ];
}
