-- ===== src/Hidl/Relaying.antt =====
-- The callbacks of HidlToAidlMiddleware.cpp: the ports of the HIDL interface against the observers of
-- the AIDL sessions.
use device_blackshark_penros.Control
use device_blackshark_penros.Base.{
  Bool, List, Option, Option-cases, [], arith, erase, if_neg, if_pos, inl, inr, lookup,
  lookup-erase, none, refl, some, subst, sym, ℕ, ◌∙◌, ◌∷◌, ◌≡◌, ◌≢◌,
}
use device_blackshark_penros.Control.Laws.{session-with_session_other, session-with_session_self}
use device_blackshark_penros.Control.Sessions.{session, with_session}
use device_blackshark_penros.Hidl.Convert.{from_session_type, to_hidl_status}
use device_blackshark_penros.Hidl.Middleware.{
  LegacyCall, LegacyNotification, Middleware, aidl_callbacks, legacy_notify, no_sessions,
  register_control_result_cback, registers, run_legacy, set_table, unregister_control_result_cback,
  unregisters,
}
use device_blackshark_penros.Hidl.Types.{HidlSessionType}
use device_blackshark_penros.Session.Cookies.{SessionCode, observers_cookie_undefined}
use device_blackshark_penros.Session.Core.{
  Session, new_session, register_status_cback, unregister_status_cback,
}
use device_blackshark_penros.Session.Observers.{
  Registers, granted, refused, register_status_cback-Registers,
}
use device_blackshark_penros.Session.Types.{
  BluetoothAudioStatus, Notification, PortStatusCallbacks, SessionType, SessionType-discrete,
}

abbrev ports : Option PortStatusCallbacks → Option ℕ
ports none = none
ports (some cb) = some cb.port

-- The legacy table of each session type names the ports of its observers, at every cookie that an
-- observer can have.
pub record IsLockstep (code : SessionCode) (m : Middleware) : Type 0 where
  pub agrees :
      (t : SessionType) (c : ℕ)
      → c ≢ observers_cookie_undefined code
      → lookup c (m.legacy_callback_table t) ≡ ports (lookup c (session m.registry t).observers)

-- An operation on the session of one type and on the table of that type keeps the two in step.
with_session-IsLockstep :
    {X : Type 0} {code : SessionCode} {m : Middleware} (t : SessionType) (f : Session → X × Session)
    (entries : List (ℕ × ℕ))
    → IsLockstep code m
    → ((c : ℕ)
        → c ≢ observers_cookie_undefined code
        → lookup c entries ≡ ports (lookup c (f (session m.registry t)).1.observers))
    → IsLockstep code (record {
      registry = (with_session m.registry t f).1;
      legacy_callback_table = set_table t entries m.legacy_callback_table;
    })
with_session-IsLockstep {m = m} t f entries h here = record {
  agrees = λ u c known. elim (SessionType-discrete t u) [
    | yes e ↦
        subst
          (λ v.
            lookup c (set_table t entries m.legacy_callback_table v)
            ≡ ports (lookup c (session (with_session m.registry t f).1 v).observers))
          e
          (rw (if_pos (SessionType-discrete t t) refl, session-with_session_self m.registry t f)
            (here c known))
    | no ne ↦
        rw (if_neg (SessionType-discrete t u) ne, session-with_session_other m.registry t f u ne)
          (h.agrees u c known)
  ];
}

-- What a registration does to the two maps at a cookie.
registered :
    (cookie c cbacks : ℕ) (entries : List (ℕ × ℕ)) (os : List (ℕ × PortStatusCallbacks))
    → lookup c entries ≡ ports (lookup c os)
    → lookup c ((cookie, cbacks) ∷ erase cookie entries)
      ≡ ports (lookup c ((cookie, aidl_callbacks cbacks) ∷ os))
registered cookie c cbacks entries os h = ground (arith, lookup-erase cookie c entries)

-- A registration that is refused is entered in the table at the undefined cookie.
not_registered :
    (undefined c cbacks : ℕ) (entries : List (ℕ × ℕ))
    → c ≢ undefined
    → lookup c ((undefined, cbacks) ∷ erase undefined entries) ≡ lookup c entries
not_registered undefined c cbacks entries ne = ground (arith, lookup-erase undefined c entries)

abbrev Enters : ℕ → ℕ → List (ℕ × ℕ) → Session × ℕ → Type 0
Enters cbacks c entries (s, cookie) =
    lookup c ((cookie, cbacks) ∷ erase cookie entries) ≡ ports (lookup c s.observers)

-- What a registration that is answered so does to the two maps.
entered :
    (code : SessionCode) (s : Session) (cbacks : ℕ) (r : Session × ℕ) (c : ℕ)
    (entries : List (ℕ × ℕ))
    → Registers code s (aidl_callbacks cbacks) r
    → c ≢ observers_cookie_undefined code
    → lookup c entries ≡ ports (lookup c s.observers)
    → Enters cbacks c entries r
entered code s cbacks r c entries (refused _ e) known h =
    subst (Enters cbacks c entries) (sym e)
      (not_registered (observers_cookie_undefined code) c cbacks entries known ∙ h)
entered code s cbacks r c entries (granted cookie _ _ _ _ e) known h =
    subst (Enters cbacks c entries) (sym e) (registered cookie c cbacks entries s.observers h)

unregistered :
    (cookie c : ℕ) (entries : List (ℕ × ℕ)) (os : List (ℕ × PortStatusCallbacks))
    → lookup c entries ≡ ports (lookup c os)
    → lookup c (erase cookie entries) ≡ ports (lookup c (erase cookie os))
unregistered cookie c entries os h =
    ground (arith, lookup-erase cookie c entries, lookup-erase cookie c os)

abbrev registering : SessionCode → ℕ → Session → ℕ × Session
registering code cbacks s =
    let (s', cookie) = register_status_cback code s (aidl_callbacks cbacks) in (cookie, s')

register-IsLockstep :
    (code : SessionCode) (m : Middleware) (t : HidlSessionType) (cbacks : ℕ)
    → IsLockstep code m
    → IsLockstep code (register_control_result_cback code m t cbacks).1
unfolding register_control_result_cback Control.register_control_result_cback session
register-IsLockstep code m hidl_type cbacks h =
    let t = from_session_type hidl_type in
    let s = session m.registry t in
    let entries = m.legacy_callback_table t in
    let cb = aidl_callbacks cbacks in
    let given = (register_status_cback code s cb).1 in
    with_session-IsLockstep t (registering code cbacks) ((given, cbacks) ∷ erase given entries) h
      λ c known.
        entered code s cbacks (register_status_cback code s cb) c entries
          (register_status_cback-Registers code s cb) known (h.agrees t c known)

unregister-IsLockstep :
    (code : SessionCode) (m : Middleware) (t : HidlSessionType) (cookie : ℕ)
    → IsLockstep code m
    → IsLockstep code (unregister_control_result_cback m t cookie)
unfolding unregister_control_result_cback Control.unregister_control_result_cback
unregister-IsLockstep code m hidl_type cookie h =
    let t = from_session_type hidl_type in
    let os = (session m.registry t).observers in
    let entries = erase cookie (m.legacy_callback_table t) in
    with_session-IsLockstep {X = Unit {0}} t (λ s. (tt, unregister_status_cback s cookie)) entries h
      λ c known.
        unfold unregister_status_cback in
        unregistered cookie c (m.legacy_callback_table t) os (h.agrees t c known)

run_legacy-IsLockstep :
    (code : SessionCode) (calls : List LegacyCall) (m : Middleware)
    → IsLockstep code m
    → IsLockstep code (run_legacy code m calls)
unfolding run_legacy
run_legacy-IsLockstep code [] m h = h
run_legacy-IsLockstep code (registers t cbacks ∷ calls) m h =
    run_legacy-IsLockstep code calls _ (register-IsLockstep code m t cbacks h)
run_legacy-IsLockstep code (unregisters t cookie ∷ calls) m h =
    run_legacy-IsLockstep code calls _ (unregister-IsLockstep code m t cookie h)

no_sessions-IsLockstep : (code : SessionCode) → IsLockstep code no_sessions
unfolding session new_session
no_sessions-IsLockstep code = record { agrees = λ t c known. refl }

-- What the middleware makes of a callback that a session holds for a cookie.
abbrev pub relayed :
    Option PortStatusCallbacks → LegacyNotification → Option (ℕ × LegacyNotification)
relayed none n = none
relayed (some cb) n = some (cb.port, n)

-- After any calls of HIDL ports that register and unregister, a control result that a session of the
-- AIDL interface reports to a cookie other than the undefined one reaches the HIDL port that the
-- session knows under that cookie, with the status converted, and a change of the session reaches
-- the same port; where the session knows no such observer, no port is called.
pub legacy_notify-relayed :
    (code : SessionCode) (calls : List LegacyCall) (t : SessionType) (c : ℕ) (start_resp : Bool)
    (status : BluetoothAudioStatus)
    → c ≢ observers_cookie_undefined code
    → let m = run_legacy code no_sessions calls in
      let observer = lookup c (session m.registry t).observers in
      (legacy_notify m t (Notification.control_result c start_resp status)
        ≡ relayed observer (LegacyNotification.control_result c start_resp (to_hidl_status status)))
      × (legacy_notify m t (Notification.session_changed c)
          ≡ relayed observer (LegacyNotification.session_changed c))
unfolding legacy_notify
legacy_notify-relayed code calls t c start_resp status known =
    let m = run_legacy code no_sessions calls in
    let h = run_legacy-IsLockstep code calls no_sessions (no_sessions-IsLockstep code) in
    elim (Option-cases (lookup c (session m.registry t).observers)) [
      | inl e ↦ rw (h.agrees t c known, e) (refl, refl)
      | inr (cb, e) ↦ rw (h.agrees t c known, e) (refl, refl)
    ]
