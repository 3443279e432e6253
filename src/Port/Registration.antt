-- ===== src/Port/Registration.antt =====
-- SetUp and TearDown of device_port_proxy.cc.
use device_blackshark_penros.Session.Types.{SessionType}
use device_blackshark_penros.Control
use device_blackshark_penros.Base.{
  Bool-cases, ap, arith, false, inl, inr, lookup, none, not, refl, some, subst, sym, true, ℕ, ◌<◌,
  ◌==◌, ◌∙◌, ◌≡◌, ◌≢◌, ◌≤◌,
}
use device_blackshark_penros.Control.Laws.{
  IsRegistry, session-with_session_other, session-with_session_read, session-with_session_self,
}
use device_blackshark_penros.Control.Sessions.{Registry, session, with_session}
use device_blackshark_penros.Port.Core.{
  callbacks, device_session_type, in_use, init_session_type, register_port, set_up, tear_down,
}
use device_blackshark_penros.Port.Types.{
  AudioDevices, Port, in_ble_headset, other_device, out_ble_broadcast, out_ble_headset,
  out_ble_speaker, out_bluetooth_a2dp, out_bluetooth_a2dp_headphones, out_bluetooth_a2dp_speaker,
  out_hearing_aid, standby,
}
use device_blackshark_penros.Session.Cookies.{
  IsSessionCode, SessionCode, cookie-ne-undefined, observers_cookie_get_init_value,
  observers_cookie_get_upper_bound, observers_cookie_undefined,
}
use device_blackshark_penros.Session.Core.{
  Session, is_session_ready, register_status_cback, unregister_status_cback,
}
use device_blackshark_penros.Session.Observers.{
  granted, refused, register_status_cback-Registers, unregister-register,
}
use device_blackshark_penros.Session.Types.{PortStatusCallbacks, SessionType-discrete}

-- A device of the source has a session type, and never the unknown one.
device_session_type-known :
    (device : AudioDevices) (t : SessionType)
    → device_session_type device ≡ some t
    → t ≢ SessionType.unknown
unfolding device_session_type
device_session_type-known out_bluetooth_a2dp t h = λ e. ground arith
device_session_type-known out_bluetooth_a2dp_headphones t h = λ e. ground arith
device_session_type-known out_bluetooth_a2dp_speaker t h = λ e. ground arith
device_session_type-known out_hearing_aid t h = λ e. ground arith
device_session_type-known out_ble_headset t h = λ e. ground arith
device_session_type-known out_ble_speaker t h = λ e. ground arith
device_session_type-known in_ble_headset t h = λ e. ground arith
device_session_type-known out_ble_broadcast t h = λ e. ground arith
device_session_type-known (other_device n) t h = cc

-- What a successful SetUp has done.
pub record IsSetUp (code : SessionCode) (port : ℕ) (r : Registry) (t : SessionType) (p' : Port)
    (r' : Registry) : Type 0 where
  pub on_standby : p'.state ≡ standby
  pub used : in_use code p' ≡ true
  pub typed : p'.session_type ≡ t
  pub ready : is_session_ready (session r t) ≡ true
  pub listed : lookup p'.cookie (session r' t).observers ≡ some (callbacks port)
  pub undone : (u : SessionType) → session (tear_down code r' p').1 u ≡ session r u

register-cases :
    {code : SessionCode} (valid : IsSessionCode code) (port : ℕ) (r : Registry) (t : SessionType)
    → IsRegistry r
    → t ≢ SessionType.unknown
    → let (cookie, r') = Control.register_control_result_cback code r t (callbacks port) in
      (cookie == observers_cookie_undefined code) ≡ false
      → (lookup cookie (session r' t).observers ≡ some (callbacks port))
        × ((u : SessionType)
            → session (Control.unregister_control_result_cback r' t cookie) u ≡ session r u)
unfolding Control.register_control_result_cback Control.unregister_control_result_cback session
register-cases {code} valid port r t reg known given =
    let s = session r t in
    let cb = callbacks port in
    let f : Session → ℕ × Session = λ s. let (s', c) = register_status_cback code s cb in (c, s') in
    let cookie = (register_status_cback code s cb).1 in
    let r' = (with_session r t f).1 in
    let g : Session → Unit {0} × Session = λ s. (tt, unregister_status_cback s cookie) in
    let here = session-with_session_self r t f in
    elim (unregister-register valid s cb (λ e. known (sym (reg t) ∙ e))) [
      | inl (same, _) ↦ absurd (ground arith)
      | inr (_, listed, undone) ↦ (
        ap (λ (v : Session). lookup cookie v.observers) here ∙ listed,
        λ u. elim (SessionType-discrete t u) [
          | yes p ↦
              subst (λ v. session (with_session r' t g).1 v ≡ session r v) p
                (session-with_session_self r' t g
                  ∙ ap (λ v. unregister_status_cback v cookie) here
                  ∙ undone)
          | no n ↦ session-with_session_other r' t g u n ∙ session-with_session_other r t f u n
        ],
      )
    ]

-- The registry after a readiness check answers the same sessions.
checked : Registry → SessionType → Registry
checked r t = (Control.is_session_ready r t).1

session-checked : (r : Registry) (t u : SessionType) → session (checked r t) u ≡ session r u
unfolding checked Control.is_session_ready
session-checked r t u = session-with_session_read r t (λ s. (is_session_ready s, s)) u refl

checked_ready :
    (r : Registry) (t : SessionType)
    → (Control.is_session_ready r t).0 ≡ is_session_ready (session r t)
unfolding Control.is_session_ready session
checked_ready r t = refl

register_port-IsSetUp :
    {code : SessionCode} (valid : IsSessionCode code) (port : ℕ) (r : Registry) (t : SessionType)
    (p : Port)
    → IsRegistry r
    → t ≢ SessionType.unknown
    → is_session_ready (session r t) ≡ true
    → let (done, p', r') = register_port code port (checked r t) (record p { session_type = t }) in
      done ≡ true → IsSetUp code port r t p' r'
unfolding register_port tear_down in_use
register_port-IsSetUp {code} valid port r t p reg known ready done =
    let r₁ = checked r t in
    let (cookie, r₂) = Control.register_control_result_cback code r₁ t (callbacks port) in
    let given : (cookie == observers_cookie_undefined code) ≡ false = ground arith in
    let reg₁ : IsRegistry r₁ = λ u. ap (λ s. s.session_type) (session-checked r t u) ∙ reg u in
    let (listed, undone) = register-cases valid port r₁ t reg₁ known given in
    record {
      on_standby = refl;
      used = rw given;
      typed = refl;
      ready = ready;
      listed = listed;
      undone = λ u. rw given (undone u ∙ session-checked r t u);
    }

-- Where the session types have different numbers below 256 and each session has the type that it is
-- found by: SetUp of a port for a device of the source answers true only where the device's session
-- is ready and lists the port's callbacks under the cookie that the port then holds; the port is on
-- standby and in use, and TearDown puts every session back as it was before SetUp.
pub set_up-IsSetUp :
    {code : SessionCode} (valid : IsSessionCode code) (port : ℕ) (r : Registry) (p : Port)
    (device : AudioDevices) (t : SessionType)
    → IsRegistry r
    → device_session_type device ≡ some t
    → let (done, p', r') = set_up code port r p device in done ≡ true → IsSetUp code port r t p' r'
unfolding set_up checked tear_down
set_up-IsSetUp {code} valid port r p device t reg typed =
    rw (typed, init_session_type)
      (elim (Bool-cases (Control.is_session_ready r t).0) [
        | inr e ↦ rw e (λ done. absurd (ground arith))
        | inl e ↦ rw e (λ done.
            register_port-IsSetUp valid port r t p reg (device_session_type-known device t typed)
              (sym (checked_ready r t) ∙ e) done)
      ])

-- A registration is granted where a cookie of the session's range is free.
register-granted :
    {code : SessionCode} (valid : IsSessionCode code) (s : Session) (cb : PortStatusCallbacks)
    (c : ℕ)
    → s.session_type ≢ SessionType.unknown
    → observers_cookie_get_init_value code s.session_type ≤ c
    → c < observers_cookie_get_upper_bound code s.session_type
    → lookup c s.observers ≡ none
    → ((register_status_cback code s cb).1 == observers_cookie_undefined code) ≡ false
register-granted {code} valid s cb c known lo hi vacant =
    elim (register_status_cback-Registers code s cb) [
      | refused taken _ ↦ absurd (ground (arith, taken c lo hi, vacant))
      | granted cookie lo' hi' _ _ e ↦
          rw e (ground (arith, cookie-ne-undefined valid s.session_type cookie known lo' hi'))
    ]

register_port_done :
    {code : SessionCode} (valid : IsSessionCode code) (port : ℕ) (r : Registry) (t : SessionType)
    (p : Port) (c : ℕ)
    → (session r t).session_type ≡ t
    → t ≢ SessionType.unknown
    → observers_cookie_get_init_value code t ≤ c
    → c < observers_cookie_get_upper_bound code t
    → lookup c (session r t).observers ≡ none
    → (register_port code port r (record p { session_type = t })).0 ≡ true
unfolding register_port Control.register_control_result_cback session
register_port_done {code} valid port r t p c typed known lo hi vacant =
    let given =
      register-granted valid (session r t) (callbacks port) c (λ e. known (sym typed ∙ e))
        (subst (λ u. observers_cookie_get_init_value code u ≤ c) (sym typed) lo)
        (subst (λ u. c < observers_cookie_get_upper_bound code u) (sym typed) hi) vacant in
    ap (λ b. not b) given

-- SetUp of a port for a device of the source succeeds where the device's session is ready and some
-- cookie of its range is free.
pub set_up_done :
    {code : SessionCode} (valid : IsSessionCode code) (port : ℕ) (r : Registry) (p : Port)
    (device : AudioDevices) (t : SessionType) (c : ℕ)
    → IsRegistry r
    → device_session_type device ≡ some t
    → is_session_ready (session r t) ≡ true
    → observers_cookie_get_init_value code t ≤ c
    → c < observers_cookie_get_upper_bound code t
    → lookup c (session r t).observers ≡ none
    → (set_up code port r p device).0 ≡ true
unfolding set_up checked
set_up_done {code} valid port r p device t c reg typed ready lo hi vacant =
    let same = sym (session-checked r t t) in
    let known = device_session_type-known device t typed in
    let at = subst (λ (s : Session). s.session_type ≡ t) same (reg t) in
    let free = subst (λ (s : Session). lookup c s.observers ≡ none) same vacant in
    rw (typed, init_session_type)
      (rw (checked_ready r t ∙ ready)
        (register_port_done valid port (checked r t) t p c at known lo hi free))

-- Where SetUp answers false for lack of a session that is ready, no callbacks are registered and no
-- session changes; the port only remembers the device's session type.
pub set_up_not_ready :
    (code : SessionCode) (port : ℕ) (r : Registry) (p : Port) (device : AudioDevices)
    (t : SessionType)
    → device_session_type device ≡ some t
    → is_session_ready (session r t) ≡ false
    → let (done, p', r') = set_up code port r p device in
      (done ≡ false)
      × (p' ≡ record p { session_type = t })
      × ((u : SessionType) → session r' u ≡ session r u)
unfolding set_up checked
set_up_not_ready code port r p device t typed idle =
    rw (typed, init_session_type)
      (rw (checked_ready r t ∙ idle) (refl, refl, λ u. session-checked r t u))
