-- ===== src/Session/Lifecycle.antt =====
-- The life of a session of BluetoothAudioSession.cpp: the calls that change its state, in any order.
use device_blackshark_penros.Base.{
  Bool, Bool-cases, List, Option, [], arith, erase, false, if◌then◌else◌, inl, inr, is_some, lookup,
  lookup-erase, map, none, refl, some, true, ℕ, ◌&&◌, ◌<◌, ◌||◌, ◌∷◌, ◌≡◌, ◌≤◌, ◌⊎◌,
}
use device_blackshark_penros.Session.Cookies.{
  SessionCode, observers_cookie_get_init_value, observers_cookie_get_upper_bound,
}
use device_blackshark_penros.Session.Core.{
  Session, config_fits, is_offload, is_offload_le_audio_session, is_session_ready, new_session,
  on_session_ended, on_session_started, register_status_cback, report_audio_config_changed,
  report_low_latency_mode_allowed_changed, unregister_status_cback,
}
use device_blackshark_penros.Session.Types.{
  AudioConfiguration, DataMq, LatencyMode, PortStatusCallbacks, SessionType, session_changed,
}

-- A call of an operation that changes the session.
pub data SessionEvent : Type 0 where
  starts : Option ℕ → Option DataMq → AudioConfiguration → List LatencyMode → SessionEvent
  ends : SessionEvent
  changes_config : AudioConfiguration → SessionEvent
  allows_low_latency : Bool → SessionEvent
  registers : PortStatusCallbacks → SessionEvent
  unregisters : ℕ → SessionEvent

unfoldable pub step : SessionCode → Session → SessionEvent → Session
step code s (starts iface desc config modes) = (on_session_started s iface desc config modes).0
step code s ends = (on_session_ended s).0
step code s (changes_config c) = (report_audio_config_changed s c).0
step code s (allows_low_latency allowed) = (report_low_latency_mode_allowed_changed s allowed).0
step code s (registers cb) = (register_status_cback code s cb).0
step code s (unregisters cookie) = unregister_status_cback s cookie

unfoldable pub run : SessionCode → Session → List SessionEvent → Session
run code s [] = s
run code s (e ∷ es) = run code (step code s e) es

-- Whether `UpdateDataPath` succeeds for a descriptor.
abbrev pub opens : Option DataMq → Bool
opens none = true
opens (some mq) = mq.is_valid

abbrev pub is_valid_mq : Option DataMq → Bool
is_valid_mq none = false
is_valid_mq (some mq) = mq.is_valid

-- A session is ready after OnSessionStarted exactly where the stack's interface is given, the
-- configuration fits the session type, the queue opens, and a software session has a queue at all.
-- Without an interface or a fitting configuration its readiness stays as it was.
pub ready-on_session_started :
    (s : Session) (iface : Option ℕ) (desc : Option DataMq) (config : AudioConfiguration)
    (modes : List LatencyMode)
    → is_session_ready (on_session_started s iface desc config modes).0 ≡ (
        if is_some iface && config_fits s.session_type config
        then opens desc && (is_offload s.session_type || is_valid_mq desc)
        else is_session_ready s)
unfolding on_session_started is_session_ready
ready-on_session_started s none desc config modes = refl
ready-on_session_started s (some iface) none config modes = ground arith
ready-on_session_started s (some iface) (some mq) config modes = ground arith

-- The observers hear of a start exactly where it is accepted, each once and in the map's order; the
-- map and the session type stay as they were on every branch.
pub notifications-on_session_started :
    (s : Session) (iface : Option ℕ) (desc : Option DataMq) (config : AudioConfiguration)
    (modes : List LatencyMode)
    → let (s', told) = on_session_started s iface desc config modes in
      (told ≡ (
        if is_some iface && config_fits s.session_type config && opens desc
        then map (λ o. session_changed o.0) s.observers
        else []))
      × (s'.observers ≡ s.observers)
      × (s'.session_type ≡ s.session_type)
unfolding on_session_started
notifications-on_session_started s none desc config modes = (refl, refl, refl)
notifications-on_session_started s (some iface) none config modes = ground arith
notifications-on_session_started s (some iface) (some mq) config modes = ground arith

-- OnSessionEnded leaves the session not ready, with no stack interface, queue or configuration, keeps
-- the observers, and tells them exactly where the session was ready.
pub on_session_ended_lem :
    (s : Session)
    → let (s', told) = on_session_ended s in
      (is_session_ready s' ≡ false)
      × (s'.stack_iface ≡ none)
      × (s'.data_mq ≡ none)
      × (s'.audio_config ≡ none)
      × (s'.observers ≡ s.observers)
      × (told ≡ (if is_session_ready s then map (λ o. session_changed o.0) s.observers else []))
unfolding on_session_ended is_session_ready
on_session_ended_lem s = (refl, refl, refl, refl, refl, ground arith)

-- What holds between two calls: the configuration that is stored fits the session type, unless the
-- type is one whose configuration the stack may replace; the cookies of the observers differ and lie
-- in the session's range.
abbrev pub Fits : SessionType → Option AudioConfiguration → Type 0
Fits t none = Unit {0}
Fits t (some c) = (is_offload_le_audio_session t ≡ true) ⊎ (config_fits t c ≡ true)

abbrev pub AreCookies : ℕ → ℕ → List (ℕ × PortStatusCallbacks) → Type 0
AreCookies lo hi [] = Unit {0}
AreCookies lo hi ((c, cb) ∷ os) = (lo ≤ c) × (c < hi) × (lookup c os ≡ none) × AreCookies lo hi os

pub record Inv (code : SessionCode) (t : SessionType) (s : Session) : Type 0 where
  pub same_type : s.session_type ≡ t
  pub fits : Fits t s.audio_config
  pub cookies :
      AreCookies
        (observers_cookie_get_init_value code t)
        (observers_cookie_get_upper_bound code t)
        s.observers

pub new_session-Inv : (code : SessionCode) (t : SessionType) → Inv code t (new_session t)
unfolding new_session
new_session-Inv code t = record { same_type = refl; fits = tt; cookies = tt }

pub AreCookies-erase :
    (lo hi k : ℕ) (os : List (ℕ × PortStatusCallbacks))
    → AreCookies lo hi os
    → AreCookies lo hi (erase k os)
AreCookies-erase lo hi k [] h = tt
AreCookies-erase lo hi k ((c, cb) ∷ os) (a, b, fresh, rest) =
    ground (arith, AreCookies-erase lo hi k os rest, lookup-erase k c os)

pub on_session_started-Fits :
    (s : Session) (iface : Option ℕ) (desc : Option DataMq) (config : AudioConfiguration)
    (modes : List LatencyMode)
    → Fits s.session_type s.audio_config
    → Fits s.session_type (on_session_started s iface desc config modes).0.audio_config
unfolding on_session_started
on_session_started-Fits s none desc config modes h = h
on_session_started-Fits s (some iface) none config modes h =
    elim (Bool-cases (config_fits s.session_type config)) [ inl e ↦ rw e (inr e) | inr e ↦ rw e h ]
on_session_started-Fits s (some iface) (some mq) config modes h =
    elim (Bool-cases (config_fits s.session_type config)) [
      | inl e ↦ rw e (elim (Bool-cases mq.is_valid) [ inl v ↦ rw v (inr e) | inr v ↦ rw v tt ])
      | inr e ↦ rw e h
    ]
