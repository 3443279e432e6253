-- ===== src/Session/Reachable.antt =====
-- What holds of a session of BluetoothAudioSession.cpp after any history of calls.
use device_blackshark_penros.Base.{
  Bool-cases, List, Option, Option-cases, [], ap, arith, false, inl, inr, none, refl, some, subst,
  sym, true, ℕ, ◌<◌, ◌∙◌, ◌∷◌, ◌≡◌, ◌≤◌, ◌⊎◌,
}
use device_blackshark_penros.Session.Cookies.{
  SessionCode, observers_cookie_get_init_value, observers_cookie_get_upper_bound,
}
use device_blackshark_penros.Session.Core.{
  Session, config_fits, get_audio_config, is_offload_le_audio_session, is_session_ready,
  new_session, on_session_ended, on_session_started, register_status_cback,
  report_audio_config_changed, report_low_latency_mode_allowed_changed, unregister_status_cback,
}
use device_blackshark_penros.Session.Lifecycle.{
  AreCookies-erase, Fits, Inv, SessionEvent, allows_low_latency, changes_config, ends,
  new_session-Inv, notifications-on_session_started, on_session_ended_lem, on_session_started-Fits,
  registers, run, starts, step, unregisters,
}
use device_blackshark_penros.Session.Observers.{granted, refused, register_status_cback-Registers}
use device_blackshark_penros.Session.Types.{
  AudioConfiguration, DataMq, Defaults, LatencyMode, PortStatusCallbacks, SessionType, a2dp_config,
  le_audio_broadcast_config, le_audio_broadcast_hardware_offload_encoding_datapath, le_audio_config,
  pcm_config,
}

pub starts-Inv :
    (code : SessionCode) (t : SessionType) (s : Session) (iface : Option ℕ) (desc : Option DataMq)
    (config : AudioConfiguration) (modes : List LatencyMode)
    → Inv code t s
    → Inv code t (on_session_started s iface desc config modes).0
starts-Inv code t s iface desc config modes v =
    let (_, kept, typed) = notifications-on_session_started s iface desc config modes in
    record {
      same_type = typed ∙ v.same_type;
      fits =
          subst (λ u. Fits u (on_session_started s iface desc config modes).0.audio_config)
            v.same_type
            (on_session_started-Fits s iface desc config modes
              (subst (λ u. Fits u s.audio_config) (sym v.same_type) v.fits));
      cookies = rw kept v.cookies;
    }

changes_config-Inv :
    (code : SessionCode) (t : SessionType) (s : Session) (c : AudioConfiguration)
    → Inv code t s
    → Inv code t (report_audio_config_changed s c).0
unfolding report_audio_config_changed
changes_config-Inv code t s c v = elim (Bool-cases (is_offload_le_audio_session s.session_type)) [
  | inl e ↦ rw e (record {
    same_type = v.same_type;
    fits = inl (subst (λ u. is_offload_le_audio_session u ≡ true) v.same_type e);
    cookies = v.cookies;
  })
  | inr e ↦ rw e v
]

pub registers-Inv :
    (code : SessionCode) (t : SessionType) (s : Session) (cb : PortStatusCallbacks)
    → Inv code t s
    → Inv code t (register_status_cback code s cb).0
registers-Inv code t s cb v = elim (register_status_cback-Registers code s cb) [
  | refused _ e ↦ rw e v
  | granted cookie lo hi _ vacant e ↦ rw e (record {
    same_type = v.same_type;
    fits = v.fits;
    cookies = (
      subst (λ u. observers_cookie_get_init_value code u ≤ cookie) v.same_type lo,
      subst (λ u. cookie < observers_cookie_get_upper_bound code u) v.same_type hi,
      vacant,
      v.cookies,
    );
  })
]

-- Every call keeps the session's type, a stored configuration that fits it, and distinct cookies in
-- the range of the session.
pub step-Inv :
    (code : SessionCode) (t : SessionType) (s : Session) (e : SessionEvent)
    → Inv code t s
    → Inv code t (step code s e)
unfolding step
step-Inv code t s (starts iface desc config modes) v = starts-Inv code t s iface desc config modes v
step-Inv code t s ends v =
    let (_, _, _, gone, kept, _) = on_session_ended_lem s in
    record {
      same_type = unfold on_session_ended in v.same_type;
      fits = rw gone tt;
      cookies = rw kept v.cookies;
    }
step-Inv code t s (changes_config c) v = changes_config-Inv code t s c v
step-Inv code t s (allows_low_latency allowed) v =
    unfold report_low_latency_mode_allowed_changed in
    record { same_type = v.same_type; fits = v.fits; cookies = v.cookies }
step-Inv code t s (registers cb) v = registers-Inv code t s cb v
step-Inv code t s (unregisters cookie) v =
    unfold unregister_status_cback in
    record {
      same_type = v.same_type;
      fits = v.fits;
      cookies = AreCookies-erase _ _ cookie s.observers v.cookies;
    }

run-Inv :
    (code : SessionCode) (t : SessionType) (s : Session) (es : List SessionEvent)
    → Inv code t s
    → Inv code t (run code s es)
unfolding run
run-Inv code t s [] v = v
run-Inv code t s (e ∷ es) v = run-Inv code t (step code s e) es (step-Inv code t s e v)

-- After any history of calls since its construction, a session has its type, a configuration that it
-- stores fits that type, unless the type is one whose configuration the stack may replace, and the
-- cookies of its observers differ and lie in the session's range.
pub run-new_session-Inv :
    (code : SessionCode) (t : SessionType) (es : List SessionEvent)
    → Inv code t (run code (new_session t) es)
run-new_session-Inv code t es = run-Inv code t _ es (new_session-Inv code t)

Fits-broadcast :
    (c : Option AudioConfiguration)
    → Fits le_audio_broadcast_hardware_offload_encoding_datapath c
    → c ≡ none
unfolding config_fits is_offload_le_audio_session
Fits-broadcast none h = refl
Fits-broadcast (some (pcm_config c)) h = ground arith
Fits-broadcast (some (a2dp_config c)) h = ground arith
Fits-broadcast (some (le_audio_config c)) h = ground arith
Fits-broadcast (some (le_audio_broadcast_config c)) h = ground arith

-- A session of the broadcast offload type never becomes ready, whatever calls are made: no
-- configuration is accepted for it.
pub broadcast_never_ready :
    (code : SessionCode) (es : List SessionEvent)
    → is_session_ready
        (run code (new_session le_audio_broadcast_hardware_offload_encoding_datapath) es)
      ≡ false
unfolding is_session_ready
broadcast_never_ready code es =
    let v = run-new_session-Inv code le_audio_broadcast_hardware_offload_encoding_datapath es in
    ground (arith, Fits-broadcast _ v.fits)

-- The kinds of configuration that GetAudioConfig may answer for a session type.
abbrev pub Answers : SessionType → AudioConfiguration → Type 0
Answers t c = (is_offload_le_audio_session t ≡ true) ⊎ (config_fits t c ≡ true)

get_audio_config_ready :
    (d : Defaults) (s : Session)
    → is_session_ready s ≡ true
    → (c : AudioConfiguration) × (s.audio_config ≡ some c) × (get_audio_config d s ≡ c)
unfolding get_audio_config is_session_ready
get_audio_config_ready d s ready = elim (Option-cases s.audio_config) [
  | inl e ↦ absurd (ground arith)
  | inr (c, e) ↦ (c, e, ground arith)
]

-- After any history, a ready session answers a configuration that was stored and, unless the stack
-- may replace it (the LE Audio offload types), one that fits the session's type.
pub get_audio_config-Answers :
    (code : SessionCode) (d : Defaults) (t : SessionType) (es : List SessionEvent)
    → let s = run code (new_session t) es in
      is_session_ready s ≡ true
      → (s.audio_config ≡ some (get_audio_config d s)) × Answers t (get_audio_config d s)
get_audio_config-Answers code d t es ready =
    let s = run code (new_session t) es in
    let (c, stored, same) = get_audio_config_ready d s ready in
    let v = run-new_session-Inv code t es in
    (stored ∙ ap some (sym same), subst (Fits t) (stored ∙ ap some (sym same)) v.fits)
