-- ===== src/Port/Callbacks.antt =====
-- What a callback of the session does to a port of device_port_proxy.cc.
use device_blackshark_penros.Base.{
  ==_iff, Bool, Bool-cases, List, [], ap, arith, false, inl, inr, is_some, lookup, map, none, refl,
  true, ℕ, ◌==◌, ◌∙◌, ◌∷◌, ◌≡◌, ◌≢◌,
}
use device_blackshark_penros.Port.Core.{
  control_result_handler, control_result_state, deliver, deliver_all,
}
use device_blackshark_penros.Port.Types.{Port, disabled}
use device_blackshark_penros.Session.Cookies.{SessionCode}
use device_blackshark_penros.Session.Core.{Session, report_control_status}
use device_blackshark_penros.Session.Lifecycle.{AreCookies}
use device_blackshark_penros.Session.Types.{
  BluetoothAudioStatus, Notification, PortStatusCallbacks, audio_configuration_changed,
  control_result, low_latency_mode_allowed, session_changed,
}

-- A callback changes nothing but the state of the port.
pub deliver_keeps :
    (code : SessionCode) (p : Port) (n : Notification)
    → ((deliver code p n).cookie ≡ p.cookie)
      × ((deliver code p n).session_type ≡ p.session_type)
      × ((deliver code p n).is_stereo_to_mono ≡ p.is_stereo_to_mono)
unfolding deliver
deliver_keeps code p (control_result cookie start_resp status) = ground arith
deliver_keeps code p (session_changed cookie) = ground arith
deliver_keeps code p (audio_configuration_changed cookie) = (refl, refl, refl)
deliver_keeps code p (low_latency_mode_allowed cookie allowed) = (refl, refl, refl)

pub deliver_all_keeps :
    (code : SessionCode) (p : Port) (ns : List Notification)
    → ((deliver_all code p ns).cookie ≡ p.cookie)
      × ((deliver_all code p ns).session_type ≡ p.session_type)
      × ((deliver_all code p ns).is_stereo_to_mono ≡ p.is_stereo_to_mono)
unfolding deliver_all
deliver_all_keeps code p [] = (refl, refl, refl)
deliver_all_keeps code p (n ∷ ns) =
    let (c, t, m) = deliver_keeps code p n in
    let (c', t', m') = deliver_all_keeps code (deliver code p n) ns in (c' ∙ c, t' ∙ t, m' ∙ m)

deliver_keeps_disabled :
    (code : SessionCode) (p : Port) (n : Notification)
    → p.state ≡ disabled
    → (deliver code p n).state ≡ disabled
unfolding deliver control_result_state
deliver_keeps_disabled code p (control_result c start_resp status) h = ground arith
deliver_keeps_disabled code p (session_changed c) h = ground arith
deliver_keeps_disabled code p (audio_configuration_changed c) h = h
deliver_keeps_disabled code p (low_latency_mode_allowed c allowed) h = h

-- No callback revives a disabled port.
pub deliver_all-disabled :
    (code : SessionCode) (p : Port) (ns : List Notification)
    → p.state ≡ disabled
    → (deliver_all code p ns).state ≡ disabled
unfolding deliver_all
deliver_all-disabled code p [] h = h
deliver_all-disabled code p (n ∷ ns) h =
    deliver_all-disabled code (deliver code p n) ns (deliver_keeps_disabled code p n h)

-- Callbacks with cookies of other ports.
abbrev pub AreForeign : ℕ → List Notification → Type 0
AreForeign cookie [] = Unit {0}
AreForeign cookie (control_result c start_resp status ∷ ns) = (c ≢ cookie) × AreForeign cookie ns
AreForeign cookie (session_changed c ∷ ns) = (c ≢ cookie) × AreForeign cookie ns
AreForeign cookie (audio_configuration_changed c ∷ ns) = AreForeign cookie ns
AreForeign cookie (low_latency_mode_allowed c allowed ∷ ns) = AreForeign cookie ns

-- They leave the port as it is, in every state.
pub deliver_all_foreign :
    (code : SessionCode) (p : Port) (ns : List Notification)
    → AreForeign p.cookie ns
    → deliver_all code p ns ≡ p
unfolding deliver_all deliver
deliver_all_foreign code p [] h = refl
deliver_all_foreign code p (control_result c start_resp status ∷ ns) (ne, h) =
    ground (arith, deliver_all_foreign code p ns h)
deliver_all_foreign code p (session_changed c ∷ ns) (ne, h) =
    ground (arith, deliver_all_foreign code p ns h)
deliver_all_foreign code p (audio_configuration_changed c ∷ ns) h = deliver_all_foreign code p ns h
deliver_all_foreign code p (low_latency_mode_allowed c allowed ∷ ns) h =
    deliver_all_foreign code p ns h

AreForeign-of_none :
    (cookie : ℕ) (start_resp : Bool) (status : BluetoothAudioStatus)
    (os : List (ℕ × PortStatusCallbacks))
    → lookup cookie os ≡ none
    → AreForeign cookie (map (λ o. control_result o.0 start_resp status) os)
AreForeign-of_none cookie start_resp status [] h = tt
AreForeign-of_none cookie start_resp status ((c, cb) ∷ os) h = elim (Bool-cases (c == cookie)) [
  | inl e ↦ absurd (ground arith)
  | inr e ↦ (λ same. ground arith, AreForeign-of_none cookie start_resp status os (ground arith))
]

control_result_handler-cookie :
    (code : SessionCode) (p : Port) (status : BluetoothAudioStatus)
    → (control_result_handler code p status).cookie ≡ p.cookie
unfolding control_result_handler
control_result_handler-cookie code p status = ground arith

deliver_own :
    (code : SessionCode) (p : Port) (c : ℕ) (start_resp : Bool) (status : BluetoothAudioStatus)
    → (p.cookie == c) ≡ true
    → deliver code p (control_result c start_resp status) ≡ control_result_handler code p status
unfolding deliver control_result_handler
deliver_own code p c start_resp status h = ground arith

deliver_other :
    (code : SessionCode) (p : Port) (c : ℕ) (start_resp : Bool) (status : BluetoothAudioStatus)
    → (p.cookie == c) ≡ false
    → deliver code p (control_result c start_resp status) ≡ p
unfolding deliver
deliver_other code p c start_resp status h = ground arith

abbrev results : Bool → BluetoothAudioStatus → List (ℕ × PortStatusCallbacks) → List Notification
results start_resp status os = map (λ o. control_result o.0 start_resp status) os

deliver_all_once :
    (code : SessionCode) (lo hi : ℕ) (p : Port) (start_resp : Bool) (status : BluetoothAudioStatus)
    (os : List (ℕ × PortStatusCallbacks))
    → AreCookies lo hi os
    → is_some (lookup p.cookie os) ≡ true
    → deliver_all code p (map (λ o. control_result o.0 start_resp status) os)
      ≡ control_result_handler code p status
unfolding deliver_all
deliver_all_once code lo hi p start_resp status [] h found = absurd (ground arith)
deliver_all_once code lo hi p start_resp status ((c, cb) ∷ os) (l, u, fresh, rest) found =
    elim (Bool-cases (p.cookie == c)) [
      | inl own ↦
          ap (λ q. deliver_all code q (results start_resp status os))
            (deliver_own code p c start_resp status own)
          ∙ (deliver_all_foreign code (control_result_handler code p status)
              (results start_resp status os)
              (AreForeign-of_none (control_result_handler code p status).cookie start_resp status os
                (rw (control_result_handler-cookie code p status, (==_iff _ _).0 own) fresh)))
      | inr foreign ↦
          ap (λ q. deliver_all code q (results start_resp status os))
            (deliver_other code p c start_resp status foreign)
          ∙ (deliver_all_once code lo hi p start_resp status os rest (ground arith))
    ]

-- A report of the session reaches a registered port exactly once: the port ends as its handler alone
-- leaves it, whatever the other observers and the order of the map are.
pub deliver_all-report_control_status :
    (code : SessionCode) (lo hi : ℕ) (s : Session) (p : Port) (start_resp : Bool)
    (status : BluetoothAudioStatus)
    → AreCookies lo hi s.observers
    → is_some (lookup p.cookie s.observers) ≡ true
    → deliver_all code p (report_control_status s start_resp status)
      ≡ control_result_handler code p status
unfolding report_control_status
deliver_all-report_control_status code lo hi s p start_resp status h found =
    deliver_all_once code lo hi p start_resp status s.observers h found
