-- ===== src/Tests/Port.antt =====
-- The properties at concrete inputs.
use device_blackshark_penros.Session.Calls
use device_blackshark_penros.Control
use device_blackshark_penros.Base.{Bool, List, [], arith, false, refl, true, ℕ, ◌&&◌, ◌↔◌, ◌∷◌, ◌≡◌}
use device_blackshark_penros.Control.Laws.{IsRegistry}
use device_blackshark_penros.Control.Sessions.{session}
use device_blackshark_penros.Port.Bounds.{Returns, write_data-Returns}
use device_blackshark_penros.Port.Callbacks.{deliver_all-report_control_status}
use device_blackshark_penros.Port.Core.{
  control_result_handler, deliver_all, device_session_type, in_use, is_standby, is_started,
  new_port, set_up, start, suspend,
}
use device_blackshark_penros.Port.Data.{write_data}
use device_blackshark_penros.Port.Registration.{IsSetUp, set_up-IsSetUp}
use device_blackshark_penros.Port.Traces.{Confirms, deliver_all-Confirms}
use device_blackshark_penros.Port.Types.{Port, out_bluetooth_a2dp, started, starting}
use device_blackshark_penros.Port.Waiting.{accepts, start-eq, suspend-eq}
use device_blackshark_penros.Session.Cookies.{observers_cookie_undefined}
use device_blackshark_penros.Session.Core.{
  is_session_ready, new_session, register_status_cback, report_control_status,
}
use device_blackshark_penros.Session.Types.{
  Notification, SessionType, SessionType-discrete, a2dp_hardware_offload_decoding_datapath,
  a2dp_hardware_offload_encoding_datapath, a2dp_software_decoding_datapath,
  a2dp_software_encoding_datapath, control_result, hearing_aid_software_encoding_datapath,
  le_audio_broadcast_hardware_offload_encoding_datapath,
  le_audio_broadcast_software_encoding_datapath, le_audio_hardware_offload_decoding_datapath,
  le_audio_hardware_offload_encoding_datapath, le_audio_software_decoding_datapath,
  le_audio_software_encoding_datapath, other, success,
}
use device_blackshark_penros.Tests.Samples.{
  confirming, idle_port, ready_session, sample_code, sample_code-IsSessionCode, sample_registry,
}

sample_IsRegistry : IsRegistry sample_registry
unfolding session new_session SessionType-discrete
sample_IsRegistry SessionType.unknown = refl
sample_IsRegistry a2dp_software_encoding_datapath = refl
sample_IsRegistry a2dp_hardware_offload_encoding_datapath = refl
sample_IsRegistry hearing_aid_software_encoding_datapath = refl
sample_IsRegistry le_audio_software_encoding_datapath = refl
sample_IsRegistry le_audio_software_decoding_datapath = refl
sample_IsRegistry le_audio_hardware_offload_encoding_datapath = refl
sample_IsRegistry le_audio_hardware_offload_decoding_datapath = refl
sample_IsRegistry le_audio_broadcast_software_encoding_datapath = refl
sample_IsRegistry le_audio_broadcast_hardware_offload_encoding_datapath = refl
sample_IsRegistry a2dp_software_decoding_datapath = refl
sample_IsRegistry a2dp_hardware_offload_decoding_datapath = refl

start-eq_example :
    let (done, q, r') = start sample_code confirming sample_registry idle_port in
    (done ≡ (true && (accepts sample_registry idle_port true && is_started q.state)))
    × (◌≡◌ {A = Bool} true false → (q ≡ idle_port) × (r' ≡ sample_registry))
unfolding in_use observers_cookie_undefined
start-eq_example = start-eq sample_code confirming sample_registry idle_port

start_runs : (start sample_code confirming sample_registry idle_port).0 ≡ true
unfolding start Control.start_stream Calls.start_stream SessionType-discrete
    observers_cookie_undefined
start_runs = refl

abbrev playing_port : Port
playing_port = record idle_port { state = started }

suspend-eq_example :
    let (done, q, r') = suspend sample_code confirming sample_registry playing_port in
    (done ≡ (true && (accepts sample_registry playing_port true && is_standby q.state)))
    × (◌≡◌ {A = Bool} true false → (q ≡ playing_port) × (r' ≡ sample_registry))
unfolding in_use observers_cookie_undefined
suspend-eq_example = suspend-eq sample_code confirming sample_registry playing_port

fresh_port : Port
unfolding new_port
fresh_port = new_port sample_code

set_up_runs : (set_up sample_code 6 sample_registry fresh_port out_bluetooth_a2dp).0 ≡ true
unfolding set_up fresh_port device_session_type Control.is_session_ready
    Control.register_control_result_cback is_session_ready register_status_cback
    SessionType-discrete observers_cookie_undefined
set_up_runs = refl

set_up-IsSetUp_example :
    let (done, p', r') = set_up sample_code 6 sample_registry fresh_port out_bluetooth_a2dp in
    IsSetUp sample_code 6 sample_registry a2dp_software_encoding_datapath p' r'
unfolding device_session_type
set_up-IsSetUp_example =
    set_up-IsSetUp sample_code-IsSessionCode 6 sample_registry fresh_port out_bluetooth_a2dp
      a2dp_software_encoding_datapath sample_IsRegistry refl set_up_runs

deliver_all-report_control_status_example :
    deliver_all sample_code playing_port (report_control_status ready_session false success)
    ≡ control_result_handler sample_code playing_port success
deliver_all-report_control_status_example =
    deliver_all-report_control_status sample_code 256 272 ready_session playing_port false success
      (omega arith, omega arith, refl, tt) refl

write_data-Returns_example : Returns {A = ℕ} 5 (
    write_data sample_code
      (λ n buffer. buffer)
      (λ i. record { seen = ready_session; available = 2; transfers = true })
      (record idle_port { is_stereo_to_mono = true })
      (1 ∷ 2 ∷ 3 ∷ 4 ∷ 5 ∷ [])
      5)
unfolding device_session_type
write_data-Returns_example =
    write_data-Returns (λ i. record { seen = ready_session; available = 2; transfers = true })
      out_bluetooth_a2dp a2dp_software_encoding_datapath refl (λ i. refl) sample_code
      (λ n buffer. buffer) (record idle_port { is_stereo_to_mono = true }) (1 ∷ 2 ∷ 3 ∷ 4 ∷ 5 ∷ [])
      5

idle_port_used : in_use sample_code (record idle_port { state = starting }) ≡ true
unfolding in_use observers_cookie_undefined
idle_port_used = refl

-- The port's start is confirmed, after a report to another port; then a result fails.
abbrev heard_late : List Notification
heard_late =
    control_result 257 true success
    ∷ control_result 256 true success
    ∷ control_result 256 false other
    ∷ []

deliver_all-Confirms_example :
    ((deliver_all sample_code (record idle_port { state = starting }) heard_late).state ≡ started)
    ↔ Confirms 256 heard_late
deliver_all-Confirms_example =
    deliver_all-Confirms sample_code (record idle_port { state = starting }) heard_late
      idle_port_used refl

heard_late_starts :
    (deliver_all sample_code (record idle_port { state = starting }) heard_late).state ≡ started
unfolding deliver_all observers_cookie_undefined
heard_late_starts = refl
