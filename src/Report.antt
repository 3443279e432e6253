-- ===== src/Report.antt =====
-- bluetooth/audio/utils/aidl_session/BluetoothAudioSessionReport.h: what the providers report to the
-- session of a type. Each answers the callbacks that the session invokes.
use device_blackshark_penros.Session.Core
use device_blackshark_penros.Base.{Bool, List, Option, ℕ}
use device_blackshark_penros.Control.Sessions.{Registry, with_session}
use device_blackshark_penros.Session.Types.{
  AudioConfiguration, BluetoothAudioStatus, DataMq, LatencyMode, Notification, SessionType,
}

unfoldable pub on_session_started :
    Registry
    → SessionType
    → Option ℕ
    → Option DataMq
    → AudioConfiguration
    → List LatencyMode
    → List Notification × Registry
unfolding with_session
on_session_started r t host_iface data_mq audio_config latency_modes = with_session r t λ s.
    let (s', told) = Core.on_session_started s host_iface data_mq audio_config latency_modes in
    (told, s')

unfoldable pub on_session_ended : Registry → SessionType → List Notification × Registry
unfolding with_session
on_session_ended r t = with_session r t λ s. let (s', told) = Core.on_session_ended s in (told, s')

unfoldable pub report_control_status :
    Registry → SessionType → Bool → BluetoothAudioStatus → List Notification × Registry
unfolding with_session
report_control_status r t start_resp status =
    with_session r t λ s. (Core.report_control_status s start_resp status, s)

unfoldable pub report_audio_config_changed :
    Registry → SessionType → AudioConfiguration → List Notification × Registry
unfolding with_session
report_audio_config_changed r t audio_config =
    with_session r t
      λ s. let (s', told) = Core.report_audio_config_changed s audio_config in (told, s')

unfoldable pub report_low_latency_mode_allowed_changed :
    Registry → SessionType → Bool → List Notification × Registry
unfolding with_session
report_low_latency_mode_allowed_changed r t allowed =
    with_session r t
      λ s. let (s', told) = Core.report_low_latency_mode_allowed_changed s allowed in (told, s')
