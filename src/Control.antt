-- ===== src/Control.antt =====
-- bluetooth/audio/utils/aidl_session/BluetoothAudioSessionControl.h: the operations of a session,
-- found by its type. GetSessionInstance never returns null, so the branches of the source for a null
-- session are not taken, and are left out.
pub mod Sessions
pub mod Laws
pub mod Invariant
use device_blackshark_penros.Session.Core
use device_blackshark_penros.Session.Calls
use device_blackshark_penros.Base.{Bool, List, Option, ℕ}
use device_blackshark_penros.Control.Sessions.{Registry, with_session}
use device_blackshark_penros.Session.Cookies.{SessionCode}
use device_blackshark_penros.Session.Core.{register_status_cback, unregister_status_cback}
use device_blackshark_penros.Session.Types.{
  AudioConfiguration, Defaults, LatencyMode, PortStatusCallbacks, PresentationPosition, SessionType,
  StackCall, Track,
}

unfoldable pub is_session_ready : Registry → SessionType → Bool × Registry
unfolding with_session
is_session_ready r t = with_session r t λ s. (Core.is_session_ready s, s)

unfoldable pub register_control_result_cback :
    SessionCode → Registry → SessionType → PortStatusCallbacks → ℕ × Registry
unfolding with_session
register_control_result_cback code r t cbacks =
    with_session r t λ s. let (s', cookie) = register_status_cback code s cbacks in (cookie, s')

unfoldable pub unregister_control_result_cback : Registry → SessionType → ℕ → Registry
unfolding with_session
unregister_control_result_cback r t cookie =
    (with_session {X = Unit {0}} r t λ s. (tt, unregister_status_cback s cookie)).1

unfoldable pub get_audio_config : Defaults → Registry → SessionType → AudioConfiguration × Registry
unfolding with_session
get_audio_config d r t = with_session r t λ s. (Core.get_audio_config d s, s)

unfoldable pub start_stream :
    Registry → SessionType → Bool → Bool → (Bool × List StackCall) × Registry
unfolding with_session
start_stream r t is_low_latency ok =
    with_session r t λ s. (Calls.start_stream s is_low_latency ok, s)

unfoldable pub suspend_stream : Registry → SessionType → Bool → (Bool × List StackCall) × Registry
unfolding with_session
suspend_stream r t ok = with_session r t λ s. (Calls.suspend_stream s ok, s)

unfoldable pub stop_stream : Registry → SessionType → List StackCall × Registry
unfolding with_session
stop_stream r t = with_session r t λ s. (Calls.stop_stream s, s)

unfoldable pub get_presentation_position :
    Registry
    → SessionType
    → PresentationPosition
    → Option PresentationPosition
    → (Bool × PresentationPosition) × Registry
unfolding with_session
get_presentation_position r t position reply =
    with_session r t λ s. (Calls.get_presentation_position s position reply, s)

unfoldable pub update_source_metadata :
    Registry → SessionType → List Track → List StackCall × Registry
unfolding with_session
update_source_metadata r t tracks = with_session r t λ s. (Calls.update_source_metadata s tracks, s)

unfoldable pub update_sink_metadata :
    Registry → SessionType → List Track → List StackCall × Registry
unfolding with_session
update_sink_metadata r t tracks = with_session r t λ s. (Calls.update_sink_metadata s tracks, s)

unfoldable pub get_supported_latency_modes : Registry → SessionType → List LatencyMode × Registry
unfolding with_session
get_supported_latency_modes r t = with_session r t λ s. (Calls.get_supported_latency_modes s, s)

unfoldable pub set_latency_mode : Registry → SessionType → LatencyMode → List StackCall × Registry
unfolding with_session
set_latency_mode r t mode = with_session r t λ s. (Calls.set_latency_mode s mode, s)
