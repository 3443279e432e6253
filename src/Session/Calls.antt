-- ===== src/Session/Calls.antt =====
-- BluetoothAudioSession.cpp: the calls of the stack that a session makes behind its readiness check, as
-- the list of them and what they answer; `isOk()` of a call is an argument.
use device_blackshark_penros.Base.{
  Bool, List, Option, [], false, if◌then◌else◌, none, some, true, ◌∷◌,
}
use device_blackshark_penros.Session.Core.{Session, is_session_ready}
use device_blackshark_penros.Session.Types.{
  LatencyMode, PresentationPosition, SessionType, StackCall, Track,
  a2dp_hardware_offload_decoding_datapath, a2dp_hardware_offload_encoding_datapath,
  a2dp_software_decoding_datapath, a2dp_software_encoding_datapath, free, low_latency,
}

-- A call of the stack behind the readiness check: its result, and the call if one is made.
unfoldable pub call_stack : Session → StackCall → Bool → Bool × List StackCall
unfolding is_session_ready
call_stack s call ok = if is_session_ready s then (ok, call ∷ []) else (false, [])

unfoldable pub start_stream : Session → Bool → Bool → Bool × List StackCall
unfolding call_stack
start_stream s is_low_latency ok = call_stack s (StackCall.start_stream is_low_latency) ok

unfoldable pub suspend_stream : Session → Bool → Bool × List StackCall
unfolding call_stack
suspend_stream s ok = call_stack s StackCall.suspend_stream ok

unfoldable pub stop_stream : Session → List StackCall
unfolding is_session_ready
stop_stream s = if is_session_ready s then StackCall.stop_stream ∷ [] else []

unfoldable pub set_latency_mode : Session → LatencyMode → List StackCall
unfolding is_session_ready
set_latency_mode s mode = if is_session_ready s then StackCall.set_latency_mode mode ∷ [] else []

-- The stack's reply is the position that it writes, or `none` where `isOk()` fails; the position
-- that the caller passed in stays where nothing is written. `retval` is never set to true.
unfoldable pub get_presentation_position :
    Session → PresentationPosition → Option PresentationPosition → Bool × PresentationPosition
unfolding is_session_ready
get_presentation_position s position none = (false, position)
get_presentation_position s position (some reply) =
    let retval = false in if is_session_ready s then (retval, reply) else (false, position)

unfoldable pub is_a2dp_session : SessionType → Bool
is_a2dp_session a2dp_software_encoding_datapath = true
is_a2dp_session a2dp_hardware_offload_encoding_datapath = true
is_a2dp_session a2dp_software_decoding_datapath = true
is_a2dp_session a2dp_hardware_offload_decoding_datapath = true
is_a2dp_session _ = false

unfoldable pub update_source_metadata : Session → List Track → List StackCall
unfolding is_session_ready is_a2dp_session
update_source_metadata s tracks =
    if is_session_ready s
    then (if is_a2dp_session s.session_type
        then []
        else StackCall.update_source_metadata tracks ∷ [])
    else []

unfoldable pub update_sink_metadata : Session → List Track → List StackCall
unfolding is_session_ready is_a2dp_session
update_sink_metadata s tracks =
    if is_session_ready s
    then (if is_a2dp_session s.session_type then [] else StackCall.update_sink_metadata tracks ∷ [])
    else []

abbrev without_low_latency : List LatencyMode → List LatencyMode
without_low_latency [] = []
without_low_latency (low_latency ∷ modes) = without_low_latency modes
without_low_latency (free ∷ modes) = free ∷ without_low_latency modes

unfoldable pub get_supported_latency_modes : Session → List LatencyMode
unfolding is_session_ready
get_supported_latency_modes s =
    if is_session_ready s
    then (if s.low_latency_allowed then s.latency_modes else without_low_latency s.latency_modes)
    else []
