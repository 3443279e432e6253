-- ===== src/Port/Core.antt =====
-- device_port_proxy.cc: the control path of a port, as a state machine driven by the audio HAL and by
-- the callbacks of its session. What happens while a call waits is an argument of the call.
use device_blackshark_penros.Session.Types
use device_blackshark_penros.Control
use device_blackshark_penros.Base.{
  Bool, List, Option, [], false, if◌then◌else◌, none, not, some, true, ℕ, ◌&&◌, ◌==◌, ◌∷◌,
}
use device_blackshark_penros.Control.Sessions.{Registry}
use device_blackshark_penros.Port.Types.{
  AudioDevices, BluetoothStreamState, Port, disabled, in_ble_headset, other_device,
  out_ble_broadcast, out_ble_headset, out_ble_speaker, out_bluetooth_a2dp,
  out_bluetooth_a2dp_headphones, out_bluetooth_a2dp_speaker, out_hearing_aid, standby, started,
  starting, suspending,
}
use device_blackshark_penros.Session.Cookies.{SessionCode, observers_cookie_undefined}
use device_blackshark_penros.Session.Types.{
  BluetoothAudioStatus, Notification, PortStatusCallbacks, SessionType,
  a2dp_hardware_offload_encoding_datapath, a2dp_software_encoding_datapath,
  audio_configuration_changed, control_result, hearing_aid_software_encoding_datapath,
  le_audio_broadcast_software_encoding_datapath, le_audio_software_decoding_datapath,
  le_audio_software_encoding_datapath, low_latency_mode_allowed, other, reconfiguration,
  session_changed, success, unsupported_codec_configuration,
}

-- The constructor.
unfoldable pub new_port : SessionCode → Port
new_port code = record {
  cookie = observers_cookie_undefined code;
  state = disabled;
  session_type = Types.SessionType.unknown;
  is_stereo_to_mono = false;
}

unfoldable pub in_use : SessionCode → Port → Bool
in_use code p = not (p.cookie == observers_cookie_undefined code)

-- The `switch` of `init_session_type`; an unknown device is refused.
unfoldable pub device_session_type : AudioDevices → Option SessionType
device_session_type out_bluetooth_a2dp = some a2dp_software_encoding_datapath
device_session_type out_bluetooth_a2dp_headphones = some a2dp_software_encoding_datapath
device_session_type out_bluetooth_a2dp_speaker = some a2dp_software_encoding_datapath
device_session_type out_hearing_aid = some hearing_aid_software_encoding_datapath
device_session_type out_ble_headset = some le_audio_software_encoding_datapath
device_session_type out_ble_speaker = some le_audio_software_encoding_datapath
device_session_type in_ble_headset = some le_audio_software_decoding_datapath
device_session_type out_ble_broadcast = some le_audio_broadcast_software_encoding_datapath
device_session_type (other_device n) = none

unfoldable pub init_session_type : Registry → Port → AudioDevices → Bool × Port × Registry
unfolding device_session_type
init_session_type r p device = elim (device_session_type device) [
  | none ↦ (false, p, r)
  | some t ↦
      (let (ready, r') = Control.is_session_ready r t in (ready, record p { session_type = t }, r'))
]

-- The callbacks that SetUp registers: the port's handlers, and no others.
abbrev pub callbacks : ℕ → PortStatusCallbacks
callbacks port = record {
  port = port;
  has_audio_configuration_changed_cb = false;
  has_low_latency_mode_allowed_cb = false;
}

-- SetUp once the session type is known and its session ready. `port` names the object whose
-- handlers are registered.
unfoldable pub register_port : SessionCode → ℕ → Registry → Port → Bool × Port × Registry
register_port code port r p =
    let (cookie, r') =
      Control.register_control_result_cback code r p.session_type (callbacks port) in
    (
      not (cookie == observers_cookie_undefined code),
      record p { state = standby; cookie = cookie },
      r',
    )

unfoldable pub set_up : SessionCode → ℕ → Registry → Port → AudioDevices → Bool × Port × Registry
unfolding init_session_type register_port
set_up code port r p device =
    let (ready, p', r') = init_session_type r p device in
    if ready then register_port code port r' p' else (false, p', r')

unfoldable pub tear_down : SessionCode → Registry → Port → Port × Registry
unfolding in_use
tear_down code r p =
    if in_use code p
    then (
      record p { cookie = observers_cookie_undefined code },
      Control.unregister_control_result_cback r p.session_type p.cookie,
    )
    else (p, r)

-- The `switch` of ControlResultHandler.
unfoldable pub control_result_state :
    BluetoothStreamState → BluetoothAudioStatus → BluetoothStreamState
control_result_state started reconfiguration = standby
control_result_state started success = standby
control_result_state started other = started
control_result_state started unsupported_codec_configuration = started
control_result_state starting success = started
control_result_state starting _ = standby
control_result_state suspending success = standby
control_result_state suspending _ = disabled
control_result_state previous status = previous

unfoldable pub control_result_handler : SessionCode → Port → BluetoothAudioStatus → Port
unfolding in_use control_result_state
control_result_handler code p status =
    if in_use code p then record p { state = control_result_state p.state status } else p

unfoldable pub session_changed_handler : SessionCode → Port → Port
unfolding in_use
session_changed_handler code p = if in_use code p then record p { state = disabled } else p

-- The two lambdas of SetUp, called with a cookie; the other callbacks are not set.
unfoldable pub deliver : SessionCode → Port → Notification → Port
unfolding control_result_handler session_changed_handler
deliver code p (control_result cookie start_resp status) =
    if in_use code p && p.cookie == cookie then control_result_handler code p status else p
deliver code p (session_changed cookie) =
    if in_use code p && p.cookie == cookie then session_changed_handler code p else p
deliver code p (audio_configuration_changed cookie) = p
deliver code p (low_latency_mode_allowed cookie allowed) = p

unfoldable pub deliver_all : SessionCode → Port → List Notification → Port
unfolding deliver
deliver_all code p [] = p
deliver_all code p (n ∷ ns) = deliver_all code (deliver code p n) ns

abbrev pub is_starting : BluetoothStreamState → Bool
is_starting starting = true
is_starting _ = false

abbrev pub is_suspending : BluetoothStreamState → Bool
is_suspending suspending = true
is_suspending _ = false

abbrev pub is_started : BluetoothStreamState → Bool
is_started started = true
is_started _ = false

abbrev pub is_standby : BluetoothStreamState → Bool
is_standby standby = true
is_standby _ = false

abbrev pub is_disabled : BluetoothStreamState → Bool
is_disabled disabled = true
is_disabled _ = false

-- `internal_cv_.wait_for`: a batch holds the callbacks that run between two tests of the condition,
-- and the list ends at the time limit.
unfoldable pub wait_while :
    SessionCode → (BluetoothStreamState → Bool) → Port → List (List Notification) → Bool × Port
unfolding deliver_all
wait_while code pending p [] = (not (pending p.state), p)
wait_while code pending p (batch ∷ batches) =
    let later = wait_while code pending (deliver_all code p batch) batches in
    if pending p.state then later else (true, p)

unfoldable pub condwait_state :
    SessionCode → Port → BluetoothStreamState → List (List Notification) → Bool × Port
unfolding wait_while
condwait_state code p starting batches =
    let (done, p') = wait_while code is_starting p batches in (done && is_started p'.state, p')
condwait_state code p suspending batches =
    let (done, p') = wait_while code is_suspending p batches in (done && is_standby p'.state, p')
condwait_state code p _ batches = (false, p)

-- What the environment does during Start or Suspend: whether the call of the stack succeeds, the
-- callbacks that run before the port waits, and those that run while it waits.
pub record Reply : Type 0 where
  pub ok : Bool
  pub early : List Notification
  pub batches : List (List Notification)

unfoldable pub start : SessionCode → Reply → Registry → Port → Bool × Port × Registry
unfolding in_use deliver_all condwait_state
start code reply r p =
    if in_use code p && is_standby p.state
    then (let p' = record p { state = starting } in
        let ((accepted, calls), r') = Control.start_stream r p.session_type false reply.ok in
        let p'' = deliver_all code p' reply.early in
        let (done, q) = condwait_state code p'' starting reply.batches in
        if accepted then (done, q, r') else (false, p'', r'))
    else (false, p, r)

unfoldable pub suspend : SessionCode → Reply → Registry → Port → Bool × Port × Registry
unfolding in_use deliver_all condwait_state
suspend code reply r p =
    if in_use code p && is_started p.state
    then (let p' = record p { state = suspending } in
        let ((accepted, calls), r') = Control.suspend_stream r p.session_type reply.ok in
        let p'' = deliver_all code p' reply.early in
        let (done, q) = condwait_state code p'' suspending reply.batches in
        if accepted then (done, q, r') else (false, p'', r'))
    else (false, p, r)

unfoldable pub stop : SessionCode → Registry → Port → Port × Registry
unfolding in_use
stop code r p =
    if in_use code p
    then (record p { state = disabled }, (Control.stop_stream r p.session_type).1)
    else (p, r)

unfoldable pub set_state : Port → BluetoothStreamState → Port
set_state p state = record p { state = state }

unfoldable pub force_pcm_stereo_to_mono : Port → Bool → Port
force_pcm_stereo_to_mono p force = record p { is_stereo_to_mono = force }

unfoldable pub is_a2dp : Port → Bool
is_a2dp p = elim p.session_type [
  | a2dp_software_encoding_datapath ↦ true
  | a2dp_hardware_offload_encoding_datapath ↦ true
  | _ ↦ false
]
