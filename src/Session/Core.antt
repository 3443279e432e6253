-- ===== src/Session/Core.antt =====
-- BluetoothAudioSession.cpp: the session's state and its operations, less the PCM loops. Each
-- operation runs whole under the session's mutex. A report returns the callbacks that it invokes,
-- in the order of the map; `isOk()` of a call of the stack is an argument.
use device_blackshark_penros.Base.{
  Bool, List, Option, [], erase, false, if◌then◌else◌, is_some, leb, lookup, map, none, some, suc,
  true, zero, ℕ, ◌&&◌, ◌+◌, ◌||◌, ◌∷◌,
}
use device_blackshark_penros.Session.Cookies.{
  SessionCode, observers_cookie_get_init_value, observers_cookie_get_upper_bound,
  observers_cookie_size, observers_cookie_undefined,
}
use device_blackshark_penros.Session.Types.{
  AudioConfiguration, BluetoothAudioStatus, DataMq, Defaults, LatencyMode, Notification,
  PortStatusCallbacks, SessionType, a2dp_config, a2dp_hardware_offload_decoding_datapath,
  a2dp_hardware_offload_encoding_datapath, a2dp_software_decoding_datapath,
  a2dp_software_encoding_datapath, audio_configuration_changed, control_result,
  hearing_aid_software_encoding_datapath, le_audio_broadcast_config,
  le_audio_broadcast_hardware_offload_encoding_datapath,
  le_audio_broadcast_software_encoding_datapath, le_audio_config,
  le_audio_hardware_offload_decoding_datapath, le_audio_hardware_offload_encoding_datapath,
  le_audio_software_decoding_datapath, le_audio_software_encoding_datapath,
  low_latency_mode_allowed, pcm_config, session_changed,
}

pub record Session : Type 0 where
  pub session_type : SessionType
  pub stack_iface : Option ℕ
  pub data_mq : Option DataMq
  pub audio_config : Option AudioConfiguration
  pub latency_modes : List LatencyMode
  pub low_latency_allowed : Bool
  pub observers : List (ℕ × PortStatusCallbacks)

-- The constructor.
unfoldable pub new_session : SessionType → Session
new_session t = record {
  session_type = t;
  stack_iface = none;
  data_mq = none;
  audio_config = none;
  latency_modes = [];
  low_latency_allowed = true;
  observers = [];
}

-- The types for which `IsSessionReady` asks for no message queue.
unfoldable pub is_offload : SessionType → Bool
is_offload a2dp_hardware_offload_encoding_datapath = true
is_offload le_audio_hardware_offload_encoding_datapath = true
is_offload le_audio_hardware_offload_decoding_datapath = true
is_offload le_audio_broadcast_hardware_offload_encoding_datapath = true
is_offload a2dp_hardware_offload_decoding_datapath = true
is_offload _ = false

abbrev mq_is_valid : Option DataMq → Bool
mq_is_valid none = false
mq_is_valid (some mq) = mq.is_valid

unfoldable pub is_session_ready : Session → Bool
unfolding is_offload
is_session_ready s =
    is_some s.stack_iface
    && (is_offload s.session_type || mq_is_valid s.data_mq)
    && is_some s.audio_config

-- The descriptor is the queue that `new DataMQ(*mq_desc)` opens.
unfoldable pub update_data_path : Session → Option DataMq → Session × Bool
update_data_path s none = (record s { data_mq = none }, true)
update_data_path s (some mq) =
    if mq.is_valid
    then (record s { data_mq = some mq }, true)
    else (record s { data_mq = none }, false)

unfoldable pub is_software_session : SessionType → Bool
is_software_session a2dp_software_encoding_datapath = true
is_software_session hearing_aid_software_encoding_datapath = true
is_software_session le_audio_software_decoding_datapath = true
is_software_session le_audio_software_encoding_datapath = true
is_software_session le_audio_broadcast_software_encoding_datapath = true
is_software_session a2dp_software_decoding_datapath = true
is_software_session _ = false

unfoldable pub is_offload_a2dp_session : SessionType → Bool
is_offload_a2dp_session a2dp_hardware_offload_encoding_datapath = true
is_offload_a2dp_session a2dp_hardware_offload_decoding_datapath = true
is_offload_a2dp_session _ = false

unfoldable pub is_offload_le_audio_session : SessionType → Bool
is_offload_le_audio_session le_audio_hardware_offload_encoding_datapath = true
is_offload_le_audio_session le_audio_hardware_offload_decoding_datapath = true
is_offload_le_audio_session _ = false

-- `getTag()` compared with the one tag that fits the kind of session.
unfoldable pub config_fits : SessionType → AudioConfiguration → Bool
unfolding is_software_session is_offload_a2dp_session is_offload_le_audio_session
config_fits t (pcm_config c) = is_software_session t
config_fits t (a2dp_config c) = is_offload_a2dp_session t
config_fits t (le_audio_config c) = is_offload_le_audio_session t
config_fits t (le_audio_broadcast_config c) = false

unfoldable pub update_audio_config : Session → AudioConfiguration → Session × Bool
unfolding config_fits
update_audio_config s c =
    if config_fits s.session_type c then (record s { audio_config = some c }, true) else (s, false)

unfoldable pub report_session_status : Session → List Notification
report_session_status s = map (λ o. session_changed o.0) s.observers

-- The last two branches of `OnSessionStarted`, once the configuration is stored.
unfoldable pub start_data_path :
    Session → ℕ → Option DataMq → List LatencyMode → Session × List Notification
unfolding update_data_path report_session_status
start_data_path s iface desc modes =
    let (s', done) = update_data_path s desc in
    if done
    then (let s'' = record s' { stack_iface = some iface; latency_modes = modes } in
        (s'', report_session_status s''))
    else (record s' { audio_config = none }, [])

unfoldable pub on_session_started :
    Session
    → Option ℕ
    → Option DataMq
    → AudioConfiguration
    → List LatencyMode
    → Session × List Notification
unfolding update_audio_config start_data_path
on_session_started s none desc config modes = (s, [])
on_session_started s (some iface) desc config modes =
    let (s', fits) = update_audio_config s config in
    if fits then start_data_path s' iface desc modes else (s, [])

unfoldable pub on_session_ended : Session → Session × List Notification
unfolding is_session_ready update_data_path report_session_status
on_session_ended s =
    let toggled = is_session_ready s in
    let cleared = record s { audio_config = none; stack_iface = none } in
    let (s', _) = update_data_path cleared none in
    (s', if toggled then report_session_status s' else [])

abbrev pub default_config : Defaults → SessionType → AudioConfiguration
default_config d a2dp_hardware_offload_encoding_datapath = a2dp_config d.codec
default_config d a2dp_hardware_offload_decoding_datapath = a2dp_config d.codec
default_config d le_audio_hardware_offload_encoding_datapath = le_audio_config d.le_audio
default_config d le_audio_hardware_offload_decoding_datapath = le_audio_config d.le_audio
default_config d le_audio_broadcast_hardware_offload_encoding_datapath =
    le_audio_broadcast_config d.le_audio_broadcast
default_config d _ = pcm_config d.pcm

abbrev or_default : Option AudioConfiguration → AudioConfiguration → AudioConfiguration
or_default none d = d
or_default (some c) d = c

-- A ready session has a configuration, so `*audio_config_` is read only where it is set.
unfoldable pub get_audio_config : Defaults → Session → AudioConfiguration
unfolding is_session_ready
get_audio_config d s =
    let default = default_config d s.session_type in
    if is_session_ready s then or_default s.audio_config default else default

abbrev config_changed : List (ℕ × PortStatusCallbacks) → List Notification
config_changed [] = []
config_changed ((cookie, cb) ∷ os) =
    if cb.has_audio_configuration_changed_cb
    then audio_configuration_changed cookie ∷ config_changed os
    else config_changed os

unfoldable pub report_audio_config_changed :
    Session → AudioConfiguration → Session × List Notification
unfolding is_offload_le_audio_session
report_audio_config_changed s c =
    if is_offload_le_audio_session s.session_type
    then (record s { audio_config = some c }, config_changed s.observers)
    else (s, [])

-- The `while` of `RegisterStatusCback`, on the rounds left.
unfoldable pub find_cookie : ℕ → ℕ → List (ℕ × PortStatusCallbacks) → ℕ
find_cookie zero cookie os = cookie
find_cookie (suc rounds) cookie os =
    let next = find_cookie rounds (cookie + 1) os in
    if is_some (lookup cookie os) then next else cookie

unfoldable pub register_status_cback : SessionCode → Session → PortStatusCallbacks → Session × ℕ
unfolding find_cookie observers_cookie_get_init_value observers_cookie_get_upper_bound
register_status_cback code s cb =
    let start = observers_cookie_get_init_value code s.session_type in
    let cookie = find_cookie observers_cookie_size start s.observers in
    if leb (observers_cookie_get_upper_bound code s.session_type) cookie
    then (s, observers_cookie_undefined code)
    else (record s { observers = (cookie, cb) ∷ s.observers }, cookie)

unfoldable pub unregister_status_cback : Session → ℕ → Session
unregister_status_cback s cookie = record s { observers = erase cookie s.observers }

unfoldable pub report_control_status : Session → Bool → BluetoothAudioStatus → List Notification
report_control_status s start_resp status =
    map (λ o. control_result o.0 start_resp status) s.observers

abbrev low_latency_changed : Bool → List (ℕ × PortStatusCallbacks) → List Notification
low_latency_changed allowed [] = []
low_latency_changed allowed ((cookie, cb) ∷ os) =
    if cb.has_low_latency_mode_allowed_cb
    then low_latency_mode_allowed cookie allowed ∷ low_latency_changed allowed os
    else low_latency_changed allowed os

unfoldable pub report_low_latency_mode_allowed_changed :
    Session → Bool → Session × List Notification
report_low_latency_mode_allowed_changed s allowed =
    (record s { low_latency_allowed = allowed }, low_latency_changed allowed s.observers)
