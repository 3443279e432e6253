-- ===== src/Session/Types.antt =====
-- The AIDL types that BluetoothAudioSession.{h,cpp} use. The interface files that declare them are
-- not part of the repository: an enumeration lists the constants that the source names, and a
-- parcelable that the source only passes on is a number.
use device_blackshark_penros.Base.{Bool, List, ℕ}
use device_blackshark_penros.Session.Codec.{ChannelMode, CodecConfiguration}

pub data SessionType : Type 0 where
  unknown : SessionType
  a2dp_software_encoding_datapath : SessionType
  a2dp_hardware_offload_encoding_datapath : SessionType
  hearing_aid_software_encoding_datapath : SessionType
  le_audio_software_encoding_datapath : SessionType
  le_audio_software_decoding_datapath : SessionType
  le_audio_hardware_offload_encoding_datapath : SessionType
  le_audio_hardware_offload_decoding_datapath : SessionType
  le_audio_broadcast_software_encoding_datapath : SessionType
  le_audio_broadcast_hardware_offload_encoding_datapath : SessionType
  a2dp_software_decoding_datapath : SessionType
  a2dp_hardware_offload_decoding_datapath : SessionType

unfoldable pub SessionType-discrete : Discrete SessionType
SessionType-discrete = hlevel

-- The status of a control result. `other` stands for the constants that the source does not name.
pub data BluetoothAudioStatus : Type 0 where
  success unsupported_codec_configuration reconfiguration other : BluetoothAudioStatus

pub record PcmConfiguration : Type 0 where
  pub sample_rate_hz : ℕ
  pub channel_mode : ChannelMode
  pub bits_per_sample : ℕ
  pub data_interval_us : ℕ

-- A tagged union; the parcelables of LE audio are only passed on.
pub data AudioConfiguration : Type 0 where
  pcm_config : PcmConfiguration → AudioConfiguration
  a2dp_config : CodecConfiguration → AudioConfiguration
  le_audio_config : ℕ → AudioConfiguration
  le_audio_broadcast_config : ℕ → AudioConfiguration

pub data LatencyMode : Type 0 where
  free low_latency : LatencyMode

-- An `AidlMessageQueue` built from a descriptor; `isValid()` is its answer.
pub record DataMq : Type 0 where
  pub queue : ℕ
  pub is_valid : Bool

pub record PresentationPosition : Type 0 where
  pub remote_device_audio_delay_nanos : ℕ
  pub transmitted_octets : ℕ
  pub tv_sec : ℕ
  pub tv_nsec : ℕ

-- The default-constructed parcelables.
pub record Defaults : Type 0 where
  pub pcm : PcmConfiguration
  pub codec : CodecConfiguration
  pub le_audio : ℕ
  pub le_audio_broadcast : ℕ
  pub position : PresentationPosition

-- One track of `source_metadata` or `sink_metadata`, with what the source copies of it.
pub record Track : Type 0 where
  pub usage : ℕ
  pub content_type : ℕ
  pub gain : ℕ

-- What a call of `IBluetoothAudioPort` asks of the Bluetooth stack.
pub data StackCall : Type 0 where
  start_stream : Bool → StackCall
  suspend_stream : StackCall
  stop_stream : StackCall
  get_presentation_position : StackCall
  update_source_metadata : List Track → StackCall
  update_sink_metadata : List Track → StackCall
  set_latency_mode : LatencyMode → StackCall

-- `PortStatusCallbacks`: the output whose handlers the two mandatory callbacks run, and whether the
-- other two are set.
pub record PortStatusCallbacks : Type 0 where
  pub port : ℕ
  pub has_audio_configuration_changed_cb : Bool
  pub has_low_latency_mode_allowed_cb : Bool

-- A callback as it is invoked: the cookie is its first argument.
pub data Notification : Type 0 where
  control_result : ℕ → Bool → BluetoothAudioStatus → Notification
  session_changed : ℕ → Notification
  audio_configuration_changed : ℕ → Notification
  low_latency_mode_allowed : ℕ → Bool → Notification
