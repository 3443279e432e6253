-- ===== src/Provider/Types.antt =====
-- The state of a provider of bluetooth/audio/hal, and what its operations answer.
use device_blackshark_penros.Base.{Bool, List, Option, [], false, none, some, ℕ, ◌*◌}
use device_blackshark_penros.Control.Sessions.{Registry}
use device_blackshark_penros.Session.Types.{
  AudioConfiguration, DataMq, LatencyMode, Notification, SessionType, a2dp_config,
  le_audio_broadcast_config, le_audio_config, pcm_config,
}

-- The classes that `BluetoothAudioProvider` has below it; those that only differ in the session type
-- that their constructor sets are one.
pub data ProviderClass : Type 0 where
  a2dp_software a2dp_offload hearing_aid le_audio_software le_audio_offload : ProviderClass

pub record Provider : Type 0 where
  pub provider_class : ProviderClass
  pub session_type : SessionType
  pub stack_iface : Option ℕ
  pub audio_config : Option AudioConfiguration
  pub latency_modes : List LatencyMode
  pub is_binder_died : Bool
  pub data_mq : Option DataMq

-- `ScopedAStatus::ok()` and EX_ILLEGAL_ARGUMENT.
pub data ScopedAStatus : Type 0 where
  succeeded illegal_argument : ScopedAStatus

-- What a call leaves: its status, the descriptor it returns, the provider, the sessions, and the
-- callbacks that the session invoked. No descriptor is the empty `DataMQDesc()`.
pub record Outcome : Type 0 where
  pub status : ScopedAStatus
  pub desc : Option DataMq
  pub provider : Provider
  pub registry : Registry
  pub told : List Notification

abbrev pub refuse : Provider → Registry → Outcome
refuse p r = record {
  status = illegal_argument;
  desc = none;
  provider = p;
  registry = r;
  told = [];
}

abbrev pub mq_is_good : Option DataMq → Bool
mq_is_good none = false
mq_is_good (some mq) = mq.is_valid

-- The sizes of the queues that the constructors make.
abbrev pub a2dp_data_mq_size : ℕ
a2dp_data_mq_size = 4 * 96 * 10 * 2

abbrev pub hearing_aid_data_mq_size : ℕ
hearing_aid_data_mq_size = 4 * 128 * 7 * 1

abbrev pub buffer_out_count : ℕ
buffer_out_count = 2

abbrev pub buffer_in_count : ℕ
buffer_in_count = 2

-- `getTag()`
pub data Tag : Type 0 where
  pcm_tag a2dp_tag le_audio_tag le_audio_broadcast_tag : Tag

unfoldable pub Tag-discrete : Discrete Tag
Tag-discrete = hlevel

abbrev pub get_tag : AudioConfiguration → Tag
get_tag (pcm_config c) = pcm_tag
get_tag (a2dp_config c) = a2dp_tag
get_tag (le_audio_config c) = le_audio_tag
get_tag (le_audio_broadcast_config c) = le_audio_broadcast_tag
