-- ===== src/Provider/Factory.antt =====
-- BluetoothAudioProviderFactory.cpp, and the constructors and `isValid` of the providers.
use device_blackshark_penros.Base.{
  Bool, List, Option, [], false, if◌then◌else◌, ite, map, none, not, some, true, ℕ, ◌&&◌, ◌>>=◌,
  ◌||◌,
}
use device_blackshark_penros.Codecs.Capabilities.{
  CodecCapabilities, get_a2dp_offload_codec_capabilities, get_software_pcm_capabilities,
}
use device_blackshark_penros.Codecs.Checks.{is_offload_le_audio_type}
use device_blackshark_penros.Codecs.LeAudio.{
  Cache, LeAudioCodecCapabilitiesSetting, get_le_audio_offload_codec_capabilities,
}
use device_blackshark_penros.Codecs.Tables.{PcmCapabilities}
use device_blackshark_penros.Provider.Types.{
  Provider, ProviderClass, a2dp_data_mq_size, a2dp_offload, a2dp_software, hearing_aid,
  hearing_aid_data_mq_size, le_audio_offload, le_audio_software, mq_is_good,
}
use device_blackshark_penros.Session.Core.{is_offload_a2dp_session}
use device_blackshark_penros.Session.Types.{
  DataMq, SessionType, SessionType-discrete, a2dp_hardware_offload_decoding_datapath,
  a2dp_hardware_offload_encoding_datapath, a2dp_software_decoding_datapath,
  a2dp_software_encoding_datapath, hearing_aid_software_encoding_datapath,
  le_audio_broadcast_hardware_offload_encoding_datapath,
  le_audio_broadcast_software_encoding_datapath, le_audio_hardware_offload_decoding_datapath,
  le_audio_hardware_offload_encoding_datapath, le_audio_software_decoding_datapath,
  le_audio_software_encoding_datapath,
}

abbrev pub fresh : ProviderClass → SessionType → Option DataMq → Provider
fresh provider_class t mq = record {
  provider_class = provider_class;
  session_type = t;
  stack_iface = none;
  audio_config = none;
  latency_modes = [];
  is_binder_died = false;
  data_mq = mq;
}

-- The queue of a constructor: kept where it is valid.
abbrev pub kept : DataMq → Option DataMq
kept mq = if mq.is_valid then some mq else none

abbrev pub needs_mq : ProviderClass → Bool
needs_mq a2dp_software = true
needs_mq hearing_aid = true
needs_mq _ = false

-- `isValid`.
unfoldable pub is_valid_provider : Provider → SessionType → Bool
is_valid_provider p t =
    ite (SessionType-discrete t p.session_type) true false
    && (not (needs_mq p.provider_class) || mq_is_good p.data_mq)

module _ (allocate : ℕ → DataMq) where
  -- The switch of `openProvider`.
  unfoldable pub new_provider : SessionType → Option Provider
  new_provider SessionType.unknown = none
  new_provider a2dp_software_encoding_datapath =
      some (fresh a2dp_software a2dp_software_encoding_datapath (kept (allocate a2dp_data_mq_size)))
  new_provider a2dp_hardware_offload_encoding_datapath =
      some (fresh a2dp_offload a2dp_hardware_offload_encoding_datapath none)
  new_provider hearing_aid_software_encoding_datapath = some (
      fresh hearing_aid hearing_aid_software_encoding_datapath
        (kept (allocate hearing_aid_data_mq_size)))
  new_provider le_audio_software_encoding_datapath =
      some (fresh le_audio_software le_audio_software_encoding_datapath none)
  new_provider le_audio_software_decoding_datapath =
      some (fresh le_audio_software le_audio_software_decoding_datapath none)
  new_provider le_audio_hardware_offload_encoding_datapath =
      some (fresh le_audio_offload le_audio_hardware_offload_encoding_datapath none)
  new_provider le_audio_hardware_offload_decoding_datapath =
      some (fresh le_audio_offload le_audio_hardware_offload_decoding_datapath none)
  new_provider le_audio_broadcast_software_encoding_datapath =
      some (fresh le_audio_software le_audio_broadcast_software_encoding_datapath none)
  new_provider le_audio_broadcast_hardware_offload_encoding_datapath =
      some (fresh le_audio_offload le_audio_broadcast_hardware_offload_encoding_datapath none)
  new_provider a2dp_software_decoding_datapath =
      some (fresh a2dp_software a2dp_software_decoding_datapath (kept (allocate a2dp_data_mq_size)))
  new_provider a2dp_hardware_offload_decoding_datapath =
      some (fresh a2dp_offload a2dp_hardware_offload_decoding_datapath none)

  -- `none` is the answer EX_ILLEGAL_ARGUMENT.
  unfoldable pub open_provider : SessionType → Option Provider
  unfolding new_provider is_valid_provider
  open_provider t = new_provider t >>= (λ p. if is_valid_provider p t then some p else none)

-- A tagged union.
pub data AudioCapabilities : Type 0 where
  a2dp_capabilities : CodecCapabilities → AudioCapabilities
  le_audio_capabilities : LeAudioCodecCapabilitiesSetting → AudioCapabilities
  pcm_capabilities : PcmCapabilities → AudioCapabilities

abbrev is_unknown_type : SessionType → Bool
is_unknown_type SessionType.unknown = true
is_unknown_type _ = false

-- The answer, and the static variable of the LE audio list after it.
unfoldable pub get_provider_capabilities : Cache → SessionType → List AudioCapabilities × Cache
get_provider_capabilities cache t =
    let (settings, cache') = get_le_audio_offload_codec_capabilities cache t in
    if is_offload_a2dp_session t
    then (map a2dp_capabilities (get_a2dp_offload_codec_capabilities t), cache)
    else if is_offload_le_audio_type t
    then (map le_audio_capabilities settings, cache')
    else if is_unknown_type t
    then ([], cache)
    else (map pcm_capabilities get_software_pcm_capabilities, cache)
