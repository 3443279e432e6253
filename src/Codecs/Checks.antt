-- ===== src/Codecs/Checks.antt =====
-- The checks of a configuration in BluetoothAudioCodecs.cpp.
use native.Mathlib.Decide.{ℕ_discrete}
use mathlib.Core.HLevel.{Discrete}
use device_blackshark_penros.Base.{
  Bool, List, [], false, ite, leb, not, some, true, ℕ, ◌&&◌, ◌||◌, ◌∷◌,
}
use device_blackshark_penros.Codecs.Tables.{
  default_offload_aac_capability, default_offload_aptx_capability,
  default_offload_aptx_hd_capability, default_offload_ldac_capability,
  default_offload_opus_capability, default_offload_sbc_capability,
  default_software_pcm_capabilities,
}
use device_blackshark_penros.Session.Codec.{
  AacObjectType-discrete, ChannelMode-discrete, CodecConfiguration, CodecSpecific, CodecType,
  LdacChannelMode-discrete, LdacQualityIndex-discrete, SbcAllocMethod-discrete,
  SbcChannelMode-discrete, aac, aac_config, aptx, aptx_config, aptx_hd, ldac, ldac_config, opus,
  opus_config, sbc, sbc_config,
}
use device_blackshark_penros.Session.Core.{is_offload_a2dp_session}
use device_blackshark_penros.Session.Types.{
  PcmConfiguration, SessionType, le_audio_broadcast_hardware_offload_encoding_datapath,
  le_audio_hardware_offload_decoding_datapath, le_audio_hardware_offload_encoding_datapath,
}

-- `std::find(…) != end()`.
unfoldable pub contained_in_vector {ℓ} : {A : Type ℓ} → Discrete A → List A → A → Bool
contained_in_vector eq [] target = false
contained_in_vector eq (x ∷ xs) target = ite (eq x target) true (contained_in_vector eq xs target)

unfoldable pub is_software_pcm_configuration_valid : PcmConfiguration → Bool
unfolding contained_in_vector
is_software_pcm_configuration_valid c =
    let k = default_software_pcm_capabilities in
    contained_in_vector ℕ_discrete k.sample_rate_hz c.sample_rate_hz
    && contained_in_vector ℕ_discrete k.bits_per_sample c.bits_per_sample
    && contained_in_vector ChannelMode-discrete k.channel_mode c.channel_mode

unfoldable pub is_offload_sbc_configuration_valid : CodecSpecific → Bool
unfolding contained_in_vector
is_offload_sbc_configuration_valid (sbc_config c) =
    let k = default_offload_sbc_capability in
    contained_in_vector ℕ_discrete k.sample_rate_hz c.sample_rate_hz
    && contained_in_vector ℕ_discrete k.block_length c.block_length
    && contained_in_vector ℕ_discrete k.num_subbands c.num_subbands
    && contained_in_vector ℕ_discrete k.bits_per_sample c.bits_per_sample
    && contained_in_vector SbcChannelMode-discrete k.channel_mode c.channel_mode
    && contained_in_vector SbcAllocMethod-discrete k.alloc_method c.alloc_method
    && leb c.min_bitpool c.max_bitpool
    && leb k.min_bitpool c.min_bitpool
    && leb c.max_bitpool k.max_bitpool
is_offload_sbc_configuration_valid _ = false

unfoldable pub is_offload_aac_configuration_valid : CodecSpecific → Bool
unfolding contained_in_vector
is_offload_aac_configuration_valid (aac_config c) =
    let k = default_offload_aac_capability in
    contained_in_vector ℕ_discrete k.sample_rate_hz c.sample_rate_hz
    && contained_in_vector ℕ_discrete k.bits_per_sample c.bits_per_sample
    && contained_in_vector ChannelMode-discrete k.channel_mode c.channel_mode
    && contained_in_vector AacObjectType-discrete k.object_type c.object_type
    && (not c.variable_bit_rate_enabled || k.variable_bit_rate_supported)
is_offload_aac_configuration_valid _ = false

unfoldable pub is_offload_ldac_configuration_valid : CodecSpecific → Bool
unfolding contained_in_vector
is_offload_ldac_configuration_valid (ldac_config c) =
    let k = default_offload_ldac_capability in
    contained_in_vector ℕ_discrete k.sample_rate_hz c.sample_rate_hz
    && contained_in_vector ℕ_discrete k.bits_per_sample c.bits_per_sample
    && contained_in_vector LdacChannelMode-discrete k.channel_mode c.channel_mode
    && contained_in_vector LdacQualityIndex-discrete k.quality_index c.quality_index
is_offload_ldac_configuration_valid _ = false

unfoldable pub is_offload_aptx_configuration_valid : CodecSpecific → Bool
unfolding contained_in_vector
is_offload_aptx_configuration_valid (aptx_config c) =
    let k = default_offload_aptx_capability in
    contained_in_vector ℕ_discrete k.sample_rate_hz c.sample_rate_hz
    && contained_in_vector ℕ_discrete k.bits_per_sample c.bits_per_sample
    && contained_in_vector ChannelMode-discrete k.channel_mode c.channel_mode
is_offload_aptx_configuration_valid _ = false

unfoldable pub is_offload_aptx_hd_configuration_valid : CodecSpecific → Bool
unfolding contained_in_vector
is_offload_aptx_hd_configuration_valid (aptx_config c) =
    let k = default_offload_aptx_hd_capability in
    contained_in_vector ℕ_discrete k.sample_rate_hz c.sample_rate_hz
    && contained_in_vector ℕ_discrete k.bits_per_sample c.bits_per_sample
    && contained_in_vector ChannelMode-discrete k.channel_mode c.channel_mode
is_offload_aptx_hd_configuration_valid _ = false

unfoldable pub is_offload_opus_configuration_valid : CodecSpecific → Bool
unfolding contained_in_vector
is_offload_opus_configuration_valid (opus_config (some c)) =
    let k = default_offload_opus_capability in
    contained_in_vector ℕ_discrete k.sampling_frequency_hz c.sampling_frequency_hz
    && contained_in_vector ℕ_discrete k.frame_duration_us c.frame_duration_us
    && contained_in_vector ChannelMode-discrete k.channel_mode c.channel_mode
is_offload_opus_configuration_valid _ = false

-- The `switch` of `IsOffloadCodecConfigurationValid`.
unfoldable pub check_codec : CodecType → CodecSpecific → Bool
unfolding is_offload_sbc_configuration_valid is_offload_aac_configuration_valid
    is_offload_ldac_configuration_valid is_offload_aptx_configuration_valid
    is_offload_aptx_hd_configuration_valid is_offload_opus_configuration_valid
check_codec sbc specific = is_offload_sbc_configuration_valid specific
check_codec aac specific = is_offload_aac_configuration_valid specific
check_codec ldac specific = is_offload_ldac_configuration_valid specific
check_codec aptx specific = is_offload_aptx_configuration_valid specific
check_codec aptx_hd specific = is_offload_aptx_hd_configuration_valid specific
check_codec opus specific = is_offload_opus_configuration_valid specific
check_codec _ specific = false

unfoldable pub is_offload_codec_configuration_valid : SessionType → CodecConfiguration → Bool
unfolding check_codec
is_offload_codec_configuration_valid t c =
    is_offload_a2dp_session t && check_codec c.codec_type c.config

-- The types for which LE audio configurations are offloaded, broadcasts included.
unfoldable pub is_offload_le_audio_type : SessionType → Bool
is_offload_le_audio_type le_audio_hardware_offload_encoding_datapath = true
is_offload_le_audio_type le_audio_hardware_offload_decoding_datapath = true
is_offload_le_audio_type le_audio_broadcast_hardware_offload_encoding_datapath = true
is_offload_le_audio_type _ = false

unfoldable pub is_offload_le_audio_configuration_valid : SessionType → ℕ → Bool
unfolding is_offload_le_audio_type
is_offload_le_audio_configuration_valid t c = is_offload_le_audio_type t
