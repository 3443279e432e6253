-- ===== src/Codecs/Admitted.antt =====
-- What the checks of BluetoothAudioCodecs.cpp accept, against the advertised capabilities.
use native.Mathlib.Decide.{ℕ_discrete}
use device_blackshark_penros.Base.{Bool, false, none, not, refl, some, true, ◌||◌, ◌↔◌, ◌≡◌}
use device_blackshark_penros.Codecs.Admission.{
  Admits, and-true, contained-IsIn, never, next-IsIn, next-le,
}
use device_blackshark_penros.Codecs.Capabilities.{
  CodecCapabilities, aac_capabilities, aptx_capabilities, fill_in, ldac_capabilities,
  no_capabilities, opus_capabilities, sbc_capabilities,
}
use device_blackshark_penros.Codecs.Checks.{
  check_codec, is_offload_aac_configuration_valid, is_offload_aptx_configuration_valid,
  is_offload_aptx_hd_configuration_valid, is_offload_ldac_configuration_valid,
  is_offload_opus_configuration_valid, is_offload_sbc_configuration_valid,
}
use device_blackshark_penros.Codecs.Tables.{
  default_offload_aac_capability, default_offload_aptx_capability,
  default_offload_aptx_hd_capability, default_offload_ldac_capability,
  default_offload_opus_capability, default_offload_sbc_capability,
}
use device_blackshark_penros.Session.Codec.{
  AacObjectType-discrete, ChannelMode-discrete, CodecSpecific, CodecType, LdacChannelMode-discrete,
  LdacQualityIndex-discrete, SbcAllocMethod-discrete, SbcChannelMode-discrete, aac, aac_config,
  aptx, aptx_adaptive, aptx_config, aptx_hd, lc3, ldac, ldac_config, opus, opus_config,
  other_config, sbc, sbc_config, vendor,
}

sbc-Admits :
    (s : CodecSpecific)
    → (is_offload_sbc_configuration_valid s ≡ true)
      ↔ Admits (sbc_capabilities default_offload_sbc_capability) s
unfolding is_offload_sbc_configuration_valid
sbc-Admits (sbc_config c) =
    let k = default_offload_sbc_capability in
    let rate = contained-IsIn ℕ_discrete k.sample_rate_hz c.sample_rate_hz in
    let blocks = next-IsIn ℕ_discrete k.block_length c.block_length rate in
    let bands = next-IsIn ℕ_discrete k.num_subbands c.num_subbands blocks in
    let bits = next-IsIn ℕ_discrete k.bits_per_sample c.bits_per_sample bands in
    let mode = next-IsIn SbcChannelMode-discrete k.channel_mode c.channel_mode bits in
    let method = next-IsIn SbcAllocMethod-discrete k.alloc_method c.alloc_method mode in
    let ordered = next-le c.min_bitpool c.max_bitpool method in
    let above = next-le k.min_bitpool c.min_bitpool ordered in
    next-le c.max_bitpool k.max_bitpool above
sbc-Admits (aac_config c) = (never, λ h. absurd h)
sbc-Admits (ldac_config c) = (never, λ h. absurd h)
sbc-Admits (aptx_config c) = (never, λ h. absurd h)
sbc-Admits (opus_config c) = (never, λ h. absurd h)
sbc-Admits (other_config c) = (never, λ h. absurd h)

bit_rate-true :
    (enabled supported : Bool)
    → ((not enabled || supported) ≡ true) ↔ (enabled ≡ true → supported ≡ true)
bit_rate-true true supported = (λ h e. h, λ h. h refl)
bit_rate-true false supported = (λ h e. never e, λ h. refl)

aac-Admits :
    (s : CodecSpecific)
    → (is_offload_aac_configuration_valid s ≡ true)
      ↔ Admits (aac_capabilities default_offload_aac_capability) s
unfolding is_offload_aac_configuration_valid
aac-Admits (aac_config c) =
    let k = default_offload_aac_capability in
    let rate = contained-IsIn ℕ_discrete k.sample_rate_hz c.sample_rate_hz in
    let bits = next-IsIn ℕ_discrete k.bits_per_sample c.bits_per_sample rate in
    let mode = next-IsIn ChannelMode-discrete k.channel_mode c.channel_mode bits in
    let object = next-IsIn AacObjectType-discrete k.object_type c.object_type mode in
    and-true _ _ object (bit_rate-true c.variable_bit_rate_enabled k.variable_bit_rate_supported)
aac-Admits (sbc_config c) = (never, λ h. absurd h)
aac-Admits (ldac_config c) = (never, λ h. absurd h)
aac-Admits (aptx_config c) = (never, λ h. absurd h)
aac-Admits (opus_config c) = (never, λ h. absurd h)
aac-Admits (other_config c) = (never, λ h. absurd h)

ldac-Admits :
    (s : CodecSpecific)
    → (is_offload_ldac_configuration_valid s ≡ true)
      ↔ Admits (ldac_capabilities default_offload_ldac_capability) s
unfolding is_offload_ldac_configuration_valid
ldac-Admits (ldac_config c) =
    let k = default_offload_ldac_capability in
    let rate = contained-IsIn ℕ_discrete k.sample_rate_hz c.sample_rate_hz in
    let bits = next-IsIn ℕ_discrete k.bits_per_sample c.bits_per_sample rate in
    let mode = next-IsIn LdacChannelMode-discrete k.channel_mode c.channel_mode bits in
    next-IsIn LdacQualityIndex-discrete k.quality_index c.quality_index mode
ldac-Admits (sbc_config c) = (never, λ h. absurd h)
ldac-Admits (aac_config c) = (never, λ h. absurd h)
ldac-Admits (aptx_config c) = (never, λ h. absurd h)
ldac-Admits (opus_config c) = (never, λ h. absurd h)
ldac-Admits (other_config c) = (never, λ h. absurd h)

aptx-Admits :
    (s : CodecSpecific)
    → (is_offload_aptx_configuration_valid s ≡ true)
      ↔ Admits (aptx_capabilities default_offload_aptx_capability) s
unfolding is_offload_aptx_configuration_valid
aptx-Admits (aptx_config c) =
    let k = default_offload_aptx_capability in
    let rate = contained-IsIn ℕ_discrete k.sample_rate_hz c.sample_rate_hz in
    let bits = next-IsIn ℕ_discrete k.bits_per_sample c.bits_per_sample rate in
    next-IsIn ChannelMode-discrete k.channel_mode c.channel_mode bits
aptx-Admits (sbc_config c) = (never, λ h. absurd h)
aptx-Admits (aac_config c) = (never, λ h. absurd h)
aptx-Admits (ldac_config c) = (never, λ h. absurd h)
aptx-Admits (opus_config c) = (never, λ h. absurd h)
aptx-Admits (other_config c) = (never, λ h. absurd h)

aptx_hd-Admits :
    (s : CodecSpecific)
    → (is_offload_aptx_hd_configuration_valid s ≡ true)
      ↔ Admits (aptx_capabilities default_offload_aptx_hd_capability) s
unfolding is_offload_aptx_hd_configuration_valid
aptx_hd-Admits (aptx_config c) =
    let k = default_offload_aptx_hd_capability in
    let rate = contained-IsIn ℕ_discrete k.sample_rate_hz c.sample_rate_hz in
    let bits = next-IsIn ℕ_discrete k.bits_per_sample c.bits_per_sample rate in
    next-IsIn ChannelMode-discrete k.channel_mode c.channel_mode bits
aptx_hd-Admits (sbc_config c) = (never, λ h. absurd h)
aptx_hd-Admits (aac_config c) = (never, λ h. absurd h)
aptx_hd-Admits (ldac_config c) = (never, λ h. absurd h)
aptx_hd-Admits (opus_config c) = (never, λ h. absurd h)
aptx_hd-Admits (other_config c) = (never, λ h. absurd h)

opus-Admits :
    (s : CodecSpecific)
    → (is_offload_opus_configuration_valid s ≡ true)
      ↔ Admits (opus_capabilities default_offload_opus_capability) s
unfolding is_offload_opus_configuration_valid
opus-Admits (opus_config (some c)) =
    let k = default_offload_opus_capability in
    let rate = contained-IsIn ℕ_discrete k.sampling_frequency_hz c.sampling_frequency_hz in
    let frame = next-IsIn ℕ_discrete k.frame_duration_us c.frame_duration_us rate in
    next-IsIn ChannelMode-discrete k.channel_mode c.channel_mode frame
opus-Admits (opus_config none) = (never, λ h. absurd h)
opus-Admits (sbc_config c) = (never, λ h. absurd h)
opus-Admits (aac_config c) = (never, λ h. absurd h)
opus-Admits (ldac_config c) = (never, λ h. absurd h)
opus-Admits (aptx_config c) = (never, λ h. absurd h)
opus-Admits (other_config c) = (never, λ h. absurd h)

abbrev pub filled : CodecType → CodecCapabilities
filled t = fill_in (record { codec_type = t; capabilities = no_capabilities })

-- The switch, against the capability that the loop fills in for the same codec.
pub check_codec-Admits :
    (t : CodecType) (s : CodecSpecific)
    → (check_codec t s ≡ true) ↔ Admits (filled t).capabilities s
unfolding check_codec fill_in
check_codec-Admits sbc s = sbc-Admits s
check_codec-Admits aac s = aac-Admits s
check_codec-Admits ldac s = ldac-Admits s
check_codec-Admits aptx s = aptx-Admits s
check_codec-Admits aptx_hd s = aptx_hd-Admits s
check_codec-Admits opus s = opus-Admits s
check_codec-Admits CodecType.unknown s = (never, λ h. absurd h)
check_codec-Admits lc3 s = (never, λ h. absurd h)
check_codec-Admits vendor s = (never, λ h. absurd h)
check_codec-Admits aptx_adaptive s = (never, λ h. absurd h)
