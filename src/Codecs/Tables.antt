-- ===== src/Codecs/Tables.antt =====
-- The constant tables of BluetoothAudioCodecs.cpp.
use device_blackshark_penros.Base.{Bool, List, [], true, ℕ, ◌∷◌}
use device_blackshark_penros.Session.Codec.{
  AacObjectType, ChannelMode, LdacChannelMode, LdacQualityIndex, SbcAllocMethod, SbcChannelMode,
  alloc_md_l, high, joint_stereo, mpeg2_lc,
}

pub record PcmCapabilities : Type 0 where
  pub sample_rate_hz : List ℕ
  pub channel_mode : List ChannelMode
  pub bits_per_sample : List ℕ
  pub data_interval_us : List ℕ

pub record SbcCapabilities : Type 0 where
  pub sample_rate_hz : List ℕ
  pub channel_mode : List SbcChannelMode
  pub block_length : List ℕ
  pub num_subbands : List ℕ
  pub alloc_method : List SbcAllocMethod
  pub bits_per_sample : List ℕ
  pub min_bitpool : ℕ
  pub max_bitpool : ℕ

pub record AacCapabilities : Type 0 where
  pub object_type : List AacObjectType
  pub sample_rate_hz : List ℕ
  pub channel_mode : List ChannelMode
  pub variable_bit_rate_supported : Bool
  pub bits_per_sample : List ℕ

pub record LdacCapabilities : Type 0 where
  pub sample_rate_hz : List ℕ
  pub channel_mode : List LdacChannelMode
  pub quality_index : List LdacQualityIndex
  pub bits_per_sample : List ℕ

pub record AptxCapabilities : Type 0 where
  pub sample_rate_hz : List ℕ
  pub channel_mode : List ChannelMode
  pub bits_per_sample : List ℕ

pub record OpusCapabilities : Type 0 where
  pub sampling_frequency_hz : List ℕ
  pub frame_duration_us : List ℕ
  pub channel_mode : List ChannelMode

abbrev pub default_software_pcm_capabilities : PcmCapabilities
default_software_pcm_capabilities = record {
  sample_rate_hz = 16000 ∷ 24000 ∷ 32000 ∷ 44100 ∷ 48000 ∷ 88200 ∷ 96000 ∷ [];
  channel_mode = ChannelMode.mono ∷ ChannelMode.stereo ∷ [];
  bits_per_sample = 16 ∷ 24 ∷ 32 ∷ [];
  data_interval_us = [];
}

abbrev pub default_offload_sbc_capability : SbcCapabilities
default_offload_sbc_capability = record {
  sample_rate_hz = 44100 ∷ [];
  channel_mode = SbcChannelMode.mono ∷ joint_stereo ∷ [];
  block_length = 4 ∷ 8 ∷ 12 ∷ 16 ∷ [];
  num_subbands = 8 ∷ [];
  alloc_method = alloc_md_l ∷ [];
  bits_per_sample = 16 ∷ [];
  min_bitpool = 2;
  max_bitpool = 53;
}

abbrev pub default_offload_aac_capability : AacCapabilities
default_offload_aac_capability = record {
  object_type = mpeg2_lc ∷ [];
  sample_rate_hz = 44100 ∷ [];
  channel_mode = ChannelMode.stereo ∷ [];
  variable_bit_rate_supported = true;
  bits_per_sample = 16 ∷ [];
}

abbrev pub default_offload_ldac_capability : LdacCapabilities
default_offload_ldac_capability = record {
  sample_rate_hz = 44100 ∷ 48000 ∷ 88200 ∷ 96000 ∷ [];
  channel_mode = LdacChannelMode.dual ∷ LdacChannelMode.stereo ∷ [];
  quality_index = high ∷ [];
  bits_per_sample = 16 ∷ 24 ∷ 32 ∷ [];
}

abbrev pub default_offload_aptx_capability : AptxCapabilities
default_offload_aptx_capability = record {
  sample_rate_hz = 44100 ∷ 48000 ∷ [];
  channel_mode = ChannelMode.stereo ∷ [];
  bits_per_sample = 16 ∷ [];
}

abbrev pub default_offload_aptx_hd_capability : AptxCapabilities
default_offload_aptx_hd_capability = record {
  sample_rate_hz = 44100 ∷ 48000 ∷ [];
  channel_mode = ChannelMode.stereo ∷ [];
  bits_per_sample = 24 ∷ [];
}

abbrev pub default_offload_opus_capability : OpusCapabilities
default_offload_opus_capability = record {
  sampling_frequency_hz = 48000 ∷ [];
  frame_duration_us = 10000 ∷ 20000 ∷ [];
  channel_mode = ChannelMode.mono ∷ ChannelMode.stereo ∷ [];
}
