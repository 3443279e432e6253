-- ===== src/Hidl/Types.antt =====
-- The HIDL types of HidlToAidlMiddleware.cpp, with the constants that it names.
use device_blackshark_penros.Base.{Bool, Option, ℕ}

-- SessionType_2_1; a SessionType_2_0 is cast to it.
pub data HidlSessionType : Type 0 where
  unknown : HidlSessionType
  a2dp_software_encoding_datapath : HidlSessionType
  a2dp_hardware_offload_datapath : HidlSessionType
  hearing_aid_software_encoding_datapath : HidlSessionType
  le_audio_software_encoding_datapath : HidlSessionType
  le_audio_software_decoded_datapath : HidlSessionType
  le_audio_hardware_offload_encoding_datapath : HidlSessionType
  le_audio_hardware_offload_decoding_datapath : HidlSessionType

pub data HidlStatus : Type 0 where
  success unsupported_codec_configuration failure : HidlStatus

-- SampleRate_2_1. A cast to SampleRate_2_0 keeps the number, also of 8000 and 32000, which that type
-- does not name.
pub data SampleRate : Type 0 where
  rate_unknown rate_44100 rate_48000 rate_88200 rate_96000 rate_176400 : SampleRate
  rate_192000 rate_16000 rate_24000 rate_8000 rate_32000 : SampleRate

pub data BitsPerSample : Type 0 where
  bits_unknown bits_16 bits_24 bits_32 : BitsPerSample

pub data HidlChannelMode : Type 0 where
  unknown mono stereo : HidlChannelMode

pub data HidlCodecType : Type 0 where
  unknown sbc aac aptx aptx_hd ldac : HidlCodecType

pub data HidlSbcChannelMode : Type 0 where
  unknown joint_stereo stereo dual mono : HidlSbcChannelMode

pub data SbcBlockLength : Type 0 where
  blocks_4 blocks_8 blocks_12 blocks_16 : SbcBlockLength

pub data SbcNumSubbands : Type 0 where
  subband_4 subband_8 : SbcNumSubbands

pub data HidlSbcAllocMethod : Type 0 where
  alloc_md_s alloc_md_l : HidlSbcAllocMethod

pub data HidlAacObjectType : Type 0 where
  mpeg2_lc mpeg4_lc mpeg4_ltp mpeg4_scalable : HidlAacObjectType

pub data AacVariableBitRate : Type 0 where
  disabled enabled : AacVariableBitRate

pub data HidlLdacChannelMode : Type 0 where
  unknown stereo dual mono : HidlLdacChannelMode

pub data HidlLdacQualityIndex : Type 0 where
  quality_high quality_mid quality_low quality_abr : HidlLdacQualityIndex

-- PcmParameters of 2.1; those of 2.0 have no interval.
pub record PcmParameters : Type 0 where
  pub sample_rate : SampleRate
  pub channel_mode : HidlChannelMode
  pub bits_per_sample : BitsPerSample

pub record SbcParameters : Type 0 where
  pub sample_rate : SampleRate
  pub channel_mode : HidlSbcChannelMode
  pub block_length : SbcBlockLength
  pub num_subbands : SbcNumSubbands
  pub alloc_method : HidlSbcAllocMethod
  pub bits_per_sample : BitsPerSample
  pub min_bitpool : ℕ
  pub max_bitpool : ℕ

pub record AacParameters : Type 0 where
  pub object_type : HidlAacObjectType
  pub sample_rate : SampleRate
  pub channel_mode : HidlChannelMode
  pub variable_bit_rate_enabled : AacVariableBitRate
  pub bits_per_sample : BitsPerSample

pub record LdacParameters : Type 0 where
  pub sample_rate : SampleRate
  pub channel_mode : HidlLdacChannelMode
  pub quality_index : HidlLdacQualityIndex
  pub bits_per_sample : BitsPerSample

pub record AptxParameters : Type 0 where
  pub sample_rate : SampleRate
  pub channel_mode : HidlChannelMode
  pub bits_per_sample : BitsPerSample

-- The union of a codec's parameters: `unset` is the one that was never assigned.
pub data HidlCodecSpecific : Type 0 where
  unset : HidlCodecSpecific
  sbc_config : SbcParameters → HidlCodecSpecific
  aac_config : AacParameters → HidlCodecSpecific
  ldac_config : LdacParameters → HidlCodecSpecific
  aptx_config : AptxParameters → HidlCodecSpecific

pub record HidlCodecConfiguration : Type 0 where
  pub codec_type : HidlCodecType
  pub encoded_audio_bitrate : ℕ
  pub peer_mtu : ℕ
  pub is_scmst_enabled : Bool
  pub config : HidlCodecSpecific

-- Lc3Parameters: the frame duration is set on two branches only.
pub data Lc3FrameDuration : Type 0 where
  unset duration_10000us duration_7500us : Lc3FrameDuration

pub record Lc3Parameters : Type 0 where
  pub pcm_bit_depth : BitsPerSample
  pub sampling_frequency : SampleRate
  pub frame_duration : Lc3FrameDuration
  pub octets_per_frame : ℕ
  pub blocks_per_sdu : ℕ

-- `none` is the configuration of an empty broadcast, which has an allocation alone.
pub record Lc3CodecConfiguration : Type 0 where
  pub lc3_config : Option Lc3Parameters
  pub audio_channel_allocation : ℕ

-- AudioConfiguration of 2.0 and 2.1: only that of 2.1 has an interval, and LE audio.
pub data HidlAudioConfiguration : Type 0 where
  unset : HidlAudioConfiguration
  pcm_config : PcmParameters → HidlAudioConfiguration
  pcm_config_2_1 : PcmParameters → ℕ → HidlAudioConfiguration
  codec_config : HidlCodecConfiguration → HidlAudioConfiguration
  le_audio_codec_config : Lc3CodecConfiguration → HidlAudioConfiguration
