-- ===== src/Session/Codec.antt =====
-- The codec configurations that the AIDL interface of Bluetooth audio hands to
-- bluetooth/audio/utils/aidl_session, with the constants and the fields that the sources name.
use device_blackshark_penros.Base.{Bool, Option, ℕ}

pub data ChannelMode : Type 0 where
  unknown mono stereo : ChannelMode

pub data CodecType : Type 0 where
  unknown sbc aac aptx aptx_hd ldac lc3 vendor aptx_adaptive opus : CodecType

pub data SbcChannelMode : Type 0 where
  unknown joint_stereo stereo dual mono : SbcChannelMode

pub data SbcAllocMethod : Type 0 where
  alloc_md_s alloc_md_l : SbcAllocMethod

pub record SbcConfiguration : Type 0 where
  pub sample_rate_hz : ℕ
  pub channel_mode : SbcChannelMode
  pub block_length : ℕ
  pub num_subbands : ℕ
  pub alloc_method : SbcAllocMethod
  pub bits_per_sample : ℕ
  pub min_bitpool : ℕ
  pub max_bitpool : ℕ

pub data AacObjectType : Type 0 where
  mpeg2_lc mpeg4_lc mpeg4_ltp mpeg4_scalable : AacObjectType

pub record AacConfiguration : Type 0 where
  pub object_type : AacObjectType
  pub sample_rate_hz : ℕ
  pub channel_mode : ChannelMode
  pub variable_bit_rate_enabled : Bool
  pub bits_per_sample : ℕ

pub data LdacChannelMode : Type 0 where
  unknown stereo dual mono : LdacChannelMode

pub data LdacQualityIndex : Type 0 where
  high mid low abr : LdacQualityIndex

pub record LdacConfiguration : Type 0 where
  pub sample_rate_hz : ℕ
  pub channel_mode : LdacChannelMode
  pub quality_index : LdacQualityIndex
  pub bits_per_sample : ℕ

pub record AptxConfiguration : Type 0 where
  pub sample_rate_hz : ℕ
  pub channel_mode : ChannelMode
  pub bits_per_sample : ℕ

pub record OpusConfiguration : Type 0 where
  pub sampling_frequency_hz : ℕ
  pub frame_duration_us : ℕ
  pub channel_mode : ChannelMode

-- A tagged union; `other_config` stands for the alternatives that the sources only pass on.
pub data CodecSpecific : Type 0 where
  sbc_config : SbcConfiguration → CodecSpecific
  aac_config : AacConfiguration → CodecSpecific
  ldac_config : LdacConfiguration → CodecSpecific
  aptx_config : AptxConfiguration → CodecSpecific
  opus_config : Option OpusConfiguration → CodecSpecific
  other_config : ℕ → CodecSpecific

pub record CodecConfiguration : Type 0 where
  pub codec_type : CodecType
  pub encoded_audio_bitrate : ℕ
  pub peer_mtu : ℕ
  pub is_scmst_enabled : Bool
  pub config : CodecSpecific

unfoldable pub ChannelMode-discrete : Discrete ChannelMode
ChannelMode-discrete = hlevel

unfoldable pub SbcChannelMode-discrete : Discrete SbcChannelMode
SbcChannelMode-discrete = hlevel

unfoldable pub SbcAllocMethod-discrete : Discrete SbcAllocMethod
SbcAllocMethod-discrete = hlevel

unfoldable pub AacObjectType-discrete : Discrete AacObjectType
AacObjectType-discrete = hlevel

unfoldable pub LdacChannelMode-discrete : Discrete LdacChannelMode
LdacChannelMode-discrete = hlevel

unfoldable pub LdacQualityIndex-discrete : Discrete LdacQualityIndex
LdacQualityIndex-discrete = hlevel
