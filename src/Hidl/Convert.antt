-- ===== src/Hidl/Convert.antt =====
-- The conversions of HidlToAidlMiddleware.cpp. A field that a lookup does not set keeps what the
-- structure held when it was declared, which the interface leaves open: it is an argument.
use device_blackshark_penros.Base.{if◌then◌else◌, ℕ, ◌%◌, ◌==◌, ◌^◌}
use device_blackshark_penros.Hidl.Types.{
  AacParameters, AptxParameters, BitsPerSample, HidlAacObjectType, HidlAudioConfiguration,
  HidlChannelMode, HidlCodecConfiguration, HidlCodecSpecific, HidlCodecType, HidlLdacChannelMode,
  HidlLdacQualityIndex, HidlSbcAllocMethod, HidlSbcChannelMode, HidlSessionType, HidlStatus,
  LdacParameters, PcmParameters, SampleRate, SbcBlockLength, SbcNumSubbands, SbcParameters, bits_16,
  bits_24, bits_32, bits_unknown, blocks_12, blocks_16, blocks_4, blocks_8, codec_config, disabled,
  enabled, quality_abr, quality_high, quality_low, quality_mid, rate_16000, rate_176400,
  rate_192000, rate_24000, rate_32000, rate_44100, rate_48000, rate_8000, rate_88200, rate_96000,
  rate_unknown, subband_4, subband_8,
}
use device_blackshark_penros.Session.Codec.{
  AacConfiguration, AacObjectType, AptxConfiguration, ChannelMode, CodecConfiguration,
  CodecSpecific, CodecType, LdacChannelMode, LdacConfiguration, LdacQualityIndex, SbcAllocMethod,
  SbcChannelMode, SbcConfiguration,
}
use device_blackshark_penros.Session.Types.{
  AudioConfiguration, BluetoothAudioStatus, PcmConfiguration, SessionType,
}

abbrev pub u32_of : ℕ → ℕ
u32_of n = n % 2 ^ 32

unfoldable pub from_session_type : HidlSessionType → SessionType
from_session_type HidlSessionType.unknown = SessionType.unknown
from_session_type HidlSessionType.a2dp_software_encoding_datapath =
    SessionType.a2dp_software_encoding_datapath
from_session_type HidlSessionType.a2dp_hardware_offload_datapath =
    SessionType.a2dp_hardware_offload_encoding_datapath
from_session_type HidlSessionType.hearing_aid_software_encoding_datapath =
    SessionType.hearing_aid_software_encoding_datapath
from_session_type HidlSessionType.le_audio_software_encoding_datapath =
    SessionType.le_audio_software_encoding_datapath
from_session_type HidlSessionType.le_audio_software_decoded_datapath =
    SessionType.le_audio_software_decoding_datapath
from_session_type HidlSessionType.le_audio_hardware_offload_encoding_datapath =
    SessionType.le_audio_hardware_offload_encoding_datapath
from_session_type HidlSessionType.le_audio_hardware_offload_decoding_datapath =
    SessionType.le_audio_hardware_offload_decoding_datapath

unfoldable pub to_hidl_status : BluetoothAudioStatus → HidlStatus
to_hidl_status BluetoothAudioStatus.success = HidlStatus.success
to_hidl_status BluetoothAudioStatus.unsupported_codec_configuration =
    HidlStatus.unsupported_codec_configuration
to_hidl_status BluetoothAudioStatus.reconfiguration = HidlStatus.failure
to_hidl_status BluetoothAudioStatus.other = HidlStatus.failure

unfoldable pub to_hidl_sample_rate : ℕ → SampleRate
to_hidl_sample_rate hz =
    if hz == 44100
    then rate_44100
    else if hz == 48000
    then rate_48000
    else if hz == 88200
    then rate_88200
    else if hz == 96000
    then rate_96000
    else if hz == 176400
    then rate_176400
    else if hz == 192000
    then rate_192000
    else if hz == 16000
    then rate_16000
    else if hz == 24000
    then rate_24000
    else if hz == 8000
    then rate_8000
    else if hz == 32000
    then rate_32000
    else rate_unknown

unfoldable pub to_hidl_bits_per_sample : ℕ → BitsPerSample
to_hidl_bits_per_sample bits =
    if bits == 16
    then bits_16
    else if bits == 24
    then bits_24
    else if bits == 32
    then bits_32
    else bits_unknown

unfoldable pub to_hidl_channel_mode : ChannelMode → HidlChannelMode
to_hidl_channel_mode ChannelMode.mono = HidlChannelMode.mono
to_hidl_channel_mode ChannelMode.stereo = HidlChannelMode.stereo
to_hidl_channel_mode ChannelMode.unknown = HidlChannelMode.unknown

unfoldable pub to_hidl_codec_type : CodecType → HidlCodecType
to_hidl_codec_type CodecType.sbc = HidlCodecType.sbc
to_hidl_codec_type CodecType.aac = HidlCodecType.aac
to_hidl_codec_type CodecType.aptx = HidlCodecType.aptx
to_hidl_codec_type CodecType.aptx_hd = HidlCodecType.aptx_hd
to_hidl_codec_type CodecType.ldac = HidlCodecType.ldac
to_hidl_codec_type CodecType.unknown = HidlCodecType.unknown
to_hidl_codec_type CodecType.lc3 = HidlCodecType.unknown
to_hidl_codec_type _ = HidlCodecType.unknown

unfoldable pub sbc_channel_mode : SbcChannelMode → HidlSbcChannelMode
sbc_channel_mode SbcChannelMode.unknown = HidlSbcChannelMode.unknown
sbc_channel_mode SbcChannelMode.joint_stereo = HidlSbcChannelMode.joint_stereo
sbc_channel_mode SbcChannelMode.stereo = HidlSbcChannelMode.stereo
sbc_channel_mode SbcChannelMode.dual = HidlSbcChannelMode.dual
sbc_channel_mode SbcChannelMode.mono = HidlSbcChannelMode.mono

unfoldable pub sbc_block_length : SbcBlockLength → ℕ → SbcBlockLength
sbc_block_length initial blocks =
    if blocks == 4
    then blocks_4
    else if blocks == 8
    then blocks_8
    else if blocks == 12
    then blocks_12
    else if blocks == 16
    then blocks_16
    else initial

unfoldable pub sbc_subbands : SbcNumSubbands → ℕ → SbcNumSubbands
sbc_subbands initial subbands =
    if subbands == 4 then subband_4 else if subbands == 8 then subband_8 else initial

unfoldable pub sbc_alloc_method : SbcAllocMethod → HidlSbcAllocMethod
sbc_alloc_method SbcAllocMethod.alloc_md_s = HidlSbcAllocMethod.alloc_md_s
sbc_alloc_method SbcAllocMethod.alloc_md_l = HidlSbcAllocMethod.alloc_md_l

unfoldable pub aac_object_type : AacObjectType → HidlAacObjectType
aac_object_type AacObjectType.mpeg2_lc = HidlAacObjectType.mpeg2_lc
aac_object_type AacObjectType.mpeg4_lc = HidlAacObjectType.mpeg4_lc
aac_object_type AacObjectType.mpeg4_ltp = HidlAacObjectType.mpeg4_ltp
aac_object_type AacObjectType.mpeg4_scalable = HidlAacObjectType.mpeg4_scalable

unfoldable pub ldac_channel_mode : LdacChannelMode → HidlLdacChannelMode
ldac_channel_mode LdacChannelMode.unknown = HidlLdacChannelMode.unknown
ldac_channel_mode LdacChannelMode.stereo = HidlLdacChannelMode.stereo
ldac_channel_mode LdacChannelMode.dual = HidlLdacChannelMode.dual
ldac_channel_mode LdacChannelMode.mono = HidlLdacChannelMode.mono

unfoldable pub ldac_qindex : LdacQualityIndex → HidlLdacQualityIndex
ldac_qindex LdacQualityIndex.high = quality_high
ldac_qindex LdacQualityIndex.mid = quality_mid
ldac_qindex LdacQualityIndex.low = quality_low
ldac_qindex LdacQualityIndex.abr = quality_abr

unfoldable pub to_hidl_pcm_config : PcmConfiguration → PcmParameters
unfolding to_hidl_sample_rate to_hidl_bits_per_sample to_hidl_channel_mode
to_hidl_pcm_config c = record {
  sample_rate = to_hidl_sample_rate c.sample_rate_hz;
  channel_mode = to_hidl_channel_mode c.channel_mode;
  bits_per_sample = to_hidl_bits_per_sample c.bits_per_sample;
}

unfoldable pub to_hidl_sbc_config : SbcParameters → SbcConfiguration → SbcParameters
unfolding to_hidl_sample_rate to_hidl_bits_per_sample sbc_channel_mode sbc_block_length sbc_subbands
    sbc_alloc_method
to_hidl_sbc_config initial c = record {
  sample_rate = to_hidl_sample_rate c.sample_rate_hz;
  channel_mode = sbc_channel_mode c.channel_mode;
  block_length = sbc_block_length initial.block_length c.block_length;
  num_subbands = sbc_subbands initial.num_subbands c.num_subbands;
  alloc_method = sbc_alloc_method c.alloc_method;
  bits_per_sample = to_hidl_bits_per_sample c.bits_per_sample;
  min_bitpool = c.min_bitpool;
  max_bitpool = c.max_bitpool;
}

unfoldable pub to_hidl_aac_config : AacConfiguration → AacParameters
unfolding to_hidl_sample_rate to_hidl_bits_per_sample to_hidl_channel_mode aac_object_type
to_hidl_aac_config c = record {
  object_type = aac_object_type c.object_type;
  sample_rate = to_hidl_sample_rate c.sample_rate_hz;
  channel_mode = to_hidl_channel_mode c.channel_mode;
  variable_bit_rate_enabled = if c.variable_bit_rate_enabled then enabled else disabled;
  bits_per_sample = to_hidl_bits_per_sample c.bits_per_sample;
}

unfoldable pub to_hidl_ldac_config : LdacConfiguration → LdacParameters
unfolding to_hidl_sample_rate to_hidl_bits_per_sample ldac_channel_mode ldac_qindex
to_hidl_ldac_config c = record {
  sample_rate = to_hidl_sample_rate c.sample_rate_hz;
  channel_mode = ldac_channel_mode c.channel_mode;
  quality_index = ldac_qindex c.quality_index;
  bits_per_sample = to_hidl_bits_per_sample c.bits_per_sample;
}

unfoldable pub to_hidl_aptx_config : AptxConfiguration → AptxParameters
unfolding to_hidl_sample_rate to_hidl_bits_per_sample to_hidl_channel_mode
to_hidl_aptx_config c = record {
  sample_rate = to_hidl_sample_rate c.sample_rate_hz;
  channel_mode = to_hidl_channel_mode c.channel_mode;
  bits_per_sample = to_hidl_bits_per_sample c.bits_per_sample;
}

unfoldable pub to_hidl_codec_specific : SbcParameters → CodecSpecific → HidlCodecSpecific
unfolding to_hidl_sbc_config to_hidl_aac_config to_hidl_ldac_config to_hidl_aptx_config
to_hidl_codec_specific initial (CodecSpecific.sbc_config c) =
    HidlCodecSpecific.sbc_config (to_hidl_sbc_config initial c)
to_hidl_codec_specific initial (CodecSpecific.aac_config c) =
    HidlCodecSpecific.aac_config (to_hidl_aac_config c)
to_hidl_codec_specific initial (CodecSpecific.ldac_config c) =
    HidlCodecSpecific.ldac_config (to_hidl_ldac_config c)
to_hidl_codec_specific initial (CodecSpecific.aptx_config c) =
    HidlCodecSpecific.aptx_config (to_hidl_aptx_config c)
to_hidl_codec_specific initial (CodecSpecific.opus_config c) = HidlCodecSpecific.unset
to_hidl_codec_specific initial (CodecSpecific.other_config n) = HidlCodecSpecific.unset

unfoldable pub to_hidl_codec_config : SbcParameters → CodecConfiguration → HidlCodecConfiguration
unfolding to_hidl_codec_type to_hidl_codec_specific
to_hidl_codec_config initial c = record {
  codec_type = to_hidl_codec_type c.codec_type;
  encoded_audio_bitrate = u32_of c.encoded_audio_bitrate;
  peer_mtu = u32_of c.peer_mtu;
  is_scmst_enabled = c.is_scmst_enabled;
  config = to_hidl_codec_specific initial c.config;
}

-- The configuration of 2.0: that of LE audio is not converted.
unfoldable pub to_hidl_audio_config_2_0 :
    SbcParameters → AudioConfiguration → HidlAudioConfiguration
unfolding to_hidl_pcm_config to_hidl_codec_config
to_hidl_audio_config_2_0 initial (AudioConfiguration.pcm_config c) =
    HidlAudioConfiguration.pcm_config (to_hidl_pcm_config c)
to_hidl_audio_config_2_0 initial (AudioConfiguration.a2dp_config c) =
    codec_config (to_hidl_codec_config initial c)
to_hidl_audio_config_2_0 initial (AudioConfiguration.le_audio_config n) =
    HidlAudioConfiguration.unset
to_hidl_audio_config_2_0 initial (AudioConfiguration.le_audio_broadcast_config n) =
    HidlAudioConfiguration.unset
