-- ===== src/Hidl/Lossless.antt =====
-- The PCM configurations that HidlToAidlMiddleware.cpp hands to a HIDL port.
use device_blackshark_penros.Session.Core
use device_blackshark_penros.Control
use device_blackshark_penros.Base.{
  List, Option, arith, none, refl, some, true, ℕ, ◌%◌, ◌<◌, ◌^◌, ◌≡◌,
}
use device_blackshark_penros.Codecs.Admission.{IsIn}
use device_blackshark_penros.Codecs.Advertised.{is_software_pcm_configuration_valid_lem}
use device_blackshark_penros.Codecs.Checks.{is_software_pcm_configuration_valid}
use device_blackshark_penros.Codecs.Tables.{default_software_pcm_capabilities}
use device_blackshark_penros.Control.Sessions.{session}
use device_blackshark_penros.Hidl.Convert.{
  from_session_type, to_hidl_bits_per_sample, to_hidl_channel_mode, to_hidl_pcm_config,
  to_hidl_sample_rate,
}
use device_blackshark_penros.Hidl.LeAudio.{
  BroadcastStream, LeAudioConfiguration, to_hidl_audio_config_2_1,
}
use device_blackshark_penros.Hidl.Middleware.{Middleware, get_audio_config_2_1}
use device_blackshark_penros.Hidl.Types.{
  BitsPerSample, HidlAudioConfiguration, HidlChannelMode, HidlSessionType, PcmParameters,
  SampleRate, SbcParameters, bits_16, bits_24, bits_32, bits_unknown, pcm_config_2_1, rate_16000,
  rate_176400, rate_192000, rate_24000, rate_32000, rate_44100, rate_48000, rate_8000, rate_88200,
  rate_96000, rate_unknown,
}
use device_blackshark_penros.Session.Codec.{ChannelMode}
use device_blackshark_penros.Session.Core.{Session, get_audio_config}
use device_blackshark_penros.Session.Types.{AudioConfiguration, Defaults, PcmConfiguration}

-- What a client reads in the HIDL types.
abbrev hz_of : SampleRate → ℕ
hz_of rate_unknown = 0
hz_of rate_44100 = 44100
hz_of rate_48000 = 48000
hz_of rate_88200 = 88200
hz_of rate_96000 = 96000
hz_of rate_176400 = 176400
hz_of rate_192000 = 192000
hz_of rate_16000 = 16000
hz_of rate_24000 = 24000
hz_of rate_8000 = 8000
hz_of rate_32000 = 32000

abbrev bits_of : BitsPerSample → ℕ
bits_of bits_unknown = 0
bits_of bits_16 = 16
bits_of bits_24 = 24
bits_of bits_32 = 32

abbrev mode_of : HidlChannelMode → ChannelMode
mode_of HidlChannelMode.unknown = ChannelMode.unknown
mode_of HidlChannelMode.mono = ChannelMode.mono
mode_of HidlChannelMode.stereo = ChannelMode.stereo

abbrev pub pcm_of : PcmParameters → ℕ → PcmConfiguration
pcm_of p interval = record {
  sample_rate_hz = hz_of p.sample_rate;
  channel_mode = mode_of p.channel_mode;
  bits_per_sample = bits_of p.bits_per_sample;
  data_interval_us = interval;
}

hz_of-to_hidl_sample_rate :
    (hz : ℕ)
    → IsIn hz default_software_pcm_capabilities.sample_rate_hz
    → hz_of (to_hidl_sample_rate hz) ≡ hz
unfolding to_hidl_sample_rate
hz_of-to_hidl_sample_rate hz h = ground arith

bits_of-to_hidl_bits_per_sample :
    (bits : ℕ)
    → IsIn bits default_software_pcm_capabilities.bits_per_sample
    → bits_of (to_hidl_bits_per_sample bits) ≡ bits
unfolding to_hidl_bits_per_sample
bits_of-to_hidl_bits_per_sample bits h = ground arith

mode_of-to_hidl_channel_mode : (mode : ChannelMode) → mode_of (to_hidl_channel_mode mode) ≡ mode
unfolding to_hidl_channel_mode
mode_of-to_hidl_channel_mode ChannelMode.unknown = refl
mode_of-to_hidl_channel_mode ChannelMode.mono = refl
mode_of-to_hidl_channel_mode ChannelMode.stereo = refl

-- What a client of 2.1 reads back from a PCM configuration.
abbrev pub read_back : Option HidlAudioConfiguration → Option PcmConfiguration
read_back (some (pcm_config_2_1 p interval)) = some (pcm_of p interval)
read_back _ = none

to_hidl_pcm_config-IsIn :
    (c : PcmConfiguration)
    → is_software_pcm_configuration_valid c ≡ true
    → pcm_of (to_hidl_pcm_config c) c.data_interval_us ≡ c
unfolding to_hidl_pcm_config
to_hidl_pcm_config-IsIn c valid =
    let ((rate, bits), _) = (is_software_pcm_configuration_valid_lem c).0 valid in
    let hz = hz_of-to_hidl_sample_rate c.sample_rate_hz rate in
    let depth = bits_of-to_hidl_bits_per_sample c.bits_per_sample bits in
    rw (hz, depth, mode_of-to_hidl_channel_mode c.channel_mode) refl

get_audio_config-ready :
    (d : Defaults) (s : Session) (c : AudioConfiguration)
    → Core.is_session_ready s ≡ true
    → s.audio_config ≡ some c
    → get_audio_config d s ≡ c
unfolding get_audio_config
get_audio_config-ready d s c ready stored = rw (ready, stored) refl

-- Where a ready session stores a PCM configuration that a software provider accepts, with an interval
-- below 2^32, GetAudioConfig of 2.1 hands a client the whole configuration: read back from the HIDL
-- types it is the one that the session stores.
pub get_audio_config_2_1-read_back :
    (le_audio : ℕ → LeAudioConfiguration) (broadcast : ℕ → List BroadcastStream)
    (initial : SbcParameters) (d : Defaults) (m : Middleware) (t : HidlSessionType)
    (c : PcmConfiguration)
    → Core.is_session_ready (session m.registry (from_session_type t)) ≡ true
    → (session m.registry (from_session_type t)).audio_config
      ≡ some (AudioConfiguration.pcm_config c)
    → is_software_pcm_configuration_valid c ≡ true
    → c.data_interval_us < 2 ^ 32
    → read_back (get_audio_config_2_1 le_audio broadcast initial d m t).0 ≡ some c
unfolding get_audio_config_2_1 to_hidl_audio_config_2_1 Control.get_audio_config session
get_audio_config_2_1-read_back le_audio broadcast initial d m t c ready stored valid below =
    let s = session m.registry (from_session_type t) in
    let interval : c.data_interval_us % 2 ^ 32 ≡ c.data_interval_us = omega arith in
    rw (get_audio_config-ready d s (AudioConfiguration.pcm_config c) ready stored)
      (rw (interval, to_hidl_pcm_config-IsIn c valid) refl)
