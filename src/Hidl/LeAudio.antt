-- ===== src/Hidl/LeAudio.antt =====
-- The conversions of LE audio of HidlToAidlMiddleware.cpp. `none` is an abort: LOG(FATAL), or the
-- read of an alternative that a union does not hold.
use Prim.Native.Nat.{bit_or}
use device_blackshark_penros.Base.{
  Bool, List, Option, [], false, if◌then◌else◌, none, some, true, ℕ, ◌==◌, ◌>>=◌, ◌∷◌,
}
use device_blackshark_penros.Hidl.Convert.{
  to_hidl_bits_per_sample, to_hidl_codec_config, to_hidl_pcm_config, to_hidl_sample_rate, u32_of,
}
use device_blackshark_penros.Hidl.Types.{
  HidlAudioConfiguration, Lc3CodecConfiguration, Lc3FrameDuration, Lc3Parameters, SbcParameters,
  codec_config, duration_10000us, duration_7500us, le_audio_codec_config, pcm_config_2_1,
}
use device_blackshark_penros.Session.Types.{AudioConfiguration}

pub record Lc3Configuration : Type 0 where
  pub pcm_bit_depth : ℕ
  pub sampling_frequency_hz : ℕ
  pub frame_duration_us : ℕ
  pub octets_per_frame : ℕ
  pub blocks_per_sdu : ℕ

pub data LeAudioCodecConfiguration : Type 0 where
  lc3_config : Lc3Configuration → LeAudioCodecConfiguration
  vendor_config : ℕ → LeAudioCodecConfiguration

-- The parcelables that a session only passes on, with the fields that are read here.
pub record LeAudioConfiguration : Type 0 where
  pub le_audio_codec_config : LeAudioCodecConfiguration
  pub stream_map : List ℕ

pub record BroadcastStream : Type 0 where
  pub broadcast_codec_config : LeAudioCodecConfiguration
  pub audio_channel_allocation : ℕ

-- Both branches test the sampling frequency.
unfoldable pub frame_duration : Lc3Configuration → Lc3FrameDuration
frame_duration c =
    if c.sampling_frequency_hz == 10000
    then duration_10000us
    else if c.sampling_frequency_hz == 7500
    then duration_7500us
    else Lc3FrameDuration.unset

unfoldable pub to_hidl_lc3_config : Lc3Configuration → Lc3Parameters
unfolding to_hidl_sample_rate to_hidl_bits_per_sample frame_duration
to_hidl_lc3_config c = record {
  pcm_bit_depth = to_hidl_bits_per_sample c.pcm_bit_depth;
  sampling_frequency = to_hidl_sample_rate c.sampling_frequency_hz;
  frame_duration = frame_duration c;
  octets_per_frame = u32_of c.octets_per_frame;
  blocks_per_sdu = u32_of c.blocks_per_sdu;
}

unfoldable pub allocations : List ℕ → ℕ
allocations [] = 0
allocations (a ∷ as_) = bit_or a (allocations as_)

abbrev is_lc3 : LeAudioCodecConfiguration → Bool
is_lc3 (lc3_config c) = true
is_lc3 (vendor_config n) = false

-- `get<lc3Config>()`.
abbrev pub lc3_of : LeAudioCodecConfiguration → Option Lc3Configuration
lc3_of (lc3_config c) = some c
lc3_of (vendor_config n) = none

-- The test is that of the source: it aborts where the codec is LC3.
unfoldable pub to_hidl_leaudio_config : LeAudioConfiguration → Option Lc3CodecConfiguration
unfolding to_hidl_lc3_config allocations
to_hidl_leaudio_config c =
    if is_lc3 c.le_audio_codec_config
    then none
    else (lc3_of c.le_audio_codec_config >>= λ lc3. some (record {
      lc3_config = some (to_hidl_lc3_config lc3);
      audio_channel_allocation = allocations c.stream_map;
    }))

abbrev allocations_of : List BroadcastStream → List ℕ
allocations_of [] = []
allocations_of (s ∷ ss) = s.audio_channel_allocation ∷ allocations_of ss

unfoldable pub to_hidl_leaudio_broadcast_config :
    List BroadcastStream → Option Lc3CodecConfiguration
unfolding to_hidl_lc3_config allocations
to_hidl_leaudio_broadcast_config [] =
    some (record { lc3_config = none; audio_channel_allocation = 0 })
to_hidl_leaudio_broadcast_config (s ∷ ss) = lc3_of s.broadcast_codec_config >>= λ lc3.
    some (record {
      lc3_config = some (to_hidl_lc3_config lc3);
      audio_channel_allocation = allocations (allocations_of (s ∷ ss));
    })

-- The configuration of 2.1. A session names the parcelables of LE audio by numbers.
module _ (le_audio : ℕ → LeAudioConfiguration) (broadcast : ℕ → List BroadcastStream) where
  unfoldable pub to_hidl_audio_config_2_1 :
      SbcParameters → AudioConfiguration → Option HidlAudioConfiguration
  unfolding to_hidl_pcm_config to_hidl_codec_config to_hidl_leaudio_config
      to_hidl_leaudio_broadcast_config
  to_hidl_audio_config_2_1 initial (AudioConfiguration.pcm_config c) =
      some (pcm_config_2_1 (to_hidl_pcm_config c) (u32_of c.data_interval_us))
  to_hidl_audio_config_2_1 initial (AudioConfiguration.a2dp_config c) =
      some (codec_config (to_hidl_codec_config initial c))
  to_hidl_audio_config_2_1 initial (AudioConfiguration.le_audio_config n) =
      to_hidl_leaudio_config (le_audio n) >>= λ c. some (le_audio_codec_config c)
  to_hidl_audio_config_2_1 initial (AudioConfiguration.le_audio_broadcast_config n) =
      to_hidl_leaudio_broadcast_config (broadcast n) >>= λ c. some (le_audio_codec_config c)
