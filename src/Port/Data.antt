-- ===== src/Port/Data.antt =====
-- device_port_proxy.cc: the data path of a port, and what it reads of its session.
use device_blackshark_penros.Session.Codec.{ChannelMode}
use device_blackshark_penros.Control
use device_blackshark_penros.Base.{
  Bool, List, Option, [], false, if◌then◌else◌, length, ltb, true, ℕ, ◌&&◌, ◌*◌, ◌/◌, ◌==◌,
}
use device_blackshark_penros.Control.Sessions.{Registry}
use device_blackshark_penros.Port.Core.{in_use}
use device_blackshark_penros.Port.Types.{
  AudioConfig, AudioFormat, ChannelMask, Port, in_mono, in_stereo, out_mono, out_stereo, pcm_16_bit,
  pcm_24_bit_packed, pcm_32_bit, pcm_8_24_bit,
}
use device_blackshark_penros.Session.Codec.{mono, stereo}
use device_blackshark_penros.Session.Cookies.{SessionCode}
use device_blackshark_penros.Session.Pcm.{
  PcmResult, ReadRound, Round, faulted, in_read_pcm_data, out_of_fuel, out_write_pcm_data, returned,
}
use device_blackshark_penros.Session.Types.{
  Defaults, PresentationPosition, SessionType, StackCall, Track,
  a2dp_hardware_offload_encoding_datapath, a2dp_software_encoding_datapath, pcm_config,
}

unfoldable pub output_channel_mode_to_audio_format : ChannelMode → ChannelMask
output_channel_mode_to_audio_format mono = out_mono
output_channel_mode_to_audio_format stereo = out_stereo
output_channel_mode_to_audio_format ChannelMode.unknown = out_stereo

unfoldable pub input_channel_mode_to_audio_format : ChannelMode → ChannelMask
input_channel_mode_to_audio_format mono = in_mono
input_channel_mode_to_audio_format stereo = in_stereo
input_channel_mode_to_audio_format ChannelMode.unknown = in_mono

abbrev is_classic_session : SessionType → Bool
is_classic_session a2dp_hardware_offload_encoding_datapath = true
is_classic_session a2dp_software_encoding_datapath = true
is_classic_session _ = false

unfoldable pub bits_per_sample_to_audio_format : ℕ → SessionType → AudioFormat
bits_per_sample_to_audio_format bits t =
    if bits == 16
    then pcm_16_bit
    else if bits == 24
    then (if is_classic_session t then pcm_24_bit_packed else pcm_8_24_bit)
    else if bits == 32
    then pcm_32_bit
    else pcm_16_bit

-- `kBluetoothDefaultSampleRate`
abbrev pub default_sample_rate : ℕ
default_sample_rate = 44100

abbrev pub default_output_config : AudioConfig
default_output_config = record {
  sample_rate = default_sample_rate;
  channel_mask = out_stereo;
  format = pcm_16_bit;
}

abbrev pub default_input_config : AudioConfig
default_input_config = record {
  sample_rate = default_sample_rate;
  channel_mask = in_mono;
  format = pcm_16_bit;
}

abbrev is_known_mode : ChannelMode → Bool
is_known_mode ChannelMode.unknown = false
is_known_mode _ = true

-- `LoadAudioConfig` of the output port. `config` is what the caller's variable holds: it stays where
-- the channel mode is unknown.
unfoldable pub load_output_config :
    SessionCode → Defaults → Registry → Port → AudioConfig → Bool × AudioConfig
unfolding in_use Control.get_audio_config output_channel_mode_to_audio_format
    bits_per_sample_to_audio_format
load_output_config code d r p config =
    if in_use code p
    then (elim (Control.get_audio_config d r p.session_type).0 [
      | pcm_config pcm ↦
          (if is_known_mode pcm.channel_mode
            then (
              true,
              record {
                sample_rate = pcm.sample_rate_hz;
                channel_mask =
                    if p.is_stereo_to_mono
                    then out_stereo
                    else output_channel_mode_to_audio_format pcm.channel_mode;
                format = bits_per_sample_to_audio_format pcm.bits_per_sample p.session_type;
              },
            )
            else (false, config))
      | _ ↦ (false, default_output_config)
    ])
    else (false, default_output_config)

-- `LoadAudioConfig` of the input port.
unfoldable pub load_input_config :
    SessionCode → Defaults → Registry → Port → AudioConfig → Bool × AudioConfig
unfolding in_use Control.get_audio_config input_channel_mode_to_audio_format
    bits_per_sample_to_audio_format
load_input_config code d r p config =
    if in_use code p
    then (elim (Control.get_audio_config d r p.session_type).0 [
      | pcm_config pcm ↦
          (if is_known_mode pcm.channel_mode
            then (
              true,
              record {
                sample_rate = pcm.sample_rate_hz;
                channel_mask = input_channel_mode_to_audio_format pcm.channel_mode;
                format = bits_per_sample_to_audio_format pcm.bits_per_sample p.session_type;
              },
            )
            else (false, config))
      | _ ↦ (false, default_input_config)
    ])
    else (false, default_input_config)

-- `interval` is what the caller's variable holds.
unfoldable pub get_preferred_data_interval_us :
    SessionCode → Defaults → Registry → Port → ℕ → Bool × ℕ
unfolding in_use Control.get_audio_config
get_preferred_data_interval_us code d r p interval =
    if in_use code p
    then (elim (Control.get_audio_config d r p.session_type).0 [
      | pcm_config pcm ↦ (true, pcm.data_interval_us)
      | _ ↦ (false, interval)
    ])
    else (false, interval)

-- The position is what the caller's variables hold; a port in use overwrites them, also where the
-- answer is false.
unfoldable pub get_presentation_position :
    SessionCode
    → Defaults
    → Registry
    → Port
    → Option PresentationPosition
    → PresentationPosition
    → Bool × PresentationPosition
unfolding in_use Control.get_presentation_position
get_presentation_position code d r p reply position =
    if in_use code p
    then (Control.get_presentation_position r p.session_type d.position reply).0
    else (false, position)

unfoldable pub update_source_metadata : SessionCode → Registry → Port → List Track → List StackCall
unfolding in_use Control.update_source_metadata
update_source_metadata code r p tracks =
    if in_use code p && ltb 0 (length tracks)
    then (Control.update_source_metadata r p.session_type tracks).0
    else []

unfoldable pub update_sink_metadata : SessionCode → Registry → Port → List Track → List StackCall
unfolding in_use Control.update_sink_metadata
update_sink_metadata code r p tracks =
    if in_use code p && ltb 0 (length tracks)
    then (Control.update_sink_metadata r p.session_type tracks).0
    else []

abbrev pub twice_total {ℓ} : {A : Type ℓ} → PcmResult A → PcmResult A
twice_total (returned total queue) = returned (total * 2) queue
twice_total faulted = faulted
twice_total out_of_fuel = out_of_fuel

-- `downmix` stands for `downmix_to_mono_i16_from_stereo_i16`: so many frames of the buffer, as mono
-- bytes. The rounds are those of the session's write loop. The result is the number of bytes that
-- the caller is told, and what the queue was given.
unfoldable pub write_data {ℓ} :
    {A : Type ℓ}
    → SessionCode
    → (ℕ → List A → List A)
    → (ℕ → Round)
    → Port
    → List A
    → ℕ
    → PcmResult A
unfolding in_use out_write_pcm_data
write_data code downmix rounds p buffer bytes =
    if in_use code p
    then (if p.is_stereo_to_mono
        then (let write_frames = bytes / 4 in
            if write_frames == 0
            then returned 0 []
            else twice_total
                (out_write_pcm_data rounds (downmix write_frames buffer) (write_frames * 2) false))
        else out_write_pcm_data rounds buffer bytes false)
    else returned 0 []

unfoldable pub read_data {ℓ} :
    {A : Type ℓ} → SessionCode → (ℕ → ReadRound A) → Port → ℕ → PcmResult A
unfolding in_use in_read_pcm_data
read_data code rounds p bytes =
    if in_use code p then in_read_pcm_data rounds bytes false else returned 0 []
