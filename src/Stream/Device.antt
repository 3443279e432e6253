-- ===== src/Stream/Device.antt =====
-- Opening and closing a stream: `adev_open_output_stream` and its counterparts of stream_apis.cc.
use device_blackshark_penros.Base.{
  Bool, Option, false, if◌then◌else◌, ltb, none, not, some, true, ℕ, ◌&&◌, ◌*◌, ◌/◌, ◌==◌,
}
use device_blackshark_penros.Port.Types.{
  AudioConfig, AudioDevices, AudioFormat, ChannelMask, disabled, out_mono, out_stereo, pcm_16_bit,
}
use device_blackshark_penros.Stream.Interface.{AudioPort}
use device_blackshark_penros.Stream.Types.{
  Result, StreamIn, StreamOut, einval, fail, input_buffer_ms, ok, output_buffer_ms,
  spatializer_output_buffer_ms, u64,
}

-- `frame_count`; a `size_t` product.
unfoldable pub frame_count : ℕ → ℕ → ℕ
frame_count microseconds sample_rate = u64 (microseconds * sample_rate) / 1000000

-- The flags of the output that the source compares: FAST with DEEP_BUFFER, SPATIALIZER, and the rest.
pub data OutputFlags : Type 0 where
  fast_deep_buffer spatializer other_flags : OutputFlags

abbrev pub is_spatialized : OutputFlags → Bool
is_spatialized other_flags = false
is_spatialized _ = true

-- The port's interval where it answers one that is not 0, and else the default.
abbrev pub preferred_interval : Bool × ℕ → ℕ → ℕ
preferred_interval (known, interval) default =
    if known && not (interval == 0) then interval else default

unfoldable pub output_interval : Bool × ℕ → OutputFlags → ℕ
output_interval answer flags =
    let interval = preferred_interval answer (output_buffer_ms * 1000) in
    if is_spatialized flags && ltb interval (spatializer_output_buffer_ms * 1000)
    then spatializer_output_buffer_ms * 1000
    else interval

abbrev is_mono : ChannelMask → Bool
is_mono out_mono = true
is_mono _ = false

abbrev is_pcm_16_bit : AudioFormat → Bool
is_pcm_16_bit pcm_16_bit = true
is_pcm_16_bit _ = false

-- The workaround for mono at 16 bits: the stream is stereo and the port mixes.
abbrev pub wants_mono : AudioConfig → Bool
wants_mono c = is_mono c.channel_mask && is_pcm_16_bit c.format

module _ {P : Type 0} (port : AudioPort P) where
  -- `config` is the framework's; it is returned as it is left. The stream is the new one, at the head
  -- of the device's list, or none where the port cannot be set up.
  unfoldable pub adev_open_output_stream :
      P
      → Bool
      → AudioDevices
      → OutputFlags
      → AudioConfig
      → Result × Option (StreamOut P) × AudioConfig
  unfolding frame_count output_interval
  adev_open_output_stream p aidl devices flags config =
      let (done, p₁) = port.set_up p devices in
      let (_, c) = port.load_audio_config p₁ config in
      let c' = if wants_mono c then record c { channel_mask = out_stereo } else c in
      let p₂ = if wants_mono c then port.force_pcm_stereo_to_mono p₁ true else p₁ in
      let interval =
        output_interval (port.get_preferred_data_interval_us p₂ (output_buffer_ms * 1000)) flags in
      if done
      then (
        ok 0,
        some (record {
          bluetooth_output = p₂;
          is_aidl = aidl;
          last_write_time_us = 0;
          sample_rate = c'.sample_rate;
          channel_mask = c'.channel_mask;
          format = c'.format;
          preferred_data_interval_us = interval;
          frames_count = frame_count interval c'.sample_rate;
          frames_rendered = 0;
          frames_presented = 0;
        }),
        c',
      )
      else (fail einval, none, config)

  -- The port after the stream is closed; the stream itself is deleted.
  unfoldable pub adev_close_output_stream : StreamOut P → P
  adev_close_output_stream out =
      let p = out.bluetooth_output in
      elim (port.get_state p) [ disabled ↦ port.tear_down p | _ ↦ port.tear_down (port.stop p) ]

  unfoldable pub adev_open_input_stream :
      P → Bool → AudioDevices → AudioConfig → Result × Option (StreamIn P) × AudioConfig
  unfolding frame_count
  adev_open_input_stream p aidl devices config =
      let (done, p₁) = port.set_up p devices in
      let (loaded, c) = port.load_audio_config p₁ config in
      let interval =
        preferred_interval (port.get_preferred_data_interval_us p₁ (input_buffer_ms * 1000))
          (input_buffer_ms * 1000) in
      if done
      then (if loaded
          then (
            ok 0,
            some (record {
              bluetooth_input = p₁;
              is_aidl = aidl;
              last_read_time_us = 0;
              sample_rate = c.sample_rate;
              channel_mask = c.channel_mask;
              format = c.format;
              preferred_data_interval_us = interval;
              frames_count = frame_count interval c.sample_rate;
              frames_presented = 0;
            }),
            c,
          )
          else (fail einval, none, c))
      else (fail einval, none, config)

  unfoldable pub adev_close_input_stream : StreamIn P → P
  adev_close_input_stream s =
      let p = s.bluetooth_input in
      elim (port.get_state p) [ disabled ↦ port.tear_down p | _ ↦ port.tear_down (port.stop p) ]
