-- ===== src/Stream/Delay.antt =====
-- The delay of a stream: `out_calculate_feeding_delay_ms` and `in_calculate_starving_delay_ms` of
-- stream_apis.cc, which run under the stream's mutex.
use device_blackshark_penros.Base.{
  Bool, Option, false, if◌then◌else◌, leb, ltb, some, true, ℕ, ◌&&◌, ◌*◌, ◌+◌, ◌-◌, ◌/◌, ◌>>=◌,
}
use device_blackshark_penros.Port.Types.{AudioConfig, AudioFormat, ChannelMask}
use device_blackshark_penros.Session.Types.{PresentationPosition}
use device_blackshark_penros.Stream.Interface.{AudioPort}
use device_blackshark_penros.Stream.Types.{StreamIn, StreamOut, div?, u32, u64}

abbrev pub minimum_delay_ms : ℕ
minimum_delay_ms = 50

abbrev pub maximum_delay_ms : ℕ
maximum_delay_ms = 1000

abbrev pub extra_audio_sync_ms : ℕ
extra_audio_sync_ms = 200

abbrev pub no_position : PresentationPosition
no_position = record {
  remote_device_audio_delay_nanos = 0;
  transmitted_octets = 0;
  tv_sec = 0;
  tv_nsec = 0;
}

-- Whether the delay of the headset is taken, as milliseconds.
abbrev pub is_plausible : ℕ → Bool
is_plausible ms = ltb minimum_delay_ms ms && ltb ms maximum_delay_ms

-- The frames that the sink has presented: the stack's counter, unless it is ahead of the stream's own
-- or too far behind it, less what is still in the headset's buffer.
unfoldable pub presented_frames : ℕ → ℕ → ℕ → ℕ
presented_frames presented absorbed latency_frames =
    let frames =
      if ltb presented absorbed
      then presented
      else if ltb latency_frames (presented - absorbed)
      then presented
      else absorbed in
    if ltb latency_frames frames then frames - latency_frames else 0

pub record Delay : Type 0 where
  pub latency_ms : ℕ
  pub frames : ℕ
  pub timestamp_ns : ℕ

abbrev nanos : PresentationPosition → ℕ
nanos p = p.tv_sec * 1000000000 + p.tv_nsec

-- The delay where none is fetched; a sample rate of 0 faults.
unfoldable pub out_legacy_delay_ms : {P : Type 0} → StreamOut P → Option (ℕ × Bool)
out_legacy_delay_ms out = do
  d ← div? (u64 (out.frames_count * 1000)) out.sample_rate
  some (u64 (d + extra_audio_sync_ms), false)

module _ {P : Type 0} (port : AudioPort P) (frame_size : ChannelMask → AudioFormat → ℕ) where
  -- `audio_stream_out_frame_size` asks the stream for its format and channels, which ask the port.
  unfoldable pub out_get_channels : StreamOut P → ChannelMask
  out_get_channels out =
      let config : AudioConfig = record {
        sample_rate = out.sample_rate;
        channel_mask = out.channel_mask;
        format = out.format;
      } in
      let (loaded, c) = port.load_audio_config out.bluetooth_output config in
      if loaded then c.channel_mask else out.channel_mask

  unfoldable pub out_get_format : StreamOut P → AudioFormat
  out_get_format out =
      let config : AudioConfig = record {
        sample_rate = out.sample_rate;
        channel_mask = out.channel_mask;
        format = out.format;
      } in
      let (loaded, c) = port.load_audio_config out.bluetooth_output config in
      if loaded then c.format else out.format

  unfoldable pub out_get_sample_rate : StreamOut P → ℕ
  out_get_sample_rate out =
      let config : AudioConfig = record {
        sample_rate = out.sample_rate;
        channel_mask = out.channel_mask;
        format = out.format;
      } in
      let (loaded, c) = port.load_audio_config out.bluetooth_output config in
      if loaded then c.sample_rate else out.sample_rate

  unfoldable pub out_frame_size : StreamOut P → ℕ
  unfolding out_get_channels out_get_format
  out_frame_size out = frame_size (out_get_channels out) (out_get_format out)

  -- The delay in milliseconds, and whether it is the headset's.
  unfoldable pub out_delay_report_ms : StreamOut P → Option (ℕ × Bool)
  unfolding out_legacy_delay_ms
  out_delay_report_ms out =
      let (fetched, position) = port.get_presentation_position out.bluetooth_output no_position in
      let reported = position.remote_device_audio_delay_nanos / 1000000 in
      if fetched && is_plausible reported then some (reported, true) else out_legacy_delay_ms out

  -- All three outputs; `now_ns` is the monotonic clock, read where the port's timestamp is not taken.
  unfoldable pub out_calculate_feeding_delay_ms : StreamOut P → ℕ → Option Delay
  unfolding out_delay_report_ms out_frame_size presented_frames
  out_calculate_feeding_delay_ms out now_ns = do
    (delay_report_ms, timestamp_fetched) ← out_delay_report_ms out
    let position = (port.get_presentation_position out.bluetooth_output no_position).1
    let latency_frames = u64 (delay_report_ms * out.sample_rate) / 1000
    absorbed ← div? position.transmitted_octets (out_frame_size out)
    some (record {
      latency_ms = u32 delay_report_ms;
      frames = presented_frames out.frames_presented absorbed latency_frames;
      timestamp_ns = if timestamp_fetched then nanos position else now_ns;
    })

  unfoldable pub out_get_latency_ms : StreamOut P → Option ℕ
  unfolding out_delay_report_ms
  out_get_latency_ms out = do
    (delay_report_ms, _) ← out_delay_report_ms out
    some (u32 delay_report_ms)

  unfoldable pub out_get_render_position : StreamOut P → Option ℕ
  unfolding out_get_latency_ms
  out_get_render_position out = do
    latency_ms ← out_get_latency_ms out
    let latency_frames = u64 (latency_ms * out.sample_rate) / 1000
    some (
        if leb latency_frames out.frames_rendered
        then u32 (out.frames_rendered - latency_frames)
        else 0)

  unfoldable pub out_get_presentation_position : StreamOut P → ℕ → Option (ℕ × ℕ)
  unfolding out_calculate_feeding_delay_ms
  out_get_presentation_position out now_ns = do
    d ← out_calculate_feeding_delay_ms out now_ns
    some (d.frames, d.timestamp_ns)

  unfoldable pub out_get_buffer_size : StreamOut P → ℕ
  unfolding out_frame_size
  out_get_buffer_size out = u64 (out.frames_count * out_frame_size out)

  abbrev in_config : StreamIn P → AudioConfig
  in_config s = record {
    sample_rate = s.sample_rate;
    channel_mask = s.channel_mask;
    format = s.format;
  }

  unfoldable pub in_get_channels : StreamIn P → ChannelMask
  in_get_channels s =
      let (loaded, c) = port.load_audio_config s.bluetooth_input (in_config s) in
      if loaded then c.channel_mask else s.channel_mask

  unfoldable pub in_get_format : StreamIn P → AudioFormat
  in_get_format s =
      let (loaded, c) = port.load_audio_config s.bluetooth_input (in_config s) in
      if loaded then c.format else s.format

  unfoldable pub in_frame_size : StreamIn P → ℕ
  unfolding in_get_channels in_get_format
  in_frame_size s = frame_size (in_get_channels s) (in_get_format s)

  unfoldable pub in_get_buffer_size : StreamIn P → ℕ
  unfolding in_frame_size
  in_get_buffer_size s = u64 (s.frames_count * in_frame_size s)

  -- The frames, and the time in microseconds.
  unfoldable pub in_calculate_starving_delay_ms : StreamIn P → Option (ℕ × ℕ)
  unfolding in_frame_size presented_frames
  in_calculate_starving_delay_ms s = do
    let position = (port.get_presentation_position s.bluetooth_input no_position).1
    let delay_report_ms = position.remote_device_audio_delay_nanos / 1000000
    let latency_frames = u64 (delay_report_ms * s.sample_rate) / 1000
    dispersed ← div? position.transmitted_octets (in_frame_size s)
    some (presented_frames s.frames_presented dispersed latency_frames, nanos position / 1000)
