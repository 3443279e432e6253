-- ===== src/Stream/Position.antt =====
-- What a stream of stream_apis.cc answers of its delay and its position.
use device_blackshark_penros.Base.{
  arith, false, none, some, true, ℕ, ◌*◌, ◌+◌, ◌-◌, ◌/◌, ◌<◌, ◌≡◌, ◌≢◌, ◌≤◌, ◌⊎◌,
}
use device_blackshark_penros.Port.Types.{AudioFormat, ChannelMask}
use device_blackshark_penros.Stream.Delay.{
  no_position, out_calculate_feeding_delay_ms, out_delay_report_ms, out_get_presentation_position,
  out_get_render_position, presented_frames,
}
use device_blackshark_penros.Stream.Interface.{AudioPort}
use device_blackshark_penros.Stream.Types.{StreamOut, u64}

-- The answer is at most the frames that the stream counts. Where the stack's counter is neither ahead
-- of the stream's own nor further behind it than the latency, the answer is that counter less the
-- latency, at least 0; in the other cases it is the stream's own counter less the latency.
pub presented_frames_bounds :
    (presented absorbed latency_frames : ℕ)
    → (presented_frames presented absorbed latency_frames ≤ presented)
      × (absorbed ≤ presented
          → presented ≤ absorbed + latency_frames
          → presented_frames presented absorbed latency_frames ≡ absorbed - latency_frames)
      × (presented < absorbed
          → presented_frames presented absorbed latency_frames ≡ presented - latency_frames)
      × (absorbed + latency_frames < presented
          → presented_frames presented absorbed latency_frames ≡ presented - latency_frames)
unfolding presented_frames
presented_frames_bounds presented absorbed latency_frames = ground arith

module _ {P : Type 0} (port : AudioPort P) (frame_size : ChannelMask → AudioFormat → ℕ) where
  -- A presentation position that is answered is never ahead of the frames that the stream counts as
  -- presented.
  pub out_get_presentation_position-le :
      (out : StreamOut P) (now_ns frames timestamp_ns : ℕ)
      → out_get_presentation_position port frame_size out now_ns ≡ some (frames, timestamp_ns)
      → frames ≤ out.frames_presented
  unfolding out_get_presentation_position out_calculate_feeding_delay_ms
  out_get_presentation_position-le out now_ns frames timestamp_ns h = ground arith

  -- A rendered position that is answered is never ahead of the frames rendered since standby.
  pub out_get_render_position-le :
      (out : StreamOut P) (frames : ℕ)
      → out_get_render_position port frame_size out ≡ some frames
      → frames ≤ out.frames_rendered
  unfolding out_get_render_position
  out_get_render_position-le out frames h = ground arith

  -- The headset's delay is taken exactly where the port fetches it and it lies strictly between 50 and
  -- 1000 milliseconds; else the delay is that of the stream's buffer and 200 milliseconds, which faults
  -- exactly where the sample rate is 0.
  pub out_delay_report_ms_lem :
      (out : StreamOut P)
      → let (fetched, position) = port.get_presentation_position out.bluetooth_output no_position in
        let reported = position.remote_device_audio_delay_nanos / 1000000 in
        ((fetched ≡ true) × (50 < reported) × (reported < 1000)
          → out_delay_report_ms port frame_size out ≡ some (reported, true))
        × ((fetched ≡ false) ⊎ (reported ≤ 50) ⊎ (1000 ≤ reported)
            → (out.sample_rate ≡ 0 → out_delay_report_ms port frame_size out ≡ none)
              × (out.sample_rate ≢ 0
                  → out_delay_report_ms port frame_size out
                    ≡ some (u64 (u64 (out.frames_count * 1000) / out.sample_rate + 200), false)))
  unfolding out_delay_report_ms
  out_delay_report_ms_lem out = ground arith
