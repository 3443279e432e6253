-- ===== src/Stream/Opening.antt =====
-- What opening a stream of stream_apis.cc sets.
use device_blackshark_penros.Base.{Bool, arith, false, is_some, some, true, ℕ, ◌<◌, ◌≡◌, ◌≤◌}
use device_blackshark_penros.Port.Types.{AudioConfig, AudioDevices}
use device_blackshark_penros.Stream.Device.{
  OutputFlags, adev_open_output_stream, frame_count, is_spatialized, output_interval, wants_mono,
}
use device_blackshark_penros.Stream.Interface.{AudioPort}
use device_blackshark_penros.Stream.Types.{StreamOut, succeeds}

-- The interval of an output stream is the port's where that is known and not 0, and else 10
-- milliseconds; a spatialized output has 10 milliseconds at least. So it is never 0.
pub output_interval_lem :
    (known : Bool) (interval : ℕ) (flags : OutputFlags)
    → let chosen = output_interval (known, interval) flags in
      (0 < chosen)
      × (is_spatialized flags ≡ true → 10000 ≤ chosen)
      × (known ≡ true → 10000 ≤ interval → chosen ≡ interval)
      × (known ≡ true → 0 < interval → is_spatialized flags ≡ false → chosen ≡ interval)
      × (known ≡ false → chosen ≡ 10000)
unfolding output_interval
output_interval_lem known interval flags = ground arith

module _ {P : Type 0} (port : AudioPort P) where
  -- A stream is opened exactly where the port can be set up. It is opened with counters at 0, with a
  -- configuration equal to the one handed back to the framework, never mono at 16 bits, and with the
  -- frames of its interval at its sample rate.
  pub adev_open_output_stream_lem :
      (p : P) (aidl : Bool) (devices : AudioDevices) (flags : OutputFlags) (config : AudioConfig)
      → let (r, opened, c) = adev_open_output_stream port p aidl devices flags config in
        (succeeds r ≡ (port.set_up p devices).0)
        × (is_some opened ≡ (port.set_up p devices).0)
        × ((out : StreamOut P)
            → opened ≡ some out
            → (out.frames_rendered ≡ 0)
              × (out.frames_presented ≡ 0)
              × (out.sample_rate ≡ c.sample_rate)
              × (out.channel_mask ≡ c.channel_mask)
              × (out.format ≡ c.format)
              × (wants_mono c ≡ false)
              × (out.frames_count ≡ frame_count out.preferred_data_interval_us out.sample_rate))
  unfolding adev_open_output_stream
  adev_open_output_stream_lem p aidl devices flags config =
      (ground arith, ground arith, λ out e. ground arith)
