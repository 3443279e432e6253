-- ===== src/Stream/Disabling.antt =====
-- A disabled output stream of stream_apis.cc: how it comes to be, and what it does with data.
use Prim.Native.String.{String}
use device_blackshark_penros.Base.{List, arith, false, some, true, ℕ, ◌≡◌, ◌≢◌}
use device_blackshark_penros.Port.Types.{AudioFormat, ChannelMask, disabled, standby}
use device_blackshark_penros.Stream.Interface.{AudioPort, IsAudioPort}
use device_blackshark_penros.Stream.Out.{out_state, out_write}
use device_blackshark_penros.Stream.Parameters.{
  Params, a2dp_suspended_step, close_step, has_param, param_is,
}
use device_blackshark_penros.Stream.Types.{StreamOut, ok}

module _ {P : Type 0} (port : AudioPort P) (frame_size : ChannelMask → AudioFormat → ℕ) where
  -- With no other calls in between, a write to a disabled stream reports all of the data as written,
  -- hands none of it to the port, and changes nothing of the stream.
  pub out_write_disabled :
      (out : StreamOut P) (buffer : List ℕ) (bytes now_ns : ℕ)
      → out_state port out ≡ disabled
      → out_write port frame_size (λ i o. o) out buffer bytes now_ns ≡ some (ok bytes, out)
  unfolding out_write
  out_write_disabled out buffer bytes now_ns h = ground arith

module _ {P : Type 0} (port : AudioPort P) (laws : IsAudioPort port) where
  -- A2dpSuspended=true disables an A2DP stream whose port is in use, in every state, and resets the
  -- rendered frames; the presented frames stay.
  pub a2dp_suspended_disables :
      (params : Params) (out : StreamOut P)
      → port.in_use out.bluetooth_output ≡ true
      → port.is_a2dp out.bluetooth_output ≡ true
      → has_param "A2dpSuspended" params ≡ true
      → param_is "A2dpSuspended" "true" params ≡ true
      → let out' = a2dp_suspended_step port params out in
        (out_state port out' ≡ disabled)
        × (out'.frames_rendered ≡ 0)
        × (out'.frames_presented ≡ out.frames_presented)
  unfolding a2dp_suspended_step
  a2dp_suspended_disables params out used a2dp given suspended =
      let p = out.bluetooth_output in
      ground
        (arith, laws.stop_disabled p used, laws.get_state-set_state (port.suspend p).1 disabled)

  -- Any other value of A2dpSuspended puts a disabled A2DP stream on standby, so that it can be
  -- resumed, and changes no stream in another state.
  pub a2dp_unsuspended :
      (params : Params) (out : StreamOut P)
      → port.is_a2dp out.bluetooth_output ≡ true
      → has_param "A2dpSuspended" params ≡ true
      → param_is "A2dpSuspended" "true" params ≡ false
      → let out' = a2dp_suspended_step port params out in
        (out_state port out ≡ disabled → out_state port out' ≡ standby)
        × (out_state port out ≢ disabled → out' ≡ out)
  unfolding a2dp_suspended_step
  a2dp_unsuspended params out a2dp given plain =
      ground (arith, laws.get_state-set_state out.bluetooth_output standby)

  -- closing=true or exiting=1 leaves a stream whose port is in use disabled; unless it was disabled
  -- before, both counters are reset.
  pub close_step_lem :
      (key value : String) (params : Params) (out : StreamOut P)
      → port.in_use out.bluetooth_output ≡ true
      → param_is key value params ≡ true
      → let out' = close_step port key value params out in
        (out_state port out' ≡ disabled)
        × (out_state port out ≢ disabled → (out'.frames_rendered ≡ 0) × (out'.frames_presented ≡ 0))
        × (out_state port out ≡ disabled → out' ≡ out)
  unfolding close_step
  close_step_lem key value params out used given =
      ground (arith, laws.stop_disabled out.bluetooth_output used)
