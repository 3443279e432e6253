-- ===== src/Stream/Out.antt =====
-- The output stream of stream_apis.cc: standby, pause, resume and write. The stream's mutex is held
-- but where a function gives it up; there `others` says what other calls make of the stream, at each
-- such point in turn. Where a function asks the port for its state several times, it is one answer:
-- a callback that changes the port's state between two of the questions is left out.
use device_blackshark_penros.Base.{
  List, Option, if◌then◌else◌, ltb, some, ℕ, ◌*◌, ◌+◌, ◌-◌, ◌/◌, ◌>>=◌,
}
use device_blackshark_penros.Port.Core.{is_started}
use device_blackshark_penros.Port.Types.{
  AudioFormat, BluetoothStreamState, ChannelMask, disabled, standby, started, starting, suspending,
}
use device_blackshark_penros.Stream.Delay.{out_frame_size, out_get_sample_rate}
use device_blackshark_penros.Stream.Interface.{AudioPort}
use device_blackshark_penros.Stream.Types.{
  Result, StreamOut, div?, ebusy, einval, eio, fail, ok, succeeds, u64,
}

-- `2 ^ 64` for the frame counters.
abbrev pub add_frames : ℕ → ℕ → ℕ
add_frames count frames = u64 (count + frames)

module _ {P : Type 0} (port : AudioPort P) where
  abbrev pub out_state : StreamOut P → BluetoothStreamState
  out_state out = port.get_state out.bluetooth_output

  -- Suspend, and the result that the stream returns for it.
  unfoldable pub out_suspend : StreamOut P → Result × StreamOut P
  out_suspend out =
      let (done, p) = port.suspend out.bluetooth_output in
      (if done then ok 0 else fail eio, record out { bluetooth_output = p; frames_rendered = 0 })

  unfoldable pub out_standby : StreamOut P → Result × StreamOut P
  unfolding out_suspend
  out_standby out = elim (out_state out) [
    | started ↦ out_suspend out
    | starting ↦ (fail ebusy, out)
    | suspending ↦ (fail ebusy, out)
    | _ ↦ (ok 0, out)
  ]

  unfoldable pub out_pause : StreamOut P → Result × StreamOut P
  unfolding out_suspend
  out_pause out = elim (out_state out) [
    | started ↦ out_suspend out
    | starting ↦ (fail ebusy, out)
    | suspending ↦ (fail ebusy, out)
    | _ ↦ (ok 0, out)
  ]

  unfoldable pub out_start : StreamOut P → Result × StreamOut P
  out_start out =
      let (done, p) = port.start out.bluetooth_output in
      (if done then ok 0 else fail eio, record out { bluetooth_output = p })

  unfoldable pub out_resume : StreamOut P → Result × StreamOut P
  unfolding out_start
  out_resume out = elim (out_state out) [
    | standby ↦ out_start out
    | starting ↦ (fail ebusy, out)
    | suspending ↦ (fail ebusy, out)
    | disabled ↦ (fail einval, out)
    | _ ↦ (ok 0, out)
  ]

module _ {P : Type 0} (port : AudioPort P) (frame_size : ChannelMask → AudioFormat → ℕ) where
  -- Nothing was written: sleep for what is left of the buffer's play time. Times are small enough not
  -- to wrap, so `sleep_time` is the truncated difference, and 0 where the code sets it to 0.
  unfoldable pub out_write_stalled :
      (StreamOut P → StreamOut P) → StreamOut P → ℕ → ℕ → Option (StreamOut P)
  unfolding out_frame_size out_get_sample_rate
  out_write_stalled others out bytes now = do
    per_frame ← div? (u64 (bytes * 1000000)) (out_frame_size port frame_size out)
    play_time ← div? per_frame (out_get_sample_rate port frame_size out)
    let sleep_time = play_time + out.last_write_time_us - now
    let slept = if ltb 0 sleep_time then others out else out
    some (record slept { last_write_time_us = now + sleep_time })

  -- What follows WriteData. The frames are those of the whole buffer, however much was written.
  unfoldable pub out_write_account :
      (StreamOut P → StreamOut P) → StreamOut P → ℕ → ℕ → ℕ → Option (StreamOut P)
  unfolding out_frame_size out_write_stalled
  out_write_account others out bytes total_written now =
      if ltb 0 total_written
      then div? bytes (out_frame_size port frame_size out) >>= (λ frames. some (record out {
        frames_rendered = add_frames out.frames_rendered frames;
        frames_presented = add_frames out.frames_presented frames;
        last_write_time_us = now;
      }))
      else out_write_stalled others out bytes now

  -- WriteData runs without the lock; the stack's part of the port's state is what it leaves.
  unfoldable pub out_write_data :
      (ℕ → StreamOut P → StreamOut P) → StreamOut P → List ℕ → ℕ → ℕ → Option (Result × StreamOut P)
  unfolding out_write_account
  out_write_data others out buffer bytes now_ns =
      let (total_written, p) = port.write_data out.bluetooth_output buffer bytes in
      let out' = others 2 (record out { bluetooth_output = p }) in
      out_write_account (others 3) out' bytes total_written (now_ns / 1000)
      >>= (λ out''. some (ok total_written, out''))

  -- The stream that resume refused: its data counts as written where the stream is disabled.
  unfoldable pub out_write_refused :
      (ℕ → StreamOut P → StreamOut P) → StreamOut P → ℕ → Option (Result × StreamOut P)
  out_write_refused others out bytes = elim (out_state port out) [
    | disabled ↦ some (ok bytes, others 1 out)
    | _ ↦ some (ok 0, others 1 out)
  ]

  -- `bytes` is the length of the buffer, and `now_ns` the clock after WriteData.
  unfoldable pub out_write :
      (ℕ → StreamOut P → StreamOut P) → StreamOut P → List ℕ → ℕ → ℕ → Option (Result × StreamOut P)
  unfolding out_resume out_write_refused out_write_data
  out_write others out buffer bytes now_ns =
      if is_started (out_state port out)
      then out_write_data others out buffer bytes now_ns
      else (let (resumed, out') = out_resume port (others 0 out) in
          if succeeds resumed
          then out_write_data others out' buffer bytes now_ns
          else out_write_refused others out' bytes)
