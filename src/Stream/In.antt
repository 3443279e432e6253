-- ===== src/Stream/In.antt =====
-- The input stream of stream_apis.cc: standby, read and the capture position.
use device_blackshark_penros.Base.{
  Bool, Option, false, if◌then◌else◌, leb, none, some, suc, true, zero, ℕ, ◌%◌, ◌+◌, ◌-◌, ◌/◌,
  ◌>>=◌,
}
use device_blackshark_penros.Port.Core.{is_started, is_starting, is_suspending}
use device_blackshark_penros.Port.Types.{
  AudioFormat, BluetoothStreamState, ChannelMask, disabled, standby, started, suspending,
}
use device_blackshark_penros.Stream.Delay.{in_calculate_starving_delay_ms, in_frame_size}
use device_blackshark_penros.Stream.Interface.{AudioPort}
use device_blackshark_penros.Stream.Types.{
  Result, StreamIn, div?, ebusy, einval, eio, fail, input_state_timeout_ms, ok, succeeds, u64,
}

module _ {P : Type 0} (port : AudioPort P) where
  abbrev pub in_state : StreamIn P → BluetoothStreamState
  in_state s = port.get_state s.bluetooth_input

  -- `in_state_transition_timeout`: while the port is in the state, the lock is given up for a
  -- millisecond; `others` says what other calls make of the stream in each. `timeout_ms` is a
  -- `uint16_t`, so its decrement wraps at 0; the fuel is the number of milliseconds left at most.
  unfoldable pub in_state_transition_timeout :
      ℕ
      → (BluetoothStreamState → Bool)
      → (StreamIn P → StreamIn P)
      → StreamIn P
      → ℕ
      → Option (Bool × StreamIn P)
  in_state_transition_timeout zero waits others s timeout_ms = none
  in_state_transition_timeout (suc fuel) waits others s timeout_ms =
      let left = (timeout_ms + 65536 - 1) % 65536 in
      let later = in_state_transition_timeout fuel waits others (others s) left in
      if waits (in_state s)
      then (if leb left 0 then some (false, others s) else later)
      else some (true, s)

  -- The wait as the callers make it.
  unfoldable pub in_wait :
      (BluetoothStreamState → Bool)
      → (StreamIn P → StreamIn P)
      → StreamIn P
      → Option (Bool × StreamIn P)
  unfolding in_state_transition_timeout
  in_wait waits others s =
      in_state_transition_timeout (input_state_timeout_ms + 1) waits others s input_state_timeout_ms

  unfoldable pub in_suspend : StreamIn P → Result × StreamIn P
  in_suspend s =
      let (done, p) = port.suspend s.bluetooth_input in
      (if done then ok 0 else fail eio, record s { bluetooth_input = p })

  -- The wait for the port to leave SUSPENDING: its failure answers 0.
  unfoldable pub in_standby_wait :
      (StreamIn P → StreamIn P) → Result × StreamIn P → Option (Result × StreamIn P)
  unfolding in_wait
  in_standby_wait others (retval, s) = do
    (suspended, s') ← in_wait is_suspending others s
    some (if suspended then retval else ok 0, s')

  unfoldable pub in_standby : (StreamIn P → StreamIn P) → StreamIn P → Option (Result × StreamIn P)
  unfolding in_wait in_suspend in_standby_wait
  in_standby others s = do
    (settled, s') ← in_wait is_starting others s
    if settled
        then (elim (in_state s') [
          | started ↦ in_standby_wait others (in_suspend s')
          | suspending ↦ in_standby_wait others (ok 0, s')
          | _ ↦ some (ok 0, s')
        ])
        else some (ok 0, s')

  unfoldable pub in_start_port : StreamIn P → Result × StreamIn P
  in_start_port s =
      let (done, p) = port.start s.bluetooth_input in
      (if done then ok 0 else fail eio, record s { bluetooth_input = p })

  -- The start of a stream that is not started when it is read.
  unfoldable pub in_resume : StreamIn P → Result × StreamIn P
  unfolding in_start_port
  in_resume s = elim (in_state s) [
    | standby ↦ in_start_port s
    | suspending ↦ (fail ebusy, s)
    | disabled ↦ (fail einval, s)
    | _ ↦ (ok 0, s)
  ]

module _ {P : Type 0} (port : AudioPort P) (frame_size : ChannelMask → AudioFormat → ℕ) where
  -- ReadData runs without the lock. `now_ns` is the clock after it.
  unfoldable pub in_read_frames :
      (StreamIn P → StreamIn P) → StreamIn P → ℕ → ℕ → Option (Result × StreamIn P)
  unfolding in_frame_size
  in_read_frames others s bytes now_ns =
      let (total_read, p) = port.read_data s.bluetooth_input bytes in
      let s' = others (record s { bluetooth_input = p }) in
      div? total_read (in_frame_size port frame_size s') >>= (λ frames. some (
        ok total_read,
        record s' {
          last_read_time_us = now_ns / 1000;
          frames_presented = u64 (s'.frames_presented + frames);
        },
      ))

  -- What follows the wait for the port to leave STARTING.
  unfoldable pub in_read_after_wait :
      (StreamIn P → StreamIn P) → ℕ → ℕ → Bool × StreamIn P → Option (Result × StreamIn P)
  unfolding in_resume in_read_frames
  in_read_after_wait others bytes now_ns (left, s') =
      if left
      then (let (resumed, s'') =
            if is_started (in_state port s') then (ok 0, s') else in_resume port s' in
          if succeeds resumed then in_read_frames others s'' bytes now_ns else some (resumed, s''))
      else some (fail ebusy, s')

  unfoldable pub in_read :
      (StreamIn P → StreamIn P) → StreamIn P → ℕ → ℕ → Option (Result × StreamIn P)
  unfolding in_wait in_read_after_wait
  in_read others s bytes now_ns =
      in_wait port is_starting others s >>= in_read_after_wait others bytes now_ns

  -- `none` inside is the answer `-ENOSYS` of a stream on standby.
  unfoldable pub in_get_capture_position : StreamIn P → Option (Option (ℕ × ℕ))
  unfolding in_calculate_starving_delay_ms
  in_get_capture_position s = elim (in_state port s) [
    | standby ↦ some none
    | _ ↦ in_calculate_starving_delay_ms port frame_size s >>= (λ d. some (some d))
  ]
