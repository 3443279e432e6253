-- ===== src/Stream/Reading.antt =====
-- That the input stream of stream_apis.cc returns from standby and from a read.
use device_blackshark_penros.Base.{
  Bool-cases, Option, arith, false, if◌then◌else◌, inl, inr, refl, some, true, ℕ, ◌+◌, ◌/◌, ◌<◌,
  ◌==◌, ◌||◌, ◌≡◌, ◌≤◌, ◌⊎◌,
}
use device_blackshark_penros.Port.Core.{is_started, is_starting}
use device_blackshark_penros.Port.Types.{AudioFormat, ChannelMask}
use device_blackshark_penros.Stream.Delay.{in_frame_size, in_get_channels, in_get_format}
use device_blackshark_penros.Stream.In.{
  in_read, in_read_after_wait, in_read_frames, in_resume, in_state,
}
use device_blackshark_penros.Stream.Interface.{AudioPort, IsAudioPort}
use device_blackshark_penros.Stream.Timeout.{after, in_wait-Waited, settled, stuck}
use device_blackshark_penros.Stream.Types.{
  Errno, Result, StreamIn, ebusy, fail, input_state_timeout_ms, ok, succeeds, u64,
}

module _ {P : Type 0} (port : AudioPort P) (others : StreamIn P → StreamIn P) (bytes : ℕ) where
  -- The stream after so many milliseconds of the wait.
  abbrev pub waited_for : ℕ → StreamIn P → StreamIn P
  waited_for k s = after port is_starting others k s

  -- The wait for the port to leave its start has ended after so many milliseconds.
  abbrev pub IsSettled : ℕ → StreamIn P → Type 0
  IsSettled k s =
      (k < input_state_timeout_ms)
      × (is_starting (in_state port (waited_for k s)) ≡ false)
      × ((j : ℕ) → j < k → is_starting (in_state port (waited_for j s)) ≡ true)

  -- The stream that a read takes its data from: it is started, or its start has succeeded.
  abbrev pub read_from : ℕ → StreamIn P → StreamIn P
  read_from k s =
      if is_started (in_state port (waited_for k s))
      then waited_for k s
      else (in_resume port (waited_for k s)).1

  -- How a read ends: busy, where the port was in its start for the whole wait; with the error of the
  -- start, where the port was not started and its start fails; else with what the
  -- port gives, at most so many bytes.
  pub data ReadEnds (s : StreamIn P) (r : Option (Result × StreamIn P)) : Type 0 where
    timed_out :
        ((j : ℕ) → j < input_state_timeout_ms → is_starting (in_state port (waited_for j s)) ≡ true)
        → r ≡ some (fail ebusy, waited_for input_state_timeout_ms s)
        → ReadEnds s r
    start_failed :
        (k : ℕ) (e : Errno)
        → IsSettled k s
        → is_started (in_state port (waited_for k s)) ≡ false
        → (in_resume port (waited_for k s)).0 ≡ fail e
        → r ≡ some (fail e, (in_resume port (waited_for k s)).1)
        → ReadEnds s r
    has_read :
        (k n : ℕ) (s'' : StreamIn P)
        → IsSettled k s
        → (is_started (in_state port (waited_for k s))
            || succeeds (in_resume port (waited_for k s)).0)
          ≡ true
        → n ≡ (port.read_data (read_from k s).bluetooth_input bytes).0
        → n ≤ bytes
        → r ≡ some (ok n, s'')
        → ReadEnds s r

module _ {P : Type 0} (port : AudioPort P) (laws : IsAudioPort port)
    (frame_size : ChannelMask → AudioFormat → ℕ)
    (sized : (m : ChannelMask) (f : AudioFormat) → 0 < frame_size m f)
    (others : StreamIn P → StreamIn P) (bytes now_ns : ℕ) where
  frames_read :
      (s : StreamIn P)
      → (s' : StreamIn P) × (in_read_frames port frame_size others s bytes now_ns
          ≡ some (ok (port.read_data s.bluetooth_input bytes).0, s'))
  unfolding in_read_frames in_frame_size
  frames_read s =
      let (total, p) = port.read_data s.bluetooth_input bytes in
      let s' = others (record s { bluetooth_input = p }) in
      let size =
        frame_size (in_get_channels port frame_size s') (in_get_format port frame_size s') in
      let nonzero : (size == 0) ≡ false =
        ground
          (arith, sized (in_get_channels port frame_size s') (in_get_format port frame_size s')) in
      (
        record s' {
          last_read_time_us = now_ns / 1000;
          frames_presented = u64 (s'.frames_presented + total / size);
        },
        rw nonzero refl,
      )

  Result-cases : (r : Result) → (succeeds r ≡ true) ⊎ ((e : Errno) × (r ≡ fail e))
  Result-cases (ok n) = inl refl
  Result-cases (fail e) = inr (e, refl)

  settled-ReadEnds :
      (k : ℕ) (s : StreamIn P)
      → IsSettled port others bytes k s
      → ReadEnds port others bytes s (
          in_read_after_wait port frame_size others bytes now_ns
            (true, after port is_starting others k s))
  unfolding in_read_after_wait
  settled-ReadEnds k s out =
      let s' = after port is_starting others k s in
      elim (Bool-cases (is_started (in_state port s'))) [
        | inl up ↦
            let (s'', e) = frames_read s' in
            rw (up, e)
              (has_read k _ s'' out (rw up refl) (rw up refl)
                (laws.read_data_le s'.bluetooth_input bytes) refl)
        | inr down ↦ rw down (elim (Result-cases (in_resume port s').0) [
          | inl well ↦
              let resumed = (in_resume port s').1 in
              let (s'', e) = frames_read resumed in
              rw (well, e)
                (has_read k _ s'' out (rw (down, well) refl) (rw down refl)
                  (laws.read_data_le resumed.bluetooth_input bytes) refl)
          | inr (err, bad) ↦ rw bad (start_failed k err out down bad refl)
        ])
      ]

  -- Where a frame is never empty, a read ends, whatever other calls make of the stream while it waits
  -- and reads: as busy, exactly after 20 milliseconds in which the port has not left its start; else,
  -- at the first millisecond that the port has left it, with the error of the start where the port is
  -- not started and the start fails, and otherwise with the number of bytes that the port gives, at most the caller's.
  pub in_read-ReadEnds :
      (s : StreamIn P)
      → ReadEnds port others bytes s (in_read port frame_size others s bytes now_ns)
  unfolding in_read
  in_read-ReadEnds s = elim (in_wait-Waited port is_starting others s) [
    | settled k lt out held e ↦ rw e (settled-ReadEnds k s (lt, out, held))
    | stuck held e ↦ rw e (unfold in_read_after_wait in timed_out held refl)
  ]
