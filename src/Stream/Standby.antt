-- ===== src/Stream/Standby.antt =====
-- What standby, pause and resume of stream_apis.cc leave behind.
use device_blackshark_penros.Base.{Bool, arith, false, if◌then◌else◌, true, ◌≡◌, ◌⊎◌}
use device_blackshark_penros.Port.Core.{is_started}
use device_blackshark_penros.Port.Types.{
  BluetoothStreamState, disabled, started, starting, suspending,
}
use device_blackshark_penros.Stream.Interface.{AudioPort, IsAudioPort}
use device_blackshark_penros.Stream.Out.{out_pause, out_resume, out_standby, out_state}
use device_blackshark_penros.Stream.Types.{Result, StreamOut, ebusy, einval, fail, succeeds}

abbrev pub is_quiet : BluetoothStreamState → Bool
is_quiet started = false
is_quiet starting = false
is_quiet suspending = false
is_quiet _ = true

abbrev pub is_busy : BluetoothStreamState → Bool
is_busy starting = true
is_busy suspending = true
is_busy _ = false

abbrev pub is_ebusy : Result → Bool
is_ebusy (fail ebusy) = true
is_ebusy _ = false

module _ {P : Type 0} (port : AudioPort P) (laws : IsAudioPort port) where
  -- A standby that succeeds leaves a port that neither plays nor is about to. It is refused as busy
  -- exactly where the port is starting or suspending, and then nothing changes. Where it asks the port
  -- to suspend, the rendered frames are reset and the presented frames are kept.
  pub out_standby_lem :
      (out : StreamOut P)
      → let (r, out') = out_standby port out in
        (succeeds r ≡ true → is_quiet (out_state port out') ≡ true)
        × (is_ebusy r ≡ is_busy (out_state port out))
        × (is_ebusy r ≡ true → out' ≡ out)
        × (out'.frames_rendered
            ≡ (if is_started (out_state port out) then 0 else out.frames_rendered))
        × (out'.frames_presented ≡ out.frames_presented)
  unfolding out_standby
  out_standby_lem out = ground (arith, laws.suspend_standby out.bluetooth_output)

  -- Pause does what standby does, in every state.
  pub out_pause-eq-standby : (out : StreamOut P) → out_pause port out ≡ out_standby port out
  unfolding out_pause out_standby
  out_pause-eq-standby out = ground arith

  -- A resume that succeeds leaves the stream started, unless the port's state was unknown. A disabled
  -- stream is refused as invalid, and a port that is starting or suspending as busy; then nothing
  -- changes. The frame counters stay in every case.
  pub out_resume_lem :
      (out : StreamOut P)
      → let (r, out') = out_resume port out in
        (succeeds r ≡ true
          → (out_state port out' ≡ started) ⊎ (out_state port out ≡ BluetoothStreamState.unknown))
        × (out_state port out ≡ disabled → (r ≡ fail einval) × (out' ≡ out))
        × (is_ebusy r ≡ is_busy (out_state port out))
        × (is_ebusy r ≡ true → out' ≡ out)
        × (out'.frames_rendered ≡ out.frames_rendered)
        × (out'.frames_presented ≡ out.frames_presented)
  unfolding out_resume
  out_resume_lem out = ground (arith, laws.start_started out.bluetooth_output)
