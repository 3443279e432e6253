-- ===== src/Stream/Aidl.antt =====
-- The AIDL output port of device_port_proxy.cc as the port of a stream, and what its streams do.
use device_blackshark_penros.Base.{
  Bool, List, Option, [], arith, false, refl, true, ℕ, ◌+◌, ◌∷◌, ◌≡◌, ◌≤◌,
}
use device_blackshark_penros.Control.Sessions.{Registry, session}
use device_blackshark_penros.Port.Bounds.{IsWithin, position_never_fetched, write_data-IsWithin}
use device_blackshark_penros.Port.Core.{
  Reply, force_pcm_stereo_to_mono, in_use, is_a2dp, set_state, set_up, start, stop, suspend,
  tear_down,
}
use device_blackshark_penros.Port.Data.{
  get_preferred_data_interval_us, get_presentation_position, load_output_config, write_data,
}
use device_blackshark_penros.Port.Types.{
  AudioDevices, AudioFormat, ChannelMask, Port, disabled, standby, started,
}
use device_blackshark_penros.Port.Waiting.{
  accepts, silent, start-eq, start_confirmed, start_not_taken, suspend-eq,
}
use device_blackshark_penros.Session.Cookies.{SessionCode}
use device_blackshark_penros.Session.Core.{is_session_ready}
use device_blackshark_penros.Session.Pcm.{PcmResult, Round, faulted, out_of_fuel, returned}
use device_blackshark_penros.Session.Types.{
  Defaults, Notification, PresentationPosition, control_result, success,
}
use device_blackshark_penros.Stream.Delay.{no_position, out_delay_report_ms, out_legacy_delay_ms}
use device_blackshark_penros.Stream.Interface.{AudioPort, IsAudioPort}
use device_blackshark_penros.Stream.Out.{out_pause, out_resume, out_standby, out_state}
use device_blackshark_penros.Stream.Types.{Result, StreamOut, ebusy, eio, fail}

-- The port with its sessions, and what the environment answers: the replies to Start and Suspend, the
-- stack's positions and the rounds of the queue, each by the number of calls made so far.
pub record AidlOut : Type 0 where
  pub registry : Registry
  pub proxy : Port
  pub calls : ℕ
  pub replies : ℕ → Reply
  pub position : ℕ → Option PresentationPosition
  pub rounds : ℕ → ℕ → Round

-- The interface of a port has no fault: a write that dereferences a null queue, which takes the session
-- of an offloaded type, stands here as one of no bytes.
abbrev written : PcmResult ℕ → ℕ
written (returned total queue) = total
written faulted = 0
written out_of_fuel = 0

module _ (code : SessionCode) (d : Defaults) (downmix : ℕ → List ℕ → List ℕ) (name : ℕ) where
  unfoldable pub aidl_start : AidlOut → Bool × AidlOut
  aidl_start p =
      let (done, q, r) = start code (p.replies p.calls) p.registry p.proxy in
      (done, record p { registry = r; proxy = q; calls = p.calls + 1 })

  unfoldable pub aidl_suspend : AidlOut → Bool × AidlOut
  aidl_suspend p =
      let (done, q, r) = suspend code (p.replies p.calls) p.registry p.proxy in
      (done, record p { registry = r; proxy = q; calls = p.calls + 1 })

  unfoldable pub aidl_write_data : AidlOut → List ℕ → ℕ → ℕ × AidlOut
  aidl_write_data p buffer bytes = (
    written (write_data code downmix (p.rounds p.calls) p.proxy buffer bytes),
    record p { calls = p.calls + 1 },
  )

  unfoldable pub aidl_set_up : AidlOut → AudioDevices → Bool × AidlOut
  aidl_set_up p device =
      let (done, q, r) = set_up code name p.registry p.proxy device in
      (done, record p { registry = r; proxy = q })

  -- The overrides of `BluetoothAudioPortAidlOut`; its ReadData is that of the base class.
  unfoldable pub aidl_out : AudioPort AidlOut
  unfolding aidl_start aidl_suspend aidl_write_data aidl_set_up
  aidl_out = record {
    in_use = λ p. in_use code p.proxy;
    set_up = aidl_set_up;
    tear_down =
        λ p. let (q, r) = tear_down code p.registry p.proxy in record p { registry = r; proxy = q };
    load_audio_config = λ p config. load_output_config code d p.registry p.proxy config;
    force_pcm_stereo_to_mono =
        λ p force. record p { proxy = force_pcm_stereo_to_mono p.proxy force };
    start = aidl_start;
    suspend = aidl_suspend;
    stop = λ p. let (q, r) = stop code p.registry p.proxy in record p { registry = r; proxy = q };
    get_presentation_position = λ p position.
        get_presentation_position code d p.registry p.proxy (p.position p.calls) position;
    update_source_metadata = λ p tracks. p;
    get_state = λ p. p.proxy.state;
    set_state = λ p s. record p { proxy = set_state p.proxy s };
    is_a2dp = λ p. is_a2dp p.proxy;
    get_preferred_data_interval_us =
        λ p interval. get_preferred_data_interval_us code d p.registry p.proxy interval;
    write_data = aidl_write_data;
    read_data = λ p bytes. (0, p);
  }

  written-le : (bytes : ℕ) (r : PcmResult ℕ) → IsWithin bytes r → written r ≤ bytes
  written-le bytes (returned total queue) h = h
  written-le bytes faulted h = omega arith
  written-le bytes out_of_fuel h = omega arith

  stopped :
      (p : AidlOut) → in_use code p.proxy ≡ true → (stop code p.registry p.proxy).0.state ≡ disabled
  unfolding stop
  stopped p h = ground arith

  -- The AIDL port keeps the contract that the streams rely on.
  pub aidl_out-IsAudioPort : IsAudioPort aidl_out
  unfolding aidl_out
  aidl_out-IsAudioPort = record {
    get_state-set_state = λ p s. unfold set_state in refl;
    start_started = λ p h. ground (arith, start-eq code (p.replies p.calls) p.registry p.proxy);
    suspend_standby = λ p h. ground (arith, suspend-eq code (p.replies p.calls) p.registry p.proxy);
    stop_disabled = λ p h. stopped p h;
    write_data_le = λ p buffer bytes.
        written-le bytes _
          (write_data-IsWithin code downmix (p.rounds p.calls) p.proxy buffer bytes);
    read_data_le = λ p bytes. omega arith;
  }

  -- The latency of a stream on an AIDL port is always that of its own buffer and 200 milliseconds,
  -- whatever delay the headset reports.
  pub aidl_delay_is_legacy :
      (frame_size : ChannelMask → AudioFormat → ℕ) (out : StreamOut AidlOut)
      → out_delay_report_ms aidl_out frame_size out ≡ out_legacy_delay_ms out
  unfolding out_delay_report_ms aidl_out
  aidl_delay_is_legacy frame_size out =
      let p = out.bluetooth_output in
      ground
        (arith, position_never_fetched code d p.registry p.proxy (p.position p.calls) no_position)

  -- A stream on standby is resumed, and started, where its port is in use, its session is ready, the
  -- stack takes the call, and the session then reports success to the port's cookie, however long it
  -- was silent before.
  pub aidl_resume_confirmed :
      (out : StreamOut AidlOut) (k : ℕ) (start_resp : Bool) (later : List (List Notification))
      → let p = out.bluetooth_output in
        in_use code p.proxy ≡ true
        → p.proxy.state ≡ standby
        → is_session_ready (session p.registry p.proxy.session_type) ≡ true
        → p.replies p.calls ≡ record {
          ok = true;
          early = [];
          batches = silent k ((control_result p.proxy.cookie start_resp success ∷ []) ∷ later);
        }
        → let (r, out') = out_resume aidl_out out in
          (r ≡ Result.ok 0) × (out_state aidl_out out' ≡ started)
  unfolding out_resume aidl_out
  aidl_resume_confirmed out k start_resp later used idle ready reply =
      let p = out.bluetooth_output in
      ground (arith, start_confirmed code p.registry p.proxy used k start_resp later idle ready)

  -- A resume that the stack does not take answers an I/O error, and wedges the stream: until a callback
  -- or another call changes the port, every resume, standby and pause is refused as busy.
  pub aidl_resume_not_taken :
      (out : StreamOut AidlOut)
      → let p = out.bluetooth_output in
        in_use code p.proxy ≡ true
        → p.proxy.state ≡ standby
        → accepts p.registry p.proxy (p.replies p.calls).ok ≡ false
        → (p.replies p.calls).early ≡ []
        → let (r, out') = out_resume aidl_out out in
          (r ≡ fail eio)
          × (out_resume aidl_out out' ≡ (fail ebusy, out'))
          × (out_standby aidl_out out' ≡ (fail ebusy, out'))
          × (out_pause aidl_out out' ≡ (fail ebusy, out'))
  unfolding out_resume out_standby out_pause aidl_out
  aidl_resume_not_taken out used idle untaken quiet =
      let p = out.bluetooth_output in
      let reply = p.replies p.calls in
      ground (arith, start_not_taken code p.registry p.proxy used reply reply idle untaken quiet)
