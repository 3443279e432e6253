-- ===== src/Tests/Stream.antt =====
-- The properties at concrete inputs.
use Prim.Native.String.{String}
use text.Mathlib.Text.{◌==◌ as str_eq}
use device_blackshark_penros.Control
use device_blackshark_penros.Base.{
  List, [], arith, if◌then◌else◌, refl, some, true, ◌&&◌, ◌∷◌, ◌≡◌, ◌⊎◌,
}
use device_blackshark_penros.Control.Sessions.{session}
use device_blackshark_penros.Port.Core.{in_use, is_started, is_starting}
use device_blackshark_penros.Port.Types.{BluetoothStreamState, disabled, standby, started, starting}
use device_blackshark_penros.Session.Cookies.{observers_cookie_undefined}
use device_blackshark_penros.Session.Core.{is_session_ready}
use device_blackshark_penros.Session.Types.{SessionType-discrete}
use device_blackshark_penros.Stream.Aidl.{
  AidlOut, aidl_delay_is_legacy, aidl_out, aidl_resume_confirmed, aidl_resume_not_taken,
}
use device_blackshark_penros.Stream.Counters.{Counted, out_write-IsCounted}
use device_blackshark_penros.Stream.Delay.{out_delay_report_ms, out_legacy_delay_ms}
use device_blackshark_penros.Stream.In.{in_read, in_wait}
use device_blackshark_penros.Stream.Out.{out_pause, out_resume, out_standby, out_state, out_write}
use device_blackshark_penros.Stream.Parameters.{Params, SupKeys, parse_audio_params}
use device_blackshark_penros.Stream.Reading.{ReadEnds, in_read-ReadEnds}
use device_blackshark_penros.Stream.Standby.{
  is_busy, is_ebusy, is_quiet, out_resume_lem, out_standby_lem,
}
use device_blackshark_penros.Stream.Timeout.{Waited, in_wait-Waited}
use device_blackshark_penros.Stream.Types.{Result, StreamOut, ebusy, einval, eio, fail, succeeds}
use device_blackshark_penros.Tests.Ports.{
  five_samples, fixed_port, fixed_port-IsAudioPort, four_bytes, held_input, keep_all,
  late_confirming, no_others, sample_port, sample_port-IsAudioPort, sample_stream, settle,
}
use device_blackshark_penros.Tests.Samples.{ready_session, refusing, sample_code, sample_defaults}

out_standby_lem_example :
    let out = sample_stream refusing started in
    let (r, out') = out_standby sample_port out in
    (succeeds r ≡ true → is_quiet (out_state sample_port out') ≡ true)
    × (is_ebusy r ≡ is_busy (out_state sample_port out))
    × (is_ebusy r ≡ true → out' ≡ out)
    × (out'.frames_rendered
        ≡ (if is_started (out_state sample_port out) then 0 else out.frames_rendered))
    × (out'.frames_presented ≡ out.frames_presented)
out_standby_lem_example =
    out_standby_lem sample_port sample_port-IsAudioPort (sample_stream refusing started)

out_resume_lem_example :
    let out = sample_stream refusing disabled in
    let (r, out') = out_resume sample_port out in
    (succeeds r ≡ true
      → (out_state sample_port out' ≡ started)
        ⊎ (out_state sample_port out ≡ BluetoothStreamState.unknown))
    × (out_state sample_port out ≡ disabled → (r ≡ fail einval) × (out' ≡ out))
    × (is_ebusy r ≡ is_busy (out_state sample_port out))
    × (is_ebusy r ≡ true → out' ≡ out)
    × (out'.frames_rendered ≡ out.frames_rendered)
    × (out'.frames_presented ≡ out.frames_presented)
out_resume_lem_example =
    out_resume_lem sample_port sample_port-IsAudioPort (sample_stream refusing disabled)

aidl_resume_confirmed_example :
    let out = sample_stream late_confirming standby in
    let (r, out') = out_resume (aidl_out sample_code sample_defaults keep_all 5) out in
    (r ≡ Result.ok 0) × (out_state (aidl_out sample_code sample_defaults keep_all 5) out' ≡ started)
unfolding in_use is_session_ready session SessionType-discrete observers_cookie_undefined
aidl_resume_confirmed_example =
    aidl_resume_confirmed sample_code sample_defaults keep_all 5
      (sample_stream late_confirming standby) 2 true [] refl refl refl refl

aidl_resume_not_taken_example :
    let port = aidl_out sample_code sample_defaults keep_all 5 in
    let out = sample_stream refusing standby in
    let (r, out') = out_resume port out in
    (r ≡ fail eio)
    × (out_resume port out' ≡ (fail ebusy, out'))
    × (out_standby port out' ≡ (fail ebusy, out'))
    × (out_pause port out' ≡ (fail ebusy, out'))
unfolding in_use is_session_ready session SessionType-discrete observers_cookie_undefined
aidl_resume_not_taken_example =
    aidl_resume_not_taken sample_code sample_defaults keep_all 5 (sample_stream refusing standby)
      refl refl refl refl

aidl_delay_is_legacy_example :
    out_delay_report_ms
      (aidl_out sample_code sample_defaults keep_all 5)
      four_bytes
      (sample_stream refusing started)
    ≡ out_legacy_delay_ms (sample_stream refusing started)
aidl_delay_is_legacy_example =
    aidl_delay_is_legacy sample_code sample_defaults keep_all 5 four_bytes
      (sample_stream refusing started)

-- Splits the one string that the test hands in.
abbrev split_flat : String → String → List String
split_flat s separator =
    if str_eq s "A2dpSuspended=true" && str_eq separator "="
    then "A2dpSuspended" ∷ "true" ∷ []
    else s ∷ []

abbrev sample_keys : SupKeys
sample_keys = record {
  sampling_rates = "sup_sampling_rates";
  channels = "sup_channels";
  formats = "sup_formats";
}

abbrev suspending_params : Params
suspending_params = ("A2dpSuspended", "true") ∷ []

abbrev closing_params : Params
closing_params = ("closing", "true") ∷ []

parsed_params : parse_audio_params split_flat "A2dpSuspended=true" ≡ suspending_params
unfolding parse_audio_params
parsed_params = refl

out_write-IsCounted_example :
    Counted
      (out_write sample_port four_bytes no_others (sample_stream refusing started) five_samples 5 0)
out_write-IsCounted_example =
    out_write-IsCounted sample_port four_bytes no_others 5 (λ i out h. h)
      (sample_stream refusing started) five_samples 0 (omega arith, omega arith)

-- A started stream on the AIDL port, whose queue stays full.
abbrev starved : StreamOut AidlOut
starved =
    let out = sample_stream refusing started in
    record out {
      bluetooth_output = record out.bluetooth_output {
        rounds = λ i j. record { seen = ready_session; available = 0; transfers = true };
      };
    }

in_wait-Waited_example :
    Waited
      (fixed_port 0)
      is_starting
      settle
      20
      (held_input starting)
      (in_wait (fixed_port 0) is_starting settle (held_input starting))
in_wait-Waited_example = in_wait-Waited (fixed_port 0) is_starting settle (held_input starting)

in_wait_runs :
    in_wait (fixed_port 0) is_starting settle (held_input starting)
    ≡ some (true, held_input started)
unfolding in_wait
in_wait_runs = refl

in_read-ReadEnds_example :
    ReadEnds
      (fixed_port 0)
      settle
      8
      (held_input standby)
      (in_read (fixed_port 0) four_bytes settle (held_input standby) 8 5000)
in_read-ReadEnds_example =
    in_read-ReadEnds (fixed_port 0) fixed_port-IsAudioPort four_bytes (λ m f. omega arith) settle 8
      5000 (held_input standby)
