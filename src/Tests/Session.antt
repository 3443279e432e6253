-- ===== src/Tests/Session.antt =====
-- The properties of the session at concrete inputs.
use device_blackshark_penros.Base.{
  List, [], arith, false, if◌then◌else◌, lookup, none, refl, some, true, ℕ, ◌==◌, ◌∷◌, ◌≡◌, ◌≢◌,
  ◌⊎◌,
}
use device_blackshark_penros.Port.Core.{callbacks}
use device_blackshark_penros.Session.Cookies.{observers_cookie_undefined}
use device_blackshark_penros.Session.Core.{
  Session, is_session_ready, new_session, on_session_started, register_status_cback,
  unregister_status_cback,
}
use device_blackshark_penros.Session.Lifecycle.{
  Inv, SessionEvent, registers, run, starts, step, unregisters,
}
use device_blackshark_penros.Session.Observers.{
  Registers, register_status_cback-Registers, unregister-register,
}
use device_blackshark_penros.Session.Pcm.{
  ReadRound, Round, faulted, in_read_pcm_data, out_write_pcm_data, returned,
}
use device_blackshark_penros.Session.Reachable.{broadcast_never_ready, run-new_session-Inv}
use device_blackshark_penros.Session.Reading.{Reads, in_read_pcm_data-Reads}
use device_blackshark_penros.Session.Transfer.{
  Writes, out_write_pcm_data-Writes, out_write_pcm_data_complete,
}
use device_blackshark_penros.Session.Types.{
  a2dp_hardware_offload_encoding_datapath, a2dp_software_encoding_datapath,
  le_audio_broadcast_config, le_audio_broadcast_hardware_offload_encoding_datapath, pcm_config,
}
use device_blackshark_penros.Tests.Samples.{
  ready_session, sample_code, sample_code-IsSessionCode, sample_mq, sample_pcm,
}

register_status_cback-Registers_example :
    Registers sample_code ready_session
      (callbacks 6)
      (register_status_cback sample_code ready_session (callbacks 6))
register_status_cback-Registers_example =
    register_status_cback-Registers sample_code ready_session (callbacks 6)

-- The second observer of the A2DP session gets the second cookie of its range.
second_cookie : (register_status_cback sample_code ready_session (callbacks 6)).1 ≡ 257
unfolding register_status_cback
second_cookie = refl

unregister-register_example :
    let (s', cookie) = register_status_cback sample_code ready_session (callbacks 6) in
    ((cookie ≡ observers_cookie_undefined sample_code) × (s' ≡ ready_session))
    ⊎ ((cookie ≢ observers_cookie_undefined sample_code)
        × (lookup cookie s'.observers ≡ some (callbacks 6))
        × (unregister_status_cback s' cookie ≡ ready_session))
unregister-register_example =
    unregister-register sample_code-IsSessionCode ready_session (callbacks 6) (λ e. cc)

abbrev new_a2dp : Session
new_a2dp = record ready_session { stack_iface = none; data_mq = none; audio_config = none }

abbrev history : List SessionEvent
history =
    registers (callbacks 5)
    ∷ starts (some 1) (some sample_mq) (pcm_config sample_pcm) []
    ∷ registers (callbacks 6)
    ∷ unregisters 256
    ∷ []

run-new_session-Inv_example :
    Inv sample_code a2dp_software_encoding_datapath
      (run sample_code (new_session a2dp_software_encoding_datapath) history)
run-new_session-Inv_example =
    run-new_session-Inv sample_code a2dp_software_encoding_datapath history

broadcast_never_ready_example :
    is_session_ready (
      run sample_code
        (new_session le_audio_broadcast_hardware_offload_encoding_datapath)
        (starts (some 1) none (le_audio_broadcast_config 3) [] ∷ []))
    ≡ false
broadcast_never_ready_example =
    broadcast_never_ready sample_code (starts (some 1) none (le_audio_broadcast_config 3) [] ∷ [])

history_ready :
    is_session_ready (run sample_code (new_session a2dp_software_encoding_datapath) history) ≡ true
unfolding run step new_session register_status_cback on_session_started unregister_status_cback
    is_session_ready
history_ready = refl

-- A queue with room for two bytes in each round.
abbrev two_by_two : ℕ → Round
two_by_two i = record { seen = ready_session; available = 2; transfers = true }

abbrev five_bytes : List ℕ
five_bytes = 11 ∷ 12 ∷ 13 ∷ 14 ∷ 15 ∷ []

ready_is_ready : is_session_ready ready_session ≡ true
unfolding is_session_ready
ready_is_ready = refl

-- An offloaded session that was started without a queue.
abbrev no_queue : ℕ → Round
no_queue i = record {
  seen = record ready_session {
    session_type = a2dp_hardware_offload_encoding_datapath;
    data_mq = none;
  };
  available = 0;
  transfers = true;
}

offload_faults : out_write_pcm_data no_queue five_bytes 5 false ≡ faulted
unfolding out_write_pcm_data
offload_faults = refl

five_written : out_write_pcm_data two_by_two five_bytes 5 false ≡ returned 5 five_bytes
unfolding out_write_pcm_data
five_written = refl

out_write_pcm_data-Writes_example :
    Writes two_by_two five_bytes 5 0 (out_write_pcm_data two_by_two five_bytes 5 false)
out_write_pcm_data-Writes_example = out_write_pcm_data-Writes two_by_two five_bytes 5 false

out_write_pcm_data_complete_example :
    out_write_pcm_data two_by_two five_bytes 5 false ≡ returned 5 five_bytes
out_write_pcm_data_complete_example =
    out_write_pcm_data_complete two_by_two five_bytes 5
      (λ j. (ready_is_ready, refl, omega arith, refl)) (omega arith)

-- A queue that holds three bytes in the first round and none later: the read ends by its time limit.
abbrev one_burst : ℕ → ReadRound ℕ
one_burst i = record {
  seen = ready_session;
  content = if i == 0 then 1 ∷ 2 ∷ 3 ∷ [] else [];
  transfers = true;
}

burst_read : in_read_pcm_data one_burst 5 false ≡ returned 3 (1 ∷ 2 ∷ 3 ∷ [])
unfolding in_read_pcm_data
burst_read = refl

in_read_pcm_data-Reads_example : Reads one_burst 5 0 (in_read_pcm_data one_burst 5 false)
in_read_pcm_data-Reads_example = in_read_pcm_data-Reads one_burst 5 false
