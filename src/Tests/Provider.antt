-- ===== src/Tests/Provider.antt =====
-- The properties of the providers at concrete inputs.
use device_blackshark_penros.Report
use device_blackshark_penros.Base.{
  [], arith, false, inl, inr, is_some, lookup, none, refl, some, true, ℕ, ◌<◌, ◌∷◌, ◌≡◌, ◌≤◌,
}
use device_blackshark_penros.Codecs.Advertised.{is_software_pcm_configuration_valid_lem}
use device_blackshark_penros.Codecs.Checks.{is_software_pcm_configuration_valid}
use device_blackshark_penros.Control.Invariant.{AllInv}
use device_blackshark_penros.Control.Sessions.{Registry, session}
use device_blackshark_penros.Port.Core.{
  Reply, deliver_all, device_session_type, in_use, set_up, start,
}
use device_blackshark_penros.Port.Types.{Port, disabled, out_bluetooth_a2dp, started}
use device_blackshark_penros.Provider.Advertising.{Advertised, start_session-Advertised}
use device_blackshark_penros.Provider.Calls.{end_session, stream_started}
use device_blackshark_penros.Provider.Confirming.{start_confirmed_by_provider}
use device_blackshark_penros.Provider.Core.{start_session}
use device_blackshark_penros.Provider.Ending.{end_session-disables}
use device_blackshark_penros.Provider.Factory.{fresh, open_provider}
use device_blackshark_penros.Provider.Invariant.{IsProvider}
use device_blackshark_penros.Provider.Playing.{provider_plays}
use device_blackshark_penros.Provider.Reachable.{
  ends_session, run_calls, run_calls-open_provider-IsProvider, starts_session,
}
use device_blackshark_penros.Provider.Sessions.{class_of}
use device_blackshark_penros.Provider.Starting.{start_session-ready}
use device_blackshark_penros.Provider.Types.{Outcome, Provider, a2dp_software, succeeded}
use device_blackshark_penros.Session.Cookies.{
  observers_cookie_get_init_value, observers_cookie_get_upper_bound, observers_cookie_undefined,
}
use device_blackshark_penros.Session.Core.{is_session_ready, new_session, on_session_started}
use device_blackshark_penros.Session.Lifecycle.{new_session-Inv}
use device_blackshark_penros.Session.Types.{
  DataMq, SessionType, SessionType-discrete, a2dp_software_encoding_datapath, pcm_config, success,
}
use device_blackshark_penros.Tests.Samples.{
  idle_port, sample_code, sample_code-IsSessionCode, sample_pcm, sample_registry,
}

-- Every queue can be made, and each size is its own queue.
abbrev allocated : ℕ → DataMq
allocated size = record { queue = size; is_valid = true }

abbrev duped : DataMq → DataMq
duped mq = mq

abbrev opened_provider : Provider
opened_provider = fresh a2dp_software a2dp_software_encoding_datapath (some (allocated 7680))

abbrev started_provider : Provider
started_provider = record opened_provider {
  stack_iface = some 1;
  audio_config = some (pcm_config sample_pcm);
}

abbrev no_sessions : Registry
no_sessions = record { sessions_map = [] }

pcm_passes : is_software_pcm_configuration_valid sample_pcm ≡ true
pcm_passes =
    (is_software_pcm_configuration_valid_lem sample_pcm).1
      ((inr (inr (inr (inr (inl refl)))), inl refl), inr (inl refl))

start_accepted_here :
    (start_session allocated duped opened_provider no_sessions
      (some 1)
      (pcm_config sample_pcm)
      []).status
    ≡ succeeded
unfolding start_session
start_accepted_here = rw pcm_passes refl

start_session-ready_example :
    let o =
      start_session allocated duped opened_provider no_sessions
        (some 1)
        (pcm_config sample_pcm)
        [] in
    (is_some {A = ℕ} (some 1) ≡ true)
    × (is_session_ready (session o.registry a2dp_software_encoding_datapath) ≡ true)
unfolding class_of session new_session SessionType-discrete
start_session-ready_example =
    start_session-ready allocated duped (λ mq h. h) opened_provider no_sessions (some 1)
      (pcm_config sample_pcm) [] refl (λ q. refl) refl start_accepted_here

run_calls-open_provider-IsProvider_example : IsProvider (
    run_calls allocated duped opened_provider no_sessions
      (starts_session (some 1) (pcm_config sample_pcm) [] ∷ ends_session ∷ []))
unfolding open_provider SessionType-discrete
run_calls-open_provider-IsProvider_example =
    run_calls-open_provider-IsProvider allocated duped a2dp_software_encoding_datapath
      opened_provider no_sessions
      (starts_session (some 1) (pcm_config sample_pcm) [] ∷ ends_session ∷ []) refl

end_session-disables_example :
    (deliver_all sample_code
      (record idle_port { state = started })
      (end_session started_provider sample_registry).told).state
    ≡ disabled
unfolding is_session_ready session SessionType-discrete in_use observers_cookie_undefined
end_session-disables_example =
    end_session-disables sample_code started_provider sample_registry 1
      (record idle_port { state = started }) refl refl refl refl

start_confirmed_by_provider_example :
    let reply : Reply = record {
      ok = true;
      early = [];
      batches = (stream_started started_provider sample_registry success).told ∷ [];
    } in
    let (done, q', r') = start sample_code reply sample_registry idle_port in
    (done ≡ true) × (q' ≡ record idle_port { state = started })
unfolding is_session_ready session SessionType-discrete in_use observers_cookie_undefined
start_confirmed_by_provider_example =
    start_confirmed_by_provider sample_code 256 272 started_provider sample_registry 1 idle_port []
      refl refl refl refl refl (omega arith, omega arith, refl, tt) refl

no_sessions-AllInv : AllInv sample_code no_sessions
unfolding session
no_sessions-AllInv = record { each = λ t. new_session-Inv sample_code t }

abbrev after_start : Outcome
after_start =
    start_session allocated duped opened_provider no_sessions (some 1) (pcm_config sample_pcm) []

abbrev unused_port : Port
unused_port = record {
  cookie = 0;
  state = disabled;
  session_type = SessionType.unknown;
  is_stereo_to_mono = false;
}

-- The session has no observer, so that its first cookie is free.
first_free :
    lookup 256 (session after_start.registry a2dp_software_encoding_datapath).observers ≡ none
unfolding start_session session is_session_ready SessionType-discrete Report.on_session_started
    on_session_started new_session
first_free = rw pcm_passes refl

in_range :
    (observers_cookie_get_init_value sample_code a2dp_software_encoding_datapath ≤ 256)
    × (256 < observers_cookie_get_upper_bound sample_code a2dp_software_encoding_datapath)
unfolding observers_cookie_get_init_value observers_cookie_get_upper_bound
in_range = (omega arith, omega arith)

provider_plays_example :
    let (done, q', r') = set_up sample_code 6 after_start.registry unused_port out_bluetooth_a2dp in
    let reply : Reply = record {
      ok = true;
      early = [];
      batches = (stream_started after_start.provider r' success).told ∷ [];
    } in
    let (playing, q'', r'') = start sample_code reply r' q' in
    (done ≡ true) × (playing ≡ true) × (q'' ≡ record q' { state = started })
unfolding open_provider SessionType-discrete device_session_type
provider_plays_example =
    provider_plays sample_code-IsSessionCode allocated duped (λ mq h. h)
      a2dp_software_encoding_datapath opened_provider no_sessions (some 1) (pcm_config sample_pcm)
      [] 6 unused_port out_bluetooth_a2dp 256 [] no_sessions-AllInv refl refl start_accepted_here
      in_range.0 in_range.1 first_free

start_session-Advertised_example :
    Advertised [] a2dp_software_encoding_datapath (pcm_config sample_pcm)
unfolding class_of
start_session-Advertised_example =
    start_session-Advertised allocated duped [] opened_provider no_sessions (some 1)
      (pcm_config sample_pcm) [] refl (λ e. absurd (ground arith)) start_accepted_here
