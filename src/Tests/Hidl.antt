-- ===== src/Tests/Hidl.antt =====
-- The properties of the middleware at concrete inputs, and runs of it.
use device_blackshark_penros.Session.Core
use native.Mathlib.Decide.{ℕ_discrete}
use device_blackshark_penros.Base.{
  List, [], arith, inl, lookup, none, refl, some, true, ℕ, ◌∷◌, ◌≡◌, ◌≢◌,
}
use device_blackshark_penros.Codecs.Checks.{is_software_pcm_configuration_valid}
use device_blackshark_penros.Control.Laws.{empty-IsRegistry}
use device_blackshark_penros.Control.Sessions.{session}
use device_blackshark_penros.Hidl.Aborting.{get_audio_config_2_1_aborts}
use device_blackshark_penros.Hidl.Convert.{from_session_type, to_hidl_status}
use device_blackshark_penros.Hidl.LeAudio.{
  BroadcastStream, Lc3Configuration, LeAudioConfiguration, frame_duration, lc3_config,
}
use device_blackshark_penros.Hidl.Lossless.{get_audio_config_2_1-read_back, read_back}
use device_blackshark_penros.Hidl.Middleware.{
  LegacyCall, LegacyNotification, Middleware, get_audio_config_2_1, legacy_notify, no_sessions,
  run_legacy,
}
use device_blackshark_penros.Hidl.Relaying.{legacy_notify-relayed, relayed}
use device_blackshark_penros.Hidl.Types.{
  HidlSbcAllocMethod, HidlSbcChannelMode, HidlSessionType, Lc3FrameDuration, SbcParameters,
  bits_unknown, blocks_4, failure, rate_unknown, subband_4,
}
use device_blackshark_penros.Session.Codec.{ChannelMode-discrete}
use device_blackshark_penros.Session.Cookies.{observers_cookie_undefined}
use device_blackshark_penros.Session.Core.{
  is_offload_le_audio_session, new_session, register_status_cback, unregister_status_cback,
}
use device_blackshark_penros.Session.Types.{
  AudioConfiguration, Notification, SessionType, SessionType-discrete, reconfiguration,
}
use device_blackshark_penros.Tests.Samples.{
  sample_code, sample_defaults, sample_pcm, sample_registry,
}

abbrev two_ports : List LegacyCall
two_ports =
    LegacyCall.registers HidlSessionType.a2dp_software_encoding_datapath 5
    ∷ LegacyCall.registers HidlSessionType.a2dp_software_encoding_datapath 6
    ∷ LegacyCall.unregisters HidlSessionType.a2dp_software_encoding_datapath 256
    ∷ []

second_known : 257 ≢ observers_cookie_undefined sample_code
unfolding observers_cookie_undefined
second_known e = absurd (ground arith)

legacy_notify-relayed_example :
    let m = run_legacy sample_code no_sessions two_ports in
    let observer =
      lookup 257 (session m.registry SessionType.a2dp_software_encoding_datapath).observers in
    (legacy_notify m SessionType.a2dp_software_encoding_datapath
        (Notification.control_result 257 true reconfiguration)
      ≡ relayed observer
          (LegacyNotification.control_result 257 true (to_hidl_status reconfiguration)))
    × (legacy_notify m SessionType.a2dp_software_encoding_datapath
          (Notification.session_changed 257)
        ≡ relayed observer (LegacyNotification.session_changed 257))
legacy_notify-relayed_example =
    legacy_notify-relayed sample_code two_ports SessionType.a2dp_software_encoding_datapath 257 true
      reconfiguration second_known

-- The second port hears of it as a failure; the first one has left.
second_port_told :
    legacy_notify
      (run_legacy sample_code no_sessions two_ports)
      SessionType.a2dp_software_encoding_datapath
      (Notification.control_result 257 true reconfiguration)
    ≡ some (6, LegacyNotification.control_result 257 true failure)
unfolding legacy_notify run_legacy register_status_cback unregister_status_cback new_session
    SessionType-discrete
second_port_told = refl

first_port_left :
    legacy_notify
      (run_legacy sample_code no_sessions two_ports)
      SessionType.a2dp_software_encoding_datapath
      (Notification.session_changed 256)
    ≡ none
unfolding legacy_notify run_legacy register_status_cback unregister_status_cback new_session
    SessionType-discrete
first_port_left = refl

abbrev sample_lc3 : Lc3Configuration
sample_lc3 = record {
  pcm_bit_depth = 16;
  sampling_frequency_hz = 48000;
  frame_duration_us = 10000;
  octets_per_frame = 120;
  blocks_per_sdu = 1;
}

abbrev unicast : ℕ → LeAudioConfiguration
unicast n = record { le_audio_codec_config = lc3_config sample_lc3; stream_map = 1 ∷ 2 ∷ [] }

abbrev one_broadcast : ℕ → List BroadcastStream
one_broadcast n =
    record { broadcast_codec_config = lc3_config sample_lc3; audio_channel_allocation = 3 } ∷ []

abbrev initial_sbc : SbcParameters
initial_sbc = record {
  sample_rate = rate_unknown;
  channel_mode = HidlSbcChannelMode.unknown;
  block_length = blocks_4;
  num_subbands = subband_4;
  alloc_method = HidlSbcAllocMethod.alloc_md_s;
  bits_per_sample = bits_unknown;
  min_bitpool = 0;
  max_bitpool = 0;
}

unicast_type :
    is_offload_le_audio_session
      (from_session_type HidlSessionType.le_audio_hardware_offload_encoding_datapath)
    ≡ true
unfolding is_offload_le_audio_session from_session_type
unicast_type = refl

nothing_stored :
    (session no_sessions.registry
      (from_session_type HidlSessionType.le_audio_hardware_offload_encoding_datapath)).audio_config
    ≡ none
unfolding session new_session
nothing_stored = refl

get_audio_config_2_1_aborts_example :
    (get_audio_config_2_1 unicast one_broadcast initial_sbc sample_defaults no_sessions
      HidlSessionType.le_audio_hardware_offload_encoding_datapath).0
    ≡ none
get_audio_config_2_1_aborts_example =
    get_audio_config_2_1_aborts unicast one_broadcast initial_sbc sample_defaults no_sessions
      HidlSessionType.le_audio_hardware_offload_encoding_datapath unicast_type empty-IsRegistry
      (inl nothing_stored)

-- The frame duration of an LC3 stream of 10 ms is not set.
duration_lost : frame_duration sample_lc3 ≡ Lc3FrameDuration.unset
unfolding frame_duration
duration_lost = refl

abbrev sample_middleware : Middleware
sample_middleware = record { registry = sample_registry; legacy_callback_table = λ t. [] }

is_ready :
    Core.is_session_ready
      (session sample_registry (from_session_type HidlSessionType.a2dp_software_encoding_datapath))
    ≡ true
unfolding Core.is_session_ready session from_session_type SessionType-discrete
is_ready = refl

stored :
    (session sample_registry
      (from_session_type HidlSessionType.a2dp_software_encoding_datapath)).audio_config
    ≡ some (AudioConfiguration.pcm_config sample_pcm)
unfolding session from_session_type SessionType-discrete
stored = refl

accepted : is_software_pcm_configuration_valid sample_pcm ≡ true
unfolding is_software_pcm_configuration_valid ℕ_discrete ChannelMode-discrete
accepted = refl

get_audio_config_2_1-read_back_example :
    read_back
      (get_audio_config_2_1 unicast one_broadcast initial_sbc sample_defaults sample_middleware
        HidlSessionType.a2dp_software_encoding_datapath).0
    ≡ some sample_pcm
get_audio_config_2_1-read_back_example =
    get_audio_config_2_1-read_back unicast one_broadcast initial_sbc sample_defaults
      sample_middleware HidlSessionType.a2dp_software_encoding_datapath sample_pcm is_ready stored
      accepted (ground arith)
