-- ===== src/Provider/Calls.antt =====
-- The operations of BluetoothAudioProvider.cpp on a session that has been started. The links to the
-- death of the stack's binder are left out.
use device_blackshark_penros.Report
use device_blackshark_penros.Base.{
  Bool, [], false, if◌then◌else◌, is_some, ite, none, some, true, ◌&&◌,
}
use device_blackshark_penros.Control.Sessions.{Registry}
use device_blackshark_penros.Provider.Types.{
  Outcome, Provider, Tag-discrete, get_tag, refuse, succeeded,
}
use device_blackshark_penros.Session.Types.{AudioConfiguration, BluetoothAudioStatus}

unfoldable pub end_session : Provider → Registry → Outcome
end_session p r =
    let ended = record p { stack_iface = none; audio_config = none } in
    elim p.stack_iface [
      | none ↦ record { status = succeeded; desc = none; provider = ended; registry = r; told = [] }
      | some host_if ↦
          let (told, r') = Report.on_session_ended r p.session_type in
          record { status = succeeded; desc = none; provider = ended; registry = r'; told = told }
    ]

-- The death of the stack's process.
unfoldable pub binder_died_callback_aidl : Provider → Registry → Outcome
unfolding end_session
binder_died_callback_aidl p r = end_session (record p { is_binder_died = true }) r

-- `streamStarted` and `streamSuspended` are this with `start_resp` true and false.
unfoldable pub stream_result : Provider → Registry → Bool → BluetoothAudioStatus → Outcome
stream_result p r start_resp status = elim p.stack_iface [
  | none ↦ record { status = succeeded; desc = none; provider = p; registry = r; told = [] }
  | some host_if ↦
      let (told, r') = Report.report_control_status r p.session_type start_resp status in
      record { status = succeeded; desc = none; provider = p; registry = r'; told = told }
]

unfoldable pub stream_started : Provider → Registry → BluetoothAudioStatus → Outcome
unfolding stream_result
stream_started p r status = stream_result p r true status

unfoldable pub stream_suspended : Provider → Registry → BluetoothAudioStatus → Outcome
unfolding stream_result
stream_suspended p r status = stream_result p r false status

abbrev pub tags_match : AudioConfiguration → AudioConfiguration → Bool
tags_match c d = ite (Tag-discrete (get_tag c) (get_tag d)) true false

unfoldable pub update_audio_configuration : Provider → Registry → AudioConfiguration → Outcome
update_audio_configuration p r config = elim p.audio_config [
  | none ↦ refuse p r
  | some current ↦
      let (told, r') = Report.report_audio_config_changed r p.session_type config in
      if is_some p.stack_iface && tags_match config current
      then record {
        status = succeeded;
        desc = none;
        provider = record p { audio_config = some config };
        registry = r';
        told = told;
      }
      else refuse p r
]

unfoldable pub set_low_latency_mode_allowed : Provider → Registry → Bool → Outcome
set_low_latency_mode_allowed p r allowed = elim p.stack_iface [
  | none ↦ refuse p r
  | some host_if ↦
      let (told, r') = Report.report_low_latency_mode_allowed_changed r p.session_type allowed in
      record { status = succeeded; desc = none; provider = p; registry = r'; told = told }
]
