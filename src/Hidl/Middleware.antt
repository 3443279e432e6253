-- ===== src/Hidl/Middleware.antt =====
-- The operations of HidlToAidlMiddleware_2_0 and HidlToAidlMiddleware_2_1 on the sessions of the AIDL
-- interface, and the callbacks that they pass on.
use device_blackshark_penros.Session.Pcm
use device_blackshark_penros.Control
use device_blackshark_penros.Base.{
  Bool, List, Option, [], erase, false, if◌then◌else◌, ite, lookup, none, some, ℕ, ◌>>=◌, ◌∷◌,
}
use device_blackshark_penros.Control.Sessions.{Registry}
use device_blackshark_penros.Hidl.Convert.{
  from_session_type, to_hidl_audio_config_2_0, to_hidl_status,
}
use device_blackshark_penros.Hidl.LeAudio.{
  BroadcastStream, LeAudioConfiguration, to_hidl_audio_config_2_1,
}
use device_blackshark_penros.Hidl.Types.{
  HidlAudioConfiguration, HidlSessionType, HidlStatus, SbcParameters,
}
use device_blackshark_penros.Session.Cookies.{SessionCode}
use device_blackshark_penros.Session.Pcm.{PcmResult, ReadRound, Round}
use device_blackshark_penros.Session.Types.{
  Defaults, Notification, PortStatusCallbacks, PresentationPosition, SessionType,
  SessionType-discrete, StackCall, Track, audio_configuration_changed, low_latency_mode_allowed,
}

-- The sessions, and `legacy_callback_table`: for each session type, the port that registered with a
-- cookie. A table is made empty when it is first asked for.
pub record Middleware : Type 0 where
  pub registry : Registry
  pub legacy_callback_table : SessionType → List (ℕ × ℕ)

-- Before the first operation.
abbrev pub no_sessions : Middleware
no_sessions = record { registry = record { sessions_map = [] }; legacy_callback_table = λ t. [] }

abbrev pub set_table :
    SessionType → List (ℕ × ℕ) → (SessionType → List (ℕ × ℕ)) → SessionType → List (ℕ × ℕ)
set_table t entries table u = ite (SessionType-discrete t u) entries (table u)

-- The callbacks that the session is given: a port of the HIDL interface sets the two mandatory ones.
abbrev pub aidl_callbacks : ℕ → PortStatusCallbacks
aidl_callbacks port = record {
  port = port;
  has_audio_configuration_changed_cb = false;
  has_low_latency_mode_allowed_cb = false;
}

-- The result of an operation of a session, with the sessions as it leaves them.
abbrev answering : {X : Type 0} → Middleware → X × Registry → X × Middleware
answering m (x, r) = (x, record m { registry = r })

unfoldable pub is_session_ready : Middleware → HidlSessionType → Bool × Middleware
unfolding from_session_type Control.is_session_ready
is_session_ready m t = answering m (Control.is_session_ready m.registry (from_session_type t))

unfoldable pub register_control_result_cback :
    SessionCode → Middleware → HidlSessionType → ℕ → ℕ × Middleware
unfolding from_session_type Control.register_control_result_cback
register_control_result_cback code m hidl_type cbacks =
    let t = from_session_type hidl_type in
    let (cookie, r) =
      Control.register_control_result_cback code m.registry t (aidl_callbacks cbacks) in
    let entries = (cookie, cbacks) ∷ erase cookie (m.legacy_callback_table t) in
    (
      cookie,
      record { registry = r; legacy_callback_table = set_table t entries m.legacy_callback_table },
    )

unfoldable pub unregister_control_result_cback : Middleware → HidlSessionType → ℕ → Middleware
unfolding from_session_type Control.unregister_control_result_cback
unregister_control_result_cback m hidl_type cookie =
    let t = from_session_type hidl_type in
    let entries = erase cookie (m.legacy_callback_table t) in
    record {
      registry = Control.unregister_control_result_cback m.registry t cookie;
      legacy_callback_table = set_table t entries m.legacy_callback_table;
    }

-- A callback of a HIDL port as it is invoked.
pub data LegacyNotification : Type 0 where
  control_result : ℕ → Bool → HidlStatus → LegacyNotification
  session_changed : ℕ → LegacyNotification

-- The two lambdas that the session of a type holds: the port that they call, and with what. An
-- unknown cookie is logged only; the other callbacks are not set.
unfoldable pub legacy_notify :
    Middleware → SessionType → Notification → Option (ℕ × LegacyNotification)
unfolding to_hidl_status
legacy_notify m t (Notification.control_result cookie start_resp status) =
    lookup cookie (m.legacy_callback_table t) >>= λ cback.
    some (cback, LegacyNotification.control_result cookie start_resp (to_hidl_status status))
legacy_notify m t (Notification.session_changed cookie) =
    lookup cookie (m.legacy_callback_table t) >>= λ cback.
    some (cback, LegacyNotification.session_changed cookie)
legacy_notify m t (audio_configuration_changed cookie) = none
legacy_notify m t (low_latency_mode_allowed cookie allowed) = none

unfoldable pub get_audio_config_2_0 :
    SbcParameters → Defaults → Middleware → HidlSessionType → HidlAudioConfiguration × Middleware
unfolding from_session_type to_hidl_audio_config_2_0 Control.get_audio_config
get_audio_config_2_0 initial d m t =
    let (c, r) = Control.get_audio_config d m.registry (from_session_type t) in
    (to_hidl_audio_config_2_0 initial c, record m { registry = r })

module _ (le_audio : ℕ → LeAudioConfiguration) (broadcast : ℕ → List BroadcastStream) where
  unfoldable pub get_audio_config_2_1 :
      SbcParameters
      → Defaults
      → Middleware
      → HidlSessionType
      → Option HidlAudioConfiguration × Middleware
  unfolding from_session_type to_hidl_audio_config_2_1 Control.get_audio_config
  get_audio_config_2_1 initial d m t =
      let (c, r) = Control.get_audio_config d m.registry (from_session_type t) in
      (to_hidl_audio_config_2_1 le_audio broadcast initial c, record m { registry = r })

-- A stream is started without low latency.
unfoldable pub start_stream :
    Middleware → HidlSessionType → Bool → (Bool × List StackCall) × Middleware
unfolding from_session_type Control.start_stream
start_stream m t is_ok =
    answering m (Control.start_stream m.registry (from_session_type t) false is_ok)

unfoldable pub suspend_stream :
    Middleware → HidlSessionType → Bool → (Bool × List StackCall) × Middleware
unfolding from_session_type Control.suspend_stream
suspend_stream m t is_ok =
    answering m (Control.suspend_stream m.registry (from_session_type t) is_ok)

unfoldable pub stop_stream : Middleware → HidlSessionType → List StackCall × Middleware
unfolding from_session_type Control.stop_stream
stop_stream m t = answering m (Control.stop_stream m.registry (from_session_type t))

unfoldable pub update_tracks_metadata :
    Middleware → HidlSessionType → List Track → List StackCall × Middleware
unfolding from_session_type Control.update_source_metadata
update_tracks_metadata m t tracks =
    answering m (Control.update_source_metadata m.registry (from_session_type t) tracks)

-- The transfers, in rounds that depend on the session.
module _ {ℓ} {A : Type ℓ} where
  unfoldable pub out_write_pcm_data :
      (SessionType → ℕ → Round) → HidlSessionType → List A → ℕ → Bool → PcmResult A
  unfolding from_session_type Pcm.out_write_pcm_data
  out_write_pcm_data rounds t buffer bytes buffer_is_null =
      Pcm.out_write_pcm_data (rounds (from_session_type t)) buffer bytes buffer_is_null

  unfoldable pub in_read_pcm_data :
      (SessionType → ℕ → ReadRound A) → HidlSessionType → ℕ → Bool → PcmResult A
  unfolding from_session_type Pcm.in_read_pcm_data
  in_read_pcm_data rounds t bytes buffer_is_null =
      Pcm.in_read_pcm_data (rounds (from_session_type t)) bytes buffer_is_null

-- What a caller asks for: its pointers that are not null.
pub record Wanted : Type 0 where
  pub delay : Bool
  pub octets : Bool
  pub time : Bool

-- What is written through them.
pub record Written : Type 0 where
  pub remote_delay_report_ns : Option ℕ
  pub total_bytes_readed : Option ℕ
  pub data_position : Option (ℕ × ℕ)

abbrev written_if : {X : Type 0} → Bool → X → Option X
written_if b x = if b then some x else none

unfoldable pub get_presentation_position :
    Defaults
    → Middleware
    → HidlSessionType
    → Wanted
    → Option PresentationPosition
    → (Bool × Written) × Middleware
unfolding from_session_type Control.get_presentation_position
get_presentation_position d m t wanted reply =
    let ((ret_val, position), r) =
      Control.get_presentation_position m.registry (from_session_type t) d.position reply in
    (
      (
        ret_val,
        record {
          remote_delay_report_ns = written_if wanted.delay position.remote_device_audio_delay_nanos;
          total_bytes_readed = written_if wanted.octets position.transmitted_octets;
          data_position = written_if wanted.time (position.tv_sec, position.tv_nsec);
        },
      ),
      record m { registry = r },
    )

-- The calls of ports that register and unregister, in any order.
pub data LegacyCall : Type 0 where
  registers : HidlSessionType → ℕ → LegacyCall
  unregisters : HidlSessionType → ℕ → LegacyCall

unfoldable pub run_legacy : SessionCode → Middleware → List LegacyCall → Middleware
unfolding register_control_result_cback unregister_control_result_cback
run_legacy code m [] = m
run_legacy code m (registers t cbacks ∷ calls) =
    run_legacy code (register_control_result_cback code m t cbacks).1 calls
run_legacy code m (unregisters t cookie ∷ calls) =
    run_legacy code (unregister_control_result_cback m t cookie) calls
