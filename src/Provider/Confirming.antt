-- ===== src/Provider/Confirming.antt =====
-- From the stack's report of a started stream, through the provider and the session, to the port.
use device_blackshark_penros.Session.Core
use device_blackshark_penros.Report
use device_blackshark_penros.Base.{
  Bool, List, [], ap, arith, false, is_some, lookup, refl, some, true, ℕ, ◌∙◌, ◌∷◌, ◌≡◌,
}
use device_blackshark_penros.Control.Laws.{with_session_lem}
use device_blackshark_penros.Control.Sessions.{Registry, session}
use device_blackshark_penros.Port.Callbacks.{deliver_all-report_control_status}
use device_blackshark_penros.Port.Core.{
  Reply, condwait_state, control_result_handler, deliver_all, in_use, is_starting, start,
}
use device_blackshark_penros.Port.Types.{Port, standby, started, starting}
use device_blackshark_penros.Port.Waiting.{start_accepted, wait_while_answered}
use device_blackshark_penros.Provider.Calls.{stream_result, stream_started}
use device_blackshark_penros.Provider.Types.{Provider}
use device_blackshark_penros.Session.Cookies.{SessionCode}
use device_blackshark_penros.Session.Core.{is_session_ready}
use device_blackshark_penros.Session.Lifecycle.{AreCookies}
use device_blackshark_penros.Session.Types.{
  BluetoothAudioStatus, Notification, SessionType, success,
}

told-result :
    (r : Registry) (t : SessionType) (start_resp : Bool) (status : BluetoothAudioStatus)
    → (Report.report_control_status r t start_resp status).0
      ≡ Core.report_control_status (session r t) start_resp status
unfolding Report.report_control_status
told-result r t start_resp status =
    (with_session_lem r t t (λ s. (Core.report_control_status s start_resp status, s))).0

told-started :
    (p : Provider) (r : Registry) (host : ℕ) (status : BluetoothAudioStatus)
    → p.stack_iface ≡ some host
    → (stream_started p r status).told
      ≡ Core.report_control_status (session r p.session_type) true status
unfolding stream_started stream_result
told-started p r host status h = rw h (told-result r p.session_type true status)

start_told :
    (code : SessionCode) (r : Registry) (q : Port) (told : List Notification)
    (later : List (List Notification))
    → in_use code q ≡ true
    → q.state ≡ standby
    → is_session_ready (session r q.session_type) ≡ true
    → deliver_all code (record q { state = starting }) told ≡ record q { state = started }
    → let reply : Reply = record { ok = true; early = []; batches = told ∷ later } in
      let (done, q', r') = start code reply r q in
      (done ≡ true) × (q' ≡ record q { state = started })
unfolding start condwait_state deliver_all
start_told code r q told later used idle ready reached =
    let waiting : Port = record q { state = starting } in
    ground (
      arith,
      start_accepted r q.session_type false true,
      wait_while_answered code is_starting waiting told later refl,
    )

success-starts :
    (code : SessionCode) (q : Port)
    → in_use code q ≡ true
    → control_result_handler code (record q { state = starting }) success
      ≡ record q { state = started }
unfolding control_result_handler in_use
success-starts code q used = ground arith

-- A port on standby, which is in use and listed by a session that is ready and whose observers have
-- different cookies, is started as soon as the provider of that session is told by the stack that the
-- stream has started with success: what the session then tells all of its observers, whatever the
-- order of their map, starts the port, and Start answers true. The stack takes the call of Start, and
-- tells nothing before.
pub start_confirmed_by_provider :
    (code : SessionCode) (lo hi : ℕ) (p : Provider) (r : Registry) (host : ℕ) (q : Port)
    (later : List (List Notification))
    → p.stack_iface ≡ some host
    → q.session_type ≡ p.session_type
    → in_use code q ≡ true
    → q.state ≡ standby
    → is_session_ready (session r p.session_type) ≡ true
    → AreCookies lo hi (session r p.session_type).observers
    → is_some (lookup q.cookie (session r p.session_type).observers) ≡ true
    → let reply : Reply = record {
      ok = true;
      early = [];
      batches = (stream_started p r success).told ∷ later;
    } in
      let (done, q', r') = start code reply r q in
      (done ≡ true) × (q' ≡ record q { state = started })
start_confirmed_by_provider code lo hi p r host q later hosted same used idle ready distinct
      listed =
    let s = session r p.session_type in
    let waiting : Port = record q { state = starting } in
    let reached : deliver_all code waiting (stream_started p r success).told
        ≡ record q { state = started } =
      ap (deliver_all code waiting) (told-started p r host success hosted)
      ∙ deliver_all-report_control_status code lo hi s waiting true success distinct listed
      ∙ success-starts code q used in
    start_told code r q (stream_started p r success).told later used idle
      (ap (λ t. is_session_ready (session r t)) same ∙ ready) reached
