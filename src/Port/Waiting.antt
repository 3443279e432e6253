-- ===== src/Port/Waiting.antt =====
-- Start and Suspend of device_port_proxy.cc, which wait for a callback of the session.
use device_blackshark_penros.Session.Calls
use device_blackshark_penros.Control
use device_blackshark_penros.Base.{
  Bool, Bool-cases, List, [], ap, arith, false, if◌then◌else◌, inl, inr, not, refl, suc, true, zero,
  ℕ, ◌&&◌, ◌∷◌, ◌≡◌,
}
use device_blackshark_penros.Control.Sessions.{Registry, session}
use device_blackshark_penros.Port.Core.{
  Reply, condwait_state, deliver, deliver_all, in_use, is_standby, is_started, is_starting,
  is_suspending, start, suspend, wait_while,
}
use device_blackshark_penros.Port.Types.{
  BluetoothStreamState, Port, standby, started, starting, suspending,
}
use device_blackshark_penros.Session.Cookies.{SessionCode}
use device_blackshark_penros.Session.Core.{is_session_ready}
use device_blackshark_penros.Session.Types.{Notification, SessionType, control_result, success}

-- The wait ends well exactly where the state is no longer the pending one.
wait_while-eq :
    (code : SessionCode) (pending : BluetoothStreamState → Bool) (p : Port)
    (batches : List (List Notification))
    → let (done, q) = wait_while code pending p batches in done ≡ not (pending q.state)
unfolding wait_while
wait_while-eq code pending p [] = refl
wait_while-eq code pending p (batch ∷ batches) = elim (Bool-cases (pending p.state)) [
  | inl e ↦ rw e (wait_while-eq code pending (deliver_all code p batch) batches)
  | inr e ↦ rw (e, e)
]

-- Whether the stack takes a call: its session is ready, and the call succeeds.
abbrev pub accepts : Registry → Port → Bool → Bool
accepts r p ok = is_session_ready (session r p.session_type) && ok

pub start_accepted :
    (r : Registry) (t : SessionType) (is_low_latency ok : Bool)
    → (Control.start_stream r t is_low_latency ok).0.0 ≡ (is_session_ready (session r t) && ok)
unfolding Control.start_stream Calls.start_stream session
start_accepted r t is_low_latency ok = ground arith

suspend_accepted :
    (r : Registry) (t : SessionType) (ok : Bool)
    → (Control.suspend_stream r t ok).0.0 ≡ (is_session_ready (session r t) && ok)
unfolding Control.suspend_stream Calls.suspend_stream session
suspend_accepted r t ok = ground arith

condwait_starting :
    (code : SessionCode) (p : Port) (batches : List (List Notification))
    → let (done, q) = condwait_state code p starting batches in done ≡ is_started q.state
unfolding condwait_state
condwait_starting code p batches = ground (arith, wait_while-eq code is_starting p batches)

condwait_suspending :
    (code : SessionCode) (p : Port) (batches : List (List Notification))
    → let (done, q) = condwait_state code p suspending batches in done ≡ is_standby q.state
unfolding condwait_state
condwait_suspending code p batches = ground (arith, wait_while-eq code is_suspending p batches)

-- Start answers true exactly where the port was in use and on standby, the stack took the call, and
-- the port is started when it returns. Where the port was not in use or not on standby, nothing
-- changes.
pub start-eq :
    (code : SessionCode) (reply : Reply) (r : Registry) (p : Port)
    → let (done, q, r') = start code reply r p in
      let asked = in_use code p && is_standby p.state in
      (done ≡ (asked && (accepts r p reply.ok && is_started q.state)))
      × (asked ≡ false → (q ≡ p) × (r' ≡ r))
unfolding start
start-eq code reply r p =
    let p' = record p { state = starting } in
    ground (
      arith,
      start_accepted r p.session_type false reply.ok,
      condwait_starting code (deliver_all code p' reply.early) reply.batches,
    )

-- Suspend answers true exactly where the port was in use and started, the stack took the call, and
-- the port is on standby when it returns. Where the port was not in use or not started, nothing
-- changes.
pub suspend-eq :
    (code : SessionCode) (reply : Reply) (r : Registry) (p : Port)
    → let (done, q, r') = suspend code reply r p in
      let asked = in_use code p && is_started p.state in
      (done ≡ (asked && (accepts r p reply.ok && is_standby q.state)))
      × (asked ≡ false → (q ≡ p) × (r' ≡ r))
unfolding suspend
suspend-eq code reply r p =
    let p' = record p { state = suspending } in
    ground (
      arith,
      suspend_accepted r p.session_type reply.ok,
      condwait_suspending code (deliver_all code p' reply.early) reply.batches,
    )

-- So many tests of the condition with no callback between them, and then the batches.
abbrev pub silent : ℕ → List (List Notification) → List (List Notification)
silent zero batches = batches
silent (suc k) batches = [] ∷ silent k batches

wait_while-silent :
    (code : SessionCode) (pending : BluetoothStreamState → Bool) (p : Port) (k : ℕ)
    (batches : List (List Notification))
    → pending p.state ≡ true
    → wait_while code pending p (silent k batches) ≡ wait_while code pending p batches
unfolding wait_while
wait_while-silent code pending p zero batches h = refl
wait_while-silent code pending p (suc k) batches h =
    rw h (wait_while-silent code pending p k batches h)

pub wait_while_answered :
    (code : SessionCode) (pending : BluetoothStreamState → Bool) (p : Port)
    (batch : List Notification) (batches : List (List Notification))
    → pending p.state ≡ true
    → pending (deliver_all code p batch).state ≡ false
    → wait_while code pending p (batch ∷ batches) ≡ (true, deliver_all code p batch)
unfolding wait_while
wait_while_answered code pending p batch [] h g =
    rw h (ap (λ b. (not b, deliver_all code p batch)) g)
wait_while_answered code pending p batch (next ∷ batches) h g = rw h (
    ap
      (λ b.
        if b
        then wait_while code pending (deliver_all code (deliver_all code p batch) next) batches
        else (true, deliver_all code p batch))
      g)

module _ (code : SessionCode) (r : Registry) (p : Port) (used : in_use code p ≡ true) where
  starting_confirmed :
      (start_resp : Bool)
      → deliver_all code
          (record p { state = starting })
          (control_result p.cookie start_resp success ∷ [])
        ≡ record p { state = started }
  unfolding deliver_all deliver in_use
  starting_confirmed start_resp = ground arith

  -- A port on standby whose call the stack takes is started as soon as the session reports success,
  -- however long it was silent before and whatever comes after.
  pub start_confirmed :
      (k : ℕ) (start_resp : Bool) (later : List (List Notification))
      → p.state ≡ standby
      → is_session_ready (session r p.session_type) ≡ true
      → let reply : Reply = record {
        ok = true;
        early = [];
        batches = silent k ((control_result p.cookie start_resp success ∷ []) ∷ later);
      } in
        let (done, q, r') = start code reply r p in
        (done ≡ true) × (q ≡ record p { state = started })
  unfolding start condwait_state deliver_all
  start_confirmed k start_resp later s ready =
      let waiting : Port = record p { state = starting } in
      let answer : List Notification = control_result p.cookie start_resp success ∷ [] in
      ground (
        arith,
        start_accepted r p.session_type false true,
        wait_while-silent code is_starting waiting k (answer ∷ later) refl,
        wait_while_answered code is_starting waiting answer later refl,
        starting_confirmed start_resp,
      )

  -- A start that the stack does not take answers false and leaves the port in the starting state.
  -- There both Start and Suspend answer false and change nothing, whatever the stack would do.
  pub start_not_taken :
      (reply next : Reply)
      → p.state ≡ standby
      → accepts r p reply.ok ≡ false
      → reply.early ≡ []
      → let (done, q, r') = start code reply r p in
        (done ≡ false)
        × (q ≡ record p { state = starting })
        × (start code next r' q ≡ (false, q, r'))
        × (suspend code next r' q ≡ (false, q, r'))
  unfolding start suspend deliver_all
  start_not_taken reply next s untaken quiet =
      ground (arith, start_accepted r p.session_type false reply.ok)
