-- ===== src/Provider/Playing.antt =====
-- From a provider that the factory opens to a port that plays: the whole path through the sessions.
use device_blackshark_penros.Base.{
  List, Option, [], ap, arith, false, if◌then◌else◌, is_some, lookup, none, some, subst, sym, true,
  ℕ, ◌<◌, ◌∙◌, ◌∷◌, ◌≡◌, ◌≤◌,
}
use device_blackshark_penros.Control.Invariant.{AllInv, AllInv-IsRegistry}
use device_blackshark_penros.Control.Sessions.{Registry, session}
use device_blackshark_penros.Port.Core.{Reply, device_session_type, set_up, start}
use device_blackshark_penros.Port.Registration.{set_up-IsSetUp, set_up_done}
use device_blackshark_penros.Port.Types.{AudioDevices, Port, started}
use device_blackshark_penros.Provider.Calls.{stream_started}
use device_blackshark_penros.Provider.Confirming.{start_confirmed_by_provider}
use device_blackshark_penros.Provider.Core.{base_start_session, start_session}
use device_blackshark_penros.Provider.Factory.{open_provider}
use device_blackshark_penros.Provider.Invariant.{IsProvider}
use device_blackshark_penros.Provider.Reachable.{open_provider-IsProvider}
use device_blackshark_penros.Provider.Registered.{
  base-kept, registered-AllInv, registered-ready, set_up-registry,
}
use device_blackshark_penros.Provider.Sessions.{KeepsValid, is_broadcast_offload}
use device_blackshark_penros.Provider.Starting.{start_as-Accepted, start_session-ready}
use device_blackshark_penros.Provider.Types.{Outcome, Provider, succeeded}
use device_blackshark_penros.Session.Cookies.{
  IsSessionCode, SessionCode, observers_cookie_get_init_value, observers_cookie_get_upper_bound,
}
use device_blackshark_penros.Session.Core.{is_session_ready}
use device_blackshark_penros.Session.Types.{
  AudioConfiguration, DataMq, LatencyMode, Notification, SessionType, success,
}

no_broadcast_device :
    (device : AudioDevices) (t : SessionType)
    → device_session_type device ≡ some t
    → is_broadcast_offload t ≡ false
unfolding device_session_type
no_broadcast_device device t h = ground arith

module _ {code : SessionCode} (valid : IsSessionCode code) (allocate : ℕ → DataMq)
    (dupe : DataMq → DataMq) (keeps : KeepsValid dupe) where
  accepted-kept :
      (p : Provider) (r : Registry) (host_if : Option ℕ) (c : AudioConfiguration)
      (modes : List LatencyMode)
      → AllInv code r
      → IsProvider p
      → let o = start_session allocate dupe p r host_if c modes in
        o.status ≡ succeeded
        → ((host : ℕ) × (o.provider.stack_iface ≡ some host))
          × (o.provider.session_type ≡ p.session_type)
          × AllInv code o.registry
  unfolding start_session
  accepted-kept p r host_if c modes v w s =
      let a = start_as-Accepted allocate dupe p.provider_class p r host_if c modes w.queued s in
      let base =
        base_start_session allocate dupe (record p { data_mq = a.mq }) r (some a.host) c modes in
      let (iface, type, all) =
        base-kept allocate dupe (record p { data_mq = a.mq }) r a.host c modes v in
      (
        (a.host, ap (λ (o : Outcome). o.provider.stack_iface) a.as_base ∙ iface),
        ap (λ (o : Outcome). o.provider.session_type) a.as_base ∙ type,
        subst (λ (o : Outcome). AllInv code o.registry) (sym a.as_base) all,
      )

  accepted-ready :
      (p : Provider) (r : Registry) (host_if : Option ℕ) (c : AudioConfiguration)
      (modes : List LatencyMode) (device : AudioDevices)
      → AllInv code r
      → IsProvider p
      → device_session_type device ≡ some p.session_type
      → let o = start_session allocate dupe p r host_if c modes in
        o.status ≡ succeeded → is_session_ready (session o.registry p.session_type) ≡ true
  accepted-ready p r host_if c modes device v w typed s =
      (start_session-ready allocate dupe keeps p r host_if c modes w.known w.queued
        (AllInv-IsRegistry v p.session_type) s).1
      ∙ ap (λ b. if b then is_session_ready (session r p.session_type) else true)
          (no_broadcast_device device p.session_type typed)

  -- The whole path, where the session types have different numbers below 256, a reader of a valid
  -- queue opens a valid one, and each session of the registry is one that calls can reach. Given a
  -- provider that the factory opened and that answers its start with success, and a device of the same
  -- session type of which some cookie is free, SetUp of a port for the device succeeds. When the
  -- framework then starts the port, the stack takes the call, and later tells the provider that the
  -- stream has started with success, then Start answers true and the port is started.
  pub provider_plays :
      (t : SessionType) (p : Provider) (r : Registry) (host_if : Option ℕ) (c : AudioConfiguration)
      (modes : List LatencyMode) (port : ℕ) (q : Port) (device : AudioDevices) (vacant_cookie : ℕ)
      (later : List (List Notification))
      → AllInv code r
      → open_provider allocate t ≡ some p
      → device_session_type device ≡ some p.session_type
      → let o = start_session allocate dupe p r host_if c modes in
        o.status ≡ succeeded
        → observers_cookie_get_init_value code p.session_type ≤ vacant_cookie
        → vacant_cookie < observers_cookie_get_upper_bound code p.session_type
        → lookup vacant_cookie (session o.registry p.session_type).observers ≡ none
        → let (done, q', r') = set_up code port o.registry q device in
          let reply : Reply = record {
            ok = true;
            early = [];
            batches = (stream_started o.provider r' success).told ∷ later;
          } in
          let (playing, q'', r'') = start code reply r' q' in
          (done ≡ true) × (playing ≡ true) × (q'' ≡ record q' { state = started })
  provider_plays t p r host_if c modes port q device vacant_cookie later v opened typed s lo hi
        vacant =
      let w = open_provider-IsProvider allocate dupe t p opened in
      let u = p.session_type in
      let o = start_session allocate dupe p r host_if c modes in
      let ((host, hosted), same, all) = accepted-kept p r host_if c modes v w s in
      let ready = accepted-ready p r host_if c modes device v w typed s in
      let reg = AllInv-IsRegistry all in
      let done =
        set_up_done valid port o.registry q device u vacant_cookie reg typed ready lo hi vacant in
      let (_, q', r') = set_up code port o.registry q device in
      let up = set_up-IsSetUp valid port o.registry q device u reg typed done in
      let put = set_up-registry code port o.registry u q device typed ready in
      let inv = subst (AllInv code) (sym put) (registered-AllInv code port o.registry u all) in
      let still : is_session_ready (session r' u) ≡ true =
        ap (λ (r : Registry). is_session_ready (session r u)) put
        ∙ registered-ready code port o.registry u
        ∙ ready in
      let at = o.provider.session_type in
      let (playing, stands) =
        start_confirmed_by_provider code (observers_cookie_get_init_value code at)
          (observers_cookie_get_upper_bound code at) o.provider r' host q' later hosted
          (up.typed ∙ sym same) up.used up.on_standby
          (ap (λ t. is_session_ready (session r' t)) same ∙ still) (inv.each at).cookies
          (ap (λ t. is_some (lookup q'.cookie (session r' t).observers)) same
            ∙ ap is_some up.listed) in
      (done, playing, stands)
