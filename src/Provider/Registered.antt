-- ===== src/Provider/Registered.antt =====
-- What the start of a provider and the set-up of a port leave of the sessions.
use device_blackshark_penros.Session.Core
use device_blackshark_penros.Control
use device_blackshark_penros.Report
use device_blackshark_penros.Base.{
  Bool-cases, List, Option, Option-cases, ap, arith, false, inl, inr, none, refl, some, subst, sym,
  true, ℕ, ◌∙◌, ◌≡◌, ◌⊎◌,
}
use device_blackshark_penros.Control.Invariant.{AllInv, with_session-AllInv}
use device_blackshark_penros.Control.Laws.{session-with_session_read, session-with_session_self}
use device_blackshark_penros.Control.Sessions.{Registry, session}
use device_blackshark_penros.Port.Core.{
  callbacks, device_session_type, init_session_type, register_port, set_up,
}
use device_blackshark_penros.Port.Types.{AudioDevices, Port}
use device_blackshark_penros.Provider.Core.{
  base_start_session, on_session_ready, on_session_ready_with_mq, on_session_ready_without_mq,
}
use device_blackshark_penros.Provider.Invariant.{ready-provider}
use device_blackshark_penros.Provider.Types.{Provider}
use device_blackshark_penros.Session.Cookies.{SessionCode}
use device_blackshark_penros.Session.Core.{Session}
use device_blackshark_penros.Session.Reachable.{registers-Inv, starts-Inv}
use device_blackshark_penros.Session.Types.{AudioConfiguration, DataMq, LatencyMode, SessionType}

reported-AllInv :
    {code : SessionCode} {r : Registry} (t : SessionType) (iface : Option ℕ) (desc : Option DataMq)
    (c : AudioConfiguration) (modes : List LatencyMode)
    → AllInv code r
    → AllInv code (Report.on_session_started r t iface desc c modes).1
unfolding Report.on_session_started
reported-AllInv {code} {r} t iface desc c modes v =
    with_session-AllInv t
      (λ s. let (s', told) = Core.on_session_started s iface desc c modes in (told, s'))
      (λ s w. starts-Inv code t s iface desc c modes w) v

read-AllInv :
    {code : SessionCode} {r : Registry} (t : SessionType)
    → AllInv code r
    → AllInv code (Control.is_session_ready r t).1
unfolding Control.is_session_ready
read-AllInv {code} {r} t v = with_session-AllInv t (λ s. (Core.is_session_ready s, s)) (λ s w. w) v

module _ (code : SessionCode) (port : ℕ) (r : Registry) (t : SessionType) where
  abbrev pub registered : Registry
  registered =
      (Control.register_control_result_cback code (Control.is_session_ready r t).1 t
        (callbacks port)).1

  pub registered-AllInv : AllInv code r → AllInv code registered
  unfolding Control.register_control_result_cback
  registered-AllInv v =
      with_session-AllInv t
        (λ s. let (s', cookie) = Core.register_status_cback code s (callbacks port) in (cookie, s'))
        (λ s w. registers-Inv code t s (callbacks port) w) (read-AllInv t v)

  register-ready :
      (s : Session)
      → Core.is_session_ready (Core.register_status_cback code s (callbacks port)).0
        ≡ Core.is_session_ready s
  unfolding Core.is_session_ready Core.register_status_cback
  register-ready s = ground arith

  pub registered-ready :
      Core.is_session_ready (session registered t) ≡ Core.is_session_ready (session r t)
  unfolding Control.register_control_result_cback Control.is_session_ready
  registered-ready =
      ap Core.is_session_ready (
        session-with_session_self (Control.is_session_ready r t).1 t (λ s.
          let (s', cookie) = Core.register_status_cback code s (callbacks port) in (cookie, s')))
      ∙ register-ready (session (Control.is_session_ready r t).1 t)
      ∙ ap Core.is_session_ready
          (session-with_session_read r t (λ s. (Core.is_session_ready s, s)) t refl)

  pub set_up-registry :
      (p : Port) (device : AudioDevices)
      → device_session_type device ≡ some t
      → Core.is_session_ready (session r t) ≡ true
      → (set_up code port r p device).2 ≡ registered
  unfolding set_up register_port Control.is_session_ready session
  set_up-registry p device typed ready = rw (typed, init_session_type) (rw ready refl)

module _ (allocate : ℕ → DataMq) (dupe : DataMq → DataMq) where
  ready-registry :
      (p : Provider) (r : Registry) (c : AudioConfiguration)
      → ((on_session_ready allocate dupe p r c).registry
          ≡ (on_session_ready_with_mq allocate dupe p r c).registry)
        ⊎ ((on_session_ready allocate dupe p r c).registry
            ≡ (on_session_ready_without_mq allocate dupe p r c).registry)
  unfolding on_session_ready
  ready-registry p r c = ground arith

  with_mq-registry :
      (p : Provider) (r : Registry) (c : AudioConfiguration)
      → ((on_session_ready_with_mq allocate dupe p r c).registry ≡ r)
        ⊎ ((desc : Option DataMq) × ((on_session_ready_with_mq allocate dupe p r c).registry
              ≡ (Report.on_session_started r p.session_type p.stack_iface desc c
                  p.latency_modes).1))
  unfolding on_session_ready_with_mq
  with_mq-registry p r c = elim (Option-cases p.data_mq) [
    | inl e ↦ inl (ground arith)
    | inr (mq, e) ↦ elim (Bool-cases mq.is_valid) [
      | inl valid ↦ inr (some (dupe mq), ground arith)
      | inr invalid ↦ inl (ground arith)
    ]
  ]

  on_session_ready-AllInv :
      {code : SessionCode} (p : Provider) (r : Registry) (c : AudioConfiguration)
      → AllInv code r
      → AllInv code (on_session_ready allocate dupe p r c).registry
  on_session_ready-AllInv {code} p r c v =
      let t = p.session_type in
      elim (ready-registry p r c) [
        | inr e ↦ subst (AllInv code) (sym e) (
            unfold on_session_ready_without_mq in
            reported-AllInv t p.stack_iface none c p.latency_modes v)
        | inl e ↦ elim (with_mq-registry p r c) [
          | inl same ↦ subst (AllInv code) (sym (e ∙ same)) v
          | inr (desc, reported) ↦
              subst (AllInv code) (sym (e ∙ reported))
                (reported-AllInv t p.stack_iface desc c p.latency_modes v)
        ]
      ]

  -- What an accepted start leaves of the provider and of the sessions.
  pub base-kept :
      {code : SessionCode} (p : Provider) (r : Registry) (host : ℕ) (c : AudioConfiguration)
      (modes : List LatencyMode)
      → AllInv code r
      → let o = base_start_session allocate dupe p r (some host) c modes in
        (o.provider.stack_iface ≡ some host)
        × (o.provider.session_type ≡ p.session_type)
        × AllInv code o.registry
  unfolding base_start_session
  base-kept p r host c modes v =
      let p' = record p {
        latency_modes = modes;
        audio_config = some c;
        stack_iface = some host;
        is_binder_died = false;
      } in
      (
        ap (λ (q : Provider). q.stack_iface) (ready-provider allocate dupe p' r c),
        ap (λ (q : Provider). q.session_type) (ready-provider allocate dupe p' r c),
        on_session_ready-AllInv p' r c v,
      )
