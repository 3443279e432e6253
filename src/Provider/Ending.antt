-- ===== src/Provider/Ending.antt =====
-- What the end of a provider's session does, up to the ports that observe it.
use device_blackshark_penros.Session.Core
use device_blackshark_penros.Report
use device_blackshark_penros.Base.{
  Bool-cases, List, [], ap, arith, false, if◌then◌else◌, inl, inr, is_some, lookup, map, none, refl,
  some, true, ℕ, ◌==◌, ◌∙◌, ◌∷◌, ◌≡◌, ◌≢◌,
}
use device_blackshark_penros.Control.Laws.{
  session-with_session_other, session-with_session_self, with_session_lem,
}
use device_blackshark_penros.Control.Sessions.{Registry, session}
use device_blackshark_penros.Port.Callbacks.{deliver_all-disabled}
use device_blackshark_penros.Port.Core.{deliver, deliver_all, in_use, session_changed_handler}
use device_blackshark_penros.Port.Types.{Port, disabled}
use device_blackshark_penros.Provider.Calls.{binder_died_callback_aidl, end_session}
use device_blackshark_penros.Provider.Types.{Provider}
use device_blackshark_penros.Session.Cookies.{SessionCode}
use device_blackshark_penros.Session.Core.{is_session_ready}
use device_blackshark_penros.Session.Lifecycle.{on_session_ended_lem}
use device_blackshark_penros.Session.Types.{PortStatusCallbacks, SessionType, session_changed}

session-ended :
    (r : Registry) (t : SessionType)
    → session (Report.on_session_ended r t).1 t ≡ (Core.on_session_ended (session r t)).0
unfolding Report.on_session_ended
session-ended r t =
    session-with_session_self r t (λ s. let (s', told) = Core.on_session_ended s in (told, s'))

told-ended :
    (r : Registry) (t : SessionType)
    → (Report.on_session_ended r t).0 ≡ (Core.on_session_ended (session r t)).1
unfolding Report.on_session_ended
told-ended r t =
    (with_session_lem r t t (λ s. let (s', told) = Core.on_session_ended s in (told, s'))).0

others-ended :
    (r : Registry) (t u : SessionType)
    → t ≢ u
    → session (Report.on_session_ended r t).1 u ≡ session r u
unfolding Report.on_session_ended
others-ended r t u ne =
    session-with_session_other r t (λ s. let (s', told) = Core.on_session_ended s in (told, s')) u
      ne

-- The end of a session that a provider started, by the stack or by the death of its process: the
-- session of the provider's type is not ready, the other sessions are as before, the provider has
-- neither the stack's interface nor a configuration, and the observers are told exactly where the
-- session was ready.
pub end_session_lem :
    (p : Provider) (r : Registry) (host : ℕ)
    → p.stack_iface ≡ some host
    → let o = end_session p r in
      (is_session_ready (session o.registry p.session_type) ≡ false)
      × ((u : SessionType) → p.session_type ≢ u → session o.registry u ≡ session r u)
      × (o.provider.stack_iface ≡ none)
      × (o.provider.audio_config ≡ none)
      × (o.told ≡ (
          if is_session_ready (session r p.session_type)
          then map (λ o. session_changed o.0) (session r p.session_type).observers
          else []))
      × ((binder_died_callback_aidl p r).registry ≡ o.registry)
unfolding end_session binder_died_callback_aidl
end_session_lem p r host h =
    let t = p.session_type in
    let ended = on_session_ended_lem (session r t) in
    rw h (
      ap is_session_ready (session-ended r t) ∙ ended.0,
      (λ u ne. others-ended r t u ne),
      refl,
      refl,
      told-ended r t ∙ ended.5,
      refl,
    )

module _ (code : SessionCode) (q : Port) (c : ℕ) where
  deliver_changed_own :
      in_use code q ≡ true
      → (q.cookie == c) ≡ true
      → deliver code q (session_changed c) ≡ record q { state = disabled }
  unfolding deliver session_changed_handler
  deliver_changed_own used own = ground arith

  deliver_changed_other : (q.cookie == c) ≡ false → deliver code q (session_changed c) ≡ q
  unfolding deliver
  deliver_changed_other foreign = ground arith

changed-disables :
    (code : SessionCode) (q : Port) (os : List (ℕ × PortStatusCallbacks))
    → in_use code q ≡ true
    → is_some (lookup q.cookie os) ≡ true
    → (deliver_all code q (map (λ o. session_changed o.0) os)).state ≡ disabled
unfolding deliver_all
changed-disables code q [] used found = absurd (ground arith)
changed-disables code q ((c, cb) ∷ os) used found =
    let rest = map (λ (o : ℕ × PortStatusCallbacks). session_changed o.0) os in
    elim (Bool-cases (q.cookie == c)) [
      | inl own ↦
          ap (λ v. (deliver_all code v rest).state) (deliver_changed_own code q c used own)
          ∙ deliver_all-disabled code (record q { state = disabled }) rest refl
      | inr foreign ↦
          ap (λ v. (deliver_all code v rest).state) (deliver_changed_other code q c foreign)
          ∙ changed-disables code q os used (ground arith)
    ]

-- When a provider ends a session that is ready, each port in use that the session lists is disabled
-- by what its observers are told, in whatever state the port is and whatever the other observers are.
pub end_session-disables :
    (code : SessionCode) (p : Provider) (r : Registry) (host : ℕ) (q : Port)
    → p.stack_iface ≡ some host
    → is_session_ready (session r p.session_type) ≡ true
    → in_use code q ≡ true
    → is_some (lookup q.cookie (session r p.session_type).observers) ≡ true
    → (deliver_all code q (end_session p r).told).state ≡ disabled
end_session-disables code p r host q hosted ready used listed =
    let t = p.session_type in
    let (_, _, _, _, told, _) = end_session_lem p r host hosted in
    let all : (end_session p r).told ≡ map (λ o. session_changed o.0) (session r t).observers =
      told
      ∙ ap (λ b. if b then map (λ o. session_changed o.0) (session r t).observers else []) ready in
    ap (λ ns. (deliver_all code q ns).state) all
    ∙ changed-disables code q (session r t).observers used listed
