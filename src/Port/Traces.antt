-- ===== src/Port/Traces.antt =====
-- The callbacks of device_port_proxy.cc in sequence: which of them leave a port started.
use device_blackshark_penros.Base.{
  ==_iff, Bool, Bool-cases, List, [], ap, arith, inl, inr, refl, subst, sym, true, ℕ, ◌==◌, ◌↔◌,
  ◌∙◌, ◌∷◌, ◌≡◌, ◌≢◌, ◌⊎◌,
}
use device_blackshark_penros.Port.Core.{control_result_state, deliver, deliver_all, in_use}
use device_blackshark_penros.Port.Types.{BluetoothStreamState, Port, disabled, started, starting}
use device_blackshark_penros.Session.Cookies.{SessionCode}
use device_blackshark_penros.Session.Types.{
  BluetoothAudioStatus, Notification, audio_configuration_changed, control_result,
  low_latency_mode_allowed, other, reconfiguration, session_changed, success,
  unsupported_codec_configuration,
}

-- A callback that the handlers of the port with a cookie do not run for.
abbrev pub IsUnheard : ℕ → Notification → Type 0
IsUnheard cookie (control_result c start_resp status) = c ≢ cookie
IsUnheard cookie (session_changed c) = c ≢ cookie
IsUnheard cookie (audio_configuration_changed c) = Unit {0}
IsUnheard cookie (low_latency_mode_allowed c allowed) = Unit {0}

abbrev pub IsFailure : BluetoothAudioStatus → Type 0
IsFailure success = ⊥
IsFailure reconfiguration = ⊥
IsFailure other = Unit {0}
IsFailure unsupported_codec_configuration = Unit {0}

-- Callbacks that a started port stays started under: for the port itself, only results that fail.
pub data Keeps (cookie : ℕ) : List Notification → Type 0 where
  nothing_left : Keeps cookie []
  passed_by :
      {n : Notification} {ns : List Notification}
      → IsUnheard cookie n
      → Keeps cookie ns
      → Keeps cookie (n ∷ ns)
  failed :
      {ns : List Notification} (start_resp : Bool) (status : BluetoothAudioStatus)
      → IsFailure status
      → Keeps cookie ns
      → Keeps cookie (control_result cookie start_resp status ∷ ns)

-- Callbacks that confirm a start: the first one for the port is a success.
pub data Confirms (cookie : ℕ) : List Notification → Type 0 where
  not_yet :
      {n : Notification} {ns : List Notification}
      → IsUnheard cookie n
      → Confirms cookie ns
      → Confirms cookie (n ∷ ns)
  confirmed :
      {ns : List Notification} (start_resp : Bool)
      → Keeps cookie ns
      → Confirms cookie (control_result cookie start_resp success ∷ ns)

-- A callback is heard by the port, or it is not.
data Hearing (cookie : ℕ) (n : Notification) : Type 0 where
  unheard : IsUnheard cookie n → Hearing cookie n
  result :
      (start_resp : Bool) (status : BluetoothAudioStatus)
      → n ≡ control_result cookie start_resp status
      → Hearing cookie n
  change : n ≡ session_changed cookie → Hearing cookie n

hearing : (cookie : ℕ) (n : Notification) → Hearing cookie n
hearing cookie (control_result c start_resp status) = elim (Bool-cases (c == cookie)) [
  | inl e ↦
      result start_resp status (ap (λ k. control_result k start_resp status) ((==_iff _ _).0 e))
  | inr e ↦ unheard (λ same. ground arith)
]
hearing cookie (session_changed c) = elim (Bool-cases (c == cookie)) [
  | inl e ↦ change (ap session_changed ((==_iff _ _).0 e))
  | inr e ↦ unheard (λ same. ground arith)
]
hearing cookie (audio_configuration_changed c) = unheard tt
hearing cookie (low_latency_mode_allowed c allowed) = unheard tt

deliver_unheard :
    (code : SessionCode) (p : Port) (n : Notification) → IsUnheard p.cookie n → deliver code p n ≡ p
unfolding deliver
deliver_unheard code p (control_result c start_resp status) h = ground arith
deliver_unheard code p (session_changed c) h = ground arith
deliver_unheard code p (audio_configuration_changed c) h = refl
deliver_unheard code p (low_latency_mode_allowed c allowed) h = refl

deliver_result :
    (code : SessionCode) (p : Port) (start_resp : Bool) (status : BluetoothAudioStatus)
    → in_use code p ≡ true
    → deliver code p (control_result p.cookie start_resp status)
      ≡ record p { state = control_result_state p.state status }
unfolding deliver
deliver_result code p start_resp status used = ground arith

deliver_change :
    (code : SessionCode) (p : Port)
    → in_use code p ≡ true
    → deliver code p (session_changed p.cookie) ≡ record p { state = disabled }
unfolding deliver
deliver_change code p used = ground arith

-- A port that is neither started nor in its start.
abbrev IsIdle : BluetoothStreamState → Type 0
IsIdle started = ⊥
IsIdle starting = ⊥
IsIdle _ = Unit {0}

control_result_state-IsIdle :
    (s : BluetoothStreamState) (status : BluetoothAudioStatus)
    → IsIdle s
    → IsIdle (control_result_state s status)
unfolding control_result_state
control_result_state-IsIdle s status h = ground arith

deliver-IsIdle :
    (code : SessionCode) (p : Port) (n : Notification)
    → IsIdle p.state
    → IsIdle (deliver code p n).state
unfolding deliver
deliver-IsIdle code p (control_result c start_resp status) h =
    ground (arith, control_result_state-IsIdle p.state status h)
deliver-IsIdle code p (session_changed c) h = ground arith
deliver-IsIdle code p (audio_configuration_changed c) h = h
deliver-IsIdle code p (low_latency_mode_allowed c allowed) h = h

deliver_all-IsIdle :
    (code : SessionCode) (ns : List Notification) (p : Port)
    → IsIdle p.state
    → IsIdle (deliver_all code p ns).state
unfolding deliver_all
deliver_all-IsIdle code [] p h = h
deliver_all-IsIdle code (n ∷ ns) p h =
    deliver_all-IsIdle code ns (deliver code p n) (deliver-IsIdle code p n h)

not_started : {s : BluetoothStreamState} → IsIdle s → s ≡ started → ⊥
not_started h e = subst IsIdle e h

idle_never_started :
    (code : SessionCode) (ns : List Notification) (p : Port)
    → IsIdle p.state
    → (deliver_all code p ns).state ≡ started
    → ⊥
idle_never_started code ns p h e = not_started (deliver_all-IsIdle code ns p h) e

-- A result in each of the two states: it leaves the port started, or not to be started again.
started_result :
    (status : BluetoothAudioStatus)
    → (IsFailure status × (control_result_state started status ≡ started))
      ⊎ IsIdle (control_result_state started status)
unfolding control_result_state
started_result success = inr tt
started_result reconfiguration = inr tt
started_result other = inl (tt, refl)
started_result unsupported_codec_configuration = inl (tt, refl)

starting_result :
    (status : BluetoothAudioStatus)
    → ((status ≡ success) × (control_result_state starting status ≡ started))
      ⊎ IsIdle (control_result_state starting status)
unfolding control_result_state
starting_result success = inl (refl, refl)
starting_result reconfiguration = inr tt
starting_result other = inr tt
starting_result unsupported_codec_configuration = inr tt

module _ (code : SessionCode) where
  -- The port as a result for it leaves it.
  abbrev told : Port → BluetoothAudioStatus → Port
  told p status = record p { state = control_result_state p.state status }

  told_as :
      (n : Notification) (ns : List Notification) (p q : Port)
      → deliver code p n ≡ q
      → (deliver_all code p (n ∷ ns)).state ≡ started
      → (deliver_all code q ns).state ≡ started
  unfolding deliver_all
  told_as n ns p q e h = sym (ap (λ q. (deliver_all code q ns).state) e) ∙ h

  result_as :
      {n : Notification} (p : Port) (start_resp : Bool) (status : BluetoothAudioStatus)
      → in_use code p ≡ true
      → n ≡ control_result p.cookie start_resp status
      → deliver code p n ≡ told p status
  result_as p start_resp status used e =
      ap (deliver code p) e ∙ deliver_result code p start_resp status used

  change_as :
      {n : Notification} (p : Port)
      → in_use code p ≡ true
      → n ≡ session_changed p.cookie
      → deliver code p n ≡ record p { state = disabled }
  change_as p used e = ap (deliver code p) e ∙ deliver_change code p used

  -- From a port that ends up started, to what it was told.
  kept_by :
      (ns : List Notification) (p : Port)
      → in_use code p ≡ true
      → p.state ≡ started
      → (deliver_all code p ns).state ≡ started
      → Keeps p.cookie ns
  unfolding in_use
  kept_by [] p used up h = nothing_left
  kept_by (n ∷ ns) p used up h = elim (hearing p.cookie n) [
    | unheard u ↦
        passed_by u (kept_by ns p used up (told_as n ns p p (deliver_unheard code p n u) h))
    | change e ↦ absurd (idle_never_started code ns _ tt (told_as n ns p _ (change_as p used e) h))
    | result b status e ↦
        let h' = told_as n ns p (told p status) (result_as p b status used e) h in
        elim (started_result status) [
          | inl (f, s) ↦
              subst (λ m. Keeps p.cookie (m ∷ ns)) (sym e)
                (failed b status f (
                  kept_by ns (told p status) used (ap (λ s. control_result_state s status) up ∙ s)
                    h'))
          | inr idle ↦ absurd (
              idle_never_started code ns (told p status)
                (subst (λ s. IsIdle (control_result_state s status)) (sym up) idle) h')
        ]
  ]

  confirmed_by :
      (ns : List Notification) (p : Port)
      → in_use code p ≡ true
      → p.state ≡ starting
      → (deliver_all code p ns).state ≡ started
      → Confirms p.cookie ns
  unfolding in_use deliver_all
  confirmed_by [] p used waits h = absurd (ground arith)
  confirmed_by (n ∷ ns) p used waits h = elim (hearing p.cookie n) [
    | unheard u ↦
        not_yet u (confirmed_by ns p used waits (told_as n ns p p (deliver_unheard code p n u) h))
    | change e ↦ absurd (idle_never_started code ns _ tt (told_as n ns p _ (change_as p used e) h))
    | result b status e ↦
        let h' = told_as n ns p (told p status) (result_as p b status used e) h in
        elim (starting_result status) [
          | inl (good, s) ↦
              subst (λ m. Confirms p.cookie (m ∷ ns))
                (sym (e ∙ ap (control_result p.cookie b) good))
                (confirmed b (
                  kept_by ns (told p status) used
                    (ap (λ s. control_result_state s status) waits ∙ s) h'))
          | inr idle ↦ absurd (
              idle_never_started code ns (told p status)
                (subst (λ s. IsIdle (control_result_state s status)) (sym waits) idle) h')
        ]
  ]

  -- And back.
  told_then :
      (n : Notification) (ns : List Notification) (p q : Port)
      → deliver code p n ≡ q
      → (deliver_all code q ns).state ≡ started
      → (deliver_all code p (n ∷ ns)).state ≡ started
  unfolding deliver_all
  told_then n ns p q e h = ap (λ q. (deliver_all code q ns).state) e ∙ h

  failure-keeps :
      (status : BluetoothAudioStatus)
      → IsFailure status
      → control_result_state started status ≡ started
  unfolding control_result_state
  failure-keeps status h = ground arith

  Keeps-started :
      (cookie : ℕ) (ns : List Notification)
      → Keeps cookie ns
      → (p : Port) → p.cookie ≡ cookie
      → in_use code p ≡ true
      → p.state ≡ started
      → (deliver_all code p ns).state ≡ started
  unfolding in_use deliver_all
  Keeps-started cookie [] nothing_left p own used up = up
  Keeps-started cookie (n ∷ ns) (passed_by u k) p own used up =
      told_then n ns p p (deliver_unheard code p n (subst (λ c. IsUnheard c n) (sym own) u))
        (Keeps-started cookie ns k p own used up)
  Keeps-started cookie (n ∷ ns) (failed b status f k) p own used up =
      told_then (control_result cookie b status) ns p (told p status)
        (result_as p b status used (ap (λ c. control_result c b status) (sym own)))
        (Keeps-started cookie ns k (told p status) own used
          (ap (λ s. control_result_state s status) up ∙ failure-keeps status f))

  Confirms-started :
      (cookie : ℕ) (ns : List Notification)
      → Confirms cookie ns
      → (p : Port) → p.cookie ≡ cookie
      → in_use code p ≡ true
      → p.state ≡ starting
      → (deliver_all code p ns).state ≡ started
  unfolding in_use deliver_all control_result_state
  Confirms-started cookie [] k p own used waits = elim k [ ]
  Confirms-started cookie (n ∷ ns) (not_yet u k) p own used waits =
      told_then n ns p p (deliver_unheard code p n (subst (λ c. IsUnheard c n) (sym own) u))
        (Confirms-started cookie ns k p own used waits)
  Confirms-started cookie (n ∷ ns) (confirmed b k) p own used waits =
      told_then (control_result cookie b success) ns p (told p success)
        (result_as p b success used (ap (λ c. control_result c b success) (sym own)))
        (Keeps-started cookie ns k (told p success) own used
          (ap (λ s. control_result_state s success) waits))

  -- A port that is in use and in its start is started after a list of callbacks exactly where the first
  -- of them for its cookie is a control result of success, and all later ones for its cookie are
  -- control results that fail: a result of reconfiguration or of failure before, a second success, a
  -- reconfiguration or a change of the session after, each leave it in another state.
  pub deliver_all-Confirms :
      (p : Port) (ns : List Notification)
      → in_use code p ≡ true
      → p.state ≡ starting
      → ((deliver_all code p ns).state ≡ started) ↔ Confirms p.cookie ns
  deliver_all-Confirms p ns used waits =
      (confirmed_by ns p used waits, λ k. Confirms-started p.cookie ns k p refl used waits)
