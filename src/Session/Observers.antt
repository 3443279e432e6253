-- ===== src/Session/Observers.antt =====
-- RegisterStatusCback and UnregisterStatusCback of BluetoothAudioSession.cpp.
use native.Mathlib.Decide.{ℕ_discrete}
use device_blackshark_penros.Base.{
  Bool-cases, List, Option-cases, ap, arith, erase, erase_of_none, if◌then◌else◌, inl, inr, is_some,
  leb, lookup, lookup-erase, none, refl, some, subst, suc, true, zero, ℕ, ◌+◌, ◌<◌, ◌==◌, ◌∷◌, ◌≡◌,
  ◌≢◌, ◌≤◌, ◌⊎◌,
}
use device_blackshark_penros.Session.Cookies.{
  IsSessionCode, SessionCode, cookie-ne-undefined, observers_cookie_get_init_value,
  observers_cookie_get_upper_bound, observers_cookie_size, observers_cookie_undefined,
}
use device_blackshark_penros.Session.Core.{
  Session, find_cookie, register_status_cback, unregister_status_cback,
}
use device_blackshark_penros.Session.Types.{PortStatusCallbacks, SessionType}

abbrev Observers : Type 0
Observers = List (ℕ × PortStatusCallbacks)

-- What the search for a slot finds: a free cookie with all slots below it taken, or the end.
pub record IsFirstFree (start rounds cookie : ℕ) (os : List (ℕ × PortStatusCallbacks))
    : Type 0 where
  pub above : start ≤ cookie
  pub below : cookie ≤ start + rounds
  pub taken : (c : ℕ) → start ≤ c → c < cookie → is_some (lookup c os) ≡ true
  pub vacant : cookie < start + rounds → lookup cookie os ≡ none

-- A taken slot in front of such a search.
IsFirstFree-cons :
    (start rounds cookie : ℕ) (os : Observers)
    → is_some (lookup start os) ≡ true
    → IsFirstFree (start + 1) rounds cookie os
    → IsFirstFree start (suc rounds) cookie os
IsFirstFree-cons start rounds cookie os here rest = record {
  above = omega (arith, rest.above);
  below = omega (arith, rest.below);
  taken = λ c lo hi. go c lo hi (ℕ_discrete start c);
  vacant = λ h. rest.vacant (omega arith);
}
  where
    go : (c : ℕ) → start ≤ c → c < cookie → Dec (start ≡ c) → is_some (lookup c os) ≡ true
    go c lo hi (yes p) = subst (λ k. is_some (lookup k os) ≡ true) p here
    go c lo hi (no p) = rest.taken c (omega arith) hi

find_cookie-IsFirstFree :
    (rounds start : ℕ) (os : Observers) → IsFirstFree start rounds (find_cookie rounds start os) os
unfolding find_cookie
find_cookie-IsFirstFree zero start os = record {
  above = omega arith;
  below = omega arith;
  taken = λ c lo hi. absurd (omega arith);
  vacant = λ h. absurd (omega arith);
}
find_cookie-IsFirstFree (suc rounds) start os = elim (Option-cases (lookup start os)) [
  | inl e ↦
      rw (e, is_some)
        (record {
          above = omega arith;
          below = omega arith;
          taken = λ c lo hi. absurd (omega arith);
          vacant = λ h. e;
        })
  | inr (v, e) ↦ rw (ap is_some e) (
      IsFirstFree-cons start rounds _ os (ap is_some e)
        (find_cookie-IsFirstFree rounds (start + 1) os))
]

-- What a registration does: all slots of the session are taken and nothing changes, or the first
-- free slot is given to the callbacks.
pub data Registers (code : SessionCode) (s : Session) (cb : PortStatusCallbacks) (r : Session × ℕ)
    : Type 0 where
  refused :
      ((c : ℕ)
        → observers_cookie_get_init_value code s.session_type ≤ c
        → c < observers_cookie_get_upper_bound code s.session_type
        → is_some (lookup c s.observers) ≡ true)
      → r ≡ (s, observers_cookie_undefined code)
      → Registers code s cb r
  granted :
      (cookie : ℕ)
      → observers_cookie_get_init_value code s.session_type ≤ cookie
      → cookie < observers_cookie_get_upper_bound code s.session_type
      → ((c : ℕ)
          → observers_cookie_get_init_value code s.session_type ≤ c
          → c < cookie
          → is_some (lookup c s.observers) ≡ true)
      → lookup cookie s.observers ≡ none
      → r ≡ (record s { observers = (cookie, cb) ∷ s.observers }, cookie)
      → Registers code s cb r

upper_bound-eq-init :
    (code : SessionCode) (t : SessionType)
    → observers_cookie_get_upper_bound code t ≡ observers_cookie_get_init_value code t + 16
unfolding observers_cookie_get_upper_bound observers_cookie_get_init_value
upper_bound-eq-init code t = refl

-- RegisterStatusCback gives the smallest free cookie of the session's range and adds exactly the
-- entry of that cookie to the map; it answers the undefined cookie, and changes nothing, exactly
-- where all cookies of the range are taken.
pub register_status_cback-Registers :
    (code : SessionCode) (s : Session) (cb : PortStatusCallbacks)
    → Registers code s cb (register_status_cback code s cb)
unfolding register_status_cback
register_status_cback-Registers code s cb =
    elim (Bool-cases (leb (observers_cookie_get_upper_bound code s.session_type) cookie)) [
      | inl full ↦ rw full (refused (λ c lo hi. found.taken c lo (ground (arith, bound))) refl)
      | inr free_slot ↦ rw free_slot (
          granted cookie found.above (ground (arith, bound)) found.taken
            (found.vacant (ground (arith, bound))) refl)
    ]
  where
    cookie : ℕ
    cookie =
        find_cookie observers_cookie_size (observers_cookie_get_init_value code s.session_type)
          s.observers

    bound :
        observers_cookie_get_upper_bound code s.session_type
        ≡ observers_cookie_get_init_value code s.session_type + 16
    bound = upper_bound-eq-init code s.session_type

    found :
        IsFirstFree
          (observers_cookie_get_init_value code s.session_type)
          observers_cookie_size
          cookie
          s.observers
    found =
        find_cookie-IsFirstFree observers_cookie_size
          (observers_cookie_get_init_value code s.session_type) s.observers

erase-cons :
    (cookie : ℕ) (cb : PortStatusCallbacks) (os : Observers)
    → lookup cookie os ≡ none
    → erase cookie ((cookie, cb) ∷ os) ≡ os
erase-cons cookie cb os h = ground (arith, erase_of_none cookie os h)

-- Where the session types have different numbers below 256: an output that registers with a session
-- of a known type and unregisters with the cookie that it was given leaves the session as it was,
-- unless it was refused.
pub unregister-register :
    {code : SessionCode} (valid : IsSessionCode code) (s : Session) (cb : PortStatusCallbacks)
    → s.session_type ≢ SessionType.unknown
    → let (s', cookie) = register_status_cback code s cb in
      ((cookie ≡ observers_cookie_undefined code) × (s' ≡ s))
      ⊎ ((cookie ≢ observers_cookie_undefined code)
          × (lookup cookie s'.observers ≡ some cb)
          × (unregister_status_cback s' cookie ≡ s))
unfolding unregister_status_cback
unregister-register {code} valid s cb known = elim (register_status_cback-Registers code s cb) [
  | refused _ e ↦ inl (rw e refl, rw e refl)
  | granted cookie lo hi _ vacant e ↦ rw e (
      inr (
        cookie-ne-undefined valid s.session_type cookie known lo hi,
        ground arith,
        ap (λ os. record s { observers = os }) (erase-cons cookie cb s.observers vacant),
      ))
]

-- Unregistering a cookie takes away that observer alone, and nothing where there is none.
pub lookup-unregister :
    (s : Session) (cookie c : ℕ)
    → lookup c (unregister_status_cback s cookie).observers
      ≡ (if cookie == c then none else lookup c s.observers)
unfolding unregister_status_cback
lookup-unregister s cookie c = lookup-erase cookie c s.observers
