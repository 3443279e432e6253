-- ===== src/Port/Bounds.antt =====
-- The data path of device_port_proxy.cc: how much is written and read, and what a port knows of the
-- position of its stream.
use device_blackshark_penros.Session.Calls
use device_blackshark_penros.Control
use device_blackshark_penros.Base.{
  Bool-cases, List, Option, [], ap, arith, false, inl, inr, none, refl, some, ℕ, ◌*◌, ◌/◌, ◌==◌,
  ◌∙◌, ◌≡◌, ◌≤◌,
}
use device_blackshark_penros.Control.Sessions.{Registry}
use device_blackshark_penros.Port.Core.{device_session_type, in_use}
use device_blackshark_penros.Port.Data.{get_presentation_position, twice_total, write_data}
use device_blackshark_penros.Port.Types.{AudioDevices, Port}
use device_blackshark_penros.Session.Cookies.{SessionCode}
use device_blackshark_penros.Session.Core.{is_offload}
use device_blackshark_penros.Session.Pcm.{
  PcmResult, Round, faulted, out_of_fuel, out_write_pcm_data, returned,
}
use device_blackshark_penros.Session.Transfer.{
  Writes, faults, out_write_pcm_data-Writes, software-Writes, writes,
}
use device_blackshark_penros.Session.Types.{Defaults, PresentationPosition, SessionType}

pub data Returns {ℓ} {A : Type ℓ} (bytes : ℕ) (r : PcmResult A) : Type ℓ where
  returns :
      (total : ℕ) (content : List A) → r ≡ returned total content → total ≤ bytes → Returns bytes r

-- The session of a port is never an offloaded one.
pub device_session_type-is_offload :
    (device : AudioDevices) (t : SessionType)
    → device_session_type device ≡ some t
    → is_offload t ≡ false
unfolding device_session_type is_offload
device_session_type-is_offload device t h = ground arith

module _ (rounds : ℕ → Round) (device : AudioDevices) (t : SessionType)
    (known : device_session_type device ≡ some t)
    (typed : (i : ℕ) → (rounds i).seen.session_type ≡ t) where
  software : (i : ℕ) → is_offload (rounds i).seen.session_type ≡ false
  software i = ap is_offload (typed i) ∙ device_session_type-is_offload device t known

  twice_total-Returns {ℓ} :
      {A : Type ℓ} (buffer : List A) (frames bytes : ℕ) (r : PcmResult A)
      → frames * 4 ≤ bytes
      → Writes rounds buffer (frames * 2) 0 r
      → Returns bytes (twice_total r)
  twice_total-Returns buffer frames bytes r h w =
      let (total, queue, e, within, _) = software-Writes software w in
      rw e (returns (total * 2) queue refl (omega arith))

  plain-Returns {ℓ} :
      {A : Type ℓ} (buffer : List A) (bytes : ℕ)
      → Returns bytes (out_write_pcm_data rounds buffer bytes false)
  plain-Returns buffer bytes =
      let (total, queue, e, within, _) =
        software-Writes software (out_write_pcm_data-Writes rounds buffer bytes false) in
      returns total queue e within

  -- Where the rounds of the transfer find the session of a device's type, WriteData returns with at most
  -- the bytes of the caller, also where it mixes stereo into mono and counts each mono byte twice.
  pub write_data-Returns {ℓ} :
      {A : Type ℓ} (code : SessionCode) (downmix : ℕ → List A → List A) (p : Port) (buffer : List A)
      (bytes : ℕ)
      → Returns bytes (write_data code downmix rounds p buffer bytes)
  unfolding write_data
  write_data-Returns code downmix p buffer bytes = elim (Bool-cases (in_use code p)) [
    | inr e ↦ rw e (returns 0 [] refl (omega arith))
    | inl e ↦ rw e (elim (Bool-cases p.is_stereo_to_mono) [
      | inr m ↦ rw m (plain-Returns buffer bytes)
      | inl m ↦ rw m (elim (Bool-cases (bytes / 4 == 0)) [
        | inl z ↦ rw z (returns 0 [] refl (omega arith))
        | inr nz ↦ rw nz (
            twice_total-Returns (downmix (bytes / 4) buffer) (bytes / 4) bytes _ (omega arith)
              (out_write_pcm_data-Writes rounds (downmix (bytes / 4) buffer) (bytes / 4 * 2) false))
      ])
    ])
  ]

-- A call that returns reports no more than so many bytes.
abbrev pub IsWithin {ℓ} : {A : Type ℓ} → ℕ → PcmResult A → Type 0
IsWithin bytes (returned total queue) = total ≤ bytes
IsWithin bytes faulted = Unit {0}
IsWithin bytes out_of_fuel = Unit {0}

Writes-IsWithin {ℓ} :
    {A : Type ℓ} {rounds : ℕ → Round} {buffer : List A} {bytes : ℕ} {r : PcmResult A}
    → Writes rounds buffer bytes 0 r
    → IsWithin bytes r
Writes-IsWithin (writes total queue e l h q) = rw e h
Writes-IsWithin (faults i f e) = rw e tt

twice_total-IsWithin {ℓ} :
    {A : Type ℓ} (frames bytes : ℕ) (r : PcmResult A)
    → frames * 4 ≤ bytes
    → IsWithin (frames * 2) r
    → IsWithin bytes (twice_total r)
twice_total-IsWithin frames bytes (returned total queue) h w = omega arith
twice_total-IsWithin frames bytes faulted h w = tt
twice_total-IsWithin frames bytes out_of_fuel h w = tt

-- The bound holds on every session, also on one where a write may fault.
pub write_data-IsWithin {ℓ} :
    {A : Type ℓ} (code : SessionCode) (downmix : ℕ → List A → List A) (rounds : ℕ → Round)
    (p : Port) (buffer : List A) (bytes : ℕ)
    → IsWithin bytes (write_data code downmix rounds p buffer bytes)
unfolding write_data
write_data-IsWithin code downmix rounds p buffer bytes = elim (Bool-cases (in_use code p)) [
  | inr e ↦ rw e (omega arith)
  | inl e ↦ rw e (elim (Bool-cases p.is_stereo_to_mono) [
    | inr m ↦ rw m (Writes-IsWithin (out_write_pcm_data-Writes rounds buffer bytes false))
    | inl m ↦ rw m (elim (Bool-cases (bytes / 4 == 0)) [
      | inl z ↦ rw z (omega arith)
      | inr nz ↦ rw nz (
          twice_total-IsWithin (bytes / 4) bytes _ (omega arith) (
            Writes-IsWithin (
              out_write_pcm_data-Writes rounds (downmix (bytes / 4) buffer) (bytes / 4 * 2) false)))
    ])
  ])
]

-- No port learns a presentation position from its session: the answer is false in every state,
-- whatever the stack replies.
pub position_never_fetched :
    (code : SessionCode) (d : Defaults) (r : Registry) (p : Port)
    (reply : Option PresentationPosition) (position : PresentationPosition)
    → (get_presentation_position code d r p reply position).0 ≡ false
unfolding get_presentation_position Control.get_presentation_position
    Calls.get_presentation_position
position_never_fetched code d r p none position = ground arith
position_never_fetched code d r p (some reply) position = ground arith
