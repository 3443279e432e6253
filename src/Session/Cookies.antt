-- ===== src/Session/Cookies.antt =====
-- The observers' cookies of BluetoothAudioSession.h: a session type in the high byte, and one of
-- `kObserversCookieSize` slots in the low one. `SessionCode` is the numbering of the AIDL enumeration.
use device_blackshark_penros.Base.{
  ==_iff, ap, arith, bit_and, holds_before, holds_before_lem, refl, sym, true, ℕ, ◌*◌, ◌+◌, ◌/◌,
  ◌<◌, ◌==◌, ◌^◌, ◌∙◌, ◌≡◌, ◌≢◌, ◌≤◌,
}
use device_blackshark_penros.Session.Types.{SessionType}

abbrev pub SessionCode : Type 0
SessionCode = SessionType → ℕ

-- The enumeration is backed by a byte, and its constants differ.
pub record IsSessionCode (code : SessionCode) : Type 0 where
  pub code_lt : (t : SessionType) → code t < 256
  pub code_injective : (s t : SessionType) → code s ≡ code t → s ≡ t

abbrev pub observers_cookie_size : ℕ
observers_cookie_size = 16

-- `static_cast<uint16_t>(session_type) << 8 & 0xff00`
unfoldable pub high_byte : ℕ → ℕ
high_byte c = bit_and (c * 2 ^ 8) 0xff00

unfoldable pub observers_cookie_undefined : SessionCode → ℕ
unfolding high_byte
observers_cookie_undefined code = high_byte (code SessionType.unknown)

unfoldable pub observers_cookie_get_init_value : SessionCode → SessionType → ℕ
unfolding high_byte
observers_cookie_get_init_value code t = high_byte (code t)

unfoldable pub observers_cookie_get_upper_bound : SessionCode → SessionType → ℕ
unfolding high_byte
observers_cookie_get_upper_bound code t = high_byte (code t) + observers_cookie_size

-- `cookie >> 8 & 0x00ff`; the source casts the number to `SessionType`.
unfoldable pub observers_cookie_get_session_type : ℕ → ℕ
observers_cookie_get_session_type cookie = bit_and (cookie / 2 ^ 8) 0x00ff

high_byte_table : holds_before (λ c. high_byte c == c * 256) 256 ≡ true
unfolding holds_before high_byte
high_byte_table = refl

pub high_byte-eq : (c : ℕ) → c < 256 → high_byte c ≡ c * 256
high_byte-eq c h = (==_iff _ _).0 (holds_before_lem _ 256 c h high_byte_table)

low_byte_table : holds_before (λ c. bit_and c 0x00ff == c) 256 ≡ true
unfolding holds_before
low_byte_table = refl

low_byte_eq : (c : ℕ) → c < 256 → bit_and c 0x00ff ≡ c
low_byte_eq c h = (==_iff _ _).0 (holds_before_lem _ 256 c h low_byte_table)

module _ {code : SessionCode} (valid : IsSessionCode code) where
  pub init_value-eq : (t : SessionType) → observers_cookie_get_init_value code t ≡ code t * 256
  unfolding observers_cookie_get_init_value
  init_value-eq t = high_byte-eq (code t) (valid.code_lt t)

  pub upper_bound-eq :
      (t : SessionType) → observers_cookie_get_upper_bound code t ≡ code t * 256 + 16
  unfolding observers_cookie_get_upper_bound
  upper_bound-eq t = ap (λ n. n + 16) (high_byte-eq (code t) (valid.code_lt t))

  -- A cookie in the range of a session type names that type.
  pub cookie_session_type :
      (t : SessionType) (cookie : ℕ)
      → observers_cookie_get_init_value code t ≤ cookie
      → cookie < observers_cookie_get_upper_bound code t
      → observers_cookie_get_session_type cookie ≡ code t
  unfolding observers_cookie_get_session_type
  cookie_session_type t cookie lo hi =
      ap (λ n. bit_and n 0x00ff) quotient ∙ low_byte_eq (code t) (valid.code_lt t)
    where
      quotient : cookie / 2 ^ 8 ≡ code t
      quotient = omega (arith, init_value-eq t, upper_bound-eq t)

  -- Where the session types have different numbers below 256, the ranges of two session types do not
  -- meet, so a cookie belongs to one session.
  pub cookie_ranges_disjoint :
      (s t : SessionType) (cookie : ℕ)
      → observers_cookie_get_init_value code s ≤ cookie
      → cookie < observers_cookie_get_upper_bound code s
      → observers_cookie_get_init_value code t ≤ cookie
      → cookie < observers_cookie_get_upper_bound code t
      → s ≡ t
  cookie_ranges_disjoint s t cookie los his lot hit =
      valid.code_injective s t
        (sym (cookie_session_type s cookie los his) ∙ cookie_session_type t cookie lot hit)

  -- No output of a real session is given the undefined cookie.
  pub cookie-ne-undefined :
      (t : SessionType) (cookie : ℕ)
      → t ≢ SessionType.unknown
      → observers_cookie_get_init_value code t ≤ cookie
      → cookie < observers_cookie_get_upper_bound code t
      → cookie ≢ observers_cookie_undefined code
  unfolding observers_cookie_undefined
  cookie-ne-undefined t cookie known lo hi same = known (
      valid.code_injective t SessionType.unknown (
        omega (
          arith,
          init_value-eq t,
          upper_bound-eq t,
          high_byte-eq (code SessionType.unknown) (valid.code_lt SessionType.unknown),
        )))
