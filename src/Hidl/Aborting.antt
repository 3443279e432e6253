-- ===== src/Hidl/Aborting.antt =====
-- The aborts of HidlToAidlMiddleware.cpp on the configurations of LE audio.
use device_blackshark_penros.Session.Core
use device_blackshark_penros.Control
use device_blackshark_penros.Base.{
  Bool-cases, List, Option, ap, arith, inl, inr, none, refl, some, sym, true, ℕ, ◌∙◌, ◌≡◌, ◌⊎◌,
}
use device_blackshark_penros.Control.Laws.{IsRegistry}
use device_blackshark_penros.Control.Sessions.{session}
use device_blackshark_penros.Hidl.Convert.{from_session_type}
use device_blackshark_penros.Hidl.LeAudio.{
  BroadcastStream, Lc3Configuration, LeAudioCodecConfiguration, LeAudioConfiguration, lc3_config,
  to_hidl_audio_config_2_1, to_hidl_leaudio_config, vendor_config,
}
use device_blackshark_penros.Hidl.Middleware.{Middleware, get_audio_config_2_1}
use device_blackshark_penros.Hidl.Types.{HidlSessionType, SbcParameters}
use device_blackshark_penros.Provider.Factory.{kept}
use device_blackshark_penros.Session.Core.{
  Session, default_config, get_audio_config, is_offload_le_audio_session,
}
use device_blackshark_penros.Session.Types.{
  AudioConfiguration, Defaults, SessionType, le_audio_config,
}

Codec-cases :
    (k : LeAudioCodecConfiguration)
    → ((c : Lc3Configuration) × (k ≡ lc3_config c)) ⊎ ((n : ℕ) × (k ≡ vendor_config n))
Codec-cases (lc3_config c) = inl (c, refl)
Codec-cases (vendor_config n) = inr (n, refl)

pub to_hidl_leaudio_config_aborts : (c : LeAudioConfiguration) → to_hidl_leaudio_config c ≡ none
unfolding to_hidl_leaudio_config
to_hidl_leaudio_config_aborts c = elim (Codec-cases c.le_audio_codec_config) [
  | inl (k, e) ↦ rw e refl
  | inr (n, e) ↦ rw e refl
]

-- What a session of unicast LE audio stores, unless the stack replaces it.
abbrev pub IsUnicast : Option AudioConfiguration → Type 0
IsUnicast c = (c ≡ none) ⊎ ((n : ℕ) × (c ≡ some (le_audio_config n)))

default-unicast :
    (d : Defaults) (t : SessionType)
    → is_offload_le_audio_session t ≡ true
    → default_config d t ≡ le_audio_config d.le_audio
unfolding is_offload_le_audio_session
default-unicast d t h = ground arith

get_audio_config-unicast :
    (d : Defaults) (s : Session)
    → is_offload_le_audio_session s.session_type ≡ true
    → IsUnicast s.audio_config
    → (n : ℕ) × (get_audio_config d s ≡ le_audio_config n)
unfolding get_audio_config
get_audio_config-unicast d s h kept = elim (Bool-cases (Core.is_session_ready s)) [
  | inr e ↦ rw e (d.le_audio, default-unicast d s.session_type h)
  | inl e ↦ rw e (elim kept [
    | inl absent ↦ rw absent (d.le_audio, default-unicast d s.session_type h)
    | inr (n, stored) ↦ rw stored (n, refl)
  ])
]

-- Where each entry of the registry is a session of its type, GetAudioConfig of 2.1 aborts for every
-- session of unicast LE audio over the offloaded path, ready or not and whatever its codec is, as
-- long as the session stores no configuration or one of unicast LE audio.
pub get_audio_config_2_1_aborts :
    (le_audio : ℕ → LeAudioConfiguration) (broadcast : ℕ → List BroadcastStream)
    (initial : SbcParameters) (d : Defaults) (m : Middleware) (t : HidlSessionType)
    → is_offload_le_audio_session (from_session_type t) ≡ true
    → IsRegistry m.registry
    → IsUnicast (session m.registry (from_session_type t)).audio_config
    → (get_audio_config_2_1 le_audio broadcast initial d m t).0 ≡ none
unfolding get_audio_config_2_1 to_hidl_audio_config_2_1 Control.get_audio_config session
get_audio_config_2_1_aborts le_audio broadcast initial d m t h typed kept =
    let s = session m.registry (from_session_type t) in
    let same = sym (ap is_offload_le_audio_session (typed (from_session_type t))) in
    let (n, e) = get_audio_config-unicast d s (sym same ∙ h) kept in
    rw (e, to_hidl_leaudio_config_aborts (le_audio n)) refl
