-- ===== src/Codecs/LeAudio.antt =====
-- The LE audio capabilities of BluetoothAudioCodecs.cpp: a list that the first call builds, and that
-- later calls find in a static variable.
use device_blackshark_penros.Base.{
  Bool, Bool-cases, List, [], arith, false, if◌then◌else◌, inl, inr, length, refl, true, ℕ, ◌&&◌,
  ◌++◌, ◌∷◌, ◌≡◌,
}
use device_blackshark_penros.Codecs.Checks.{is_offload_le_audio_type}
use device_blackshark_penros.Session.Types.{SessionType}

pub data AudioLocation : Type 0 where
  mono_audio stereo_audio : AudioLocation

pub record Lc3Capabilities : Type 0 where
  pub sampling_frequency_hz : List ℕ
  pub frame_duration_us : List ℕ
  pub octets_per_frame : List ℕ

abbrev lc3_capability : ℕ → ℕ → ℕ → Lc3Capabilities
lc3_capability frequency duration octets = record {
  sampling_frequency_hz = frequency ∷ [];
  frame_duration_us = duration ∷ [];
  octets_per_frame = octets ∷ [];
}

abbrev pub supported_lc3_capability_list : List Lc3Capabilities
supported_lc3_capability_list =
    lc3_capability 48000 10000 120
    ∷ lc3_capability 32000 10000 80
    ∷ lc3_capability 24000 10000 60
    ∷ lc3_capability 16000 10000 40
    ∷ lc3_capability 16000 7500 30
    ∷ []

-- A location, the number of devices, and the channels of each.
pub record DeviceSetting : Type 0 where
  pub audio_location : AudioLocation
  pub device_count : ℕ
  pub channel_count : ℕ

abbrev setting : AudioLocation → ℕ → ℕ → DeviceSetting
setting location devices channels = record {
  audio_location = location;
  device_count = devices;
  channel_count = channels;
}

abbrev pub supported_device_setting : List DeviceSetting
supported_device_setting =
    setting stereo_audio 2 1 ∷ setting stereo_audio 1 2 ∷ setting mono_audio 1 1 ∷ []

-- A capability is invalid where its codec is unknown.
pub data UnicastCapability : Type 0 where
  invalid_unicast : UnicastCapability
  lc3_unicast : AudioLocation → ℕ → ℕ → Lc3Capabilities → UnicastCapability

pub data BroadcastCapability : Type 0 where
  invalid_broadcast : BroadcastCapability

pub record LeAudioCodecCapabilitiesSetting : Type 0 where
  pub unicast_encode_capability : UnicastCapability
  pub unicast_decode_capability : UnicastCapability
  pub broadcast_capability : BroadcastCapability

abbrev compose_setting : UnicastCapability → UnicastCapability → LeAudioCodecCapabilitiesSetting
compose_setting encode decode = record {
  unicast_encode_capability = encode;
  unicast_decode_capability = decode;
  broadcast_capability = invalid_broadcast;
}

-- The body of the inner loop: encode only, decode only, and both at the same time.
unfoldable pub settings_of : DeviceSetting → Lc3Capabilities → List LeAudioCodecCapabilitiesSetting
settings_of d capability =
    let both = lc3_unicast d.audio_location d.device_count d.channel_count capability in
    compose_setting both invalid_unicast
    ∷ compose_setting invalid_unicast both
    ∷ compose_setting both (lc3_unicast mono_audio 1 1 capability)
    ∷ []

unfoldable pub for_capabilities :
    DeviceSetting → List Lc3Capabilities → List LeAudioCodecCapabilitiesSetting
unfolding settings_of
for_capabilities d [] = []
for_capabilities d (k ∷ ks) = settings_of d k ++ for_capabilities d ks

unfoldable pub for_devices : List DeviceSetting → List LeAudioCodecCapabilitiesSetting
unfolding for_capabilities
for_devices [] = []
for_devices (d ∷ ds) = for_capabilities d supported_lc3_capability_list ++ for_devices ds

-- The static variable, and the call: its result, and the variable after it.
abbrev pub Cache : Type 0
Cache = List LeAudioCodecCapabilitiesSetting

unfoldable pub get_le_audio_offload_codec_capabilities :
    Cache → SessionType → List LeAudioCodecCapabilitiesSetting × Cache
unfolding for_devices
get_le_audio_offload_codec_capabilities [] t =
    if is_offload_le_audio_type t
    then (for_devices supported_device_setting, for_devices supported_device_setting)
    else ([], [])
get_le_audio_offload_codec_capabilities (c ∷ cs) t =
    if is_offload_le_audio_type t then (c ∷ cs, c ∷ cs) else ([], c ∷ cs)

-- What any calls from the start leave in the variable.
pub data Reached : Cache → Type 0 where
  untouched : Reached []
  built : Reached (for_devices supported_device_setting)

-- Encoding or decoding is offered, in LC3, and broadcasting never is.
abbrev pub offers_unicast : LeAudioCodecCapabilitiesSetting → Bool
offers_unicast s = elim s.unicast_encode_capability [
  | lc3_unicast l d n k ↦ true
  | invalid_unicast ↦ elim s.unicast_decode_capability [
    | lc3_unicast l d n k ↦ true
    | invalid_unicast ↦ false
  ]
]

abbrev pub all_of :
    (LeAudioCodecCapabilitiesSetting → Bool) → List LeAudioCodecCapabilitiesSetting → Bool
all_of test [] = true
all_of test (s ∷ ss) = test s && all_of test ss

-- Whatever calls came before, a call answers the same list for each of the three offloaded LE audio
-- types: 45 settings, three for each of three device settings and five LC3 capabilities, each of
-- which offers unicast. It answers nothing for other types, and the variable stays one that calls
-- reach.
pub get_le_audio_offload_codec_capabilities_lem :
    (cache : Cache) (t : SessionType)
    → Reached cache
    → let (answer, cache') = get_le_audio_offload_codec_capabilities cache t in
      (answer ≡ (if is_offload_le_audio_type t then for_devices supported_device_setting else []))
      × (is_offload_le_audio_type t ≡ true
          → (length answer ≡ 45) × (all_of offers_unicast answer ≡ true))
      × Reached cache'
unfolding get_le_audio_offload_codec_capabilities
get_le_audio_offload_codec_capabilities_lem cache t untouched =
    elim (Bool-cases (is_offload_le_audio_type t)) [
      | inl e ↦ rw e (refl, λ h. (refl, refl), built)
      | inr e ↦ rw e (refl, λ h. absurd (ground arith), untouched)
    ]
get_le_audio_offload_codec_capabilities_lem cache t built =
    elim (Bool-cases (is_offload_le_audio_type t)) [
      | inl e ↦ rw e (refl, λ h. (refl, refl), built)
      | inr e ↦ rw e (refl, λ h. absurd (ground arith), built)
    ]
