-- ===== src/Provider/Advertising.antt =====
-- What the factory advertises, against what its providers accept.
use device_blackshark_penros.Base.{
  Bool, List, Option, [], ap, arith, false, if◌then◌else◌, inl, inr, ltb, map, refl, some, subst,
  sym, true, ℕ, ◌&&◌, ◌∷◌, ◌≡◌, ◌≢◌,
}
use device_blackshark_penros.Codecs.Admission.{Admits, IsIn, ◌⊓◌}
use device_blackshark_penros.Codecs.Advertised.{
  is_offload_codec_configuration_valid-Covers, is_software_pcm_configuration_valid_lem,
}
use device_blackshark_penros.Codecs.Capabilities.{
  get_a2dp_offload_codec_capabilities, get_software_pcm_capabilities,
}
use device_blackshark_penros.Codecs.Checks.{
  is_offload_codec_configuration_valid, is_offload_le_audio_type,
  is_software_pcm_configuration_valid,
}
use device_blackshark_penros.Codecs.LeAudio.{Cache}
use device_blackshark_penros.Codecs.Tables.{default_software_pcm_capabilities}
use device_blackshark_penros.Control.Sessions.{Registry}
use device_blackshark_penros.Provider.Core.{
  base_start_session, le_audio_data_mq_size, start_as, start_session,
}
use device_blackshark_penros.Provider.Factory.{
  AudioCapabilities, a2dp_capabilities, get_provider_capabilities, pcm_capabilities,
}
use device_blackshark_penros.Provider.Sessions.{class_of, class_tag}
use device_blackshark_penros.Provider.Types.{
  Outcome, Provider, ProviderClass, a2dp_offload, a2dp_software, hearing_aid, illegal_argument,
  le_audio_offload, le_audio_software, le_audio_tag, pcm_tag, refuse, succeeded,
}
use device_blackshark_penros.Session.Codec.{CodecConfiguration}
use device_blackshark_penros.Session.Core.{is_offload_a2dp_session}
use device_blackshark_penros.Session.Types.{
  AudioConfiguration, DataMq, LatencyMode, PcmConfiguration, SessionType, a2dp_config,
  le_audio_broadcast_config, le_audio_config, pcm_config,
}

-- An advertised capability that admits the format of a configuration. Of the data interval of PCM, which
-- no check of the source looks at, it says that the capability lists none, so that it is not advertised.
abbrev pub AdmitsFormat : AudioCapabilities → AudioConfiguration → Type 0
AdmitsFormat (a2dp_capabilities k) (a2dp_config c) =
    (k.codec_type ≡ c.codec_type) × Admits k.capabilities c.config
AdmitsFormat (pcm_capabilities k) (pcm_config c) =
    (IsIn c.sample_rate_hz k.sample_rate_hz
      ⊓ IsIn c.bits_per_sample k.bits_per_sample
      ⊓ IsIn c.channel_mode k.channel_mode)
    × (k.data_interval_us ≡ [])
AdmitsFormat _ _ = ⊥

mapped-IsIn : {A B : Type 0} (f : A → B) (a : A) (xs : List A) → IsIn a xs → IsIn (f a) (map f xs)
mapped-IsIn f a [] h = absurd h
mapped-IsIn f a (x ∷ xs) (inl e) = inl (ap f e)
mapped-IsIn f a (x ∷ xs) (inr h) = inr (mapped-IsIn f a xs h)

a2dp_advertised :
    (cache : Cache) (t : SessionType)
    → is_offload_a2dp_session t ≡ true
    → (get_provider_capabilities cache t).0
      ≡ map a2dp_capabilities (get_a2dp_offload_codec_capabilities t)
unfolding get_provider_capabilities
a2dp_advertised cache t h = ground arith

pcm_advertised :
    (cache : Cache) (t : SessionType) (k : ProviderClass)
    → class_of t ≡ some k
    → class_tag k ≡ pcm_tag
    → (get_provider_capabilities cache t).0 ≡ map pcm_capabilities get_software_pcm_capabilities
unfolding get_provider_capabilities class_of is_offload_a2dp_session is_offload_le_audio_type
pcm_advertised cache t k h tag = ground arith

-- A capability that the factory advertises for a session type, and that admits a configuration.
pub record Advertised (cache : Cache) (t : SessionType) (c : AudioConfiguration) : Type 0 where
  pub capability : AudioCapabilities
  pub listed : IsIn capability (get_provider_capabilities cache t).0
  pub admits : AdmitsFormat capability c

pcm-Advertised :
    (cache : Cache) (t : SessionType) (k : ProviderClass) (c : PcmConfiguration)
    → class_of t ≡ some k
    → class_tag k ≡ pcm_tag
    → is_software_pcm_configuration_valid c ≡ true
    → Advertised cache t (pcm_config c)
pcm-Advertised cache t k c h tag valid = record {
  capability = pcm_capabilities default_software_pcm_capabilities;
  listed =
      subst (IsIn (pcm_capabilities default_software_pcm_capabilities))
        (sym (pcm_advertised cache t k h tag)) (unfold get_software_pcm_capabilities in inl refl);
  admits = ((is_software_pcm_configuration_valid_lem c).0 valid, refl);
}

a2dp-Advertised :
    (cache : Cache) (t : SessionType) (c : CodecConfiguration)
    → class_of t ≡ some a2dp_offload
    → is_offload_codec_configuration_valid t c ≡ true
    → Advertised cache t (a2dp_config c)
unfolding class_of is_offload_a2dp_session
a2dp-Advertised cache t c h valid =
    let covers = (is_offload_codec_configuration_valid-Covers t c).0 valid in
    record {
      capability = a2dp_capabilities covers.capability;
      listed =
          subst (IsIn (a2dp_capabilities covers.capability))
            (sym (a2dp_advertised cache t (ground arith)))
            (mapped-IsIn a2dp_capabilities covers.capability (get_a2dp_offload_codec_capabilities t)
              covers.advertised);
      admits = (covers.same_codec, covers.admitted);
    }

passed :
    (valid : Bool) (o : Outcome) (p : Provider) (r : Registry)
    → (if valid then o else refuse p r).status ≡ succeeded
    → valid ≡ true
passed true o p r s = refl
passed false o p r s = absurd (ground arith)

first-true : (a b c : Bool) → (a && b && c) ≡ true → a ≡ true
first-true a b c h = ground arith

unaccepted : {A : Type 0} → illegal_argument ≡ succeeded → A
unaccepted h = absurd (ground arith)

module _ (allocate : ℕ → DataMq) (dupe : DataMq → DataMq) (cache : Cache) where
  start_as-Advertised :
      (k : ProviderClass) (p : Provider) (r : Registry) (host_if : Option ℕ)
      (c : AudioConfiguration) (modes : List LatencyMode)
      → class_of p.session_type ≡ some k
      → class_tag k ≢ le_audio_tag
      → (start_as allocate dupe k p r host_if c modes).status ≡ succeeded
      → Advertised cache p.session_type c
  unfolding start_as
  start_as-Advertised a2dp_software p r h (pcm_config c) m known unlike s =
      pcm-Advertised cache p.session_type a2dp_software c known refl (
        passed (is_software_pcm_configuration_valid c)
          (base_start_session allocate dupe p r h (pcm_config c) m) p r s)
  start_as-Advertised a2dp_software p r h (a2dp_config c) m known unlike s = unaccepted s
  start_as-Advertised a2dp_software p r h (le_audio_config c) m known unlike s = unaccepted s
  start_as-Advertised a2dp_software p r h (le_audio_broadcast_config c) m known unlike s =
      unaccepted s
  start_as-Advertised hearing_aid p r h (pcm_config c) m known unlike s =
      pcm-Advertised cache p.session_type hearing_aid c known refl (
        passed (is_software_pcm_configuration_valid c)
          (base_start_session allocate dupe p r h (pcm_config c) m) p r s)
  start_as-Advertised hearing_aid p r h (a2dp_config c) m known unlike s = unaccepted s
  start_as-Advertised hearing_aid p r h (le_audio_config c) m known unlike s = unaccepted s
  start_as-Advertised hearing_aid p r h (le_audio_broadcast_config c) m known unlike s =
      unaccepted s
  start_as-Advertised le_audio_software p r h (pcm_config c) m known unlike s =
      let size = le_audio_data_mq_size p.session_type c in
      let mq = allocate size in
      let valid = is_software_pcm_configuration_valid c in
      let started =
        base_start_session allocate dupe (record p { data_mq = some mq }) r h (pcm_config c) m in
      pcm-Advertised cache p.session_type le_audio_software c known refl (
        first-true valid (ltb 0 size) mq.is_valid
          (passed (valid && ltb 0 size && mq.is_valid) started p r s))
  start_as-Advertised le_audio_software p r h (a2dp_config c) m known unlike s = unaccepted s
  start_as-Advertised le_audio_software p r h (le_audio_config c) m known unlike s = unaccepted s
  start_as-Advertised le_audio_software p r h (le_audio_broadcast_config c) m known unlike s =
      unaccepted s
  start_as-Advertised a2dp_offload p r h (pcm_config c) m known unlike s = unaccepted s
  start_as-Advertised a2dp_offload p r h (a2dp_config c) m known unlike s =
      a2dp-Advertised cache p.session_type c known (
        passed (is_offload_codec_configuration_valid p.session_type c)
          (base_start_session allocate dupe p r h (a2dp_config c) m) p r s)
  start_as-Advertised a2dp_offload p r h (le_audio_config c) m known unlike s = unaccepted s
  start_as-Advertised a2dp_offload p r h (le_audio_broadcast_config c) m known unlike s =
      unaccepted s
  start_as-Advertised le_audio_offload p r h (pcm_config c) m known unlike s = absurd (unlike refl)
  start_as-Advertised le_audio_offload p r h (a2dp_config c) m known unlike s = absurd (unlike refl)
  start_as-Advertised le_audio_offload p r h (le_audio_config c) m known unlike s =
      absurd (unlike refl)
  start_as-Advertised le_audio_offload p r h (le_audio_broadcast_config c) m known unlike s =
      absurd (unlike refl)

  -- What a provider accepts, the factory has advertised, but for the data interval of PCM: where a start of a provider of the class of
  -- its session type is accepted, and the type is none of the offloaded LE audio ones, some capability
  -- that the factory answers for that type, whatever calls came before, admits the configuration: for A2DP
  -- its codec with every parameter; for PCM its rate, bits and channel mode, while that capability
  -- lists no data interval, so that the interval is accepted without being advertised.
  pub start_session-Advertised :
      (p : Provider) (r : Registry) (host_if : Option ℕ) (c : AudioConfiguration)
      (modes : List LatencyMode)
      → class_of p.session_type ≡ some p.provider_class
      → class_tag p.provider_class ≢ le_audio_tag
      → (start_session allocate dupe p r host_if c modes).status ≡ succeeded
      → Advertised cache p.session_type c
  unfolding start_session
  start_session-Advertised p r host_if c modes known unlike s =
      start_as-Advertised p.provider_class p r host_if c modes known unlike s
