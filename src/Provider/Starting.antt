-- ===== src/Provider/Starting.antt =====
-- When `startSession` of a provider of bluetooth/audio/hal is accepted.
use device_blackshark_penros.Base.{
  Bool, List, Option, ap, arith, false, if◌then◌else◌, is_some, ltb, none, refl, some, true, ℕ,
  ◌&&◌, ◌∙◌, ◌≡◌,
}
use device_blackshark_penros.Codecs.Checks.{
  is_offload_codec_configuration_valid, is_offload_le_audio_configuration_valid,
  is_software_pcm_configuration_valid,
}
use device_blackshark_penros.Control.Sessions.{Registry, session}
use device_blackshark_penros.Provider.Core.{
  base_start_session, le_audio_data_mq_size, start_as, start_session,
}
use device_blackshark_penros.Provider.Factory.{needs_mq}
use device_blackshark_penros.Provider.Sessions.{
  KeepsValid, base-ready, class_of, class_tag, has_queue, is_broadcast_offload,
}
use device_blackshark_penros.Provider.Types.{
  Outcome, Provider, ProviderClass, a2dp_offload, a2dp_software, get_tag, hearing_aid,
  illegal_argument, le_audio_offload, le_audio_software, mq_is_good, refuse, succeeded,
}
use device_blackshark_penros.Session.Core.{is_session_ready}
use device_blackshark_penros.Session.Types.{
  AudioConfiguration, DataMq, LatencyMode, a2dp_config, le_audio_broadcast_config, le_audio_config,
  pcm_config,
}

refused : {A : Type 0} → illegal_argument ≡ succeeded → A
refused h = absurd (ground arith)

module _ (allocate : ℕ → DataMq) (dupe : DataMq → DataMq) where
  -- An outcome that is that of the base class, for the stack's interface and a queue that is valid
  -- where the class needs one.
  pub record Accepted (k : ProviderClass) (p : Provider) (r : Registry) (host_if : Option ℕ)
      (c : AudioConfiguration) (modes : List LatencyMode) (o : Outcome) : Type 0 where
    pub mq : Option DataMq
    pub host : ℕ
    pub has_host : host_if ≡ some host
    pub good : has_queue k ≡ true → mq_is_good mq ≡ true
    pub tag : get_tag c ≡ class_tag k
    pub as_base :
        o ≡ base_start_session allocate dupe (record p { data_mq = mq }) r (some host) c modes

  base-Accepted :
      (k : ProviderClass) (mq : Option DataMq) (p : Provider) (r : Registry) (host_if : Option ℕ)
      (c : AudioConfiguration) (modes : List LatencyMode)
      → get_tag c ≡ class_tag k
      → (has_queue k ≡ true → mq_is_good mq ≡ true)
      → let o = base_start_session allocate dupe (record p { data_mq = mq }) r host_if c modes in
        o.status ≡ succeeded → Accepted k p r host_if c modes o
  unfolding base_start_session
  base-Accepted k mq p r none c modes tag good s = refused s
  base-Accepted k mq p r (some host) c modes tag good s = record {
    mq = mq;
    host = host;
    has_host = refl;
    good = good;
    tag = tag;
    as_base = refl;
  }

  checked-Accepted :
      (valid : Bool) (k : ProviderClass) (mq : Option DataMq) (p : Provider) (r : Registry)
      (host_if : Option ℕ) (c : AudioConfiguration) (modes : List LatencyMode)
      → get_tag c ≡ class_tag k
      → (has_queue k ≡ true → valid ≡ true → mq_is_good mq ≡ true)
      → let o =
          if valid
          then base_start_session allocate dupe (record p { data_mq = mq }) r host_if c modes
          else refuse p r in
        o.status ≡ succeeded → Accepted k p r host_if c modes o
  checked-Accepted true k mq p r host_if c modes tag good s =
      base-Accepted k mq p r host_if c modes tag (λ q. good q refl) s
  checked-Accepted false k mq p r host_if c modes tag good s = refused s

  pub start_as-Accepted :
      (k : ProviderClass) (p : Provider) (r : Registry) (host_if : Option ℕ)
      (c : AudioConfiguration) (modes : List LatencyMode)
      → (needs_mq k ≡ true → mq_is_good p.data_mq ≡ true)
      → let o = start_as allocate dupe k p r host_if c modes in
        o.status ≡ succeeded → Accepted k p r host_if c modes o
  unfolding start_as
  start_as-Accepted a2dp_software p r h (pcm_config c) m queued s =
      checked-Accepted (is_software_pcm_configuration_valid c) a2dp_software p.data_mq p r h
        (pcm_config c) m refl (λ q v. queued refl) s
  start_as-Accepted a2dp_software p r h (a2dp_config c) m queued s = refused s
  start_as-Accepted a2dp_software p r h (le_audio_config c) m queued s = refused s
  start_as-Accepted a2dp_software p r h (le_audio_broadcast_config c) m queued s = refused s
  start_as-Accepted hearing_aid p r h (pcm_config c) m queued s =
      checked-Accepted (is_software_pcm_configuration_valid c) hearing_aid p.data_mq p r h
        (pcm_config c) m refl (λ q v. queued refl) s
  start_as-Accepted hearing_aid p r h (a2dp_config c) m queued s = refused s
  start_as-Accepted hearing_aid p r h (le_audio_config c) m queued s = refused s
  start_as-Accepted hearing_aid p r h (le_audio_broadcast_config c) m queued s = refused s
  start_as-Accepted le_audio_software p r h (pcm_config c) m queued s =
      let size = le_audio_data_mq_size p.session_type c in
      let mq = allocate size in
      checked-Accepted (is_software_pcm_configuration_valid c && ltb 0 size && mq.is_valid)
        le_audio_software (some mq) p r h (pcm_config c) m refl (λ q v. ground arith) s
  start_as-Accepted le_audio_software p r h (a2dp_config c) m queued s = refused s
  start_as-Accepted le_audio_software p r h (le_audio_config c) m queued s = refused s
  start_as-Accepted le_audio_software p r h (le_audio_broadcast_config c) m queued s = refused s
  start_as-Accepted a2dp_offload p r h (pcm_config c) m queued s = refused s
  start_as-Accepted a2dp_offload p r h (a2dp_config c) m queued s =
      checked-Accepted (is_offload_codec_configuration_valid p.session_type c) a2dp_offload
        p.data_mq p r h (a2dp_config c) m refl (λ q v. absurd (ground arith)) s
  start_as-Accepted a2dp_offload p r h (le_audio_config c) m queued s = refused s
  start_as-Accepted a2dp_offload p r h (le_audio_broadcast_config c) m queued s = refused s
  start_as-Accepted le_audio_offload p r h (pcm_config c) m queued s = refused s
  start_as-Accepted le_audio_offload p r h (a2dp_config c) m queued s = refused s
  start_as-Accepted le_audio_offload p r h (le_audio_config c) m queued s =
      checked-Accepted (is_offload_le_audio_configuration_valid p.session_type c) le_audio_offload
        p.data_mq p r h (le_audio_config c) m refl (λ q v. absurd (ground arith)) s
  start_as-Accepted le_audio_offload p r h (le_audio_broadcast_config c) m queued s = refused s

module _ (allocate : ℕ → DataMq) (dupe : DataMq → DataMq) (keeps : KeepsValid dupe) where
  -- For a provider of the class of its session type, with a valid queue where its class opens one at
  -- its construction, where the session found by that type is of that type, and where a reader of a
  -- valid queue opens a valid one: a start that is accepted
  -- was given the stack's interface. It makes the session of the provider's type ready, except where
  -- that is the offloaded broadcast: then the session is as ready as before, though the start reports
  -- success.
  pub start_session-ready :
      (p : Provider) (r : Registry) (host_if : Option ℕ) (c : AudioConfiguration)
      (modes : List LatencyMode)
      → class_of p.session_type ≡ some p.provider_class
      → (needs_mq p.provider_class ≡ true → mq_is_good p.data_mq ≡ true)
      → (session r p.session_type).session_type ≡ p.session_type
      → let o = start_session allocate dupe p r host_if c modes in
        o.status ≡ succeeded
        → (is_some host_if ≡ true)
          × (is_session_ready (session o.registry p.session_type) ≡ (
              if is_broadcast_offload p.session_type
              then is_session_ready (session r p.session_type)
              else true))
  unfolding start_session
  start_session-ready p r host_if c modes known queued typed s =
      let k = p.provider_class in
      let a = start_as-Accepted allocate dupe k p r host_if c modes queued s in
      (
        ap is_some a.has_host,
        ap (λ (o : Outcome). is_session_ready (session o.registry p.session_type)) a.as_base
            ∙ base-ready allocate dupe keeps (record p { data_mq = a.mq }) r a.host c modes known
                typed a.tag a.good,
      )
