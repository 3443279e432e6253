-- ===== src/Provider/Invariant.antt =====
-- What holds of a provider of bluetooth/audio/hal, and that a start keeps it.
use device_blackshark_penros.Base.{
  Bool, List, Option, ap, arith, false, if◌then◌else◌, is_some, ltb, none, refl, some, subst, sym,
  true, ℕ, ◌&&◌, ◌∙◌, ◌≡◌,
}
use device_blackshark_penros.Codecs.Checks.{
  is_offload_codec_configuration_valid, is_offload_le_audio_configuration_valid,
  is_software_pcm_configuration_valid,
}
use device_blackshark_penros.Control.Sessions.{Registry}
use device_blackshark_penros.Provider.Core.{
  base_start_session, le_audio_data_mq_size, on_session_ready, start_as,
}
use device_blackshark_penros.Provider.Factory.{kept, needs_mq}
use device_blackshark_penros.Provider.Sessions.{class_of, class_tag}
use device_blackshark_penros.Provider.Types.{
  Provider, ProviderClass, a2dp_offload, a2dp_software, get_tag, hearing_aid, le_audio_offload,
  le_audio_software, mq_is_good, refuse,
}
use device_blackshark_penros.Session.Types.{
  AudioConfiguration, DataMq, LatencyMode, a2dp_config, le_audio_broadcast_config, le_audio_config,
  pcm_config,
}

-- The factory's class for the session type; the queue that the class opened is there and valid; the
-- stack's interface and the configuration come and go together; the configuration is of the class's
-- kind.
pub record IsProvider (p : Provider) : Type 0 where
  pub known : class_of p.session_type ≡ some p.provider_class
  pub queued : needs_mq p.provider_class ≡ true → mq_is_good p.data_mq ≡ true
  pub paired : is_some p.stack_iface ≡ is_some p.audio_config
  pub tagged :
      (c : AudioConfiguration) → p.audio_config ≡ some c → get_tag c ≡ class_tag p.provider_class

module _ (allocate : ℕ → DataMq) (dupe : DataMq → DataMq) where
  pub ready-provider :
      (p : Provider) (r : Registry) (c : AudioConfiguration)
      → (on_session_ready allocate dupe p r c).provider ≡ p
  unfolding on_session_ready
  ready-provider p r c = ground arith

  base-IsProvider :
      (k : ProviderClass) (mq : Option DataMq) (p : Provider) (r : Registry) (host_if : Option ℕ)
      (c : AudioConfiguration) (modes : List LatencyMode)
      → p.provider_class ≡ k
      → get_tag c ≡ class_tag k
      → (needs_mq k ≡ true → mq ≡ p.data_mq)
      → IsProvider p
      → IsProvider
          (base_start_session allocate dupe (record p { data_mq = mq }) r host_if c modes).provider
  unfolding base_start_session
  base-IsProvider k mq p r none c modes same tag kept v = record {
    known = v.known;
    queued = λ q. ap mq_is_good (kept (sym (ap needs_mq same) ∙ q)) ∙ v.queued q;
    paired = v.paired;
    tagged = v.tagged;
  }
  base-IsProvider k mq p r (some host) c modes same tag kept v =
      let p' = record p {
        data_mq = mq;
        latency_modes = modes;
        audio_config = some c;
        stack_iface = some host;
        is_binder_died = false;
      } in
      subst IsProvider (sym (ready-provider p' r c)) (record {
        known = v.known;
        queued = λ q. ap mq_is_good (kept (sym (ap needs_mq same) ∙ q)) ∙ v.queued q;
        paired = refl;
        tagged = λ c' e. ground arith;
      })

  checked-IsProvider :
      (valid : Bool) (k : ProviderClass) (mq : Option DataMq) (p : Provider) (r : Registry)
      (host_if : Option ℕ) (c : AudioConfiguration) (modes : List LatencyMode)
      → p.provider_class ≡ k
      → get_tag c ≡ class_tag k
      → (needs_mq k ≡ true → mq ≡ p.data_mq)
      → IsProvider p
      → IsProvider
          (if valid
            then base_start_session allocate dupe (record p { data_mq = mq }) r host_if c modes
            else refuse p r).provider
  checked-IsProvider true k mq p r host_if c modes same tag kept v =
      base-IsProvider k mq p r host_if c modes same tag kept v
  checked-IsProvider false k mq p r host_if c modes same tag kept v = v

  pub start_as-IsProvider :
      (k : ProviderClass) (p : Provider) (r : Registry) (host_if : Option ℕ)
      (c : AudioConfiguration) (modes : List LatencyMode)
      → p.provider_class ≡ k
      → IsProvider p
      → IsProvider (start_as allocate dupe k p r host_if c modes).provider
  unfolding start_as
  start_as-IsProvider a2dp_software p r h (pcm_config c) m same v =
      checked-IsProvider (is_software_pcm_configuration_valid c) a2dp_software p.data_mq p r h
        (pcm_config c) m same refl (λ q. refl) v
  start_as-IsProvider a2dp_software p r h (a2dp_config c) m same v = v
  start_as-IsProvider a2dp_software p r h (le_audio_config c) m same v = v
  start_as-IsProvider a2dp_software p r h (le_audio_broadcast_config c) m same v = v
  start_as-IsProvider hearing_aid p r h (pcm_config c) m same v =
      checked-IsProvider (is_software_pcm_configuration_valid c) hearing_aid p.data_mq p r h
        (pcm_config c) m same refl (λ q. refl) v
  start_as-IsProvider hearing_aid p r h (a2dp_config c) m same v = v
  start_as-IsProvider hearing_aid p r h (le_audio_config c) m same v = v
  start_as-IsProvider hearing_aid p r h (le_audio_broadcast_config c) m same v = v
  start_as-IsProvider le_audio_software p r h (pcm_config c) m same v =
      let size = le_audio_data_mq_size p.session_type c in
      let mq = allocate size in
      checked-IsProvider (is_software_pcm_configuration_valid c && ltb 0 size && mq.is_valid)
        le_audio_software (some mq) p r h (pcm_config c) m same refl (λ q. absurd (ground arith)) v
  start_as-IsProvider le_audio_software p r h (a2dp_config c) m same v = v
  start_as-IsProvider le_audio_software p r h (le_audio_config c) m same v = v
  start_as-IsProvider le_audio_software p r h (le_audio_broadcast_config c) m same v = v
  start_as-IsProvider a2dp_offload p r h (pcm_config c) m same v = v
  start_as-IsProvider a2dp_offload p r h (a2dp_config c) m same v =
      checked-IsProvider (is_offload_codec_configuration_valid p.session_type c) a2dp_offload
        p.data_mq p r h (a2dp_config c) m same refl (λ q. refl) v
  start_as-IsProvider a2dp_offload p r h (le_audio_config c) m same v = v
  start_as-IsProvider a2dp_offload p r h (le_audio_broadcast_config c) m same v = v
  start_as-IsProvider le_audio_offload p r h (pcm_config c) m same v = v
  start_as-IsProvider le_audio_offload p r h (a2dp_config c) m same v = v
  start_as-IsProvider le_audio_offload p r h (le_audio_config c) m same v =
      checked-IsProvider (is_offload_le_audio_configuration_valid p.session_type c) le_audio_offload
        p.data_mq p r h (le_audio_config c) m same refl (λ q. refl) v
  start_as-IsProvider le_audio_offload p r h (le_audio_broadcast_config c) m same v = v
