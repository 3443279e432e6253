-- ===== src/Codecs/Advertised.antt =====
-- The checks of BluetoothAudioCodecs.cpp against the list that the provider factory advertises.
use native.Mathlib.Decide.{ℕ_discrete}
use device_blackshark_penros.Base.{
  Bool-cases, List, [], ap, arith, if◌then◌else◌, inl, inr, map, refl, subst, sym, true, ◌&&◌, ◌↔◌,
  ◌∙◌, ◌≡◌,
}
use device_blackshark_penros.Codecs.Admission.{Admits, IsIn, contained-IsIn, never, next-IsIn, ◌⊓◌}
use device_blackshark_penros.Codecs.Admitted.{check_codec-Admits, filled}
use device_blackshark_penros.Codecs.Capabilities.{
  CodecCapabilities, default_offload_a2dp_codec_capabilities, fill_in,
  get_a2dp_offload_codec_capabilities,
}
use device_blackshark_penros.Codecs.Checks.{
  check_codec, is_offload_codec_configuration_valid, is_software_pcm_configuration_valid,
}
use device_blackshark_penros.Codecs.Tables.{default_software_pcm_capabilities}
use device_blackshark_penros.Session.Codec.{
  ChannelMode-discrete, CodecConfiguration, CodecSpecific, CodecType, aac, aptx, aptx_adaptive,
  aptx_hd, lc3, ldac, opus, sbc, vendor,
}
use device_blackshark_penros.Session.Core.{is_offload_a2dp_session}
use device_blackshark_penros.Session.Types.{PcmConfiguration, SessionType}

abbrev the_list : List CodecCapabilities
the_list = map fill_in default_offload_a2dp_codec_capabilities

filled-codec_type : (t : CodecType) → (filled t).codec_type ≡ t
unfolding fill_in
filled-codec_type t = ground arith

filled-IsIn :
    (t : CodecType) (s : CodecSpecific)
    → Admits (filled t).capabilities s
    → IsIn (filled t) the_list
unfolding fill_in
filled-IsIn sbc s h = inl refl
filled-IsIn aac s h = inr (inl refl)
filled-IsIn ldac s h = inr (inr (inl refl))
filled-IsIn aptx s h = inr (inr (inr (inl refl)))
filled-IsIn aptx_hd s h = inr (inr (inr (inr (inl refl))))
filled-IsIn opus s h = inr (inr (inr (inr (inr (inl refl)))))
filled-IsIn CodecType.unknown s h = absurd h
filled-IsIn lc3 s h = absurd h
filled-IsIn vendor s h = absurd h
filled-IsIn aptx_adaptive s h = absurd h

is-filled : (t : CodecType) (k : CodecCapabilities) → filled t ≡ k → k ≡ filled k.codec_type
is-filled t k e =
    subst (λ (v : CodecCapabilities). v ≡ filled v.codec_type) e
      (ap filled (sym (filled-codec_type t)))

advertised-filled : (k : CodecCapabilities) → IsIn k the_list → k ≡ filled k.codec_type
advertised-filled k (inl e) = is-filled sbc k e
advertised-filled k (inr (inl e)) = is-filled aac k e
advertised-filled k (inr (inr (inl e))) = is-filled ldac k e
advertised-filled k (inr (inr (inr (inl e)))) = is-filled aptx k e
advertised-filled k (inr (inr (inr (inr (inl e))))) = is-filled aptx_hd k e
advertised-filled k (inr (inr (inr (inr (inr (inl e)))))) = is-filled opus k e
advertised-filled k (inr (inr (inr (inr (inr (inr h)))))) = absurd h

-- A capability that a session type advertises for the codec of a configuration, and that admits it.
pub record Covers (t : SessionType) (c : CodecConfiguration) : Type 0 where
  pub capability : CodecCapabilities
  pub advertised : IsIn capability (get_a2dp_offload_codec_capabilities t)
  pub same_codec : capability.codec_type ≡ c.codec_type
  pub admitted : Admits capability.capabilities c.config

-- The check of an offloaded A2DP configuration accepts exactly the configurations that some
-- capability of the list that is advertised for the session type admits, for the same codec; for a
-- session type that is not an offloaded A2DP one the list is empty, and the check accepts nothing.
pub is_offload_codec_configuration_valid-Covers :
    (t : SessionType) (c : CodecConfiguration)
    → (is_offload_codec_configuration_valid t c ≡ true) ↔ Covers t c
unfolding is_offload_codec_configuration_valid get_a2dp_offload_codec_capabilities
is_offload_codec_configuration_valid-Covers t c = elim (Bool-cases (is_offload_a2dp_session t)) [
  | inr e ↦ (
    λ h. never (sym (ap (λ b. b && check_codec c.codec_type c.config) e) ∙ h),
    λ v. absurd (subst (λ b. IsIn v.capability (if b then the_list else [])) e v.advertised),
  )
  | inl e ↦ (
    λ h.
        let checked = sym (ap (λ b. b && check_codec c.codec_type c.config) e) ∙ h in
        let admits = (check_codec-Admits c.codec_type c.config).0 checked in
        record {
          capability = filled c.codec_type;
          advertised = rw e (filled-IsIn c.codec_type c.config admits);
          same_codec = filled-codec_type c.codec_type;
          admitted = admits;
        },
    λ v.
        let listed = subst (λ b. IsIn v.capability (if b then the_list else [])) e v.advertised in
        let known = advertised-filled v.capability listed ∙ ap filled v.same_codec in
        let admits =
          subst (λ (k : CodecCapabilities). Admits k.capabilities c.config) known v.admitted in
        rw e ((check_codec-Admits c.codec_type c.config).1 admits),
  )
]

-- The check of a PCM configuration accepts exactly the configurations with one of the seven rates of
-- the table, 16, 24 or 32 bits, and a known channel mode, whatever the data interval is.
pub is_software_pcm_configuration_valid_lem :
    (c : PcmConfiguration)
    → (is_software_pcm_configuration_valid c ≡ true) ↔ (
        IsIn c.sample_rate_hz default_software_pcm_capabilities.sample_rate_hz
        ⊓ IsIn c.bits_per_sample default_software_pcm_capabilities.bits_per_sample
        ⊓ IsIn c.channel_mode default_software_pcm_capabilities.channel_mode)
unfolding is_software_pcm_configuration_valid
is_software_pcm_configuration_valid_lem c =
    let k = default_software_pcm_capabilities in
    let rate = contained-IsIn ℕ_discrete k.sample_rate_hz c.sample_rate_hz in
    let bits = next-IsIn ℕ_discrete k.bits_per_sample c.bits_per_sample rate in
    next-IsIn ChannelMode-discrete k.channel_mode c.channel_mode bits
