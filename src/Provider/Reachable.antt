-- ===== src/Provider/Reachable.antt =====
-- The providers of bluetooth/audio/hal that calls of the stack reach.
use device_blackshark_penros.Base.{
  Bool, Bool-cases, List, Option, Option-cases, [], arith, if◌then◌else◌, inl, inr, is_some, none,
  refl, some, subst, sym, true, ℕ, ◌∷◌, ◌≡◌, ◌⊎◌,
}
use device_blackshark_penros.Control.Sessions.{Registry}
use device_blackshark_penros.Provider.Calls.{
  binder_died_callback_aidl, end_session, set_low_latency_mode_allowed, stream_result,
  update_audio_configuration,
}
use device_blackshark_penros.Provider.Core.{start_session}
use device_blackshark_penros.Provider.Factory.{fresh, is_valid_provider, kept, open_provider}
use device_blackshark_penros.Provider.Invariant.{IsProvider, start_as-IsProvider}
use device_blackshark_penros.Provider.Sessions.{class_of}
use device_blackshark_penros.Provider.Types.{
  Outcome, Provider, ProviderClass, Tag-discrete, a2dp_data_mq_size, a2dp_offload, a2dp_software,
  get_tag, hearing_aid, hearing_aid_data_mq_size, le_audio_offload, le_audio_software,
}
use device_blackshark_penros.Session.Types.{
  AudioConfiguration, BluetoothAudioStatus, DataMq, LatencyMode, SessionType,
  a2dp_hardware_offload_decoding_datapath, a2dp_hardware_offload_encoding_datapath,
  a2dp_software_decoding_datapath, a2dp_software_encoding_datapath,
  hearing_aid_software_encoding_datapath, le_audio_broadcast_hardware_offload_encoding_datapath,
  le_audio_broadcast_software_encoding_datapath, le_audio_hardware_offload_decoding_datapath,
  le_audio_hardware_offload_encoding_datapath, le_audio_software_decoding_datapath,
  le_audio_software_encoding_datapath,
}

-- The calls of the stack, and the death of its process.
pub data ProviderCall : Type 0 where
  starts_session : Option ℕ → AudioConfiguration → List LatencyMode → ProviderCall
  ends_session : ProviderCall
  dies : ProviderCall
  reports : Bool → BluetoothAudioStatus → ProviderCall
  updates : AudioConfiguration → ProviderCall
  allows : Bool → ProviderCall

module _ (allocate : ℕ → DataMq) (dupe : DataMq → DataMq) where
  unfoldable pub call : Provider → Registry → ProviderCall → Outcome
  call p r (starts_session host_if c modes) = start_session allocate dupe p r host_if c modes
  call p r ends_session = end_session p r
  call p r dies = binder_died_callback_aidl p r
  call p r (reports start_resp status) = stream_result p r start_resp status
  call p r (updates c) = update_audio_configuration p r c
  call p r (allows allowed) = set_low_latency_mode_allowed p r allowed

  -- The provider after the calls.
  unfoldable pub run_calls : Provider → Registry → List ProviderCall → Provider
  unfolding call
  run_calls p r [] = p
  run_calls p r (c ∷ cs) = let o = call p r c in run_calls o.provider o.registry cs

  ended-IsProvider :
      (p : Provider) (died : Bool)
      → IsProvider p
      → IsProvider (record p { stack_iface = none; audio_config = none; is_binder_died = died })
  ended-IsProvider p died v = record {
    known = v.known;
    queued = v.queued;
    paired = refl;
    tagged = λ c e. absurd (ground arith);
  }

  ended-provider :
      (p : Provider) (r : Registry)
      → (end_session p r).provider ≡ record p { stack_iface = none; audio_config = none }
  unfolding end_session
  ended-provider p r = ground arith

  reported-provider :
      (p : Provider) (r : Registry) (start_resp : Bool) (status : BluetoothAudioStatus)
      → (stream_result p r start_resp status).provider ≡ p
  unfolding stream_result
  reported-provider p r start_resp status = ground arith

  allowed-provider :
      (p : Provider) (r : Registry) (allowed : Bool)
      → (set_low_latency_mode_allowed p r allowed).provider ≡ p
  unfolding set_low_latency_mode_allowed
  allowed-provider p r allowed = ground arith

  -- The provider after an update: as before, or with a configuration that has the tag of its own.
  updated-provider :
      (p : Provider) (r : Registry) (c : AudioConfiguration)
      → ((update_audio_configuration p r c).provider ≡ p)
        ⊎ (((update_audio_configuration p r c).provider ≡ record p { audio_config = some c })
            × (is_some p.stack_iface ≡ true)
            × ((d : AudioConfiguration) × (p.audio_config ≡ some d) × (get_tag c ≡ get_tag d)))
  unfolding update_audio_configuration
  updated-provider p r c = elim (Option-cases p.audio_config) [
    | inl e ↦ inl (ground arith)
    | inr (d, e) ↦ elim (Tag-discrete (get_tag c) (get_tag d)) [
      | no n ↦ inl (ground arith)
      | yes t ↦ elim (Bool-cases (is_some p.stack_iface)) [
        | inl up ↦ inr (ground arith, up, (d, e, t))
        | inr down ↦ inl (ground arith)
      ]
    ]
  ]

  updated-IsProvider :
      (p : Provider) (r : Registry) (c : AudioConfiguration)
      → IsProvider p
      → IsProvider (update_audio_configuration p r c).provider
  updated-IsProvider p r c v = elim (updated-provider p r c) [
    | inl e ↦ subst IsProvider (sym e) v
    | inr (e, up, (d, current, tag)) ↦ subst IsProvider (sym e) (record {
      known = v.known;
      queued = v.queued;
      paired = up;
      tagged = λ c' same. ground (arith, v.tagged d current);
    })
  ]

  call-IsProvider :
      (p : Provider) (r : Registry) (c : ProviderCall)
      → IsProvider p
      → IsProvider (call p r c).provider
  unfolding call start_session binder_died_callback_aidl
  call-IsProvider p r (starts_session host_if c modes) v =
      start_as-IsProvider allocate dupe p.provider_class p r host_if c modes refl v
  call-IsProvider p r ends_session v =
      subst IsProvider (sym (ended-provider p r)) (ended-IsProvider p p.is_binder_died v)
  call-IsProvider p r dies v =
      subst IsProvider (sym (ended-provider (record p { is_binder_died = true }) r))
        (ended-IsProvider p true v)
  call-IsProvider p r (reports start_resp status) v =
      subst IsProvider (sym (reported-provider p r start_resp status)) v
  call-IsProvider p r (updates c) v = updated-IsProvider p r c v
  call-IsProvider p r (allows allowed) v = subst IsProvider (sym (allowed-provider p r allowed)) v

  run_calls-IsProvider :
      (p : Provider) (r : Registry) (cs : List ProviderCall)
      → IsProvider p
      → IsProvider (run_calls p r cs)
  unfolding run_calls
  run_calls-IsProvider p r [] v = v
  run_calls-IsProvider p r (c ∷ cs) v =
      let o = call p r c in run_calls-IsProvider o.provider o.registry cs (call-IsProvider p r c v)

  opened-IsProvider :
      (k : ProviderClass) (t : SessionType) (mq : Option DataMq) (p : Provider)
      → class_of t ≡ some k
      → (if is_valid_provider (fresh k t mq) t then some (fresh k t mq) else none) ≡ some p
      → IsProvider p
  unfolding is_valid_provider
  opened-IsProvider k t mq p known e =
      let valid : is_valid_provider (fresh k t mq) t ≡ true = ground arith in
      let same : fresh k t mq ≡ p = ground arith in
      subst IsProvider same (record {
        known = known;
        queued = λ q. ground arith;
        paired = refl;
        tagged = λ c e. absurd (ground arith);
      })

  pub open_provider-IsProvider :
      (t : SessionType) (p : Provider) → open_provider allocate t ≡ some p → IsProvider p
  unfolding open_provider class_of
  open_provider-IsProvider SessionType.unknown p e = absurd (ground arith)
  open_provider-IsProvider a2dp_software_encoding_datapath p e =
      opened-IsProvider a2dp_software a2dp_software_encoding_datapath
        (kept (allocate a2dp_data_mq_size)) p refl e
  open_provider-IsProvider a2dp_software_decoding_datapath p e =
      opened-IsProvider a2dp_software a2dp_software_decoding_datapath
        (kept (allocate a2dp_data_mq_size)) p refl e
  open_provider-IsProvider a2dp_hardware_offload_encoding_datapath p e =
      opened-IsProvider a2dp_offload a2dp_hardware_offload_encoding_datapath none p refl e
  open_provider-IsProvider a2dp_hardware_offload_decoding_datapath p e =
      opened-IsProvider a2dp_offload a2dp_hardware_offload_decoding_datapath none p refl e
  open_provider-IsProvider hearing_aid_software_encoding_datapath p e =
      opened-IsProvider hearing_aid hearing_aid_software_encoding_datapath
        (kept (allocate hearing_aid_data_mq_size)) p refl e
  open_provider-IsProvider le_audio_software_encoding_datapath p e =
      opened-IsProvider le_audio_software le_audio_software_encoding_datapath none p refl e
  open_provider-IsProvider le_audio_software_decoding_datapath p e =
      opened-IsProvider le_audio_software le_audio_software_decoding_datapath none p refl e
  open_provider-IsProvider le_audio_broadcast_software_encoding_datapath p e =
      opened-IsProvider le_audio_software le_audio_broadcast_software_encoding_datapath none p refl
        e
  open_provider-IsProvider le_audio_hardware_offload_encoding_datapath p e =
      opened-IsProvider le_audio_offload le_audio_hardware_offload_encoding_datapath none p refl e
  open_provider-IsProvider le_audio_hardware_offload_decoding_datapath p e =
      opened-IsProvider le_audio_offload le_audio_hardware_offload_decoding_datapath none p refl e
  open_provider-IsProvider le_audio_broadcast_hardware_offload_encoding_datapath p e =
      opened-IsProvider le_audio_offload le_audio_broadcast_hardware_offload_encoding_datapath none
        p refl e

  -- A provider that the factory opens is, after any calls of the stack and deaths of its process, of
  -- the class that the factory makes for its session type; a queue that its class opened is there and
  -- valid; it has a configuration exactly where it has the stack's interface; and the configuration
  -- is of the kind of its class.
  pub run_calls-open_provider-IsProvider :
      (t : SessionType) (p : Provider) (r : Registry) (cs : List ProviderCall)
      → open_provider allocate t ≡ some p
      → IsProvider (run_calls p r cs)
  run_calls-open_provider-IsProvider t p r cs e =
      run_calls-IsProvider p r cs (open_provider-IsProvider t p e)
