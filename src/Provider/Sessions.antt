-- ===== src/Provider/Sessions.antt =====
-- What starting and ending a provider of bluetooth/audio/hal does to its session.
use device_blackshark_penros.Session.Core
use device_blackshark_penros.Report
use device_blackshark_penros.Base.{
  Bool, List, Option, Option-cases, ap, arith, false, if◌then◌else◌, inl, inr, none, not, refl,
  some, true, ℕ, ◌&&◌, ◌||◌, ◌∙◌, ◌≡◌,
}
use device_blackshark_penros.Control.Laws.{session-with_session_self}
use device_blackshark_penros.Control.Sessions.{Registry, session}
use device_blackshark_penros.Provider.Core.{
  base_start_session, on_session_ready, on_session_ready_with_mq, on_session_ready_without_mq,
  report_with_mq,
}
use device_blackshark_penros.Provider.Types.{
  Provider, ProviderClass, Tag, a2dp_offload, a2dp_software, a2dp_tag, get_tag, hearing_aid,
  le_audio_offload, le_audio_software, le_audio_tag, mq_is_good, pcm_tag,
}
use device_blackshark_penros.Session.Core.{
  config_fits, is_offload, is_offload_a2dp_session, is_offload_le_audio_session, is_session_ready,
  is_software_session,
}
use device_blackshark_penros.Session.Lifecycle.{is_valid_mq, opens, ready-on_session_started}
use device_blackshark_penros.Session.Types.{
  AudioConfiguration, DataMq, LatencyMode, SessionType, a2dp_hardware_offload_decoding_datapath,
  a2dp_hardware_offload_encoding_datapath, a2dp_software_decoding_datapath,
  a2dp_software_encoding_datapath, hearing_aid_software_encoding_datapath,
  le_audio_broadcast_hardware_offload_encoding_datapath,
  le_audio_broadcast_software_encoding_datapath, le_audio_hardware_offload_decoding_datapath,
  le_audio_hardware_offload_encoding_datapath, le_audio_software_decoding_datapath,
  le_audio_software_encoding_datapath,
}

-- The class that the factory makes for a session type.
unfoldable pub class_of : SessionType → Option ProviderClass
class_of SessionType.unknown = none
class_of a2dp_software_encoding_datapath = some a2dp_software
class_of a2dp_software_decoding_datapath = some a2dp_software
class_of a2dp_hardware_offload_encoding_datapath = some a2dp_offload
class_of a2dp_hardware_offload_decoding_datapath = some a2dp_offload
class_of hearing_aid_software_encoding_datapath = some hearing_aid
class_of le_audio_software_encoding_datapath = some le_audio_software
class_of le_audio_software_decoding_datapath = some le_audio_software
class_of le_audio_broadcast_software_encoding_datapath = some le_audio_software
class_of le_audio_hardware_offload_encoding_datapath = some le_audio_offload
class_of le_audio_hardware_offload_decoding_datapath = some le_audio_offload
class_of le_audio_broadcast_hardware_offload_encoding_datapath = some le_audio_offload

abbrev pub class_tag : ProviderClass → Tag
class_tag a2dp_offload = a2dp_tag
class_tag le_audio_offload = le_audio_tag
class_tag _ = pcm_tag

abbrev pub has_queue : ProviderClass → Bool
has_queue a2dp_offload = false
has_queue le_audio_offload = false
has_queue _ = true

abbrev pub is_broadcast_offload : SessionType → Bool
is_broadcast_offload le_audio_broadcast_hardware_offload_encoding_datapath = true
is_broadcast_offload _ = false

pub fits-tag :
    (t : SessionType) (k : ProviderClass) (c : AudioConfiguration)
    → class_of t ≡ some k
    → get_tag c ≡ class_tag k
    → config_fits t c ≡ not (is_broadcast_offload t)
unfolding class_of config_fits is_software_session is_offload_a2dp_session
    is_offload_le_audio_session
fits-tag t k c h tag = ground arith

pub offload-class :
    (t : SessionType) (k : ProviderClass) → class_of t ≡ some k → is_offload t ≡ not (has_queue k)
unfolding class_of is_offload
offload-class t k h = ground arith

-- The laws of a descriptor: the queue that is opened from one of a valid queue is valid.
abbrev pub KeepsValid : (DataMq → DataMq) → Type 0
KeepsValid dupe = (mq : DataMq) → mq.is_valid ≡ true → (dupe mq).is_valid ≡ true

module _ (r : Registry) (t : SessionType) (host : ℕ) (c : AudioConfiguration)
    (modes : List LatencyMode) where
  pub session-reported :
      (desc : Option DataMq)
      → session (Report.on_session_started r t (some host) desc c modes).1 t
        ≡ (Core.on_session_started (session r t) (some host) desc c modes).0
  unfolding Report.on_session_started
  session-reported desc =
      session-with_session_self r t
        (λ s. let (s', told) = Core.on_session_started s (some host) desc c modes in (told, s'))

  pub ready-reported :
      (desc : Option DataMq)
      → (session r t).session_type ≡ t
      → is_session_ready (session (Report.on_session_started r t (some host) desc c modes).1 t) ≡ (
          if config_fits t c
          then opens desc && (is_offload t || is_valid_mq desc)
          else is_session_ready (session r t))
  ready-reported desc typed =
      ap is_session_ready (session-reported desc)
      ∙ ready-on_session_started (session r t) (some host) desc c modes
      ∙ ap
          (λ (u : SessionType).
            if config_fits u c
            then opens desc && (is_offload u || is_valid_mq desc)
            else is_session_ready (session r t))
          typed

-- The two `onSessionReady`, on a session of the provider's type.
module _ (dupe : DataMq → DataMq) (keeps : KeepsValid dupe) (p : Provider) (r : Registry) (host : ℕ)
    (c : AudioConfiguration) (known : class_of p.session_type ≡ some p.provider_class)
    (typed : (session r p.session_type).session_type ≡ p.session_type)
    (tag : get_tag c ≡ class_tag p.provider_class) (hosted : p.stack_iface ≡ some host) where
  abbrev ready_or_kept : Bool
  ready_or_kept =
      if is_broadcast_offload p.session_type
      then is_session_ready (session r p.session_type)
      else true

  report_with_mq-ready :
      (allocate : ℕ → DataMq) (mq : DataMq)
      → has_queue p.provider_class ≡ true
      → mq.is_valid ≡ true
      → let o = report_with_mq allocate dupe p r c mq in
        is_session_ready (session o.registry p.session_type) ≡ ready_or_kept
  unfolding report_with_mq
  report_with_mq-ready allocate mq q valid =
      let opened = keeps mq valid in
      rw hosted (
        ready-reported r p.session_type host c p.latency_modes (some (dupe mq)) typed
        ∙ ground (arith, fits-tag p.session_type p.provider_class c known tag))

  with_mq-ready :
      (allocate : ℕ → DataMq)
      → has_queue p.provider_class ≡ true
      → mq_is_good p.data_mq ≡ true
      → let o = on_session_ready_with_mq allocate dupe p r c in
        is_session_ready (session o.registry p.session_type) ≡ ready_or_kept
  unfolding on_session_ready_with_mq
  with_mq-ready allocate q good = elim (Option-cases p.data_mq) [
    | inl e ↦ absurd (ground arith)
    | inr (mq, e) ↦ ground (arith, report_with_mq-ready allocate mq)
  ]

  without_mq-ready :
      (allocate : ℕ → DataMq)
      → has_queue p.provider_class ≡ false
      → let o = on_session_ready_without_mq allocate dupe p r c in
        is_session_ready (session o.registry p.session_type) ≡ ready_or_kept
  unfolding on_session_ready_without_mq
  without_mq-ready allocate q = rw hosted (
      ready-reported r p.session_type host c p.latency_modes none typed
      ∙ ground (
        arith,
        fits-tag p.session_type p.provider_class c known tag,
        offload-class p.session_type p.provider_class known,
      ))

  on_session_ready-ready :
      (allocate : ℕ → DataMq)
      → (has_queue p.provider_class ≡ true → mq_is_good p.data_mq ≡ true)
      → let o = on_session_ready allocate dupe p r c in
        is_session_ready (session o.registry p.session_type) ≡ ready_or_kept
  unfolding on_session_ready
  on_session_ready-ready allocate queued =
      ground (arith, with_mq-ready allocate, without_mq-ready allocate)

module _ (allocate : ℕ → DataMq) (dupe : DataMq → DataMq) (keeps : KeepsValid dupe) where
  pub base-ready :
      (p : Provider) (r : Registry) (host : ℕ) (c : AudioConfiguration) (modes : List LatencyMode)
      → class_of p.session_type ≡ some p.provider_class
      → (session r p.session_type).session_type ≡ p.session_type
      → get_tag c ≡ class_tag p.provider_class
      → (has_queue p.provider_class ≡ true → mq_is_good p.data_mq ≡ true)
      → is_session_ready (
          session
            (base_start_session allocate dupe p r (some host) c modes).registry
            p.session_type)
        ≡ (if is_broadcast_offload p.session_type
            then is_session_ready (session r p.session_type)
            else true)
  unfolding base_start_session
  base-ready p r host c modes known typed tag queued =
      let p' = record p {
        latency_modes = modes;
        audio_config = some c;
        stack_iface = some host;
        is_binder_died = false;
      } in
      on_session_ready-ready dupe keeps p' r host c known typed tag refl allocate queued
