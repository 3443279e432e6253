-- ===== src/Provider/Core.antt =====
-- How a provider starts a session: BluetoothAudioProvider.cpp and the overrides of its classes.
-- `allocate` is the queue that `new DataMQ(size, true)` makes, and `dupe` the one that a reader opens
-- from the descriptor of a queue. The links to the death of the stack's binder are left out.
use device_blackshark_penros.Report
use device_blackshark_penros.Base.{
  List, Option, false, if◌then◌else◌, ltb, none, some, ℕ, ◌&&◌, ◌*◌, ◌/◌, ◌==◌,
}
use device_blackshark_penros.Codecs.Checks.{
  is_offload_codec_configuration_valid, is_offload_le_audio_configuration_valid,
  is_software_pcm_configuration_valid,
}
use device_blackshark_penros.Control.Sessions.{Registry}
use device_blackshark_penros.Provider.Types.{
  Outcome, Provider, ProviderClass, a2dp_offload, a2dp_software, buffer_in_count, buffer_out_count,
  hearing_aid, le_audio_offload, le_audio_software, refuse, succeeded,
}
use device_blackshark_penros.Session.Codec.{ChannelMode}
use device_blackshark_penros.Session.Types.{
  AudioConfiguration, DataMq, LatencyMode, PcmConfiguration, SessionType, a2dp_config,
  le_audio_broadcast_software_encoding_datapath, le_audio_config,
  le_audio_software_decoding_datapath, le_audio_software_encoding_datapath, pcm_config,
}

unfoldable pub channel_mode_to_channel_count : ChannelMode → ℕ
channel_mode_to_channel_count ChannelMode.mono = 1
channel_mode_to_channel_count ChannelMode.stereo = 2
channel_mode_to_channel_count ChannelMode.unknown = 0

unfoldable pub buffer_modifier : SessionType → ℕ
buffer_modifier le_audio_software_encoding_datapath = buffer_out_count
buffer_modifier le_audio_broadcast_software_encoding_datapath = buffer_out_count
buffer_modifier le_audio_software_decoding_datapath = buffer_in_count
buffer_modifier _ = 0

abbrev pub bytes_per_sample : ℕ → ℕ
bytes_per_sample bits = if bits == 24 then 4 else bits / 8

-- The size of the queue for LE audio. The source computes it in doubles; of the rates that the check
-- lets pass, each thousandth is a whole number, or a multiple of one tenth, of which the product with
-- the whole interval rounds to what it is exactly. With those rates, two channels of 32 bits at most
-- and an interval of 31 bits it stays below 2^32, so that the `uint32_t` does not wrap.
unfoldable pub le_audio_data_mq_size : SessionType → PcmConfiguration → ℕ
unfolding channel_mode_to_channel_count buffer_modifier
le_audio_data_mq_size t c =
    c.sample_rate_hz
    * channel_mode_to_channel_count c.channel_mode
    * bytes_per_sample c.bits_per_sample
    * (c.data_interval_us / 1000)
    * buffer_modifier t
    / 1000

module _ (allocate : ℕ → DataMq) (dupe : DataMq → DataMq) where
  -- The report of a provider with a valid queue. `config` is the provider's.
  unfoldable pub report_with_mq : Provider → Registry → AudioConfiguration → DataMq → Outcome
  report_with_mq p r config mq =
      let (told, r') =
        Report.on_session_started r p.session_type p.stack_iface (some (dupe mq)) config
          p.latency_modes in
      record { status = succeeded; desc = some (dupe mq); provider = p; registry = r'; told = told }

  -- `onSessionReady` of the classes with a queue, and of those without one.
  unfoldable pub on_session_ready_with_mq : Provider → Registry → AudioConfiguration → Outcome
  unfolding report_with_mq
  on_session_ready_with_mq p r config = elim p.data_mq [
    | none ↦ refuse p r
    | some mq ↦ if mq.is_valid then report_with_mq p r config mq else refuse p r
  ]

  unfoldable pub on_session_ready_without_mq : Provider → Registry → AudioConfiguration → Outcome
  on_session_ready_without_mq p r config =
      let (told, r') =
        Report.on_session_started r p.session_type p.stack_iface none config p.latency_modes in
      record { status = succeeded; desc = none; provider = p; registry = r'; told = told }

  unfoldable pub on_session_ready : Provider → Registry → AudioConfiguration → Outcome
  unfolding on_session_ready_with_mq on_session_ready_without_mq
  on_session_ready p r config = elim p.provider_class [
    | a2dp_offload ↦ on_session_ready_without_mq p r config
    | le_audio_offload ↦ on_session_ready_without_mq p r config
    | _ ↦ on_session_ready_with_mq p r config
  ]

  -- `BluetoothAudioProvider::startSession`, which drops the status of `onSessionReady`.
  unfoldable pub base_start_session :
      Provider → Registry → Option ℕ → AudioConfiguration → List LatencyMode → Outcome
  unfolding on_session_ready
  base_start_session p r none config modes = refuse p r
  base_start_session p r (some host_if) config modes =
      let p' = record p {
        latency_modes = modes;
        audio_config = some config;
        stack_iface = some host_if;
        is_binder_died = false;
      } in
      record (on_session_ready p' r config) { status = succeeded }

  unfoldable pub a2dp_software_start_session :
      Provider → Registry → Option ℕ → AudioConfiguration → List LatencyMode → Outcome
  unfolding base_start_session
  a2dp_software_start_session p r host_if (pcm_config c) modes =
      if is_software_pcm_configuration_valid c
      then base_start_session p r host_if (pcm_config c) modes
      else refuse p r
  a2dp_software_start_session p r host_if config modes = refuse p r

  unfoldable pub hearing_aid_start_session :
      Provider → Registry → Option ℕ → AudioConfiguration → List LatencyMode → Outcome
  unfolding base_start_session
  hearing_aid_start_session p r host_if (pcm_config c) modes =
      if is_software_pcm_configuration_valid c
      then base_start_session p r host_if (pcm_config c) modes
      else refuse p r
  hearing_aid_start_session p r host_if config modes = refuse p r

  unfoldable pub a2dp_offload_start_session :
      Provider → Registry → Option ℕ → AudioConfiguration → List LatencyMode → Outcome
  unfolding base_start_session
  a2dp_offload_start_session p r host_if (a2dp_config c) modes =
      if is_offload_codec_configuration_valid p.session_type c
      then base_start_session p r host_if (a2dp_config c) modes
      else refuse p r
  a2dp_offload_start_session p r host_if config modes = refuse p r

  unfoldable pub le_audio_offload_start_session :
      Provider → Registry → Option ℕ → AudioConfiguration → List LatencyMode → Outcome
  unfolding base_start_session
  le_audio_offload_start_session p r host_if (le_audio_config c) modes =
      if is_offload_le_audio_configuration_valid p.session_type c
      then base_start_session p r host_if (le_audio_config c) modes
      else refuse p r
  le_audio_offload_start_session p r host_if config modes = refuse p r

  -- The provider has the new queue even where the base class refuses to start.
  unfoldable pub le_audio_software_start_session :
      Provider → Registry → Option ℕ → AudioConfiguration → List LatencyMode → Outcome
  unfolding base_start_session le_audio_data_mq_size
  le_audio_software_start_session p r host_if (pcm_config c) modes =
      let size = le_audio_data_mq_size p.session_type c in
      let mq = allocate size in
      let started =
        base_start_session (record p { data_mq = some mq }) r host_if (pcm_config c) modes in
      if is_software_pcm_configuration_valid c && ltb 0 size && mq.is_valid
      then started
      else refuse p r
  le_audio_software_start_session p r host_if config modes = refuse p r

  -- The virtual `startSession` of each class.
  unfoldable pub start_as :
      ProviderClass
      → Provider
      → Registry
      → Option ℕ
      → AudioConfiguration
      → List LatencyMode
      → Outcome
  unfolding a2dp_software_start_session hearing_aid_start_session a2dp_offload_start_session
      le_audio_offload_start_session le_audio_software_start_session
  start_as a2dp_software p r host_if config modes =
      a2dp_software_start_session p r host_if config modes
  start_as hearing_aid p r host_if config modes = hearing_aid_start_session p r host_if config modes
  start_as le_audio_software p r host_if config modes =
      le_audio_software_start_session p r host_if config modes
  start_as a2dp_offload p r host_if config modes =
      a2dp_offload_start_session p r host_if config modes
  start_as le_audio_offload p r host_if config modes =
      le_audio_offload_start_session p r host_if config modes

  unfoldable pub start_session :
      Provider → Registry → Option ℕ → AudioConfiguration → List LatencyMode → Outcome
  unfolding start_as
  start_session p r host_if config modes = start_as p.provider_class p r host_if config modes
