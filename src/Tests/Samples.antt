-- ===== src/Tests/Samples.antt =====
-- The values that the tests share: the numbering of the session types, a session that is ready, a port
-- on it, and a stream on the port.
use device_blackshark_penros.Base.{
  [], ap, arith, false, refl, some, suc, sym, true, zero, ℕ, ◌<◌, ◌∙◌, ◌∷◌, ◌≡◌,
}
use device_blackshark_penros.Control.Sessions.{Registry}
use device_blackshark_penros.Port.Core.{Reply, callbacks}
use device_blackshark_penros.Port.Types.{Port, standby}
use device_blackshark_penros.Session.Codec.{
  ChannelMode, CodecConfiguration, alloc_md_l, joint_stereo, sbc, sbc_config, stereo,
}
use device_blackshark_penros.Session.Cookies.{IsSessionCode, SessionCode}
use device_blackshark_penros.Session.Core.{Session}
use device_blackshark_penros.Session.Types.{
  DataMq, Defaults, PcmConfiguration, SessionType, a2dp_hardware_offload_decoding_datapath,
  a2dp_hardware_offload_encoding_datapath, a2dp_software_decoding_datapath,
  a2dp_software_encoding_datapath, control_result, free, hearing_aid_software_encoding_datapath,
  le_audio_broadcast_hardware_offload_encoding_datapath,
  le_audio_broadcast_software_encoding_datapath, le_audio_hardware_offload_decoding_datapath,
  le_audio_hardware_offload_encoding_datapath, le_audio_software_decoding_datapath,
  le_audio_software_encoding_datapath, low_latency, pcm_config, success,
}

abbrev pub sample_code : SessionCode
sample_code SessionType.unknown = 0
sample_code a2dp_software_encoding_datapath = 1
sample_code a2dp_hardware_offload_encoding_datapath = 2
sample_code hearing_aid_software_encoding_datapath = 3
sample_code le_audio_software_encoding_datapath = 4
sample_code le_audio_software_decoding_datapath = 5
sample_code le_audio_hardware_offload_encoding_datapath = 6
sample_code le_audio_hardware_offload_decoding_datapath = 7
sample_code le_audio_broadcast_software_encoding_datapath = 8
sample_code le_audio_broadcast_hardware_offload_encoding_datapath = 9
sample_code a2dp_software_decoding_datapath = 10
sample_code a2dp_hardware_offload_decoding_datapath = 11

abbrev decode : ℕ → SessionType
decode zero = SessionType.unknown
decode (suc zero) = a2dp_software_encoding_datapath
decode (suc (suc zero)) = a2dp_hardware_offload_encoding_datapath
decode (suc (suc (suc zero))) = hearing_aid_software_encoding_datapath
decode (suc (suc (suc (suc zero)))) = le_audio_software_encoding_datapath
decode (suc (suc (suc (suc (suc n))))) = decode_high n
  where
    decode_high : ℕ → SessionType
    decode_high zero = le_audio_software_decoding_datapath
    decode_high (suc zero) = le_audio_hardware_offload_encoding_datapath
    decode_high (suc (suc zero)) = le_audio_hardware_offload_decoding_datapath
    decode_high (suc (suc (suc zero))) = le_audio_broadcast_software_encoding_datapath
    decode_high (suc (suc (suc (suc zero)))) = le_audio_broadcast_hardware_offload_encoding_datapath
    decode_high (suc (suc (suc (suc (suc zero))))) = a2dp_software_decoding_datapath
    decode_high (suc (suc (suc (suc (suc (suc n)))))) = a2dp_hardware_offload_decoding_datapath

decode-sample_code : (t : SessionType) → decode (sample_code t) ≡ t
decode-sample_code SessionType.unknown = refl
decode-sample_code a2dp_software_encoding_datapath = refl
decode-sample_code a2dp_hardware_offload_encoding_datapath = refl
decode-sample_code hearing_aid_software_encoding_datapath = refl
decode-sample_code le_audio_software_encoding_datapath = refl
decode-sample_code le_audio_software_decoding_datapath = refl
decode-sample_code le_audio_hardware_offload_encoding_datapath = refl
decode-sample_code le_audio_hardware_offload_decoding_datapath = refl
decode-sample_code le_audio_broadcast_software_encoding_datapath = refl
decode-sample_code le_audio_broadcast_hardware_offload_encoding_datapath = refl
decode-sample_code a2dp_software_decoding_datapath = refl
decode-sample_code a2dp_hardware_offload_decoding_datapath = refl

sample_code-lt : (t : SessionType) → sample_code t < 256
sample_code-lt t = ground arith

pub sample_code-IsSessionCode : IsSessionCode sample_code
sample_code-IsSessionCode = record {
  code_lt = sample_code-lt;
  code_injective = λ s t e. sym (decode-sample_code s) ∙ ap decode e ∙ decode-sample_code t;
}

abbrev pub sample_pcm : PcmConfiguration
sample_pcm = record {
  sample_rate_hz = 48000;
  channel_mode = stereo;
  bits_per_sample = 16;
  data_interval_us = 20000;
}

abbrev pub sample_codec : CodecConfiguration
sample_codec = record {
  codec_type = sbc;
  encoded_audio_bitrate = 328000;
  peer_mtu = 1005;
  is_scmst_enabled = false;
  config = sbc_config (record {
    sample_rate_hz = 44100;
    channel_mode = joint_stereo;
    block_length = 16;
    num_subbands = 8;
    alloc_method = alloc_md_l;
    bits_per_sample = 16;
    min_bitpool = 2;
    max_bitpool = 53;
  });
}

abbrev pub sample_defaults : Defaults
sample_defaults = record {
  pcm = record {
    sample_rate_hz = 0;
    channel_mode = ChannelMode.unknown;
    bits_per_sample = 0;
    data_interval_us = 0;
  };
  codec = sample_codec;
  le_audio = 0;
  le_audio_broadcast = 0;
  position = record {
    remote_device_audio_delay_nanos = 0;
    transmitted_octets = 0;
    tv_sec = 0;
    tv_nsec = 0;
  };
}

abbrev pub sample_mq : DataMq
sample_mq = record { queue = 7; is_valid = true }

-- The A2DP session after a start of the stack, with one observer.
abbrev pub ready_session : Session
ready_session = record {
  session_type = a2dp_software_encoding_datapath;
  stack_iface = some 1;
  data_mq = some sample_mq;
  audio_config = some (pcm_config sample_pcm);
  latency_modes = free ∷ low_latency ∷ [];
  low_latency_allowed = true;
  observers = (256, callbacks 5) ∷ [];
}

abbrev pub sample_registry : Registry
sample_registry = record { sessions_map = (a2dp_software_encoding_datapath, ready_session) ∷ [] }

abbrev pub idle_port : Port
idle_port = record {
  cookie = 256;
  state = standby;
  session_type = a2dp_software_encoding_datapath;
  is_stereo_to_mono = false;
}

abbrev pub confirming : Reply
confirming = record {
  ok = true;
  early = [];
  batches = [] ∷ (control_result 256 true success ∷ []) ∷ [];
}

abbrev pub refusing : Reply
refusing = record { ok = false; early = []; batches = [] }
