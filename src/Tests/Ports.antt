-- ===== src/Tests/Ports.antt =====
-- Ports and streams at which the properties of streams are tried.
-- Two channels of 16 bits.
use device_blackshark_penros.Base.{List, [], arith, false, none, refl, true, ℕ, ◌∷◌}
use device_blackshark_penros.Port.Core.{Reply}
use device_blackshark_penros.Port.Types.{
  AudioFormat, BluetoothStreamState, ChannelMask, disabled, out_mono, out_stereo, pcm_16_bit,
  standby, started,
}
use device_blackshark_penros.Port.Waiting.{silent}
use device_blackshark_penros.Session.Types.{control_result, success}
use device_blackshark_penros.Stream.Aidl.{AidlOut, aidl_out, aidl_out-IsAudioPort}
use device_blackshark_penros.Stream.Interface.{AudioPort, IsAudioPort}
use device_blackshark_penros.Stream.Types.{StreamIn, StreamOut}
use device_blackshark_penros.Tests.Samples.{
  idle_port, ready_session, sample_code, sample_defaults, sample_registry,
}

abbrev pub four_bytes : ChannelMask → AudioFormat → ℕ
four_bytes m f = 4

abbrev pub keep_all : ℕ → List ℕ → List ℕ
keep_all n buffer = buffer

unfoldable pub sample_port : AudioPort AidlOut
sample_port = aidl_out sample_code sample_defaults keep_all 5

pub sample_port-IsAudioPort : IsAudioPort sample_port
unfolding sample_port
sample_port-IsAudioPort = aidl_out-IsAudioPort sample_code sample_defaults keep_all 5

abbrev pub sample_stream : Reply → BluetoothStreamState → StreamOut AidlOut
sample_stream reply state = record {
  bluetooth_output = record {
    registry = sample_registry;
    proxy = record idle_port { state = state };
    calls = 0;
    replies = λ i. reply;
    position = λ i. none;
    rounds = λ i j. record { seen = ready_session; available = 3; transfers = true };
  };
  is_aidl = true;
  last_write_time_us = 0;
  sample_rate = 48000;
  channel_mask = out_stereo;
  format = pcm_16_bit;
  preferred_data_interval_us = 10000;
  frames_count = 480;
  frames_rendered = 100;
  frames_presented = 300;
}

-- Any frame is four bytes, and no other call comes in between.
abbrev pub no_others : ℕ → StreamOut AidlOut → StreamOut AidlOut
no_others i out = out

abbrev pub five_samples : List ℕ
five_samples = 1 ∷ 2 ∷ 3 ∷ 4 ∷ 5 ∷ []

abbrev pub late_confirming : Reply
late_confirming = record {
  ok = true;
  early = [];
  batches = silent 2 ((control_result 256 true success ∷ []) ∷ []);
}

-- A port that is only its state: it takes what it is told to take of every write, and confirms every
-- call.
abbrev pub fixed_port : ℕ → AudioPort BluetoothStreamState
fixed_port taken = record {
  in_use = λ p. true;
  set_up = λ p device. (true, p);
  tear_down = λ p. p;
  load_audio_config = λ p config. (true, record config { sample_rate = 48000 });
  force_pcm_stereo_to_mono = λ p force. p;
  start = λ p. (true, started);
  suspend = λ p. (true, standby);
  stop = λ p. disabled;
  get_presentation_position = λ p position. (false, position);
  update_source_metadata = λ p tracks. p;
  get_state = λ p. p;
  set_state = λ p s. s;
  is_a2dp = λ p. true;
  get_preferred_data_interval_us = λ p interval. (true, interval);
  write_data = λ p buffer bytes. (taken, p);
  read_data = λ p bytes. (taken, p);
}

abbrev pub held_stream : BluetoothStreamState → StreamOut BluetoothStreamState
held_stream state = record {
  bluetooth_output = state;
  is_aidl = false;
  last_write_time_us = 0;
  sample_rate = 48000;
  channel_mask = out_stereo;
  format = pcm_16_bit;
  preferred_data_interval_us = 10000;
  frames_count = 480;
  frames_rendered = 100;
  frames_presented = 300;
}

abbrev pub held_input : BluetoothStreamState → StreamIn BluetoothStreamState
held_input state = record {
  bluetooth_input = state;
  is_aidl = false;
  last_read_time_us = 0;
  sample_rate = 16000;
  channel_mask = out_mono;
  format = pcm_16_bit;
  preferred_data_interval_us = 20000;
  frames_count = 320;
  frames_presented = 0;
}

-- The stack's confirmation of a start.
abbrev pub settle : StreamIn BluetoothStreamState → StreamIn BluetoothStreamState
settle s = record s { bluetooth_input = started }

pub fixed_port-IsAudioPort : IsAudioPort (fixed_port 0)
fixed_port-IsAudioPort = record {
  get_state-set_state = λ p s. refl;
  start_started = λ p e. refl;
  suspend_standby = λ p e. refl;
  stop_disabled = λ p e. refl;
  write_data_le = λ p buffer bytes. omega arith;
  read_data_le = λ p bytes. omega arith;
}
