-- ===== src/Port/Types.antt =====
-- The types of device_port_proxy.{h,cc} and stream_apis.h. The constants of system/audio.h are not
-- part of the repository: an enumeration lists those that the source names, and `other` the rest.
use device_blackshark_penros.Base.{Bool, ℕ}
use device_blackshark_penros.Session.Types.{SessionType}

pub data BluetoothStreamState : Type 0 where
  disabled standby starting started suspending unknown : BluetoothStreamState

pub data AudioDevices : Type 0 where
  out_bluetooth_a2dp out_bluetooth_a2dp_headphones out_bluetooth_a2dp_speaker : AudioDevices
  out_hearing_aid out_ble_headset out_ble_speaker in_ble_headset out_ble_broadcast : AudioDevices
  other_device : ℕ → AudioDevices

pub data ChannelMask : Type 0 where
  out_mono out_stereo in_mono in_stereo : ChannelMask
  other_mask : ℕ → ChannelMask

pub data AudioFormat : Type 0 where
  pcm_16_bit pcm_24_bit_packed pcm_8_24_bit pcm_32_bit : AudioFormat
  other_format : ℕ → AudioFormat

-- `audio_config_t`, with the fields that the source reads and writes.
pub record AudioConfig : Type 0 where
  pub sample_rate : ℕ
  pub channel_mask : ChannelMask
  pub format : AudioFormat

-- `BluetoothAudioPortAidl`, the fields that a call may change.
pub record Port : Type 0 where
  pub cookie : ℕ
  pub state : BluetoothStreamState
  pub session_type : SessionType
  pub is_stereo_to_mono : Bool
