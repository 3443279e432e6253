-- ===== src/Stream/Interface.antt =====
-- `BluetoothAudioPort` of device_port_proxy.h: what a stream calls of its port. The AIDL and the HIDL
-- port implement it; an implementation carries the environment's answers in its state `P`.
use device_blackshark_penros.Base.{Bool, List, true, ℕ, ◌≡◌, ◌≤◌}
use device_blackshark_penros.Port.Types.{
  AudioConfig, AudioDevices, BluetoothStreamState, disabled, standby, started,
}
use device_blackshark_penros.Session.Types.{PresentationPosition, Track}

pub record AudioPort (P : Type 0) : Type 0 where
  pub in_use : P → Bool
  pub set_up : P → AudioDevices → Bool × P
  pub tear_down : P → P
  pub load_audio_config : P → AudioConfig → Bool × AudioConfig
  pub force_pcm_stereo_to_mono : P → Bool → P
  pub start : P → Bool × P
  pub suspend : P → Bool × P
  pub stop : P → P
  pub get_presentation_position : P → PresentationPosition → Bool × PresentationPosition
  pub update_source_metadata : P → List Track → P
  pub get_state : P → BluetoothStreamState
  pub set_state : P → BluetoothStreamState → P
  pub is_a2dp : P → Bool
  pub get_preferred_data_interval_us : P → ℕ → Bool × ℕ
  pub write_data : P → List ℕ → ℕ → ℕ × P
  pub read_data : P → ℕ → ℕ × P

-- What the streams rely on.
pub record IsAudioPort {P : Type 0} (port : AudioPort P) : Type 0 where
  pub get_state-set_state :
      (p : P) (s : BluetoothStreamState) → port.get_state (port.set_state p s) ≡ s
  pub start_started : (p : P) → (port.start p).0 ≡ true → port.get_state (port.start p).1 ≡ started
  pub suspend_standby :
      (p : P) → (port.suspend p).0 ≡ true → port.get_state (port.suspend p).1 ≡ standby
  pub stop_disabled : (p : P) → port.in_use p ≡ true → port.get_state (port.stop p) ≡ disabled
  pub write_data_le :
      (p : P) (buffer : List ℕ) (bytes : ℕ) → (port.write_data p buffer bytes).0 ≤ bytes
  pub read_data_le : (p : P) (bytes : ℕ) → (port.read_data p bytes).0 ≤ bytes
