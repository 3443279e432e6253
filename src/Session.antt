-- ===== src/Session.antt =====
-- bluetooth/audio/utils/aidl_session/BluetoothAudioSession.{h,cpp}: one session with the Bluetooth
-- stack, the outputs that observe it, and its PCM transfer loops.
pub mod Codec
pub mod Types
pub mod Cookies
pub mod Core
pub mod Calls
pub mod Observers
pub mod Lifecycle
pub mod Reachable
pub mod Pcm
pub mod Transfer
pub mod Reading
