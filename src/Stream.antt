-- ===== src/Stream.antt =====
-- bluetooth/audio/hw/stream_apis.{h,cc}: the audio HAL's streams over a Bluetooth port.
pub mod Types
pub mod Interface
pub mod Delay
pub mod Out
pub mod Parameters
pub mod In
pub mod Device
pub mod Standby
pub mod Counters
pub mod Position
pub mod Disabling
pub mod Timeout
pub mod Reading
pub mod Opening
pub mod Aidl
