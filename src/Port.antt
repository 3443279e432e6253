-- ===== src/Port.antt =====
-- bluetooth/audio/hw/device_port_proxy.{h,cc}: the proxy between one audio stream and its session.
pub mod Types
pub mod Core
pub mod Data
pub mod Callbacks
pub mod Traces
pub mod Waiting
pub mod Registration
pub mod Bounds
