-- ===== src/Hidl.antt =====
-- bluetooth/audio/utils/aidl_session/HidlToAidlMiddleware.cpp: a client of the HIDL interface, served
-- by a session of the AIDL interface.
pub mod Types
pub mod Convert
pub mod LeAudio
pub mod Middleware
pub mod Relaying
pub mod Aborting
pub mod Lossless
