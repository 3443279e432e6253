-- ===== src/Codecs.antt =====
-- bluetooth/audio/utils/aidl_session/BluetoothAudioCodecs.cpp: the codec capabilities that the HAL
-- advertises, and the checks of a configuration against them.
pub mod Tables
pub mod Checks
pub mod Capabilities
pub mod Admission
pub mod Admitted
pub mod Advertised
pub mod LeAudio
