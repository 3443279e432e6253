-- ===== src/Provider.antt =====
-- bluetooth/audio/hal: the audio providers that the Bluetooth stack opens, starts and ends, over the
-- sessions of bluetooth/audio/utils/aidl_session.
pub mod Types
pub mod Core
pub mod Calls
pub mod Factory
pub mod Sessions
pub mod Starting
pub mod Advertising
pub mod Ending
pub mod Confirming
pub mod Invariant
pub mod Reachable
pub mod Registered
pub mod Playing
