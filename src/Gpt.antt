-- ===== src/Gpt.antt =====
-- gpt-utils/gpt-utils.cpp: partition tables and the safe update of boot partitions.
pub mod Bytes
pub mod Device
pub mod Header
pub mod Table
pub mod Files
pub mod Update
pub mod Disk
pub mod Sealing
pub mod Reliable
pub mod Layout
pub mod Marking
pub mod Keeping
pub mod Remarking
pub mod Relinking
pub mod Chaining
pub mod Staging
pub mod Entering
pub mod Stages
pub mod Effects
pub mod Stopping
pub mod Quiet
pub mod Guarding
pub mod Running
pub mod Failsafe
pub mod Searching
pub mod Rearranging
pub mod Swapping
pub mod Resealing
pub mod Writing
pub mod Committing
pub mod Luns
pub mod Gathering
