-- ===== src/Provision.antt =====
-- src/manager/libsignal.rs: the messages of the device-link flow and their cryptography.
pub mod Types
mod Xor
pub mod Ctr
pub mod Cipher
pub mod DeviceNameUtil
pub mod Sealed
pub mod Primary
pub mod Name
