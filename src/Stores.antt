-- ===== src/Stores.antt =====
-- src/manager/stores.rs: the protocol stores of libsignal over the database. `Binary` reads and
-- writes values, `Keys` names them, `Entry` joins both with an encoding, and each store of the
-- source has a child of its own.
pub mod Binary
pub mod Keys
pub mod Entry
pub mod PreKey
pub mod Kyber
pub mod Session
pub mod Identity
pub mod Own
pub mod Replay
