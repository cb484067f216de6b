-- ===== src/Outgoing.antt =====
-- src/manager/outgoing.rs: the padding, the errors, the persisted peer, and the encryption of a
-- message.
pub mod Padding
pub mod Error
pub mod Payload
pub mod Peer
pub mod Message
