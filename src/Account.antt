-- ===== src/Account.antt =====
-- src/account.rs: an account as a cache over a dictionary of the database.
pub mod Environment
pub mod Values
pub mod Keys
pub mod Fields
pub mod Cache
pub mod Stored
pub mod Storage
pub mod Link
