-- ===== src/PreKeys.antt =====
-- src/manager/prekeys.rs, and the registration ids of src/manager/account_attrs.rs.
pub mod Generate
pub mod Save
pub mod Elsewhere
