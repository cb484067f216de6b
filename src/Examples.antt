-- ===== src/Examples.antt =====
-- Concrete inputs: instances of the interfaces, and the theorems applied at them.
pub mod Database
pub mod Library
mod Stores
mod Outgoing
mod Process
mod Receive
mod Link
mod PreKeys
pub mod Wire
pub mod Provision
pub mod LinkDevice
pub mod Reconnect
mod OwnIdentity
mod Upgrade
mod App
