-- ===== src/Tests.antt =====
-- The theorems at concrete inputs.
pub mod World
pub mod Memory
pub mod Calling
pub mod Texts
pub mod Syncing
pub mod Opening
pub mod Packages
pub mod Hashing
pub mod Saves
pub mod Archiving
pub mod Screens
