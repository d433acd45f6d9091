-- ===== src/Sync.antt =====
-- core/include/daemoon/sync.h and core/src/sync.c: what to do with a title, and doing it.
pub mod Decide
pub mod Options
pub mod Calls
pub mod Io
pub mod Paths
pub mod State
pub mod Reading
pub mod Backup
pub mod Restore
pub mod Transfer
pub mod Run
pub mod Trace
pub mod Packaged
pub mod Guard
pub mod Quiet
pub mod Keeping
pub mod Backups
pub mod Restoring
pub mod Writing
pub mod Transferring
pub mod Accounts
pub mod Promise
