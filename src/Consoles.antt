-- ===== src/Consoles.antt =====
-- What the clients under platform/3ds/source and platform/nx/source decide apart from their screens and
-- services.
pub mod TitleId
pub mod Backups
pub mod Unattended
pub mod Config
pub mod Settings
