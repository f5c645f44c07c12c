-- ===== src/Emulators.antt =====
-- src/modules/emulators/services/emulator.service.ts, by what the methods work on.
pub mod Links
pub mod Queries
pub mod Assignments
pub mod Devices
pub mod Owned
