-- ===== src/Tests.antt =====
-- The theorems at concrete inputs.
pub mod Demo
mod Delivery
mod Stores
mod Codecs
mod Keys
mod Watch
mod Locks
mod Links
mod Backups
mod Recoveries
