-- ===== src/Witness.antt =====
-- The theorems at concrete inputs.
pub mod Sessions
pub mod Messages
pub mod Rekeys
pub mod Bounds
pub mod Codecs
pub mod Registry
pub mod Sync
pub mod Sharing
