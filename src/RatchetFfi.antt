-- ===== src/RatchetFfi.antt =====
-- core-crypto/src/ratchet_ffi: the tables of sessions by peer, and the channels that go through them.
pub mod Peers
pub mod Registry
pub mod Messages
pub mod RekeyAck
pub mod Sync
