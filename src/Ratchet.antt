-- ===== src/Ratchet.antt =====
-- core-crypto/src/crypto/ratchet: the double ratchet, one child for each of its parts.
pub mod State
pub mod Policy
pub mod Pairs
pub mod Window
pub mod Chain
pub mod SkipKeys
pub mod Proposal
pub mod Fields
pub mod Encrypt
pub mod Receive
pub mod Previous
pub mod Decrypt
pub mod Rekeyed
pub mod Resync
pub mod Session
pub mod Snapshot
pub mod Acks
pub mod Rekey
pub mod Invariant
