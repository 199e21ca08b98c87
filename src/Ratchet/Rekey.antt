-- ===== src/Ratchet/Rekey.antt =====
-- A rekey from the proposal to the two commits, the manual one, and the race between two proposals.
pub mod Agreement
pub mod Manual
pub mod Race
pub mod Stamps
