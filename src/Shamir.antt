-- ===== src/Shamir.antt =====
-- core-crypto/src/crypto/shamir.rs: Shamir sharing over GF(2^8).
pub mod Gf256
pub mod Field
pub mod Interpolation
pub mod Lagrange
pub mod Polynomial
pub mod Sharing
pub mod Metadata
