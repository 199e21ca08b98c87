-- ===== src/Lib.antt =====
-- The cryptographic core of KyberPipe, in core-crypto/src: two paired devices exchange messages over
-- QUIC, sealed by a post-quantum double ratchet. A session (DoubleRatchetState) keeps a root key, a
-- chain for each direction, a window of the frames seen, a cache of the keys of skipped messages and
-- one slot for a rekey proposal in each direction. Encryption steps the sending chain and attaches
-- the session's proposal from time to time; decryption opens a frame by the cache, the current chain,
-- the pending chain or the chain of the previous generation, stages the peer's proposal and settles
-- two proposals that cross; an acknowledgement commits the own proposal. A resynchronisation moves
-- the receiving chain over a gap. The sessions of all peers stand in one table, through which the
-- apps encrypt, decrypt, acknowledge rekeys and recover by Synchronize packets, and from which they
-- store sessions and restore them.
--
-- The files and the code (paths from the repository's root):
--   Base, Base/*: tests on numbers, lists, byte strings and machine words, shared by all files.
--   Error: core-crypto/src/error.rs; the messages of the errors are left out.
--   Primitives: the functions of the crates hkdf, chacha20poly1305, x25519-dalek and
--     pqcrypto-kyber, a record that every definition takes, and the laws of the AEAD.
--   Aead, Kem, Padding, Crdt, Sas: the files of these names in core-crypto/src/crypto. The laws of
--     X25519 and ML-KEM are the record KemLaws of Kem/Agreement.
--   Tlv: core-crypto/src/crypto/ratchet/tlv.rs. Frame: core-crypto/src/quic_app/frame.rs.
--   Ratchet/*: core-crypto/src/crypto/ratchet. State: the records of state.rs. Policy: policy.rs.
--     Pairs: sets and maps keyed by (generation, sequence). Window: record_delivered of state.rs.
--     Chain: the key derivations of derive.rs and resync.rs, and the loops that repeat them in
--     decrypt.rs and previous_generation.rs. SkipKeys: prune_skip_keys and
--     try_decrypt_with_cached_key. Proposal: the commits, cancellations and acknowledgements of
--     state.rs. Fields: the rekey fields and the keys of a proposal. Encrypt: encrypt.rs and
--     dh_ratchet_rekey. Receive, Decrypt and Rekeyed: decrypt.rs, what its entry points share, the
--     one without rekey fields and the one with them. Previous: previous_generation.rs. Resync:
--     resync_receiving_chain. Session: new and new_with_keypair. Snapshot: snapshot.rs. Acks:
--     generate_rekey_ack and is_rekey_ack of state.rs.
--     Rekey: proofs over Encrypt, Proposal and Decrypt together. Invariant: what holds of every
--     session, by the steps of Invariant/Reach. A file below one of these has its proofs.
--   Shamir/*: core-crypto/src/crypto/shamir.rs. Gf256: the field and its tables, with its laws below.
--     Polynomial: gf256_eval and gf256_lagrange_interpolate. Sharing: split_secret_shamir and
--     reconstruct_secret_shamir. Metadata: the shares with metadata; sha2 and hmac are the record
--     Digests. Field, Interpolation and Lagrange: Lagrange's theorem in a field of
--     characteristic two, by divided differences.
--   Packets: core-crypto/src/packets.rs; serde_json and the UTF-8 decoders are a record, PacketJson.
--   RatchetFfi/*: core-crypto/src/ratchet_ffi.rs and ratchet_ffi. Peers: a hash map keyed by a peer.
--     Registry: registry.rs, with the JSON of snapshots as the record SnapshotJson; Watermark and
--     Import below it: RatchetWatermark and the import. Messages: ratchet_ffi.rs. RekeyAck:
--     rekey_ack.rs. Sync and Sync/Process: sync.rs.
--   Toy: functions that meet the laws of the crates. Witness/*: runs at concrete inputs.
--
-- How the code is rendered. A method on `&mut self` is a function from the state to the result and
-- the state behind it (Outcome), so that what an error leaves behind is explicit. `?` and early
-- returns are branches. A u32 or u64 that can wrap is reduced (wrap32, wrap64), the saturating
-- operations are min and the subtraction that stops at 0. A usize is 64 bits wide. A byte is a number,
-- and byte strings of a fixed length are lists. The clocks are an argument: one call reads one pair
-- of times. The random source is an argument (Entropy). A hash set or map is a list with the
-- set's or map's operations; nothing depends on its order. Wiping of keys, logging and the
-- debug-only assertions are left out. The process-wide tables are an argument and a result. One call
-- of the foreign interface is one step; only the import is also taken apart into its guard and its
-- insertion, between which the code holds no lock. A panic that the code can run into is `none`.
--
-- Fuel: evict (Window) and shrink (SkipKeys) repeat a loop that removes an entry in each round, on as
-- much fuel as there are entries; the bounds in Window/Eviction and SkipKeys/Cache
-- show that the loops end under their limits. All other loops are structural.
--
-- Not modelled: serde_json and the crates (parameters), the JSON of Shamir shares, signing, network
-- I/O, the desktop program, the command line client and the apps.
pub mod Base
pub mod Error
pub mod Primitives
pub mod Aead
pub mod Padding
pub mod Tlv
pub mod Frame
pub mod Kem
pub mod Crdt
pub mod Sas
pub mod Packets
pub mod Shamir
pub mod Ratchet
pub mod RatchetFfi
pub mod Toy
pub mod Witness
