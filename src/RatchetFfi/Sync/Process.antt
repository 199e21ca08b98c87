-- ===== src/RatchetFfi/Sync/Process.antt =====
-- core-crypto/src/ratchet_ffi/sync.rs: the handling of a Synchronize packet.
use kyber_pipe.Base.{
  ℕ, Bool, true, false, not, ◌&&◌, take, drop, length, ltb, leb, ◌==◌, if◌then◌else◌, Bytes,
  saturating_add32, from_be_bytes,
}
use kyber_pipe.Error.{
  Result, ok, err, crypto_error, decryption_failed, cross_generation_resync_required,
}
use kyber_pipe.Primitives.{Crypto}
use kyber_pipe.Packets.{PacketJson}
use kyber_pipe.Tlv.{RatchetEncryptedMessage, from_binary}
use kyber_pipe.Ratchet.State.{Clock, DoubleRatchetState}
use kyber_pipe.Ratchet.Fields.{Outcome}
use kyber_pipe.Ratchet.Resync.{resync_receiving_chain}
use kyber_pipe.RatchetFfi.Peers.{PeerIdentity}
use kyber_pipe.RatchetFfi.Registry.{Registry, Reply, with_ratchet_session}
use kyber_pipe.RatchetFfi.Messages.{decrypt_dispatched}
use kyber_pipe.RatchetFfi.Sync.{
  SyncTables, already_applied_authenticated, sync_rate_limited, stamp_sync, record_applied_sync,
  seq_gap, verify,
}

-- A decryption on a clone of the session: it becomes the session when its text is the packet.
unfoldable pub commit_trial : PacketJson → ℕ → ℕ → DoubleRatchetState → Outcome Bytes → Outcome ℕ
commit_trial json sync_seq skipped s (err e, trial) = (err e, s)
commit_trial json sync_seq skipped s (ok plaintext, trial) = elim (verify json sync_seq plaintext) [
  | err e ↦ (err e, s)
  | ok _ ↦ (ok skipped, trial)
]

unfoldable pub behind_resync :
    Crypto
    → PacketJson
    → Clock
    → RatchetEncryptedMessage
    → ℕ
    → DoubleRatchetState
    → Outcome ℕ
    → Outcome ℕ
unfolding commit_trial decrypt_dispatched
behind_resync c json now m sync_seq s (err e, trial) = (err e, s)
behind_resync c json now m sync_seq s (ok skipped, trial) =
    commit_trial json sync_seq skipped s (decrypt_dispatched c now m trial)

-- The branch of a real gap.
unfoldable pub sync_over_gap :
    Crypto → PacketJson → Clock → RatchetEncryptedMessage → ℕ → DoubleRatchetState → Outcome ℕ
unfolding behind_resync
sync_over_gap c json now m sync_seq s =
    behind_resync c json now m sync_seq s (resync_receiving_chain c now sync_seq s)

-- The error of a decryption on the clone is told as one of its own.
unfoldable pub commit_cross : PacketJson → ℕ → DoubleRatchetState → Outcome Bytes → Outcome ℕ
unfolding commit_trial
commit_cross json sync_seq s (err e, trial) = (err cross_generation_resync_required, s)
commit_cross json sync_seq s (ok plaintext, trial) =
    commit_trial json sync_seq 0 s (ok plaintext, trial)

-- The branch of a newer generation.
unfoldable pub sync_across :
    Crypto → PacketJson → Clock → RatchetEncryptedMessage → ℕ → DoubleRatchetState → Outcome ℕ
unfolding commit_cross decrypt_dispatched
sync_across c json now m sync_seq s = commit_cross json sync_seq s (decrypt_dispatched c now m s)

-- Here the decryption has run on the session itself.
unfoldable pub verify_live : PacketJson → ℕ → Outcome Bytes → Outcome ℕ
verify_live json sync_seq (err e, t) = (err e, t)
verify_live json sync_seq (ok plaintext, t) = elim (verify json sync_seq plaintext) [
  | err e ↦ (err e, t)
  | ok _ ↦ (ok 0, t)
]

-- The branch of a small gap, and of an older generation.
unfoldable pub sync_in_place :
    Crypto → PacketJson → Clock → RatchetEncryptedMessage → ℕ → DoubleRatchetState → Outcome ℕ
unfolding verify_live decrypt_dispatched
sync_in_place c json now m sync_seq s = verify_live json sync_seq (decrypt_dispatched c now m s)

-- The closure that runs on the session.
unfoldable pub apply_sync :
    Crypto → PacketJson → Clock → RatchetEncryptedMessage → ℕ → ℕ → DoubleRatchetState → Outcome ℕ
unfolding sync_over_gap sync_across sync_in_place seq_gap
apply_sync c json now m sync_gen sync_seq s =
    if sync_gen == s.ratchet_generation && ltb s.max_skip (seq_gap s.recv.message_count sync_seq)
    then sync_over_gap c json now m sync_seq s
    else if leb (saturating_add32 s.ratchet_generation 1) sync_gen
    then sync_across c json now m sync_seq s
    else sync_in_place c json now m sync_seq s

-- What a handled packet leaves in the tables: only a success is stamped and remembered.
unfoldable pub conclude : ℕ → PeerIdentity → Bytes → SyncTables → Reply ℕ → Result ℕ × SyncTables
conclude now peer bytes t (err e, r) = (err e, record t { registry = r })
conclude now peer bytes t (ok n, r) =
    (ok n, record_applied_sync now peer bytes (stamp_sync now peer (record t { registry = r })))

unfoldable pub behind_limit :
    Crypto
    → PacketJson
    → Clock
    → PeerIdentity
    → Bytes
    → RatchetEncryptedMessage
    → Bool × SyncTables
    → Result ℕ × SyncTables
unfolding apply_sync conclude with_ratchet_session
behind_limit c json now peer bytes m (true, t) = (err crypto_error, t)
behind_limit c json now peer bytes m (false, t) =
    let sync_gen = from_be_bytes (take 4 m.nonce) 0 in
    let sync_seq = from_be_bytes (drop 4 m.nonce) 0 in
    conclude now.mono peer bytes t
      (with_ratchet_session peer (apply_sync c json now m sync_gen sync_seq) t.registry)

unfoldable pub behind_cache :
    Crypto
    → PacketJson
    → Clock
    → PeerIdentity
    → Bytes
    → RatchetEncryptedMessage
    → Bool × SyncTables
    → Result ℕ × SyncTables
unfolding behind_limit sync_rate_limited
behind_cache c json now peer bytes m (true, t) = (ok 0, t)
behind_cache c json now peer bytes m (false, t) =
    behind_limit c json now peer bytes m (sync_rate_limited now.mono peer t)

unfoldable pub process_parsed :
    Crypto
    → PacketJson
    → Clock
    → PeerIdentity
    → Bytes
    → SyncTables
    → Result RatchetEncryptedMessage
    → Result ℕ × SyncTables
unfolding behind_cache already_applied_authenticated
process_parsed c json now peer bytes t (err e) = (err e, t)
process_parsed c json now peer bytes t (ok m) =
    if not (length m.nonce == 12)
    then (err decryption_failed, t)
    else behind_cache c json now peer bytes m (already_applied_authenticated now.mono peer bytes t)

unfoldable pub ratchet_process_synchronize :
    Crypto → PacketJson → Clock → PeerIdentity → Bytes → SyncTables → Result ℕ × SyncTables
unfolding process_parsed
ratchet_process_synchronize c json now peer bytes t =
    process_parsed c json now peer bytes t (from_binary bytes)

received : DoubleRatchetState → Outcome ℕ
received s = (ok s.recv.message_count, s)

sent : DoubleRatchetState → Outcome ℕ
sent s = (ok s.send.message_count, s)

unfoldable pub ratchet_recv_count : PeerIdentity → Registry → Reply ℕ
unfolding received with_ratchet_session
ratchet_recv_count peer r = with_ratchet_session peer received r

unfoldable pub ratchet_send_count : PeerIdentity → Registry → Reply ℕ
unfolding sent with_ratchet_session
ratchet_send_count peer r = with_ratchet_session peer sent r
