-- ===== src/RatchetFfi/Sync.antt =====
-- core-crypto/src/ratchet_ffi/sync.rs: the Synchronize protocol, its rate limit and its memory of
-- the packets that were applied. An `Instant` is a count of nanoseconds; one call reads it once.
pub mod Process
pub mod Limits
pub mod Commit
pub mod Refusals
use kyber_pipe.Base.{
  ℕ, ◌+◌, ◌-◌, ◌*◌, ◌^◌, Bool, true, false, not, ◌&&◌, ◌||◌, Option, none, some, List, [], ◌∷◌,
  ◌++◌, length, retain, drop, take, ltb, leb, ◌==◌, if◌then◌else◌, Bytes, wrap64, saturating_add32,
  from_be_bytes, unwrap_or,
}
use Prim.Native.Nat.{bit_xor}
use kyber_pipe.Error.{
  Result, ok, err, ◌>>=◌, crypto_error, decryption_failed, cross_generation_resync_required,
}
use kyber_pipe.Primitives.{Crypto, Entropy}
use kyber_pipe.Packets.{KyberMessage, PacketJson, synchronize, from_json}
use kyber_pipe.Tlv.{RatchetEncryptedMessage, to_binary, from_binary}
use kyber_pipe.Ratchet.State.{Clock, DoubleRatchetState}
use kyber_pipe.Ratchet.Policy.{from_secs}
use kyber_pipe.Ratchet.Fields.{Outcome}
use kyber_pipe.Ratchet.Resync.{resync_receiving_chain}
use kyber_pipe.Ratchet.Acks.{encrypt_packet}
use kyber_pipe.RatchetFfi.Peers.{PeerIdentity, peer_get, peer_insert}
use kyber_pipe.RatchetFfi.Registry.{Registry, Reply, with_ratchet_session}
use kyber_pipe.RatchetFfi.Messages.{decrypt_dispatched}

abbrev pub sync_rate_window : ℕ
sync_rate_window = from_secs 15

abbrev pub sync_rate_burst : ℕ
sync_rate_burst = 3

abbrev pub applied_sync_cache_max : ℕ
applied_sync_cache_max = 16

abbrev pub applied_sync_cache_ttl : ℕ
applied_sync_cache_ttl = from_secs 120

pub record AppliedSyncEntry : Type 0 where
  pub digest : ℕ
  pub at : ℕ

-- `LAST_SYNC_AT`, `APPLIED_SYNC_CACHE` and the sessions.
pub record SyncTables : Type 0 where
  pub last_sync_at : List (PeerIdentity × List ℕ)
  pub applied : List (PeerIdentity × List AppliedSyncEntry)
  pub registry : Registry

digest_from : ℕ → Bytes → ℕ
digest_from hash [] = hash
digest_from hash (b ∷ bytes) = digest_from (wrap64 (bit_xor hash b * 0x100000001b3)) bytes

unfoldable pub sync_digest : Bytes → ℕ
unfolding digest_from
sync_digest bytes = digest_from 0xcbf29ce484222325 bytes

-- `entry(peer).or_default()`, without what is too old.
unfoldable pub live_entries : ℕ → PeerIdentity → SyncTables → List AppliedSyncEntry
live_entries now peer t =
    retain (λ e. ltb (now - e.at) applied_sync_cache_ttl) (unwrap_or (peer_get peer t.applied) [])

unfoldable pub any_digest : ℕ → List AppliedSyncEntry → Bool
any_digest d [] = false
any_digest d (e ∷ queue) = e.digest == d || any_digest d queue

unfoldable pub already_applied_authenticated :
    ℕ → PeerIdentity → Bytes → SyncTables → Bool × SyncTables
unfolding live_entries any_digest sync_digest
already_applied_authenticated now peer bytes t =
    let queue = live_entries now peer t in
    (any_digest (sync_digest bytes) queue, record t { applied = peer_insert peer queue t.applied })

-- `push_back`, and `pop_front` while there are too many.
unfoldable pub push_applied : AppliedSyncEntry → List AppliedSyncEntry → List AppliedSyncEntry
push_applied e queue = drop (length (queue ++ e ∷ []) - applied_sync_cache_max) (queue ++ e ∷ [])

unfoldable pub record_applied_sync : ℕ → PeerIdentity → Bytes → SyncTables → SyncTables
unfolding push_applied live_entries sync_digest
record_applied_sync now peer bytes t = record t {
  applied =
      peer_insert peer
        (push_applied (record { digest = sync_digest bytes; at = now }) (live_entries now peer t))
        t.applied;
}

-- The stamps of the peer within the window.
unfoldable pub live_stamps : ℕ → PeerIdentity → SyncTables → List ℕ
live_stamps now peer t =
    retain (λ at. ltb (now - at) sync_rate_window) (unwrap_or (peer_get peer t.last_sync_at) [])

unfoldable pub sync_rate_limited : ℕ → PeerIdentity → SyncTables → Bool × SyncTables
unfolding live_stamps
sync_rate_limited now peer t =
    let queue = live_stamps now peer t in
    (
      leb sync_rate_burst (length queue),
      record t { last_sync_at = peer_insert peer queue t.last_sync_at },
    )

unfoldable pub stamp_sync : ℕ → PeerIdentity → SyncTables → SyncTables
stamp_sync now peer t = record t {
  last_sync_at =
      peer_insert peer (unwrap_or (peer_get peer t.last_sync_at) [] ++ now ∷ []) t.last_sync_at;
}

-- The packet tells the position of its own message.
unfoldable pub synchronize_session :
    Crypto → PacketJson → Entropy → Clock → DoubleRatchetState → Outcome RatchetEncryptedMessage
unfolding encrypt_packet
synchronize_session c json rng now s =
    encrypt_packet c json rng now (synchronize s.send.message_count) s

unfoldable pub ratchet_synchronize_packet :
    Crypto → PacketJson → Entropy → Clock → PeerIdentity → Registry → Reply RatchetEncryptedMessage
unfolding synchronize_session with_ratchet_session
ratchet_synchronize_packet c json rng now peer r =
    with_ratchet_session peer (synchronize_session c json rng now) r

printed_reply : Reply RatchetEncryptedMessage → Reply Bytes
printed_reply (result, r) = (result >>= to_binary, r)

unfoldable pub ratchet_synchronize_packet_binary :
    Crypto → PacketJson → Entropy → Clock → PeerIdentity → Registry → Reply Bytes
unfolding ratchet_synchronize_packet printed_reply
ratchet_synchronize_packet_binary c json rng now peer r =
    printed_reply (ratchet_synchronize_packet c json rng now peer r)

unfoldable pub seq_gap : ℕ → ℕ → ℕ
seq_gap cur target = target - cur

unfoldable pub verified_packet : ℕ → Result KyberMessage → Result (Unit {0})
verified_packet sync_seq (ok (synchronize send_count)) =
    if send_count == sync_seq then ok tt else err crypto_error
verified_packet sync_seq _ = err crypto_error

-- The closure `verify`.
unfoldable pub verify : PacketJson → ℕ → Bytes → Result (Unit {0})
unfolding verified_packet from_json
verify json sync_seq plaintext =
    verified_packet sync_seq (from_json json (json.from_utf8_lossy plaintext))
