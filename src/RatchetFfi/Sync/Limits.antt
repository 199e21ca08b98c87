-- ===== src/RatchetFfi/Sync/Limits.antt =====
-- The tables of the Synchronize protocol are bounded, and only successes fill them.
use kyber_pipe.Base.{
  ℕ, ◌-◌, ◌<◌, ◌≤◌, ◌≡◌, refl, Bool, true, false, List, [], ◌∷◌, ◌++◌, length, length-append,
  retain, length-retain-le, unwrap_or, ◌==◌, if◌then◌else◌, Bytes, arith, inl, inr, Bool-cases,
  bytes_eq, bytes_eq_refl, bytes_eq_sound, length-drop,
}
use kyber_pipe.Error.{Result, ok, err}
use kyber_pipe.Primitives.{Crypto}
use kyber_pipe.Packets.{PacketJson}
use kyber_pipe.Tlv.{RatchetEncryptedMessage, from_binary}
use kyber_pipe.Ratchet.State.{Clock}
use kyber_pipe.RatchetFfi.Peers.{PeerIdentity, peer_get, peer_insert, peer_get-peer_insert}
use kyber_pipe.RatchetFfi.Registry.{Reply}
use kyber_pipe.RatchetFfi.Sync.{
  SyncTables, AppliedSyncEntry, live_stamps, live_entries, already_applied_authenticated,
  sync_rate_limited, stamp_sync, record_applied_sync, push_applied, sync_rate_burst,
  applied_sync_cache_max,
}
use kyber_pipe.RatchetFfi.Sync.Process.{
  ratchet_process_synchronize, process_parsed, behind_cache, behind_limit, conclude,
}

-- The peer's queue in either table.
abbrev pub stamps_of : PeerIdentity → SyncTables → List ℕ
stamps_of p t = unwrap_or (peer_get p t.last_sync_at) []

abbrev pub entries_for : PeerIdentity → SyncTables → List AppliedSyncEntry
entries_for p t = unwrap_or (peer_get p t.applied) []

pub record Bounded (t : SyncTables) (p : PeerIdentity) : Type 0 where
  pub few_stamps : length (stamps_of p t) ≤ sync_rate_burst
  pub few_entries : length (entries_for p t) ≤ applied_sync_cache_max

-- The queue at `q` when the one at `p` is replaced.
pub queue_of :
    {V : Type 0} (p q : PeerIdentity) (v : List V) (m : List (PeerIdentity × List V))
    → unwrap_or (peer_get q (peer_insert p v m)) []
      ≡ (if bytes_eq p q then v else unwrap_or (peer_get q m) [])
queue_of p q v m = elim (Bool-cases (bytes_eq p q)) [
  | inl e ↦ rw (peer_get-peer_insert p q v m) (rw e refl)
  | inr e ↦ rw (peer_get-peer_insert p q v m) (rw e refl)
]

short_retain :
    {V : Type 0} (n : ℕ) (test : V → Bool) (xs : List V)
    → length xs ≤ n
    → length (retain test xs) ≤ n
short_retain n test xs h = omega (arith, length-retain-le test xs)

-- A queue of at most `n` at `q` stays one when the queue at `p` is replaced by one that is, where
-- the two are the same peer.
short_at :
    {V : Type 0} (n : ℕ) (p q : PeerIdentity) (v : List V) (m : List (PeerIdentity × List V))
    → (bytes_eq p q ≡ true → length v ≤ n)
    → length (unwrap_or (peer_get q m) []) ≤ n
    → length (unwrap_or (peer_get q (peer_insert p v m)) []) ≤ n
short_at n p q v m new old =
    rw (queue_of p q v m)
      (elim (Bool-cases (bytes_eq p q)) [ inl e ↦ rw e (new e) | inr e ↦ rw e old ])

module _ (now : ℕ) (p q : PeerIdentity) where
  already_keeps :
      (bytes : Bytes) (t : SyncTables)
      → Bounded t q
      → Bounded (already_applied_authenticated now p bytes t).1 q
  unfolding already_applied_authenticated live_entries
  already_keeps bytes t b = record {
    few_stamps = b.few_stamps;
    few_entries =
        short_at applied_sync_cache_max p q _ t.applied
          (λ e.
            rw (bytes_eq_sound p q e)
              (short_retain applied_sync_cache_max _ (entries_for q t) b.few_entries))
          b.few_entries;
  }

  limited_keeps : (t : SyncTables) → Bounded t q → Bounded (sync_rate_limited now p t).1 q
  unfolding sync_rate_limited live_stamps
  limited_keeps t b = record {
    few_stamps =
        short_at sync_rate_burst p q _ t.last_sync_at
          (λ e.
            rw (bytes_eq_sound p q e) (short_retain sync_rate_burst _ (stamps_of q t) b.few_stamps))
          b.few_stamps;
    few_entries = b.few_entries;
  }

  stamp_keeps :
      (t : SyncTables)
      → length (stamps_of p t) < sync_rate_burst
      → Bounded t q
      → Bounded (stamp_sync now p t) q
  unfolding stamp_sync
  stamp_keeps t room b = record {
    few_stamps =
        short_at sync_rate_burst p q _ t.last_sync_at
          (λ e. omega (arith, length-append (stamps_of p t) (now ∷ []), room)) b.few_stamps;
    few_entries = b.few_entries;
  }

  record_keeps :
      (bytes : Bytes) (t : SyncTables) → Bounded t q → Bounded (record_applied_sync now p bytes t) q
  unfolding record_applied_sync push_applied
  record_keeps bytes t b = record {
    few_stamps = b.few_stamps;
    few_entries =
        short_at applied_sync_cache_max p q _ t.applied
          (λ e. omega (
            arith,
            length-drop (length (live_entries now p t ++ _ ∷ []) - 16)
                (live_entries now p t ++ _ ∷ []),
          ))
          b.few_entries;
  }

  conclude_keeps :
      (bytes : Bytes) (t : SyncTables) (o : Reply ℕ)
      → length (stamps_of p t) < sync_rate_burst
      → Bounded t q
      → Bounded (conclude now p bytes t o).1 q
  unfolding conclude
  conclude_keeps bytes t (err e, r) room b = record {
    few_stamps = b.few_stamps;
    few_entries = b.few_entries;
  }
  conclude_keeps bytes t (ok n, r) room b =
      record_keeps bytes (stamp_sync now p (record t { registry = r })) (
        stamp_keeps (record t { registry = r }) room
          (record { few_stamps = b.few_stamps; few_entries = b.few_entries }))

-- A peer that is not limited has room for a stamp.
room_behind :
    (now : ℕ) (p : PeerIdentity) (t : SyncTables)
    → (sync_rate_limited now p t).0 ≡ false
    → length (stamps_of p (sync_rate_limited now p t).1) < sync_rate_burst
unfolding sync_rate_limited
room_behind now p t h =
    rw (queue_of p p (live_stamps now p t) t.last_sync_at) (rw (bytes_eq_refl p) (ground arith))

limit_keeps :
    (c : Crypto) (json : PacketJson) (now : Clock) (p q : PeerIdentity) (bytes : Bytes)
    (m : RatchetEncryptedMessage) (o : Bool × SyncTables)
    → (o.0 ≡ false → length (stamps_of p o.1) < sync_rate_burst)
    → Bounded o.1 q
    → Bounded (behind_limit c json now p bytes m o).1 q
unfolding behind_limit
limit_keeps c json now p q bytes m (true, t) room b = b
limit_keeps c json now p q bytes m (false, t) room b =
    conclude_keeps now.mono p q bytes t _ (room refl) b

cache_keeps :
    (c : Crypto) (json : PacketJson) (now : Clock) (p q : PeerIdentity) (bytes : Bytes)
    (m : RatchetEncryptedMessage) (o : Bool × SyncTables)
    → Bounded o.1 q
    → Bounded (behind_cache c json now p bytes m o).1 q
unfolding behind_cache
cache_keeps c json now p q bytes m (true, t) b = b
cache_keeps c json now p q bytes m (false, t) b =
    limit_keeps c json now p q bytes m (sync_rate_limited now.mono p t) (room_behind now.mono p t)
      (limited_keeps now.mono p q t b)

parsed_keeps :
    (c : Crypto) (json : PacketJson) (now : Clock) (p q : PeerIdentity) (bytes : Bytes)
    (t : SyncTables) (m : Result RatchetEncryptedMessage)
    → Bounded t q
    → Bounded (process_parsed c json now p bytes t m).1 q
unfolding process_parsed
parsed_keeps c json now p q bytes t (err e) b = b
parsed_keeps c json now p q bytes t (ok m) b = elim (Bool-cases (length m.nonce == 12)) [
  | inl fits ↦ rw fits (
      cache_keeps c json now p q bytes m (already_applied_authenticated now.mono p bytes t)
        (already_keeps now.mono p q bytes t b))
  | inr bad ↦ rw bad b
]

-- Whatever bytes a peer sends as a Synchronize packet, at whatever time: where each peer has at most
-- 3 stamps of authenticated syncs and at most 16 remembered packets, each has so afterwards.
pub process_synchronize_bounds :
    (c : Crypto) (json : PacketJson) (now : Clock) (p q : PeerIdentity) (bytes : Bytes)
    (t : SyncTables)
    → Bounded t q
    → Bounded (ratchet_process_synchronize c json now p bytes t).1 q
unfolding ratchet_process_synchronize
process_synchronize_bounds c json now p q bytes t b =
    parsed_keeps c json now p q bytes t (from_binary bytes) b
