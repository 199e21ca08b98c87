-- ===== src/RatchetFfi/Registry/Import/Race.antt =====
-- A stored session in a fresh table, and an import whose guard and whose insertion have a call of
-- another thread between them: `import_watermark_guard` releases the locks before the insertion.
use kyber_pipe.Base.{◌≡◌, refl, false, none, some, Bytes, arith}
use kyber_pipe.Error.{ok}
use kyber_pipe.Primitives.{Crypto, Entropy}
use kyber_pipe.Aead.{generate_nonce_from_seq}
use kyber_pipe.Tlv.{RatchetEncryptedMessage}
use kyber_pipe.Ratchet.State.{Clock, SkipKeyMap, DoubleRatchetState}
use kyber_pipe.Ratchet.Encrypt.{ratchet_encrypt}
use kyber_pipe.Ratchet.Encrypt.Sealed.{IsSealedUnder, ratchet_encrypt-IsSealedUnder}
use kyber_pipe.Ratchet.Fields.{Outcome}
use kyber_pipe.Ratchet.Snapshot.{to_snapshot, from_snapshot}
use kyber_pipe.Ratchet.Snapshot.RoundTrip.{IsStorable, restart, from_snapshot-to_snapshot}
use kyber_pipe.RatchetFfi.Peers.{PeerIdentity, peer_get}
use kyber_pipe.RatchetFfi.Registry.{
  Registry, Slot, SnapshotJson, with_ratchet_session, use_slot, ratchet_export_session,
}
use kyber_pipe.RatchetFfi.Registry.Watermark.{of_snapshot, dominates_or_equals}
use kyber_pipe.RatchetFfi.Registry.Import.{
  import_watermark_guard, refused_for, import_insert, import_snapshot, import_read,
  ratchet_import_session,
}
use kyber_pipe.RatchetFfi.Registry.Import.Monotone.{inserted}

-- A call that succeeds has run on the peer's session.
ran :
    {A : Type 0} (peer : PeerIdentity) (f : DoubleRatchetState → Outcome A) (r : Registry)
    (slot : Slot) {a : A} {r' : Registry}
    → peer_get peer r.sessions ≡ some slot
    → with_ratchet_session peer f r ≡ (ok a, r')
    → f slot.session ≡ (ok a, (f slot.session).1)
unfolding with_ratchet_session use_slot
ran peer f r slot live h = ground (arith, live)

-- An export of the peer's session passes the guard while the session stands as it was.
own_snapshot_passes :
    (peer : PeerIdentity) (r : Registry) (slot : Slot)
    → peer_get peer r.sessions ≡ some slot
    → import_watermark_guard peer (of_snapshot (to_snapshot slot.session)) r ≡ false
unfolding import_watermark_guard refused_for to_snapshot dominates_or_equals
own_snapshot_passes peer r slot live = rw live (ground arith)

-- A session that is stored in full: it remembers no frame and no key twice, has a key store, and
-- at most one carrier, of its proposal's payload. Its snapshot is imported by one thread while
-- another sends a message between the guard and the insertion: the guard lets the import pass, the
-- insertion puts the stored session back, and the next message that is sent has the nonce of the
-- one in between. Both are sealed under one key, each with the associated data of its own rekey
-- fields.
pub import_race_repeats_nonce :
    (c : Crypto) (rng rng' : Entropy) (now at at' : Clock) (peer : PeerIdentity)
    (first second : Bytes) (r : Registry) (slot : Slot) (store : SkipKeyMap)
    {m m' : RatchetEncryptedMessage} {r' r'' : Registry}
    → peer_get peer r.sessions ≡ some slot
    → IsStorable slot.session store
    → with_ratchet_session peer (ratchet_encrypt c rng at first) r ≡ (ok m, r')
    → with_ratchet_session peer
        (ratchet_encrypt c rng' at' second)
        (import_insert peer (restart now slot.session) r')
      ≡ (ok m', r'')
    → (import_watermark_guard peer (of_snapshot (to_snapshot slot.session)) r ≡ false)
      × (from_snapshot now (to_snapshot slot.session) ≡ some (restart now slot.session))
      × ((nonce : Bytes) × IsSealedUnder c slot.session.send.key nonce first m
          × IsSealedUnder c slot.session.send.key nonce second m')
import_race_repeats_nonce c rng rng' now at at' peer first second r slot store {r'} live stored one
      two =
    let s = slot.session in
    (
      own_snapshot_passes peer r slot live,
      from_snapshot-to_snapshot now s store stored,
      (
        generate_nonce_from_seq s.send.message_count s.ratchet_generation,
        ratchet_encrypt-IsSealedUnder c rng at first s
            (ran peer (ratchet_encrypt c rng at first) r slot live one),
        ratchet_encrypt-IsSealedUnder c rng' at' second (restart now s) (
            ran peer (ratchet_encrypt c rng' at' second) (import_insert peer (restart now s) r')
              (record { poisoned = false; session = restart now s })
              (inserted peer (restart now s) r') two),
      ),
    )

-- What an export writes is what an import reads back: where the JSON of a stored session's snapshot
-- reads back as it was written, the exported bytes, imported into any table without a session for
-- that peer, open the peer's session as it is behind a restart.
pub import-export :
    (json : SnapshotJson) (now : Clock) (peer : PeerIdentity) (r fresh : Registry) (slot : Slot)
    (store : SkipKeyMap) {bytes : Bytes}
    → json.read bytes ≡ some (to_snapshot slot.session)
    → json.write (to_snapshot slot.session) ≡ some bytes
    → peer_get peer r.sessions ≡ some slot
    → slot.poisoned ≡ false
    → IsStorable slot.session store
    → peer_get peer fresh.sessions ≡ none
    → (ratchet_export_session json peer r ≡ ok (some bytes))
      × (ratchet_import_session json now peer bytes fresh
          ≡ some (ok tt, import_insert peer (restart now slot.session) fresh))
unfolding ratchet_export_session ratchet_import_session import_read import_snapshot
    import_watermark_guard refused_for
import-export json now peer r fresh slot store reads writes live sound stored absent = (
  rw (live, sound, writes) refl,
  rw (reads, absent, from_snapshot-to_snapshot now slot.session store stored) refl,
)
