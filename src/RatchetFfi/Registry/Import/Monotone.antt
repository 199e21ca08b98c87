-- ===== src/RatchetFfi/Registry/Import/Monotone.antt =====
-- What an import does to the session that it finds, and to the sessions of the other peers.
use kyber_pipe.Base.{
  ◌≤◌, ◌≡◌, refl, subst, false, Option, none, some, Bytes, arith, inl, inr, Bool-cases,
  Option-cases, bytes_eq_refl,
}
use kyber_pipe.Error.{Result}
use kyber_pipe.Ratchet.State.{Clock, DoubleRatchetState}
use kyber_pipe.Ratchet.Snapshot.{RatchetSnapshot, from_snapshot, restored_state, zip_pairs}
use kyber_pipe.RatchetFfi.Peers.{PeerIdentity, peer_get, peer_get-peer_insert}
use kyber_pipe.RatchetFfi.Registry.{Registry, Slot, SnapshotJson}
use kyber_pipe.RatchetFfi.Registry.Watermark.{of_snapshot, from_live, dominates_or_equals}
use kyber_pipe.RatchetFfi.Registry.Import.{
  refused_for, import_watermark_guard, import_insert, import_snapshot, import_read,
  ratchet_import_session,
}

-- A restored session has come as far as its snapshot.
pub from_snapshot_watermark :
    (now : Clock) (snap : RatchetSnapshot) {t : DoubleRatchetState}
    → from_snapshot now snap ≡ some t
    → from_live t ≡ of_snapshot snap
unfolding from_snapshot restored_state
from_snapshot_watermark now snap {t} h =
    elim (Option-cases (
      zip_pairs snap.previous_x25519_pk snap.previous_x25519_sk snap.previous_mlkem_pk
        snap.previous_mlkem_sk)) [ inl e ↦ ground (arith, e) | inr (pairs, e) ↦ ground (arith, e) ]

-- `t` is of the same pairing as `s` and at least as far in every count.
pub record Advances (s t : DoubleRatchetState) : Type 0 where
  pub same_epoch : t.pairing_epoch ≡ s.pairing_epoch
  pub generation : s.ratchet_generation ≤ t.ratchet_generation
  pub sent_kept : s.send.message_count ≤ t.send.message_count
  pub received_kept : s.recv.message_count ≤ t.recv.message_count

guard_passed :
    (slot : Slot) (snap : RatchetSnapshot) (t : DoubleRatchetState)
    → slot.poisoned ≡ false
    → refused_for (some slot) (of_snapshot snap) ≡ false
    → from_live t ≡ of_snapshot snap
    → Advances slot.session t
unfolding refused_for dominates_or_equals
guard_passed slot snap t sound pass w = record {
  same_epoch = ground arith;
  generation = ground arith;
  sent_kept = ground arith;
  received_kept = ground arith;
}

-- What an import finds and leaves at its peer.
abbrev pub Keeps : PeerIdentity → Slot → Registry → Type 0
Keeps peer slot r =
    (slot' : Slot) × (peer_get peer r.sessions ≡ some slot') × Advances slot.session slot'.session

stays : (slot : Slot) → Advances slot.session slot.session
stays slot = record {
  same_epoch = refl;
  generation = omega arith;
  sent_kept = omega arith;
  received_kept = omega arith;
}

pub inserted :
    (peer : PeerIdentity) (t : DoubleRatchetState) (r : Registry)
    → peer_get peer (import_insert peer t r).sessions
      ≡ some (record { poisoned = false; session = t })
unfolding import_insert
inserted peer t r =
    rw (peer_get-peer_insert peer peer (record { poisoned = false; session = t }) r.sessions)
      (rw (bytes_eq_refl peer) refl)

module _ (json : SnapshotJson) (now : Clock) (peer : PeerIdentity) where
  snapshot-Keeps :
      (snap : RatchetSnapshot) (r : Registry) (slot : Slot) {res : Result (Unit {0})}
      {r' : Registry}
      → peer_get peer r.sessions ≡ some slot
      → slot.poisoned ≡ false
      → import_snapshot now peer snap r ≡ some (res, r')
      → Keeps peer slot r'
  unfolding import_snapshot import_watermark_guard
  snapshot-Keeps snap r slot {r'} live sound h =
      elim (Bool-cases (refused_for (some slot) (of_snapshot snap))) [
        | inl refused ↦
            let e : r ≡ r' = ground (arith, live, refused) in
            subst (Keeps peer slot) e (slot, live, stays slot)
        | inr passed ↦ elim (Option-cases (from_snapshot now snap)) [
          | inl panic ↦ absurd (ground (arith, live, passed, panic))
          | inr (t, restored) ↦
              let e : import_insert peer t r ≡ r' = ground (arith, live, passed, restored) in
              subst (Keeps peer slot) e (
                record { poisoned = false; session = t },
                inserted peer t r,
                guard_passed slot snap t sound passed (from_snapshot_watermark now snap restored),
              )
        ]
      ]

  read-Keeps :
      (snap : Option RatchetSnapshot) (r : Registry) (slot : Slot) {res : Result (Unit {0})}
      {r' : Registry}
      → peer_get peer r.sessions ≡ some slot
      → slot.poisoned ≡ false
      → import_read now peer snap r ≡ some (res, r')
      → Keeps peer slot r'
  unfolding import_read
  read-Keeps none r slot {r'} live sound h =
      let e : r ≡ r' = ground arith in subst (Keeps peer slot) e (slot, live, stays slot)
  read-Keeps (some snap) r slot live sound h = snapshot-Keeps snap r slot live sound h

  -- Whatever bytes are imported for a peer that has a session with a sound lock: an import that
  -- does not panic leaves the peer a session of the same pairing epoch, whose generation, send
  -- count and receive count are each at least what they were.
  pub ratchet_import_session_no_rollback :
      (bytes : Bytes) (r : Registry) (slot : Slot) {res : Result (Unit {0})} {r' : Registry}
      → peer_get peer r.sessions ≡ some slot
      → slot.poisoned ≡ false
      → ratchet_import_session json now peer bytes r ≡ some (res, r')
      → Keeps peer slot r'
  unfolding ratchet_import_session
  ratchet_import_session_no_rollback bytes r slot live sound h =
      read-Keeps (json.read bytes) r slot live sound h
