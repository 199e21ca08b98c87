-- ===== src/RatchetFfi/Registry/Watermark.antt =====
-- core-crypto/src/ratchet_ffi/registry.rs: how far a session or a snapshot has come.
use kyber_pipe.Base.{
  ℕ, ◌≡◌, Bool, true, not, ◌&&◌, Option, none, some, leb, ◌==◌, if◌then◌else◌, unwrap_or, Bytes,
  ascii, wrap32, arith,
}
use kyber_pipe.Error.{Result, ok, err, crypto_error, serialization_error}
use kyber_pipe.Ratchet.State.{DoubleRatchetState}
use kyber_pipe.Ratchet.Snapshot.{RatchetSnapshot}
use kyber_pipe.RatchetFfi.Peers.{PeerIdentity, peer_get}
use kyber_pipe.RatchetFfi.Registry.{Registry, Slot, SnapshotJson}

pub record RatchetWatermark : Type 0 where
  pub pairing_epoch : ℕ
  pub ratchet_generation : ℕ
  pub send_message_count : ℕ
  pub recv_message_count : ℕ

abbrev pub of_snapshot : RatchetSnapshot → RatchetWatermark
of_snapshot snap = record {
  pairing_epoch = snap.pairing_epoch;
  ratchet_generation = snap.ratchet_generation;
  send_message_count = snap.send_message_count;
  recv_message_count = snap.recv_message_count;
}

abbrev pub from_live : DoubleRatchetState → RatchetWatermark
from_live s = record {
  pairing_epoch = s.pairing_epoch;
  ratchet_generation = s.ratchet_generation;
  send_message_count = s.send.message_count;
  recv_message_count = s.recv.message_count;
}

-- The derived `PartialEq`.
abbrev watermark_eq : RatchetWatermark → RatchetWatermark → Bool
watermark_eq a b =
    a.pairing_epoch == b.pairing_epoch
    && a.ratchet_generation == b.ratchet_generation
    && a.send_message_count == b.send_message_count
    && a.recv_message_count == b.recv_message_count

unfoldable pub is_ahead_of : RatchetWatermark → RatchetWatermark → Bool
is_ahead_of a b =
    leb b.pairing_epoch a.pairing_epoch
    && leb b.ratchet_generation a.ratchet_generation
    && leb b.send_message_count a.send_message_count
    && leb b.recv_message_count a.recv_message_count
    && not (watermark_eq a b)

unfoldable pub dominates_or_equals : RatchetWatermark → RatchetWatermark → Bool
dominates_or_equals a b =
    leb b.pairing_epoch a.pairing_epoch
    && leb b.ratchet_generation a.ratchet_generation
    && leb b.send_message_count a.send_message_count
    && leb b.recv_message_count a.recv_message_count

watermark_slot : Option Slot → Result (Option RatchetWatermark)
watermark_slot none = ok none
watermark_slot (some slot) =
    if slot.poisoned then err crypto_error else ok (some (from_live slot.session))

unfoldable pub ratchet_session_watermark :
    PeerIdentity → Registry → Result (Option RatchetWatermark)
unfolding watermark_slot
ratchet_session_watermark peer r = watermark_slot (peer_get peer r.sessions)

-- Of the four fields only the epoch has a default.
watermark_of : Option ℕ → Option ℕ → Option ℕ → Option ℕ → Option RatchetWatermark
watermark_of (some gen) (some send) (some recv) epoch = some (record {
  pairing_epoch = unwrap_or epoch 0;
  ratchet_generation = wrap32 gen;
  send_message_count = send;
  recv_message_count = recv;
})
watermark_of _ _ _ epoch = none

unfoldable pub ratchet_snapshot_watermark : SnapshotJson → Bytes → Result (Option RatchetWatermark)
unfolding watermark_of
ratchet_snapshot_watermark json bytes = elim (json.read_numbers bytes) [
  | none ↦ err serialization_error
  | some field ↦ ok (
      watermark_of (field (ascii "ratchet_generation")) (field (ascii "send_message_count"))
        (field (ascii "recv_message_count")) (field (ascii "pairing_epoch")))
]

pub dominates_refl : (a : RatchetWatermark) → dominates_or_equals a a ≡ true
unfolding dominates_or_equals
dominates_refl a = ground arith

pub dominates_trans :
    (a b d : RatchetWatermark)
    → dominates_or_equals a b ≡ true
    → dominates_or_equals b d ≡ true
    → dominates_or_equals a d ≡ true
unfolding dominates_or_equals
dominates_trans a b d h k = ground arith

pub dominates_antisym :
    (a b : RatchetWatermark)
    → dominates_or_equals a b ≡ true
    → dominates_or_equals b a ≡ true
    → a ≡ b
unfolding dominates_or_equals
dominates_antisym a b h k = ground arith

-- `is_ahead_of` is the strict part of `dominates_or_equals`.
pub is_ahead_of_strict :
    (a b : RatchetWatermark)
    → is_ahead_of a b ≡ (dominates_or_equals a b && not (dominates_or_equals b a))
unfolding is_ahead_of dominates_or_equals
is_ahead_of_strict a b = ground arith
