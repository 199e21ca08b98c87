-- ===== src/RatchetFfi/Registry/Import.antt =====
-- core-crypto/src/ratchet_ffi/registry.rs: the import of a stored session, and its guard.
pub mod Monotone
pub mod Race
use kyber_pipe.Base.{Bool, true, false, not, Option, none, some, if◌then◌else◌, ◌==◌, Bytes}
use mathlib.Core.Option
use kyber_pipe.Error.{ok, err, serialization_error}
use kyber_pipe.Ratchet.State.{Clock, DoubleRatchetState}
use kyber_pipe.Ratchet.Snapshot.{RatchetSnapshot, from_snapshot}
use kyber_pipe.RatchetFfi.Peers.{PeerIdentity, peer_get, peer_insert}
use kyber_pipe.RatchetFfi.Registry.{Registry, Slot, SnapshotJson, Reply}
use kyber_pipe.RatchetFfi.Registry.Watermark.{
  RatchetWatermark, of_snapshot, from_live, dominates_or_equals,
}

-- Whether the import must be refused. A session whose lock is poisoned may be replaced.
unfoldable pub refused_for : Option Slot → RatchetWatermark → Bool
refused_for none snap_wm = false
refused_for (some slot) snap_wm =
    if slot.poisoned
    then false
    else if not ((from_live slot.session).pairing_epoch == snap_wm.pairing_epoch)
    then true
    else not (dominates_or_equals snap_wm (from_live slot.session))

unfoldable pub import_watermark_guard : PeerIdentity → RatchetWatermark → Registry → Bool
unfolding refused_for
import_watermark_guard peer snap_wm r = refused_for (peer_get peer r.sessions) snap_wm

-- Behind the guard; the locks of the guard are free by then.
unfoldable pub import_insert : PeerIdentity → DoubleRatchetState → Registry → Registry
import_insert peer ratchet r = record r {
  sessions = peer_insert peer (record { poisoned = false; session = ratchet }) r.sessions;
}

unfoldable pub import_snapshot :
    Clock → PeerIdentity → RatchetSnapshot → Registry → Option (Reply (Unit {0}))
unfolding import_watermark_guard import_insert
import_snapshot now peer snap r =
    if import_watermark_guard peer (of_snapshot snap) r
    then some (ok tt, r)
    else Option.map (λ ratchet. (ok tt, import_insert peer ratchet r)) (from_snapshot now snap)

unfoldable pub import_read :
    Clock → PeerIdentity → Option RatchetSnapshot → Registry → Option (Reply (Unit {0}))
unfolding import_snapshot
import_read now peer none r = some (err serialization_error, r)
import_read now peer (some snap) r = import_snapshot now peer snap r

-- `none` is the panic of `from_snapshot`, with no lock held.
unfoldable pub ratchet_import_session :
    SnapshotJson → Clock → PeerIdentity → Bytes → Registry → Option (Reply (Unit {0}))
unfolding import_read
ratchet_import_session json now peer bytes r = import_read now peer (json.read bytes) r
