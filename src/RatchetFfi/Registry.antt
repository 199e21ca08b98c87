-- ===== src/RatchetFfi/Registry.antt =====
-- core-crypto/src/ratchet_ffi/registry.rs: the sessions of all peers.
-- One call is one step: the locks are taken and released inside it. A lock that a panic has
-- poisoned stays poisoned; no call here panics while it holds the table's lock.
pub mod Watermark
pub mod Import
pub mod Refinement
use kyber_pipe.Base.{
  ℕ, Bool, true, false, not, ◌&&◌, ◌||◌, Option, none, some, List, [], length, is_some, unwrap_or,
  leb, ◌==◌, if◌then◌else◌, Bytes, ascii, saturating_add64, wrap32,
}
use mathlib.Core.Option
use kyber_pipe.Error.{Result, ok, err, crypto_error, serialization_error, invalid_key_length}
use kyber_pipe.Primitives.{Crypto, Entropy}
use kyber_pipe.Aead.{encrypt_chacha20}
use kyber_pipe.Kem.{HybridKeyPair, generate_hybrid_keypair}
use kyber_pipe.Ratchet.State.{Clock, DoubleRatchetState}
use kyber_pipe.Ratchet.Session.{new_with_keypair}
use kyber_pipe.Ratchet.Fields.{Outcome}
use kyber_pipe.Ratchet.Snapshot.{RatchetSnapshot, to_snapshot, from_snapshot}
use kyber_pipe.RatchetFfi.Peers.{PeerIdentity, peer_get, peer_insert, peer_remove, peer_keys}

-- `Arc<Mutex<DoubleRatchetState>>`: the session and whether its lock is poisoned.
pub record Slot : Type 0 where
  pub poisoned : Bool
  pub session : DoubleRatchetState

-- `RATCHET_SESSIONS`: the table and whether its lock is poisoned.
pub record Registry : Type 0 where
  pub poisoned : Bool
  pub sessions : List (PeerIdentity × Slot)

-- What a call gives, and the table behind it.
abbrev pub Reply : Type 0 → Type 0
Reply A = Result A × Registry

-- The crate serde_json: `to_writer` and `from_slice` at the snapshot type, and `from_slice` into a
-- value of which `get(field).and_then(as_u64)` is asked.
pub record SnapshotJson : Type 0 where
  pub write : RatchetSnapshot → Option Bytes
  pub read : Bytes → Option RatchetSnapshot
  pub read_numbers : Bytes → Option (Bytes → Option ℕ)

abbrev mlkem768_public_key_bytes : ℕ
mlkem768_public_key_bytes = 1184

-- An optional argument of one length.
unfoldable pub checked_key : ℕ → Option Bytes → Result (Option Bytes)
checked_key n none = ok none
checked_key n (some pk) =
    if length pk == n then ok (some pk) else err (invalid_key_length n (length pk))

-- `CallerKeypair`: x25519 public and secret, ML-KEM public and secret.
unfoldable pub our_pair :
    Crypto → Entropy → Option (Bytes × Bytes × Bytes × Bytes) → Result HybridKeyPair
our_pair c r none = ok (generate_hybrid_keypair c r)
our_pair c r (some (xpk, xsk, mpk, msk)) =
    if not (length xpk == 32) || not (length xsk == 32)
    then err (invalid_key_length 32 (length xpk))
    else ok (record { x25519_pk = xpk; x25519_sk = xsk; mlkem_pk = mpk; mlkem_sk = msk })

-- The table of `lock()`; a poisoned one is cleared.
unfoldable pub recovered : Registry → Registry
recovered r = if r.poisoned then record r { sessions = [] } else r

unfoldable pub add_session : PeerIdentity → DoubleRatchetState → Registry → Reply (Unit {0})
add_session peer ratchet r = if is_some (peer_get peer r.sessions) then (err crypto_error, r) else (
  ok tt,
  record r {
    sessions = peer_insert peer (record { poisoned = false; session = ratchet }) r.sessions;
  },
)

unfoldable pub ratchet_init_session_with_keypair :
    Crypto
    → Entropy
    → PeerIdentity
    → Bytes
    → Bool
    → Option (Bytes × Bytes × Bytes × Bytes)
    → Option Bytes
    → Option Bytes
    → Registry
    → Reply (Unit {0})
unfolding checked_key our_pair add_session recovered
ratchet_init_session_with_keypair c rng peer master_shared_secret is_initiator our_keypair
      peer_x25519_pk peer_mlkem_pk r =
    elim (checked_key 32 peer_x25519_pk) [
      | err e ↦ (err e, r)
      | ok x25519 ↦ elim (checked_key mlkem768_public_key_bytes peer_mlkem_pk) [
        | err e ↦ (err e, r)
        | ok mlkem ↦ elim (our_pair c rng our_keypair) [
          | err e ↦ (err e, r)
          | ok pair ↦
              add_session peer
                (new_with_keypair c master_shared_secret is_initiator pair x25519 mlkem)
                (recovered r)
        ]
      ]
    ]

unfoldable pub ratchet_init_session :
    Crypto
    → Entropy
    → PeerIdentity
    → Bytes
    → Bool
    → Option Bytes
    → Option Bytes
    → Registry
    → Reply (Unit {0})
unfolding ratchet_init_session_with_keypair
ratchet_init_session c rng peer master_shared_secret is_initiator x25519 mlkem r =
    ratchet_init_session_with_keypair c rng peer master_shared_secret is_initiator none x25519 mlkem
      r

unfoldable pub ratchet_remove_session : PeerIdentity → Registry → Bool × Registry
ratchet_remove_session peer r =
    (is_some (peer_get peer r.sessions), record r { sessions = peer_remove peer r.sessions })

bump_slot : PeerIdentity → Option Slot → Registry → Option ℕ × Registry
bump_slot peer none r = (none, r)
bump_slot peer (some slot) r =
    let epoch = saturating_add64 slot.session.pairing_epoch 1 in
    if slot.poisoned then (none, r) else (
      some epoch,
      record r {
        sessions =
            peer_insert peer
              (record slot { session = record slot.session { pairing_epoch = epoch } }) r.sessions;
      },
    )

unfoldable pub ratchet_bump_pairing_epoch : PeerIdentity → Registry → Option ℕ × Registry
unfolding bump_slot
ratchet_bump_pairing_epoch peer r = bump_slot peer (peer_get peer r.sessions) r

unfoldable pub ratchet_clear_all_sessions : Registry → Registry
ratchet_clear_all_sessions r = record r { sessions = [] }

unfoldable pub ratchet_peer_ids : Registry → List PeerIdentity
ratchet_peer_ids r = peer_keys r.sessions

abbrev pub store_session : {A : Type 0} → PeerIdentity → Slot → Registry → Outcome A → Reply A
store_session peer slot r (result, s) =
    (result, record r { sessions = peer_insert peer (record slot { session = s }) r.sessions })

unfoldable pub use_slot :
    {A : Type 0}
    → PeerIdentity
    → (DoubleRatchetState → Outcome A)
    → Option Slot
    → Registry
    → Reply A
use_slot peer f none r = (err crypto_error, r)
use_slot peer f (some slot) r =
    if slot.poisoned then (err crypto_error, r) else store_session peer slot r (f slot.session)

unfoldable pub with_ratchet_session :
    {A : Type 0} → PeerIdentity → (DoubleRatchetState → Outcome A) → Registry → Reply A
unfolding use_slot
with_ratchet_session peer f r = use_slot peer f (peer_get peer r.sessions) r

export_slot : SnapshotJson → Option Slot → Result (Option Bytes)
export_slot json none = ok none
export_slot json (some slot) =
    if slot.poisoned then err crypto_error else elim (json.write (to_snapshot slot.session)) [
      | none ↦ err serialization_error
      | some bytes ↦ ok (some bytes)
    ]

unfoldable pub ratchet_export_session :
    SnapshotJson → PeerIdentity → Registry → Result (Option Bytes)
unfolding export_slot
ratchet_export_session json peer r = export_slot json (peer_get peer r.sessions)

wrap_bytes : Crypto → Bytes → Bytes → Result (Option Bytes) → Result (Option (Bytes × Bytes))
wrap_bytes c wrap_key nonce (err e) = err e
wrap_bytes c wrap_key nonce (ok none) = ok none
wrap_bytes c wrap_key nonce (ok (some bytes)) = elim (encrypt_chacha20 c wrap_key nonce bytes []) [
  | err e ↦ err e
  | ok ct ↦ ok (some (nonce, ct))
]

-- The nonce is 12 bytes of the random source.
unfoldable pub ratchet_export_session_wrapped :
    Crypto
    → SnapshotJson
    → Bytes
    → PeerIdentity
    → Bytes
    → Registry
    → Result (Option (Bytes × Bytes))
unfolding wrap_bytes ratchet_export_session
ratchet_export_session_wrapped c json nonce peer wrap_key r =
    if not (length wrap_key == 32)
    then err (invalid_key_length 32 (length wrap_key))
    else wrap_bytes c wrap_key nonce (ratchet_export_session json peer r)
