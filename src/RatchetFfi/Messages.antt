-- ===== src/RatchetFfi/Messages.antt =====
-- core-crypto/src/ratchet_ffi.rs: encryption and decryption by peer.
use kyber_pipe.Base.{
  Bool, not, ◌||◌, Option, none, some, length, is_some, ◌==◌, if◌then◌else◌, Bytes,
}
use kyber_pipe.Error.{Result, ok, err, decryption_failed, carrier_misrouted, invalid_key_length}
use kyber_pipe.Primitives.{Crypto, Entropy}
use kyber_pipe.Tlv.{RatchetEncryptedMessage}
use kyber_pipe.Ratchet.State.{Clock, DoubleRatchetState}
use kyber_pipe.Ratchet.Fields.{Outcome, RekeyFields}
use kyber_pipe.Ratchet.Encrypt.{ratchet_encrypt}
use kyber_pipe.Ratchet.Decrypt.{ratchet_decrypt}
use kyber_pipe.Ratchet.Rekeyed.{ratchet_decrypt_with_rekey}
use kyber_pipe.RatchetFfi.Peers.{PeerIdentity}
use kyber_pipe.RatchetFfi.Registry.{Registry, Reply, with_ratchet_session}

abbrev pub carries_rekey : RatchetEncryptedMessage → Bool
carries_rekey m =
    is_some m.rekey_x25519_pk || is_some m.rekey_mlkem_pk || is_some m.rekey_ciphertext

unfoldable pub ratchet_encrypt_message :
    Crypto → Entropy → Clock → PeerIdentity → Bytes → Registry → Reply RatchetEncryptedMessage
unfolding with_ratchet_session
ratchet_encrypt_message c rng now peer plaintext r =
    with_ratchet_session peer (ratchet_encrypt c rng now plaintext) r

unfoldable pub ratchet_decrypt_message :
    Crypto → PeerIdentity → RatchetEncryptedMessage → Registry → Reply Bytes
unfolding with_ratchet_session
ratchet_decrypt_message c peer m r =
    if carries_rekey m
    then (err carrier_misrouted, r)
    else if not (length m.nonce == 12)
    then (err decryption_failed, r)
    else with_ratchet_session peer (ratchet_decrypt c m.nonce m.ciphertext) r

unfoldable pub ratchet_decrypt_with_rekey_message :
    Crypto → Clock → PeerIdentity → Bytes → Bytes → RekeyFields → Registry → Reply Bytes
unfolding with_ratchet_session
ratchet_decrypt_with_rekey_message c now peer nonce ciphertext fields r =
    if not (length nonce == 12)
    then (err decryption_failed, r)
    else with_ratchet_session peer (ratchet_decrypt_with_rekey c now nonce ciphertext fields) r

-- `try_from` of the bytes of a key, where there are any.
unfoldable pub array32 : Option Bytes → Result (Option Bytes)
array32 none = ok none
array32 (some key) =
    if length key == 32 then ok (some key) else err (invalid_key_length 32 (length key))

-- The dispatch on the rekey fields that the acknowledgement and the Synchronize channel share.
unfoldable pub decrypt_dispatched :
    Crypto → Clock → RatchetEncryptedMessage → DoubleRatchetState → Outcome Bytes
unfolding array32
decrypt_dispatched c now m s =
    if carries_rekey m
    then elim (array32 m.rekey_x25519_pk) [
      | err e ↦ (err e, s)
      | ok xpk ↦
          ratchet_decrypt_with_rekey c now m.nonce m.ciphertext
            (record {
              x25519_pk = xpk;
              mlkem_pk = m.rekey_mlkem_pk;
              ciphertext = m.rekey_ciphertext;
            })
            s
    ]
    else ratchet_decrypt c m.nonce m.ciphertext s
