-- ===== src/Ratchet/Encrypt.antt =====
-- core-crypto/src/crypto/ratchet/encrypt.rs and derive.rs: the sending side.
pub mod Plain
pub mod Sealed
pub mod Failure
use kyber_pipe.Base.{
  ℕ, zero, suc, ◌+◌, ◌%◌, Bool, true, false, not, ◌&&◌, ◌||◌, Option, none, some, List, [], ◌∷◌,
  ◌++◌, retain, is_some, is_empty, ltb, leb, ◌==◌, if◌then◌else◌, Bytes, ascii, wrap64, u32_max,
}
use kyber_pipe.Error.{Result, ok, err, ◌>>=◌, crypto_error}
use kyber_pipe.Primitives.{Crypto, Entropy}
use kyber_pipe.Aead.{encrypt_chacha20, generate_nonce_from_seq}
use kyber_pipe.Kem.{HybridKeyPair, HybridKemResult, generate_hybrid_keypair, encapsulate_hybrid}
use kyber_pipe.Tlv.{RatchetEncryptedMessage, count_some}
use kyber_pipe.Ratchet.State.{
  Clock, RekeyCarrier, Chain, IncomingProposal, OutgoingProposal, DoubleRatchetState,
  incoming_is_pending, outgoing_is_pending,
}
use kyber_pipe.Ratchet.Fields.{
  RekeyFields, no_rekey, aad_of, build_rekey_aad, ProposalKeys, derive_proposal_keys,
  stage_outgoing, Outcome,
}
use kyber_pipe.Ratchet.Policy.{carrier_effective_age, rekey_retry_ttl_secs, from_secs}
use kyber_pipe.Ratchet.Chain.{msg_key_of, next_chain_of}

-- The stale carriers go; the first of them is sent again.
unfoldable pub is_due : Clock → RekeyCarrier → Bool
is_due now carrier = leb (from_secs rekey_retry_ttl_secs) (carrier_effective_age now carrier)

unfoldable pub first_due : Clock → List RekeyCarrier → Option RekeyCarrier
unfolding is_due
first_due now [] = none
first_due now (carrier ∷ queue) = if is_due now carrier then some carrier else first_due now queue

unfoldable pub should_rekey : ℕ → DoubleRatchetState → Bool
should_rekey seq s =
    ltb 0 seq
    && seq % s.rekey_interval == 0
    && is_empty s.rekey_pending_confirm_queue
    && not (is_some s.outgoing_proposal.root_key || is_some s.incoming_proposal.root_key)

unfoldable resend_carrier :
    Clock → ℕ → RekeyCarrier → DoubleRatchetState → RekeyFields × DoubleRatchetState
resend_carrier now seq carrier s = (
  record {
    x25519_pk = some carrier.rekey_x25519_pk;
    mlkem_pk = some carrier.rekey_mlkem_pk;
    ciphertext = some carrier.rekey_ciphertext;
  },
  record s {
    rekey_pending_confirm_queue =
        s.rekey_pending_confirm_queue
        ++ record carrier { carrier_seq = seq; attached_at = now.mono; attached_at_unix = now.unix }
          ∷ [];
  },
)

-- The new key pair and the secret are there: the proposal and its carrier.
unfoldable pub stage_rekey :
    Crypto
    → Clock
    → ℕ
    → HybridKeyPair
    → HybridKemResult
    → DoubleRatchetState
    → RekeyFields × DoubleRatchetState
unfolding derive_proposal_keys
stage_rekey c now seq our_new kem s = (
  record {
    x25519_pk = some our_new.x25519_pk;
    mlkem_pk = some our_new.mlkem_pk;
    ciphertext = some kem.ciphertext_bytes;
  },
  record s {
    outgoing_proposal =
        stage_outgoing (derive_proposal_keys c s.root_key kem.combined_shared_secret) our_new
          our_new.x25519_pk our_new.mlkem_pk kem.ciphertext_bytes;
    rekey_pending_confirm_queue =
        s.rekey_pending_confirm_queue
        ++ record {
          carrier_seq = seq;
          attached_at = now.mono;
          attached_at_unix = now.unix;
          first_attached_at = now.mono;
          first_attached_at_unix = now.unix;
          rekey_x25519_pk = our_new.x25519_pk;
          rekey_mlkem_pk = our_new.mlkem_pk;
          rekey_ciphertext = kem.ciphertext_bytes;
        }
          ∷ [];
  },
)

abbrev pub staged : RekeyFields × DoubleRatchetState → Outcome RekeyFields
staged (f, s) = (ok f, s)

unfoldable pub propose :
    Crypto
    → Entropy
    → Clock
    → ℕ
    → Option Bytes
    → Option Bytes
    → DoubleRatchetState
    → Outcome RekeyFields
unfolding stage_rekey
propose c r now seq (some peer_xpk) (some peer_mpk) s =
    elim (encapsulate_hybrid c r peer_xpk peer_mpk) [
      | err e ↦ (err e, s)
      | ok kem ↦ staged (stage_rekey c now seq (generate_hybrid_keypair c r) kem s)
    ]
propose c r now seq _ _ s = (ok no_rekey, s)

unfoldable pub attach :
    Crypto → Entropy → Clock → ℕ → Option RekeyCarrier → DoubleRatchetState → Outcome RekeyFields
unfolding propose should_rekey resend_carrier
attach c r now seq (some carrier) s = staged (resend_carrier now seq carrier s)
attach c r now seq none s =
    if should_rekey seq s
    then propose c r now seq s.peer_x25519_pk s.peer_mlkem_pk s
    else (ok no_rekey, s)

-- From the associated data on: the chain steps before the message is sealed.
unfoldable pub seal_message :
    Crypto
    → Bytes
    → Bytes
    → RekeyFields
    → Bytes
    → DoubleRatchetState
    → Outcome RatchetEncryptedMessage
seal_message c nonce plaintext f aad s =
    let stepped = record s { send = record s.send { key = next_chain_of c s.send.key } } in
    elim (encrypt_chacha20 c (msg_key_of c s.send.key) nonce plaintext aad) [
      | err e ↦ (err e, stepped)
      | ok ciphertext ↦ (
        ok (record {
          nonce = nonce;
          ciphertext = ciphertext;
          rekey_x25519_pk = f.x25519_pk;
          rekey_mlkem_pk = f.mlkem_pk;
          rekey_ciphertext = f.ciphertext;
        }),
        stepped,
      )
    ]

unfoldable pub finish :
    Crypto → Bytes → Bytes → Outcome RekeyFields → Outcome RatchetEncryptedMessage
unfolding build_rekey_aad seal_message
finish c nonce plaintext (err e, s) = (err e, s)
finish c nonce plaintext (ok f, s) = elim (build_rekey_aad f) [
  | err e ↦ (err e, s)
  | ok aad ↦ seal_message c nonce plaintext f aad s
]

unfoldable pub ratchet_encrypt :
    Crypto → Entropy → Clock → Bytes → DoubleRatchetState → Outcome RatchetEncryptedMessage
unfolding attach finish first_due
ratchet_encrypt c r now plaintext s =
    let seq = s.send.message_count in
    let counted = record s { send = record s.send { message_count = wrap64 (seq + 1) } } in
    let fresh = record counted {
      rekey_pending_confirm_queue =
          retain (λ carrier. not (is_due now carrier)) s.rekey_pending_confirm_queue;
    } in
    if s.ratchet_generation == u32_max
    then (err crypto_error, counted)
    else finish c (generate_nonce_from_seq seq s.ratchet_generation) plaintext
        (attach c r now seq (first_due now s.rekey_pending_confirm_queue) fresh)

-- `dh_ratchet_rekey` of derive.rs. Its carrier repeats the peer's keys, and has sequence 0 until a
-- message takes it.
unfoldable pub dh_ratchet_rekey :
    Crypto → Entropy → Clock → Bytes → Bytes → DoubleRatchetState → Outcome HybridKemResult
unfolding derive_proposal_keys
dh_ratchet_rekey c r now peer_x25519_pk peer_mlkem_pk s =
    if outgoing_is_pending s.outgoing_proposal
    then (err crypto_error, s)
    else if incoming_is_pending s.incoming_proposal
    then (err crypto_error, s)
    else elim (encapsulate_hybrid c r peer_x25519_pk peer_mlkem_pk) [
      | err e ↦ (err e, s)
      | ok kem ↦ (
        ok kem,
        record s {
          outgoing_proposal =
              stage_outgoing (derive_proposal_keys c s.root_key kem.combined_shared_secret)
                (generate_hybrid_keypair c r) peer_x25519_pk peer_mlkem_pk kem.ciphertext_bytes;
          rekey_pending_confirm_queue =
              s.rekey_pending_confirm_queue
              ++ record {
                carrier_seq = 0;
                attached_at = now.mono;
                attached_at_unix = now.unix;
                first_attached_at = now.mono;
                first_attached_at_unix = now.unix;
                rekey_x25519_pk = peer_x25519_pk;
                rekey_mlkem_pk = peer_mlkem_pk;
                rekey_ciphertext = kem.ciphertext_bytes;
              }
                ∷ [];
        },
      )
    ]
