-- ===== src/Witness/Sync.antt =====
-- The acknowledgement and the Synchronize channel, over the toy functions.
use kyber_pipe.Base.{
  ◌≡◌, inl, refl, Bool, true, false, Option, none, some, [], ◌∷◌, Bytes, arith, ◌==◌, if◌then◌else◌,
  to_be_bytes32, from_be_bytes,
}
use kyber_pipe.Error.{Result, ok, err, crypto_error, cross_generation_resync_required}
use kyber_pipe.Toy.{toy, toy-AeadLaws}
use kyber_pipe.Ratchet.Decrypt.Traffic.{start, lost, next_message_delivered}
use kyber_pipe.Aead.{encrypt_chacha20}
use kyber_pipe.Packets.{KyberMessage, PacketJson, rekey_ack, synchronize}
use kyber_pipe.Tlv.{
  RatchetEncryptedMessage, from_binary, to_binary, take_byte, read_bytes, take_bytes,
}
use kyber_pipe.Ratchet.State.{DoubleRatchetState}
use kyber_pipe.Ratchet.Session.{new_with_keypair}
use kyber_pipe.Ratchet.Proposal.{commit_pending_rekey, take_pending_rekey_ack_seq}
use kyber_pipe.Ratchet.Encrypt.{ratchet_encrypt}
use kyber_pipe.Ratchet.Decrypt.{ratchet_decrypt}
use kyber_pipe.Ratchet.Receive.{validate_and_extract_nonce}
use kyber_pipe.Ratchet.Fields.{Outcome}
use kyber_pipe.RatchetFfi.Messages.{decrypt_dispatched}
use kyber_pipe.RatchetFfi.Peers.{peer_get}
use kyber_pipe.RatchetFfi.RekeyAck.{peek, consume}
use kyber_pipe.RatchetFfi.RekeyAck.Peek.{peek_idempotent, consumed_ack_returns}
use kyber_pipe.RatchetFfi.Sync.{SyncTables, verify}
use kyber_pipe.RatchetFfi.Sync.Process.{apply_sync, ratchet_process_synchronize}
use kyber_pipe.RatchetFfi.Sync.Limits.{Bounded, process_synchronize_bounds}
use kyber_pipe.RatchetFfi.Sync.Refusals.{SameAt, refused_sync_costs_nothing}
use kyber_pipe.Base.{◌≢◌}
use kyber_pipe.Aead.{generate_nonce_from_seq}
use kyber_pipe.RatchetFfi.Messages.{carries_rekey}
use kyber_pipe.RatchetFfi.Sync.Commit.{Trial, apply_sync-Trial, attempt_for, refused_in_place_moves}
use kyber_pipe.Witness.Sessions.{
  entropy, noon, secret, pair_of, alice, alice1, bob, m2, text, bytes_of, opened_ok, sends, sealed2,
}
use kyber_pipe.Witness.Registry.{peer, one_session}

-- Two bytes for the packets with a number.
abbrev write_packet : KyberMessage → Option Bytes
write_packet (rekey_ack n) = some (1 ∷ n ∷ [])
write_packet (synchronize n) = some (2 ∷ n ∷ [])
write_packet _ = none

abbrev read_packet : Bytes → Option KyberMessage
read_packet (k ∷ n ∷ []) =
    if k == 1 then some (rekey_ack n) else if k == 2 then some (synchronize n) else none
read_packet _ = none

abbrev toy_json : PacketJson
toy_json = record {
  write = write_packet;
  read = read_packet;
  from_utf8 = λ bytes. some bytes;
  from_utf8_lossy = λ bytes. bytes;
}

-- A session that owes an acknowledgement for message 5.
abbrev owing : DoubleRatchetState
owing = record alice {
  pending_rekey_ack_seq = some 5;
  incoming_proposal = record alice.incoming_proposal { carrier_seq = some 5 };
}

abbrev peeked : Outcome (Option Bytes)
peeked = peek toy toy_json (entropy 3) noon owing

abbrev bytes_peeked : Result (Option Bytes) → Bytes
bytes_peeked (ok (some bin)) = bin
bytes_peeked _ = []

abbrev has_bytes : Result (Option Bytes) → Bool
has_bytes (ok (some bin)) = true
has_bytes _ = false

peeked_ok :
    (o : Outcome (Option Bytes)) → has_bytes o.0 ≡ true → o ≡ (ok (some (bytes_peeked o.0)), o.1)
peeked_ok (ok (some bin), s) h = refl
peeked_ok (ok none, s) h = ground arith
peeked_ok (err e, s) h = ground arith

has_peeked : has_bytes peeked.0 ≡ true
unfolding peek ratchet_encrypt new_with_keypair encrypt_chacha20 toy to_binary
has_peeked = refl

peek_idempotent_example :
    peek toy toy_json (entropy 9) (record { mono = 0; unix = 0 }) peeked.1
    ≡ (ok (some (bytes_peeked peeked.0)), peeked.1)
peek_idempotent_example =
    peek_idempotent toy toy_json (entropy 3) (entropy 9) noon (record { mono = 0; unix = 0 }) owing
      (peeked_ok peeked has_peeked)

consumed_ack_returns_example :
    ((consume owing).0 ≡ ok true)
    × ((consume owing).1.pending_rekey_ack_seq ≡ none)
    × ((commit_pending_rekey (consume owing).1).pending_rekey_ack_seq ≡ some 5)
    × ((commit_pending_rekey (take_pending_rekey_ack_seq owing).1).pending_rekey_ack_seq ≡ none)
consumed_ack_returns_example = consumed_ack_returns 5 owing refl refl

-- A Synchronize frame of position 300, which bob cannot open.
abbrev far : RatchetEncryptedMessage
far = record {
  nonce = 0 ∷ 0 ∷ 0 ∷ 0 ∷ 0 ∷ 0 ∷ 0 ∷ 0 ∷ 0 ∷ 0 ∷ 1 ∷ 44 ∷ [];
  ciphertext = text;
  rekey_x25519_pk = none;
  rekey_mlkem_pk = none;
  rekey_ciphertext = none;
}

apply_sync-Trial_example :
    Trial toy_json 300 bob
      (attempt_for toy noon 0 300 bob)
      (decrypt_dispatched toy noon far (attempt_for toy noon 0 300 bob).1)
      (apply_sync toy toy_json noon far 0 300 bob)
unfolding new_with_keypair
apply_sync-Trial_example =
    apply_sync-Trial toy toy_json noon far 0 300 bob (omega arith) (inl (refl, omega arith))

abbrev tables : SyncTables
tables = record { last_sync_at = []; applied = []; registry = one_session bob }

empty-Bounded : Bounded tables peer
unfolding peer_get
empty-Bounded = record { few_stamps = omega arith; few_entries = omega arith }

-- The same of generation 7.
abbrev far_bytes : Bytes
far_bytes =
    bytes_of (to_binary (record far { nonce = 0 ∷ 0 ∷ 0 ∷ 7 ∷ 0 ∷ 0 ∷ 0 ∷ 0 ∷ 0 ∷ 0 ∷ 0 ∷ 1 ∷ [] }))

process_synchronize_bounds_example :
    Bounded (ratchet_process_synchronize toy toy_json noon peer far_bytes tables).1 peer
process_synchronize_bounds_example =
    process_synchronize_bounds toy toy_json noon peer peer far_bytes tables empty-Bounded

far_refused :
    (ratchet_process_synchronize toy toy_json noon peer far_bytes tables).0
    ≡ err cross_generation_resync_required
unfolding ratchet_process_synchronize toy from_binary to_binary take_byte read_bytes take_bytes
    to_be_bytes32 from_be_bytes peer_get new_with_keypair ratchet_decrypt validate_and_extract_nonce
far_refused = refl

refused_sync_costs_nothing_example :
    SameAt 20_000_000_000 peer tables
      (ratchet_process_synchronize toy toy_json noon peer far_bytes tables).1
refused_sync_costs_nothing_example =
    refused_sync_costs_nothing 20_000_000_000 peer toy toy_json noon peer far_bytes tables
      (omega arith) far_refused

abbrev opened1 : Outcome Bytes
opened1 = ratchet_decrypt toy m2.nonce m2.ciphertext bob

text_opened : opened1.0 ≡ ok text
unfolding ratchet_encrypt new_with_keypair encrypt_chacha20 toy
text_opened =
    next_message_delivered toy toy-AeadLaws secret text (pair_of 1) (pair_of 2) none none none true
      (entropy 3) noon m2 {a = alice1} {b = bob} {a2 = (sends alice1).1}
      (lost (entropy 3) noon text start (omega arith)) (omega arith) (omega arith) sealed2

text_no_packet : verify toy_json 1 text ≡ err crypto_error
unfolding verify
text_no_packet = refl

m2-plain : (carries_rekey m2 ≡ false) × (m2.nonce ≡ generate_nonce_from_seq 1 0)
unfolding ratchet_encrypt new_with_keypair encrypt_chacha20 toy
m2-plain = (refl, refl)

refused_in_place_moves_example :
    (apply_sync toy toy_json noon m2 0 1 bob ≡ (err crypto_error, opened1.1))
    × (opened1.1 ≢ bob)
    × (decrypt_dispatched toy noon m2 opened1.1 ≡ (err crypto_error, opened1.1))
unfolding new_with_keypair
refused_in_place_moves_example =
    refused_in_place_moves toy toy_json noon noon m2 1 bob
      (record {
        room = omega arith;
        tolerant = omega arith;
        tolerance_fits = omega arith;
        no_pending_chain = refl;
      })
      (omega arith) (omega arith) refl (omega arith) m2-plain.0 m2-plain.1
      (opened_ok opened1 text text_opened) text_no_packet
