-- ===== src/Witness/Messages.antt =====
-- Messages between the two sessions: delivered, out of order, replayed, refused.
use kyber_pipe.Base.{
  ℕ, ◌≡◌, refl, true, none, [], ◌∷◌, Bytes, arith, from_be_bytes, to_be_bytes32, to_be_bytes64,
  ascii,
}
use kyber_pipe.Error.{ok, err, crypto_error, decryption_failed}
use kyber_pipe.Toy.{toy, toy-AeadLaws}
use kyber_pipe.Kem.{generate_hybrid_keypair}
use kyber_pipe.Aead.{encrypt_chacha20, decrypt_chacha20, generate_nonce_from_seq}
use kyber_pipe.Ratchet.Chain.{
  msg_key_of, step_chain, skip_loop, next_chain_of, derive_chain_keys_from_root,
}
use kyber_pipe.Ratchet.Pairs.{set_contains, map_get}
use kyber_pipe.Ratchet.Receive.{
  validate_and_extract_nonce, try_decrypt_with_chain, try_pending_chain,
}
use kyber_pipe.Ratchet.SkipKeys.{try_decrypt_with_cached_key}
use kyber_pipe.Ratchet.Session.{new_with_keypair}
use kyber_pipe.Ratchet.Fields.{Outcome, no_rekey, build_rekey_aad}
use kyber_pipe.Ratchet.Encrypt.{ratchet_encrypt}
use kyber_pipe.Ratchet.Rekeyed.{Classified, ratchet_decrypt_with_rekey_classified}
use kyber_pipe.Ratchet.Decrypt.{ratchet_decrypt}
use kyber_pipe.Ratchet.Decrypt.Traffic.{next_message_delivered, start, lost}
use kyber_pipe.Ratchet.Decrypt.Late.{out_of_order_delivered}
use kyber_pipe.Ratchet.Decrypt.Replay.{replay_refused}
use kyber_pipe.Ratchet.Decrypt.Atomic.{ratchet_decrypt_atomic}
use kyber_pipe.Ratchet.Decrypt.Carrier.{ratchet_decrypt_with_rekey_atomic}
use kyber_pipe.Witness.Sessions.{
  entropy, noon, secret, pair_of, text, alice, alice1, bob, m1, m2, sends, sealed1, sealed2,
  bytes_of, opened_ok,
}

-- The ciphertext of the text at a position of bob's receiving chain.
abbrev sealed_at : ℕ → Bytes
sealed_at j = bytes_of (
    encrypt_chacha20 toy (msg_key_of toy (step_chain toy j bob.recv.key))
      (generate_nonce_from_seq j 0) text [])

-- The first message is lost, the second is opened.
next_message_delivered_example : (ratchet_decrypt toy m2.nonce m2.ciphertext bob).0 ≡ ok text
unfolding ratchet_encrypt new_with_keypair encrypt_chacha20 toy
next_message_delivered_example =
    next_message_delivered toy toy-AeadLaws secret text (pair_of 1) (pair_of 2) none none none true
      (entropy 3) noon m2 {a = alice1} {b = bob} {a2 = (sends alice1).1}
      (lost (entropy 3) noon text start (omega arith)) (omega arith) (omega arith) sealed2

out_of_order_delivered_example :
    ((ratchet_decrypt toy m2.nonce m2.ciphertext bob).0 ≡ ok text)
    × ((ratchet_decrypt toy m1.nonce m1.ciphertext
          (ratchet_decrypt toy m2.nonce m2.ciphertext bob).1).0
        ≡ ok text)
unfolding new_with_keypair
out_of_order_delivered_example =
    out_of_order_delivered toy secret text text (pair_of 1) (pair_of 2) none none none true
      (entropy 3) (entropy 3) noon noon m1 m2 [] {a = alice} {b = bob} {a1 = alice1}
      {a2 = (sends alice1).1} toy-AeadLaws start sealed1 sealed2 (omega arith) (omega arith)
      (omega arith) refl

abbrev bob1 : Outcome Bytes
bob1 = ratchet_decrypt toy m1.nonce m1.ciphertext bob

replay_refused_example :
    ratchet_decrypt toy (generate_nonce_from_seq 0 0) (7 ∷ []) bob1.1 ≡ (err crypto_error, bob1.1)
unfolding ratchet_decrypt ratchet_encrypt new_with_keypair decrypt_chacha20 encrypt_chacha20 toy
    generate_hybrid_keypair validate_and_extract_nonce from_be_bytes generate_nonce_from_seq
    to_be_bytes32 to_be_bytes64 set_contains try_decrypt_with_cached_key map_get
    try_decrypt_with_chain msg_key_of step_chain ascii skip_loop next_chain_of
    derive_chain_keys_from_root try_pending_chain
replay_refused_example =
    replay_refused toy bob bob1.1 0 m1.ciphertext (7 ∷ []) text
      (record {
        room = omega arith;
        tolerant = omega arith;
        tolerance_fits = omega arith;
        no_pending_chain = refl;
      })
      (omega arith) (omega arith) refl (opened_ok bob1 text refl)

-- A frame of the current generation whose ciphertext is no seal.
abbrev forged : Outcome Bytes
forged = ratchet_decrypt toy (generate_nonce_from_seq 3 0) (7 ∷ []) bob

ratchet_decrypt_atomic_example : forged.1 ≡ bob
unfolding ratchet_decrypt new_with_keypair decrypt_chacha20 encrypt_chacha20 toy
    generate_hybrid_keypair validate_and_extract_nonce from_be_bytes generate_nonce_from_seq
    to_be_bytes32 to_be_bytes64 set_contains try_decrypt_with_cached_key map_get
    try_decrypt_with_chain msg_key_of step_chain ascii skip_loop next_chain_of
    derive_chain_keys_from_root try_pending_chain
ratchet_decrypt_atomic_example =
    ratchet_decrypt_atomic toy (generate_nonce_from_seq 3 0) (7 ∷ []) bob forged.1 decryption_failed
      refl

abbrev forged_classified : Classified
forged_classified =
    ratchet_decrypt_with_rekey_classified toy noon (generate_nonce_from_seq 3 0) (7 ∷ []) no_rekey
      bob

ratchet_decrypt_with_rekey_atomic_example :
    forged_classified.1 ≡ record bob { incoming_proposal = forged_classified.1.incoming_proposal }
unfolding ratchet_decrypt_with_rekey_classified build_rekey_aad new_with_keypair decrypt_chacha20
    encrypt_chacha20 toy generate_hybrid_keypair validate_and_extract_nonce from_be_bytes
    generate_nonce_from_seq to_be_bytes32 to_be_bytes64 set_contains try_decrypt_with_cached_key
    map_get try_decrypt_with_chain msg_key_of step_chain ascii skip_loop next_chain_of
    derive_chain_keys_from_root try_pending_chain
ratchet_decrypt_with_rekey_atomic_example =
    ratchet_decrypt_with_rekey_atomic toy noon (generate_nonce_from_seq 3 0) (7 ∷ []) no_rekey bob
      forged_classified.1 decryption_failed refl
