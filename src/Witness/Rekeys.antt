-- ===== src/Witness/Rekeys.antt =====
-- Proposals, races, stamps and failures, over the toy functions.
use kyber_pipe.Base.{
  ◌+◌, ◌≡◌, ◌≢◌, ◌⊎◌, refl, true, leb, max, ◌-◌, some, none, [], ◌∷◌, Bytes, arith,
}
use kyber_pipe.Primitives.{Crypto}
use kyber_pipe.Error.{Result, ok, err, encapsulation_failed}
use kyber_pipe.Toy.{toy, toy-KemLaws}
use kyber_pipe.Kem.{
  HybridKemResult, generate_hybrid_keypair, encapsulate_hybrid, is_low_order_x25519_point, all_zero,
}
use kyber_pipe.Ratchet.Chain.{step_chain}
use kyber_pipe.Ratchet.State.{Clock, IncomingProposal, DoubleRatchetState, no_incoming, no_outgoing}
use kyber_pipe.Ratchet.Policy.{carrier_effective_age, incoming_proposal_is_stale, as_secs}
use kyber_pipe.Ratchet.Proposal.{
  commit_pending_rekey, commit_pending_rekey_with_race_resolution, process_rekey_ack,
  cancel_pending_incoming_rekey,
}
use kyber_pipe.Ratchet.Session.{new_with_keypair}
use kyber_pipe.Ratchet.Fields.{Outcome, RekeyFields, ProposalKeys, no_rekey}
use kyber_pipe.Ratchet.Encrypt.{
  attach, propose, should_rekey, ratchet_encrypt, dh_ratchet_rekey, first_due,
}
use kyber_pipe.Ratchet.Encrypt.Failure.{failed_rekey_misaligns, announced, dh_ratchet_rekey_message}
use kyber_pipe.Ratchet.Rekeyed.{phase_one, stage_incoming, resolve_rekey_race_and_ack}
use kyber_pipe.Ratchet.Resync.{resync_receiving_chain}
use kyber_pipe.Ratchet.Encrypt.Sealed.{IsSealedUnder}
use kyber_pipe.Ratchet.Rekey.Manual.{own_keys_adopted}
use kyber_pipe.Base.{inl, ascii}
use kyber_pipe.Tlv.{RatchetEncryptedMessage}
use kyber_pipe.Aead.{encrypt_chacha20, generate_nonce_from_seq}
use kyber_pipe.Ratchet.Rekey.Agreement.{Mirrored, rekey_agrees}
use kyber_pipe.Ratchet.Rekey.Race.{Racing, Stands, Yields, one_side-Yields}
use kyber_pipe.Ratchet.Rekey.Stamps.{stage_incoming_stale, committed_stamp_survives}
use kyber_pipe.Witness.Sessions.{
  entropy, noon, secret, pair_of, text, alice, bob, is_ok, message_of, sent_ok,
}

-- A session that knows bob's keys.
abbrev carol : DoubleRatchetState
carol =
    new_with_keypair toy secret true (pair_of 1) (some (pair_of 2).x25519_pk)
      (some (pair_of 2).mlkem_pk)

-- Her proposal on message 100.
abbrev proposal : Outcome RekeyFields
proposal = attach toy (entropy 5) noon 100 none carol

abbrev fields_of : Result RekeyFields → RekeyFields
fields_of (ok f) = f
fields_of (err e) = no_rekey

rekey_agrees_example : Mirrored (process_rekey_ack 100 proposal.1).1 (
    commit_pending_rekey_with_race_resolution
      (phase_one toy noon 0 100
        (fields_of proposal.0).ciphertext
        (fields_of proposal.0).x25519_pk
        (fields_of proposal.0).mlkem_pk
        bob).1)
unfolding new_with_keypair attach propose should_rekey encapsulate_hybrid toy
    generate_hybrid_keypair is_low_order_x25519_point all_zero
rekey_agrees_example =
    rekey_agrees toy toy-KemLaws (entropy 5) (entropy 2) noon noon 100 (fields_of proposal.0) carol
      bob {a1 = proposal.1} refl refl refl refl refl refl refl refl

-- A session whose proposal has the keys `own`, behind a message that proposed `theirs`.
abbrev racing : Bytes → Bytes → DoubleRatchetState
racing own theirs = record bob {
  outgoing_proposal = record no_outgoing {
    root_key = some [];
    rekey_payload = some (own, own, []);
  };
  incoming_proposal = record no_incoming {
    root_key = some [];
    peer_x25519_pk = some theirs;
    peer_mlkem_pk = some theirs;
  };
}

racing_lem : (own theirs : Bytes) → Racing (own, own) (theirs, theirs) (racing own theirs)
racing_lem own theirs = record {
  pending = refl;
  ciphertext = [];
  payload = refl;
  their_x25519 = refl;
  their_mlkem = refl;
}

apart : ◌≢◌ {A = Bytes × Bytes} (1 ∷ [], 1 ∷ []) (2 ∷ [], 2 ∷ [])
apart e = ground arith

one_side-Yields_example :
    (Stands
        (racing (1 ∷ []) (2 ∷ []))
        (resolve_rekey_race_and_ack 7 true (racing (1 ∷ []) (2 ∷ [])))
      × Yields 8
          (racing (2 ∷ []) (1 ∷ []))
          (resolve_rekey_race_and_ack 8 true (racing (2 ∷ []) (1 ∷ []))))
    ⊎ (Yields 7
          (racing (1 ∷ []) (2 ∷ []))
          (resolve_rekey_race_and_ack 7 true (racing (1 ∷ []) (2 ∷ [])))
        × Stands
            (racing (2 ∷ []) (1 ∷ []))
            (resolve_rekey_race_and_ack 8 true (racing (2 ∷ []) (1 ∷ []))))
one_side-Yields_example =
    one_side-Yields (1 ∷ [], 1 ∷ []) (2 ∷ [], 2 ∷ []) 7 8 (racing (1 ∷ []) (2 ∷ []))
      (racing (2 ∷ []) (1 ∷ [])) (racing_lem (1 ∷ []) (2 ∷ [])) (racing_lem (2 ∷ []) (1 ∷ [])) apart

abbrev some_keys : ProposalKeys
some_keys = record { root = 1 ∷ []; sender = 2 ∷ []; receiver = 3 ∷ [] }

abbrev later : Clock
later = record { mono = 70_000_000_000; unix = 1_000_060 }

-- A proposal of generation 3, stamped at noon.
abbrev stamped : IncomingProposal
stamped = record no_incoming {
  root_key = some (1 ∷ []);
  carrier_gen = some 3;
  attached_at_unix = some 1_000_000;
  attached_at_mono = some 10_000_000_000;
}

stage_incoming_stale_example :
    incoming_proposal_is_stale later (stage_incoming noon 4 9 [] [] some_keys stamped)
    ≡ leb 60 (max (later.unix - noon.unix) (as_secs (later.mono - noon.mono)))
stage_incoming_stale_example =
    stage_incoming_stale noon later 4 3 9 [] [] some_keys stamped refl (omega arith)

abbrev stamped_bob : DoubleRatchetState
stamped_bob = record bob { incoming_proposal = stamped }

abbrev emptied_bob : DoubleRatchetState
emptied_bob = commit_pending_rekey stamped_bob

committed_stamp_survives_example :
    let t = record emptied_bob {
      incoming_proposal = stage_incoming later 1 9 [] [] some_keys emptied_bob.incoming_proposal;
    } in
    (incoming_proposal_is_stale later t.incoming_proposal ≡ true)
    × (resync_receiving_chain toy later 40 t
        ≡ resync_receiving_chain toy later 40 (cancel_pending_incoming_rekey t))
committed_stamp_survives_example =
    committed_stamp_survives toy later 40 1 9 10_000_000_000 [] [] some_keys stamped_bob emptied_bob
      refl (omega arith) (inl refl)

-- A KEM that accepts no public key.
abbrev mute : Crypto
mute = record toy { kyber_public_key = λ pk. none }

abbrev first_key : Bytes
first_key = carol.send.key

abbrev due : DoubleRatchetState
due = record carol { send = record { key = step_chain mute 100 first_key; message_count = 100 } }

-- What she sends behind the refusal.
abbrev refused_sent : Outcome RatchetEncryptedMessage
refused_sent =
    ratchet_encrypt mute (entropy 6) noon (9 ∷ [])
      (ratchet_encrypt mute (entropy 5) noon text due).1

refused_sent_ok : is_ok refused_sent.0 ≡ true
unfolding ratchet_encrypt new_with_keypair should_rekey attach propose encapsulate_hybrid toy
    encrypt_chacha20 is_low_order_x25519_point generate_hybrid_keypair all_zero
refused_sent_ok = refl

failed_rekey_misaligns_example :
    ((ratchet_encrypt mute (entropy 5) noon text due).0 ≡ err encapsulation_failed)
    × IsSealedUnder mute
        (step_chain mute 100 first_key)
        (generate_nonce_from_seq (100 + 1) 0)
        (9 ∷ [])
        (message_of refused_sent.0)
unfolding new_with_keypair should_rekey encapsulate_hybrid toy generate_hybrid_keypair
    is_low_order_x25519_point all_zero
failed_rekey_misaligns_example =
    failed_rekey_misaligns mute (entropy 5) (entropy 6) noon noon text (9 ∷ [])
      (pair_of 2).x25519_pk (pair_of 2).mlkem_pk first_key encapsulation_failed due (omega arith)
      (omega arith) refl refl refl refl refl (sent_ok refused_sent refused_sent_ok)

abbrev pub kem_of : Result HybridKemResult → HybridKemResult
kem_of (ok kem) = kem
kem_of (err e) = record { ciphertext_bytes = []; combined_shared_secret = [] }

-- A manual rekey of bob's towards the keys of pair 1.
abbrev manual : Outcome HybridKemResult
manual = dh_ratchet_rekey toy (entropy 6) noon (pair_of 1).x25519_pk (pair_of 1).mlkem_pk bob

-- He waits for 15 seconds and sends a message.
abbrev much_later : Clock
much_later = record { mono = 30_000_000_000; unix = 1_000_020 }

abbrev manual_sent : Outcome RatchetEncryptedMessage
manual_sent = ratchet_encrypt toy (entropy 7) much_later text manual.1

manual_sent_ok : is_ok manual_sent.0 ≡ true
unfolding ratchet_encrypt new_with_keypair dh_ratchet_rekey encapsulate_hybrid toy
    generate_hybrid_keypair is_low_order_x25519_point all_zero first_due attach encrypt_chacha20
    carrier_effective_age ascii
manual_sent_ok = refl

dh_ratchet_rekey_message_example :
    (manual.1.outgoing_proposal.hybrid_pair ≡ some (generate_hybrid_keypair toy (entropy 6)))
    × ((message_of manual_sent.0).rekey_x25519_pk ≡ announced noon much_later (pair_of 1).x25519_pk)
    × ((message_of manual_sent.0).rekey_mlkem_pk ≡ announced noon much_later (pair_of 1).mlkem_pk)
    × ((message_of manual_sent.0).rekey_ciphertext
        ≡ announced noon much_later (kem_of manual.0).ciphertext_bytes)
unfolding new_with_keypair dh_ratchet_rekey encapsulate_hybrid toy generate_hybrid_keypair
    is_low_order_x25519_point all_zero
dh_ratchet_rekey_message_example =
    dh_ratchet_rekey_message toy (entropy 6) (entropy 7) noon much_later (pair_of 1).x25519_pk
      (pair_of 1).mlkem_pk text (kem_of manual.0) bob {m = message_of manual_sent.0} {t = manual.1}
      refl refl (sent_ok manual_sent manual_sent_ok)

abbrev adopting : DoubleRatchetState
adopting =
    commit_pending_rekey_with_race_resolution
      (phase_one toy much_later 0 0 (message_of manual_sent.0).rekey_ciphertext
        (message_of manual_sent.0).rekey_x25519_pk (message_of manual_sent.0).rekey_mlkem_pk
        alice).1

own_keys_adopted_example :
    (adopting.peer_x25519_pk ≡ some alice.our_hybrid_pair.x25519_pk)
    × (adopting.peer_mlkem_pk ≡ some alice.our_hybrid_pair.mlkem_pk)
unfolding new_with_keypair dh_ratchet_rekey encapsulate_hybrid toy generate_hybrid_keypair
    is_low_order_x25519_point all_zero
own_keys_adopted_example =
    own_keys_adopted toy toy-KemLaws (entropy 6) (entropy 7) (entropy 1) noon much_later much_later
      0 0 text (kem_of manual.0) bob alice {m = message_of manual_sent.0} {t = manual.1} refl refl
      refl refl refl (sent_ok manual_sent manual_sent_ok)
