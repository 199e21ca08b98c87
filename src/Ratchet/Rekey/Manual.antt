-- ===== src/Ratchet/Rekey/Manual.antt =====
-- What a manual rekey, dh_ratchet_rekey of derive.rs, leads to on the other side.
use kyber_pipe.Base.{ℕ, ◌≡◌, sym, ap, ◌∙◌, true, false, ◌||◌, some, [], ltb, Bytes, arith, inl, inr}
use kyber_pipe.Error.{ok, Result-cases}
use kyber_pipe.Primitives.{Crypto, Entropy}
use kyber_pipe.Kem.{HybridKeyPair, HybridKemResult, encapsulate_hybrid, generate_hybrid_keypair}
use kyber_pipe.Kem.Agreement.{KemLaws}
use kyber_pipe.Tlv.{RatchetEncryptedMessage}
use kyber_pipe.Ratchet.State.{Clock, DoubleRatchetState}
use kyber_pipe.Ratchet.Proposal.{
  commit_pending_rekey, commit_pending_rekey_with_race_resolution, cancel_outgoing_rekey,
  stamp_incoming_proposal_attached_at,
}
use kyber_pipe.Ratchet.Fields.{ProposalKeys, derive_proposal_keys}
use kyber_pipe.Ratchet.Encrypt.{ratchet_encrypt, dh_ratchet_rekey}
use kyber_pipe.Ratchet.Encrypt.Failure.{waited, dh_ratchet_rekey_message}
use kyber_pipe.Ratchet.Rekeyed.{phase_one, stage_incoming, below}
use kyber_pipe.Ratchet.Rekey.Agreement.{staged_there}

-- A commit takes over the keys that were staged.
adopted :
    (now : Clock) (gen seq : ℕ) (xpk mpk : Bytes) (keys : ProposalKeys) (b : DoubleRatchetState)
    → let b' = commit_pending_rekey_with_race_resolution (record b {
      incoming_proposal = stage_incoming now gen seq xpk mpk keys b.incoming_proposal;
    }) in
      (b'.peer_x25519_pk ≡ some xpk) × (b'.peer_mlkem_pk ≡ some mpk)
unfolding commit_pending_rekey_with_race_resolution commit_pending_rekey cancel_outgoing_rekey
    stage_incoming stamp_incoming_proposal_attached_at
adopted now gen seq xpk mpk keys b = ground arith

module _ (c : Crypto) (laws : KemLaws c) where
  encapsulated :
      (r : Entropy) (now : Clock) (xpk mpk : Bytes) (kem : HybridKemResult) (s : DoubleRatchetState)
      {t : DoubleRatchetState}
      → dh_ratchet_rekey c r now xpk mpk s ≡ (ok kem, t)
      → encapsulate_hybrid c r xpk mpk ≡ ok kem
  unfolding dh_ratchet_rekey
  encapsulated r now xpk mpk kem s e = elim (Result-cases (encapsulate_hybrid c r xpk mpk)) [
    | inl (x, failed) ↦ absurd (ground (arith, e, failed))
    | inr (kem', sealed) ↦ ground (arith, e, sealed)
  ]

  -- Over a KEM that meets its laws: `a` rekeys manually towards the generated pair of `b`, on an
  -- empty queue of carriers, and sends a message 15 seconds later or after that. Once `b`, which
  -- has nothing newer staged, has staged the message's rekey fields and committed them, the keys
  -- that `b` holds to be those of its peer are its own.
  pub own_keys_adopted :
      (r r' mine : Entropy) (now later at : Clock) (gen seq : ℕ) (plaintext : Bytes)
      (kem : HybridKemResult) (a b : DoubleRatchetState) {m : RatchetEncryptedMessage}
      {t u : DoubleRatchetState}
      → b.our_hybrid_pair ≡ generate_hybrid_keypair c mine
      → ltb gen b.ratchet_generation || below gen b.incoming_proposal.carrier_gen ≡ false
      → a.rekey_pending_confirm_queue ≡ []
      → dh_ratchet_rekey c r now
          (generate_hybrid_keypair c mine).x25519_pk
          (generate_hybrid_keypair c mine).mlkem_pk
          a
        ≡ (ok kem, t)
      → waited now later ≡ true
      → ratchet_encrypt c r' later plaintext t ≡ (ok m, u)
      → let b' =
          commit_pending_rekey_with_race_resolution
            (phase_one c at gen seq m.rekey_ciphertext m.rekey_x25519_pk m.rekey_mlkem_pk b).1 in
        (b'.peer_x25519_pk ≡ some b.our_hybrid_pair.x25519_pk)
        × (b'.peer_mlkem_pk ≡ some b.our_hybrid_pair.mlkem_pk)
  own_keys_adopted r r' mine now later at gen seq plaintext kem a b {t} pair fresh empty e passed
        sent =
      let own = generate_hybrid_keypair c mine in
      let (fields, x, k, ct) =
        dh_ratchet_rekey_message c r r' now later own.x25519_pk own.mlkem_pk plaintext kem a empty e
          sent in
      let keys : ProposalKeys = derive_proposal_keys c b.root_key kem.combined_shared_secret in
      let (xs, ks) = adopted at gen seq own.x25519_pk own.mlkem_pk keys b in
      rw
        (
          x,
          k,
          ct,
          passed,
          staged_there c laws r mine at gen seq own.x25519_pk own.mlkem_pk kem b pair fresh
              (encapsulated r now own.x25519_pk own.mlkem_pk kem a e),
        )
        (
          xs ∙ ap (λ (p : HybridKeyPair). some p.x25519_pk) (sym pair),
          ks ∙ ap (λ (p : HybridKeyPair). some p.mlkem_pk) (sym pair),
        )
