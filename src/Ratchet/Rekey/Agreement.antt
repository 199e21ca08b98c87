-- ===== src/Ratchet/Rekey/Agreement.antt =====
-- The proposal of one side, acknowledged there and committed by the other, moves both sessions to
-- the same generation.
use kyber_pipe.Base.{
  ℕ, ◌≡◌, refl, sym, ◌∙◌, subst, true, false, ◌||◌, ltb, inl, inr, none, some, ◌∷◌, Bytes, arith,
}
use kyber_pipe.Error.{ok, err, Result-cases, KyberError}
use kyber_pipe.Primitives.{Crypto, Entropy}
use kyber_pipe.Kem.{HybridKeyPair, HybridKemResult, encapsulate_hybrid, generate_hybrid_keypair}
use kyber_pipe.Kem.Agreement.{KemLaws, decapsulate_hybrid-encapsulate_hybrid}
use kyber_pipe.Ratchet.State.{Clock, DoubleRatchetState}
use kyber_pipe.Ratchet.Proposal.{
  commit_pending_rekey, commit_pending_rekey_with_race_resolution, commit_outgoing_rekey,
  process_rekey_ack, stamp_incoming_proposal_attached_at, cancel_outgoing_rekey,
}
use kyber_pipe.Ratchet.Fields.{Outcome, RekeyFields, derive_proposal_keys}
use kyber_pipe.Ratchet.Encrypt.{attach, propose, stage_rekey, should_rekey, staged}
use kyber_pipe.Ratchet.Rekeyed.{phase_one, derive_incoming, stage_incoming, below, decapsulate_any}

-- One session is the other with the directions swapped, at the start of a generation.
pub record Mirrored (a b : DoubleRatchetState) : Type 0 where
  pub root : a.root_key ≡ b.root_key
  pub there : a.send.key ≡ b.recv.key
  pub back : a.recv.key ≡ b.send.key
  pub generation : a.ratchet_generation ≡ b.ratchet_generation
  pub a_sent : a.send.message_count ≡ 0
  pub a_received : a.recv.message_count ≡ 0
  pub b_sent : b.send.message_count ≡ 0
  pub b_received : b.recv.message_count ≡ 0
  pub peer_x25519 : b.peer_x25519_pk ≡ some a.our_hybrid_pair.x25519_pk
  pub peer_mlkem : b.peer_mlkem_pk ≡ some a.our_hybrid_pair.mlkem_pk

module _ (c : Crypto) (laws : KemLaws c) where
  -- The fields that carry a proposal, and the proposing state.
  abbrev proposing :
      Entropy → Clock → ℕ → HybridKemResult → DoubleRatchetState → RekeyFields × DoubleRatchetState
  proposing r now seq kem a = stage_rekey c now seq (generate_hybrid_keypair c r) kem a

  attached :
      (r : Entropy) (now : Clock) (seq : ℕ) (pair : HybridKeyPair) (kem : HybridKemResult)
      (a : DoubleRatchetState)
      → should_rekey seq a ≡ true
      → a.peer_x25519_pk ≡ some pair.x25519_pk
      → a.peer_mlkem_pk ≡ some pair.mlkem_pk
      → encapsulate_hybrid c r pair.x25519_pk pair.mlkem_pk ≡ ok kem
      → attach c r now seq none a ≡ staged (proposing r now seq kem a)
  unfolding attach propose
  attached r now seq pair kem a due xpk mpk sealed =
      rw (due, xpk, mpk, sealed, attach, propose) refl

  not_attached :
      (r : Entropy) (now : Clock) (seq : ℕ) (pair : HybridKeyPair) (e : KyberError)
      (a : DoubleRatchetState)
      → should_rekey seq a ≡ true
      → a.peer_x25519_pk ≡ some pair.x25519_pk
      → a.peer_mlkem_pk ≡ some pair.mlkem_pk
      → encapsulate_hybrid c r pair.x25519_pk pair.mlkem_pk ≡ err e
      → attach c r now seq none a ≡ (err e, a)
  unfolding attach propose
  not_attached r now seq pair e a due xpk mpk failed =
      rw (due, xpk, mpk, failed, attach, propose) refl

  -- The other side stages the same keys.
  pub staged_there :
      (r mine : Entropy) (now : Clock) (gen seq : ℕ) (xpk mpk : Bytes) (kem : HybridKemResult)
      (b : DoubleRatchetState)
      → b.our_hybrid_pair ≡ generate_hybrid_keypair c mine
      → ltb gen b.ratchet_generation || below gen b.incoming_proposal.carrier_gen ≡ false
      → encapsulate_hybrid c r
          (generate_hybrid_keypair c mine).x25519_pk
          (generate_hybrid_keypair c mine).mlkem_pk
        ≡ ok kem
      → phase_one c now gen seq (some kem.ciphertext_bytes) (some xpk) (some mpk) b ≡ (
        ok tt,
        record b {
          incoming_proposal =
              stage_incoming now gen seq xpk mpk
                (derive_proposal_keys c b.root_key kem.combined_shared_secret)
                b.incoming_proposal;
        },
      )
  unfolding phase_one derive_incoming decapsulate_any
  staged_there r mine now gen seq xpk mpk kem b pair fresh sealed =
      rw (fresh, opened, phase_one, derive_incoming) refl
    where
      opened :
          decapsulate_any c kem.ciphertext_bytes (b.our_hybrid_pair ∷ b.previous_keypairs)
          ≡ ok kem.combined_shared_secret
      opened =
          rw (pair, decapsulate_hybrid-encapsulate_hybrid c laws r mine kem sealed, decapsulate_any)
            refl

  mirrored :
      (r : Entropy) (now later : Clock) (seq : ℕ) (kem : HybridKemResult) (a b : DoubleRatchetState)
      → a.root_key ≡ b.root_key
      → a.ratchet_generation ≡ b.ratchet_generation
      → should_rekey seq a ≡ true
      → Mirrored (process_rekey_ack seq (proposing r now seq kem a).1).1 (
          commit_pending_rekey_with_race_resolution (record b {
            incoming_proposal =
                stage_incoming later a.ratchet_generation seq
                  (generate_hybrid_keypair c r).x25519_pk
                  (generate_hybrid_keypair c r).mlkem_pk
                  (derive_proposal_keys c b.root_key kem.combined_shared_secret)
                  b.incoming_proposal;
          }))
  unfolding process_rekey_ack commit_outgoing_rekey commit_pending_rekey
      commit_pending_rekey_with_race_resolution stage_rekey stage_incoming
      stamp_incoming_proposal_attached_at should_rekey cancel_outgoing_rekey
  mirrored r now later seq kem a b root gen due = ground arith

  -- What becomes of an attached proposal, once it is acknowledged here and committed there.
  abbrev Agrees : Clock → ℕ → ℕ → DoubleRatchetState → Outcome RekeyFields → Type 0
  Agrees later gen seq b (err e, a1) = Unit
  Agrees later gen seq b (ok fields, a1) = Mirrored (process_rekey_ack seq a1).1 (
      commit_pending_rekey_with_race_resolution
        (phase_one c later gen seq fields.ciphertext fields.x25519_pk fields.mlkem_pk b).1)

  -- Over a KEM that meets its laws, for two sessions on one root and in one generation, of which
  -- `a` knows the public keys of `b`'s generated pair and is due to rekey: if `a` has attached a
  -- proposal to the message `seq`, then, once the acknowledgement of `seq` has come back to `a`,
  -- and `b` has staged the proposal's fields (having nothing of a newer generation staged) and
  -- committed them, the two sessions have one root, each sends on the chain that the other
  -- receives on, all counters are 0, the generations are equal, and `b` knows `a`'s new public
  -- keys.
  pub rekey_agrees :
      (r mine : Entropy) (now later : Clock) (seq : ℕ) (fields : RekeyFields)
      (a b : DoubleRatchetState) {a1 : DoubleRatchetState}
      → a.root_key ≡ b.root_key
      → a.ratchet_generation ≡ b.ratchet_generation
      → b.our_hybrid_pair ≡ generate_hybrid_keypair c mine
      → a.peer_x25519_pk ≡ some (generate_hybrid_keypair c mine).x25519_pk
      → a.peer_mlkem_pk ≡ some (generate_hybrid_keypair c mine).mlkem_pk
      → ltb a.ratchet_generation b.ratchet_generation
          || below a.ratchet_generation b.incoming_proposal.carrier_gen
        ≡ false
      → should_rekey seq a ≡ true
      → attach c r now seq none a ≡ (ok fields, a1)
      → Mirrored (process_rekey_ack seq a1).1 (
          commit_pending_rekey_with_race_resolution
            (phase_one c later a.ratchet_generation seq fields.ciphertext fields.x25519_pk
              fields.mlkem_pk b).1)
  unfolding stage_rekey
  rekey_agrees r mine now later seq fields a b {a1} root gen pair xpk mpk fresh due e =
      elim (Result-cases (
        encapsulate_hybrid c r (generate_hybrid_keypair c mine).x25519_pk
          (generate_hybrid_keypair c mine).mlkem_pk)) [
            | inl (x, failed) ↦ ground (
              arith,
              e,
              not_attached r now seq (generate_hybrid_keypair c mine) x a due xpk mpk failed,
            )
            | inr (kem, sealed) ↦
                subst (Agrees later a.ratchet_generation seq b)
                  (sym
                      (attached r now seq (generate_hybrid_keypair c mine) kem a due xpk mpk sealed)
                    ∙ e)
                  (rw
                    (staged_there r mine later a.ratchet_generation seq
                      (generate_hybrid_keypair c r).x25519_pk (generate_hybrid_keypair c r).mlkem_pk
                      kem b pair fresh sealed)
                    (mirrored r now later seq kem a b root gen due))
          ]
