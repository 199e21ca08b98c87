-- ===== src/Ratchet/Decrypt/Keeps.antt =====
-- One rule for the invariants of the receive entry points: a predicate that each transition keeps
-- holds behind every frame, delivered or refused.
use kyber_pipe.Base.{
  ℕ, Bool, true, false, is_some, ltb, ◌||◌, inl, inr, Option, none, some, ◌∷◌, Bytes, Bool-cases,
}
use kyber_pipe.Error.{Result, ok, err, Result-cases}
use kyber_pipe.Primitives.{Crypto}
use kyber_pipe.Ratchet.State.{Clock, SkipKeyMap, DoubleRatchetState}
use kyber_pipe.Ratchet.SkipKeys.{try_decrypt_with_cached_key}
use kyber_pipe.Ratchet.Proposal.{
  commit_pending_rekey_with_race_resolution, cancel_outgoing_rekey, cancel_pending_incoming_rekey,
}
use kyber_pipe.Ratchet.Fields.{
  Outcome, RekeyFields, ProposalKeys, build_rekey_aad, derive_proposal_keys,
}
use kyber_pipe.Ratchet.Receive.{
  validate_and_extract_nonce, try_decrypt_with_chain, try_pending_chain, commit_current,
  commit_pending_chain,
}
use kyber_pipe.Ratchet.Receive.Keeps.{try_decrypt_with_chain-keeps, try_pending_chain-keeps}
use kyber_pipe.Ratchet.Previous.{Delivery, commit_previous, deliver_cached}
use kyber_pipe.Ratchet.Previous.Keeps.{try_decrypt_previous_generation-keeps}
use kyber_pipe.Ratchet.Decrypt.{
  Frame, is_previous, frame_of, deliver_skipped, ratchet_decrypt_with_aad, with_cache,
  cached_or_chain, previous_path, behind_previous, chain_or_pending,
}
use kyber_pipe.Ratchet.Rekeyed.{
  derive_incoming, stage_incoming, decapsulate_any, below, phase_one, phase_two, peer_wins,
  resolve_rekey_race_and_ack, classified_cache, classified_store, behind_phase_one,
  classified_frame, classified_at, ratchet_decrypt_with_rekey_classified, as_committed,
}

-- The transitions of the receive paths, each with its closure.
pub record Closed (c : Crypto) (P : DoubleRatchetState → Type 0) : Type 0 where
  pub current :
      (seq : ℕ) (ck : Bytes) (keys store : SkipKeyMap) (s : DoubleRatchetState)
      → P s
      → P (commit_current c seq ck keys store s)
  pub pending :
      (seq : ℕ) (ck : Bytes) (keys : SkipKeyMap) (s : DoubleRatchetState)
      → P s
      → P (commit_pending_chain seq ck keys s)
  pub commits : (s : DoubleRatchetState) → P s → P (commit_pending_rekey_with_race_resolution s)
  pub skipped :
      (f : Frame) (store : SkipKeyMap) (s : DoubleRatchetState)
      → P s
      → P (deliver_skipped f store s)
  pub previous :
      (gen seq : ℕ) (ck : Bytes) (keys store : SkipKeyMap) (s : DoubleRatchetState)
      → P s
      → P (commit_previous gen seq ck keys store s)
  pub previous_cached :
      (gen seq : ℕ) (store : SkipKeyMap) (s : DoubleRatchetState)
      → P s
      → P (deliver_cached gen seq store s)
  pub staged :
      (now : Clock) (gen seq : ℕ) (xpk mpk : Bytes) (keys : ProposalKeys) (s : DoubleRatchetState)
      → P s
      → P (record s {
        incoming_proposal = stage_incoming now gen seq xpk mpk keys s.incoming_proposal;
      })
  pub cancels_outgoing : (s : DoubleRatchetState) → P s → P (cancel_outgoing_rekey s)
  pub cancels_incoming : (s : DoubleRatchetState) → P s → P (cancel_pending_incoming_rekey s)
  pub acknowledges :
      (seq : ℕ) (s : DoubleRatchetState) → P s → P (record s { pending_rekey_ack_seq = some seq })

module _ (c : Crypto) (P : DoubleRatchetState → Type 0) (k : Closed c P) where
  chain-keeps :
      (f : Frame) (s : DoubleRatchetState)
      → P s
      → P (try_decrypt_with_chain c f.seq f.nonce f.ciphertext f.aad s).1
  chain-keeps f s v =
      try_decrypt_with_chain-keeps c P k.current f.seq f.nonce f.ciphertext f.aad s v

  pending-keeps :
      (f : Frame) (failed : Outcome Bytes) (s : DoubleRatchetState)
      → P s
      → P failed.1
      → P (try_pending_chain c f.seq f.nonce f.ciphertext f.aad failed s).1
  pending-keeps f failed s v w =
      try_pending_chain-keeps c P k.pending k.commits f.seq f.nonce f.ciphertext f.aad failed s v w

  previous_path-keeps : (f : Frame) (s : DoubleRatchetState) → P s → P (previous_path c f s).1
  unfolding previous_path
  previous_path-keeps f s v = elim (Bool-cases (is_previous f.gen s)) [
    | inl h ↦ rw h (
        try_decrypt_previous_generation-keeps c P k.previous k.previous_cached f.gen f.seq f.nonce
          f.ciphertext f.aad s v)
    | inr h ↦ rw h v
  ]

  chain_or_pending-keeps : (f : Frame) (o : Outcome Bytes) → P o.1 → P (chain_or_pending c f o).1
  unfolding chain_or_pending
  chain_or_pending-keeps f (ok p, s) v = v
  chain_or_pending-keeps f (err e, s) v = pending-keeps f (err e, s) s v v

  cached_or_chain-keeps :
      (f : Frame) (r : Result (Option Bytes) × SkipKeyMap) (s : DoubleRatchetState)
      → P s
      → P (cached_or_chain c f r s).1
  unfolding cached_or_chain
  cached_or_chain-keeps f (err e, m) s v = v
  cached_or_chain-keeps f (ok (some p), m) s v = k.skipped f m s v
  cached_or_chain-keeps f (ok none, m) s v =
      chain_or_pending-keeps f (try_decrypt_with_chain c f.seq f.nonce f.ciphertext f.aad s)
        (chain-keeps f s v)

  with_cache-keeps :
      (f : Frame) (store : Option SkipKeyMap) (s : DoubleRatchetState)
      → P s
      → P (with_cache c f store s).1
  unfolding with_cache
  with_cache-keeps f none s v = v
  with_cache-keeps f (some m) s v =
      cached_or_chain-keeps f
        (try_decrypt_with_cached_key c m f.gen f.seq f.nonce f.ciphertext f.aad) s v

  behind_previous-keeps : (f : Frame) (o : Outcome Delivery) → P o.1 → P (behind_previous c f o).1
  unfolding behind_previous
  behind_previous-keeps f (err e, s) v = v
  behind_previous-keeps f (ok (some d), s) v = v
  behind_previous-keeps f (ok none, s) v = with_cache-keeps f s.skip_message_keys s v

  pub ratchet_decrypt_with_aad-keeps :
      (nonce ciphertext aad : Bytes) (s : DoubleRatchetState)
      → P s
      → P (ratchet_decrypt_with_aad c nonce ciphertext aad s).1
  unfolding ratchet_decrypt_with_aad
  ratchet_decrypt_with_aad-keeps nonce ciphertext aad s v =
      elim (Result-cases (validate_and_extract_nonce nonce s)) [
        | inl (e, h) ↦ rw (h, ratchet_decrypt_with_aad) v
        | inr (at, h) ↦
            rw (h, ratchet_decrypt_with_aad)
              (behind_previous-keeps (frame_of nonce ciphertext aad at)
                (previous_path c (frame_of nonce ciphertext aad at) s)
                (previous_path-keeps (frame_of nonce ciphertext aad at) s v))
      ]

  derive_incoming-keeps :
      (now : Clock) (gen seq : ℕ) (ct xpk mpk : Bytes) (s : DoubleRatchetState)
      → P s
      → P (derive_incoming c now gen seq ct xpk mpk s).1
  unfolding derive_incoming
  derive_incoming-keeps now gen seq ct xpk mpk s v =
      elim (Bool-cases
        (ltb gen s.ratchet_generation || below gen s.incoming_proposal.carrier_gen)) [
          | inl h ↦ rw h v
          | inr h ↦
              elim (Result-cases (decapsulate_any c ct (s.our_hybrid_pair ∷ s.previous_keypairs))) [
                | inl (e, h') ↦ rw (h, h', derive_incoming) v
                | inr (shared, h') ↦
                    rw (h, h', derive_incoming)
                      (k.staged now gen seq xpk mpk (derive_proposal_keys c s.root_key shared) s v)
              ]
        ]

  phase_one-keeps :
      (now : Clock) (gen seq : ℕ) (ct xpk mpk : Option Bytes) (s : DoubleRatchetState)
      → P s
      → P (phase_one c now gen seq ct xpk mpk s).1
  unfolding phase_one
  phase_one-keeps now gen seq (some ct) (some xpk) (some mpk) s v =
      derive_incoming-keeps now gen seq ct xpk mpk s v
  phase_one-keeps now gen seq none xpk mpk s v = v
  phase_one-keeps now gen seq (some ct) none mpk s v = v
  phase_one-keeps now gen seq (some ct) (some xpk) none s v = v

  resolve-keeps :
      (seq : ℕ) (rekey : Bool) (s : DoubleRatchetState)
      → P s
      → P (resolve_rekey_race_and_ack seq rekey s)
  unfolding resolve_rekey_race_and_ack
  resolve-keeps seq false s v = v
  resolve-keeps seq true s v = elim (Bool-cases (is_some s.outgoing_proposal.root_key)) [
    | inr idle ↦ rw idle (k.acknowledges seq s v)
    | inl busy ↦
        elim (Bool-cases (
          peer_wins s.outgoing_proposal.rekey_payload s.incoming_proposal.peer_x25519_pk
            s.incoming_proposal.peer_mlkem_pk)) [
              | inl wins ↦
                  rw (busy, wins)
                    (k.acknowledges seq (cancel_outgoing_rekey s) (k.cancels_outgoing s v))
              | inr loses ↦ rw (busy, loses) (k.cancels_incoming s v)
            ]
  ]

  as_committed-keeps : (o : Outcome Bytes) → P o.1 → P (as_committed o).1
  as_committed-keeps (ok p, s) v = v
  as_committed-keeps (err e, s) v = v

  phase_two-keeps :
      (f : Frame) (rekey : Bool) (o : Outcome Bytes) → P o.1 → P (phase_two c f rekey o).1
  unfolding phase_two
  phase_two-keeps f rekey (ok p, s) v = resolve-keeps f.seq rekey s v
  phase_two-keeps f rekey (err e, s) v =
      as_committed-keeps (try_pending_chain c f.seq f.nonce f.ciphertext f.aad (err e, s) s)
        (pending-keeps f (err e, s) s v v)

  classified_cache-keeps :
      (f : Frame) (rekey : Bool) (r : Result (Option Bytes) × SkipKeyMap) (s : DoubleRatchetState)
      → P s
      → P (classified_cache c f rekey r s).1
  unfolding classified_cache
  classified_cache-keeps f rekey (err e, m) s v = v
  classified_cache-keeps f rekey (ok (some p), m) s v =
      resolve-keeps f.seq rekey (deliver_skipped f m s) (k.skipped f m s v)
  classified_cache-keeps f rekey (ok none, m) s v =
      phase_two-keeps f rekey (try_decrypt_with_chain c f.seq f.nonce f.ciphertext f.aad s)
        (chain-keeps f s v)

  classified_store-keeps :
      (f : Frame) (rekey : Bool) (store : Option SkipKeyMap) (s : DoubleRatchetState)
      → P s
      → P (classified_store c f rekey store s).1
  unfolding classified_store
  classified_store-keeps f rekey none s v = v
  classified_store-keeps f rekey (some m) s v =
      classified_cache-keeps f rekey
        (try_decrypt_with_cached_key c m f.gen f.seq f.nonce f.ciphertext f.aad) s v

  behind_phase_one-keeps :
      (f : Frame) (rekey : Bool) (o : Outcome Unit) → P o.1 → P (behind_phase_one c f rekey o).1
  unfolding behind_phase_one
  behind_phase_one-keeps f rekey (err e, s) v = v
  behind_phase_one-keeps f rekey (ok u, s) v =
      classified_store-keeps f rekey s.skip_message_keys s v

  classified_frame-keeps :
      (now : Clock) (fields : RekeyFields) (f : Frame) (o : Outcome Delivery)
      → P o.1
      → P (classified_frame c now fields f o).1
  unfolding classified_frame
  classified_frame-keeps now fields f (err e, s) v = v
  classified_frame-keeps now fields f (ok (some (p, cached)), s) v = v
  classified_frame-keeps now fields f (ok none, s) v =
      behind_phase_one-keeps f (is_some fields.ciphertext)
        (phase_one c now f.gen f.seq fields.ciphertext fields.x25519_pk fields.mlkem_pk s)
        (phase_one-keeps now f.gen f.seq fields.ciphertext fields.x25519_pk fields.mlkem_pk s v)

  pub ratchet_decrypt_with_rekey_classified-keeps :
      (now : Clock) (nonce ciphertext : Bytes) (fields : RekeyFields) (s : DoubleRatchetState)
      → P s
      → P (ratchet_decrypt_with_rekey_classified c now nonce ciphertext fields s).1
  unfolding ratchet_decrypt_with_rekey_classified classified_at
  ratchet_decrypt_with_rekey_classified-keeps now nonce ciphertext fields s v =
      elim (Result-cases (validate_and_extract_nonce nonce s)) [
        | inl (e, h) ↦ rw (h, ratchet_decrypt_with_rekey_classified) v
        | inr (at, h) ↦ elim (Result-cases (build_rekey_aad fields)) [
          | inl (e, h') ↦ rw (h, h', ratchet_decrypt_with_rekey_classified, classified_at) v
          | inr (aad, h') ↦
              rw (h, h', ratchet_decrypt_with_rekey_classified, classified_at)
                (classified_frame-keeps now fields (frame_of nonce ciphertext aad at)
                  (previous_path c (frame_of nonce ciphertext aad at) s)
                  (previous_path-keeps (frame_of nonce ciphertext aad at) s v))
        ]
      ]
