-- ===== src/Ratchet/Rekeyed.antt =====
-- core-crypto/src/crypto/ratchet/decrypt.rs: the receive entry point that takes rekey fields.
use kyber_pipe.Base.{
  ℕ, Bool, true, false, not, ◌&&◌, ◌||◌, Option, none, some, List, [], ◌∷◌, is_some, ltb,
  if◌then◌else◌, Bytes, bytes_gt, bytes_eq,
}
use kyber_pipe.Error.{Result, ok, err, crypto_error, decapsulation_failed}
use kyber_pipe.Primitives.{Crypto}
use kyber_pipe.Kem.{HybridKeyPair, decapsulate_hybrid}
use kyber_pipe.Ratchet.State.{Clock, IncomingProposal, SkipKeyMap, DoubleRatchetState}
use kyber_pipe.Ratchet.SkipKeys.{try_decrypt_with_cached_key}
use kyber_pipe.Ratchet.Proposal.{
  cancel_outgoing_rekey, cancel_pending_incoming_rekey, stamp_incoming_proposal_attached_at,
}
use kyber_pipe.Ratchet.Fields.{
  Outcome, RekeyFields, build_rekey_aad, ProposalKeys, derive_proposal_keys,
}
use kyber_pipe.Ratchet.Receive.{
  validate_and_extract_nonce, try_decrypt_with_chain, try_pending_chain,
}
use kyber_pipe.Ratchet.Previous.{Delivery}
use kyber_pipe.Ratchet.Decrypt.{Frame, frame_of, previous_path, deliver_skipped}

pub data DecryptOutcome : Type 0 where
  committed skipped proposal_derived replay gap_exceeded : DecryptOutcome

-- The current key pair first, then the retained ones.
unfoldable pub decapsulate_any : Crypto → Bytes → List HybridKeyPair → Result Bytes
decapsulate_any c ct [] = err decapsulation_failed
decapsulate_any c ct (pair ∷ pairs) =
    let rest = decapsulate_any c ct pairs in
    elim (decapsulate_hybrid c ct pair.x25519_sk pair.mlkem_sk) [
      | ok shared ↦ ok shared
      | err e ↦ rest
    ]

abbrev pub below : ℕ → Option ℕ → Bool
below n none = false
below n (some g) = ltb n g

abbrev pub above : ℕ → Option ℕ → Bool
above n none = false
above n (some g) = ltb g n

-- A carrier of a newer generation does not inherit the age of the proposal that it replaces.
unfoldable pub renew_age : ℕ → IncomingProposal → IncomingProposal
renew_age nonce_gen p =
    if above nonce_gen p.carrier_gen
    then record p { attached_at_unix = none; attached_at_mono = none }
    else p

-- The sender's chains with the roles swapped.
unfoldable pub stage_incoming :
    Clock → ℕ → ℕ → Bytes → Bytes → ProposalKeys → IncomingProposal → IncomingProposal
unfolding renew_age
stage_incoming now nonce_gen seq xpk mpk keys p =
    stamp_incoming_proposal_attached_at now (record (renew_age nonce_gen p) {
      root_key = some keys.root;
      sending_chain_key = some keys.receiver;
      receiving_chain_key = some keys.sender;
      peer_x25519_pk = some xpk;
      peer_mlkem_pk = some mpk;
      generation_bump = true;
      carrier_seq = some seq;
      carrier_gen = some nonce_gen;
    })

unfoldable pub derive_incoming :
    Crypto → Clock → ℕ → ℕ → Bytes → Bytes → Bytes → DoubleRatchetState → Outcome (Unit {0})
unfolding stage_incoming derive_proposal_keys decapsulate_any
derive_incoming c now nonce_gen seq ct xpk mpk s =
    if ltb nonce_gen s.ratchet_generation || below nonce_gen s.incoming_proposal.carrier_gen
    then (ok tt, s)
    else elim (decapsulate_any c ct (s.our_hybrid_pair ∷ s.previous_keypairs)) [
      | err e ↦ (err e, s)
      | ok shared ↦ (
        ok tt,
        record s {
          incoming_proposal =
              stage_incoming now nonce_gen seq xpk mpk (derive_proposal_keys c s.root_key shared)
                s.incoming_proposal;
        },
      )
    ]

-- Phase 1.
unfoldable pub phase_one :
    Crypto
    → Clock
    → ℕ
    → ℕ
    → Option Bytes
    → Option Bytes
    → Option Bytes
    → DoubleRatchetState
    → Outcome (Unit {0})
unfolding derive_incoming
phase_one c now nonce_gen seq (some ct) (some xpk) (some mpk) s =
    derive_incoming c now nonce_gen seq ct xpk mpk s
phase_one c now nonce_gen seq _ _ _ s = (ok tt, s)

-- The derived order of (x25519 key, ML-KEM key) tuples.
abbrev pub keys_gt : Bytes × Bytes → Bytes × Bytes → Bool
keys_gt (x, m) (x', m') = bytes_gt x x' || bytes_eq x x' && bytes_gt m m'

unfoldable pub peer_wins : Option (Bytes × Bytes × Bytes) → Option Bytes → Option Bytes → Bool
peer_wins (some (our_xpk, our_mpk, _)) (some peer_xpk) (some peer_mpk) =
    keys_gt (peer_xpk, peer_mpk) (our_xpk, our_mpk)
peer_wins (some _) _ _ = false
peer_wins none _ _ = true

unfoldable pub resolve_rekey_race_and_ack : ℕ → Bool → DoubleRatchetState → DoubleRatchetState
unfolding peer_wins
resolve_rekey_race_and_ack seq has_rekey_payload s =
    let acked = λ (t : DoubleRatchetState). record t { pending_rekey_ack_seq = some seq } in
    if not has_rekey_payload
    then s
    else if not (is_some s.outgoing_proposal.root_key)
    then acked s
    else if peer_wins s.outgoing_proposal.rekey_payload s.incoming_proposal.peer_x25519_pk
        s.incoming_proposal.peer_mlkem_pk
    then acked (cancel_outgoing_rekey s)
    else cancel_pending_incoming_rekey s

abbrev pub Classified : Type 0
Classified = Outcome (Bytes × DecryptOutcome)

-- A success on the current chain or from the cache, or the pending chain.
abbrev pub delivered : ℕ → Bool → DecryptOutcome → Bytes → DoubleRatchetState → Classified
delivered seq rekey plain plaintext s = (
  ok (plaintext, if rekey then proposal_derived else plain),
  resolve_rekey_race_and_ack seq rekey s,
)

abbrev pub as_committed : Outcome Bytes → Classified
as_committed (ok plaintext, s) = (ok (plaintext, committed), s)
as_committed (err e, s) = (err e, s)

unfoldable pub phase_two : Crypto → Frame → Bool → Outcome Bytes → Classified
phase_two c f rekey (ok plaintext, s) = delivered f.seq rekey committed plaintext s
phase_two c f rekey (err e, s) =
    as_committed (try_pending_chain c f.seq f.nonce f.ciphertext f.aad (err e, s) s)

unfoldable pub classified_cache :
    Crypto → Frame → Bool → Result (Option Bytes) × SkipKeyMap → DoubleRatchetState → Classified
unfolding phase_two deliver_skipped
classified_cache c f rekey (err e, store) s = (err e, s)
classified_cache c f rekey (ok (some plaintext), store) s =
    delivered f.seq rekey skipped plaintext (deliver_skipped f store s)
classified_cache c f rekey (ok none, store) s =
    phase_two c f rekey (try_decrypt_with_chain c f.seq f.nonce f.ciphertext f.aad s)

unfoldable pub classified_store :
    Crypto → Frame → Bool → Option SkipKeyMap → DoubleRatchetState → Classified
unfolding classified_cache
classified_store c f rekey none s = (err crypto_error, s)
classified_store c f rekey (some store) s =
    classified_cache c f rekey
      (try_decrypt_with_cached_key c store f.gen f.seq f.nonce f.ciphertext f.aad) s

unfoldable pub behind_phase_one : Crypto → Frame → Bool → Outcome (Unit {0}) → Classified
unfolding classified_store
behind_phase_one c f rekey (err e, s) = (err e, s)
behind_phase_one c f rekey (ok _, s) = classified_store c f rekey s.skip_message_keys s

unfoldable pub classified_frame :
    Crypto → Clock → RekeyFields → Frame → Outcome Delivery → Classified
unfolding behind_phase_one phase_one
classified_frame c now fields f (err e, s) = (err e, s)
classified_frame c now fields f (ok (some (plaintext, from_cache)), s) =
    (ok (plaintext, if from_cache then skipped else committed), s)
classified_frame c now fields f (ok none, s) =
    behind_phase_one c f (is_some fields.ciphertext)
      (phase_one c now f.gen f.seq fields.ciphertext fields.x25519_pk fields.mlkem_pk s)

unfoldable pub classified_at :
    Crypto → Clock → Bytes → Bytes → RekeyFields → ℕ × ℕ → DoubleRatchetState → Classified
unfolding classified_frame previous_path
classified_at c now nonce ciphertext fields at s = elim (build_rekey_aad fields) [
  | err e ↦ (err e, s)
  | ok aad ↦
      classified_frame c now fields (frame_of nonce ciphertext aad at)
        (previous_path c (frame_of nonce ciphertext aad at) s)
]

unfoldable pub ratchet_decrypt_with_rekey_classified :
    Crypto → Clock → Bytes → Bytes → RekeyFields → DoubleRatchetState → Classified
unfolding classified_at
ratchet_decrypt_with_rekey_classified c now nonce ciphertext fields s =
    elim (validate_and_extract_nonce nonce s) [
      | err e ↦ (err e, s)
      | ok at ↦ classified_at c now nonce ciphertext fields at s
    ]

abbrev pub drop_outcome : Classified → Outcome Bytes
drop_outcome (ok (plaintext, _), s) = (ok plaintext, s)
drop_outcome (err e, s) = (err e, s)

unfoldable pub ratchet_decrypt_with_rekey :
    Crypto → Clock → Bytes → Bytes → RekeyFields → DoubleRatchetState → Outcome Bytes
unfolding ratchet_decrypt_with_rekey_classified
ratchet_decrypt_with_rekey c now nonce ciphertext fields s =
    drop_outcome (ratchet_decrypt_with_rekey_classified c now nonce ciphertext fields s)
