-- ===== src/Ratchet/Decrypt/Carrier.antt =====
-- A refused frame on the path with rekey fields, and which of its carriers touch the slot.
use kyber_pipe.Base.{ℕ, ◌≡◌, refl, subst, Bool, Option, none, some, Bytes, arith}
use kyber_pipe.Error.{Result, ok, err, KyberError}
use kyber_pipe.Primitives.{Crypto}
use kyber_pipe.Ratchet.State.{Clock, SkipKeyMap, DoubleRatchetState}
use kyber_pipe.Ratchet.SkipKeys.{try_decrypt_with_cached_key}
use kyber_pipe.Ratchet.Fields.{Outcome, RekeyFields, build_rekey_aad}
use kyber_pipe.Ratchet.Receive.{validate_and_extract_nonce, try_pending_chain}
use kyber_pipe.Ratchet.Previous.{Delivery}
use kyber_pipe.Ratchet.Decrypt.{Frame, previous_path, frame_of}
use kyber_pipe.Ratchet.Rekeyed.{
  Classified, ratchet_decrypt_with_rekey_classified, phase_one, phase_two, classified_cache,
  classified_store, behind_phase_one, classified_frame, classified_at, as_committed,
}
use kyber_pipe.Ratchet.Decrypt.Atomic.{
  Unmoved, Settled, try_decrypt_with_chain-Unmoved, try_pending_chain-Unmoved,
  previous_path-Settled,
}

-- The incoming slot is all that may differ.
abbrev SlotOnly : DoubleRatchetState → DoubleRatchetState → Type 0
SlotOnly s t = t ≡ record s { incoming_proposal = t.incoming_proposal }

abbrev SlotOnError : {A : Type 0} → DoubleRatchetState → Outcome A → Type 0
SlotOnError s (err e, t) = SlotOnly s t
SlotOnError s (ok a, t) = Unit

module _ (c : Crypto) where
  phase_two-Unmoved :
      (f : Frame) (rekey : Bool) (s : DoubleRatchetState) (o : Outcome Bytes)
      → Unmoved s o
      → Unmoved s (phase_two c f rekey o)
  unfolding phase_two
  phase_two-Unmoved f rekey s (ok p, t) h = tt
  phase_two-Unmoved f rekey s (err e, t) h = rw h (
      committed (try_pending_chain c f.seq f.nonce f.ciphertext f.aad (err e, s) s)
        (try_pending_chain-Unmoved c f.seq f.nonce f.ciphertext f.aad e s))
    where
      committed : (o : Outcome Bytes) → Unmoved s o → Unmoved s (as_committed o)
      committed (ok p, t) u = tt
      committed (err e, t) u = u

  classified_store-Unmoved :
      (f : Frame) (rekey : Bool) (store : Option SkipKeyMap) (s : DoubleRatchetState)
      → Unmoved s (classified_store c f rekey store s)
  unfolding classified_store
  classified_store-Unmoved f rekey none s = refl
  classified_store-Unmoved f rekey (some store) s =
      split (try_decrypt_with_cached_key c store f.gen f.seq f.nonce f.ciphertext f.aad)
    where
      split : (r : Result (Option Bytes) × SkipKeyMap) → Unmoved s (classified_cache c f rekey r s)
      split (err e, m) = refl
      split (ok (some p), m) = tt
      split (ok none, m) =
          phase_two-Unmoved f rekey s _
            (try_decrypt_with_chain-Unmoved c f.seq f.nonce f.ciphertext f.aad s)

  -- Whatever phase 1 does, it does to the slot.
  phase_one-SlotOnly :
      (now : Clock) (gen seq : ℕ) (ct xpk mpk : Option Bytes) (s : DoubleRatchetState)
      → SlotOnly s (phase_one c now gen seq ct xpk mpk s).1
  unfolding phase_one
  phase_one-SlotOnly now gen seq ct xpk mpk s = ground arith

  behind_phase_one-SlotOnError :
      (f : Frame) (rekey : Bool) (s : DoubleRatchetState) (o : Outcome (Unit {0}))
      → SlotOnly s o.1
      → SlotOnError s (behind_phase_one c f rekey o)
  unfolding behind_phase_one
  behind_phase_one-SlotOnError f rekey s (err e, t) h = h
  behind_phase_one-SlotOnError f rekey s (ok u, t) h =
      moved (classified_store c f rekey t.skip_message_keys t)
        (classified_store-Unmoved f rekey t.skip_message_keys t)
    where
      moved : (o : Classified) → Unmoved t o → SlotOnError s o
      moved (ok p, t') u = tt
      moved (err e, t') u = rw u h

  classified_frame-SlotOnError :
      (now : Clock) (fields : RekeyFields) (f : Frame) (s : DoubleRatchetState)
      (o : Outcome Delivery)
      → Settled s o
      → SlotOnError s (classified_frame c now fields f o)
  unfolding classified_frame
  classified_frame-SlotOnError now fields f s (err e, t) h = rw h
  classified_frame-SlotOnError now fields f s (ok (some d), t) h = tt
  classified_frame-SlotOnError now fields f s (ok none, t) h =
      rw h (behind_phase_one-SlotOnError f _ s _ (phase_one-SlotOnly now f.gen f.seq _ _ _ s))

  classified_at-SlotOnError :
      (now : Clock) (nonce ciphertext : Bytes) (fields : RekeyFields) (at : ℕ × ℕ)
      (s : DoubleRatchetState)
      → SlotOnError s (classified_at c now nonce ciphertext fields at s)
  unfolding classified_at
  classified_at-SlotOnError now nonce ciphertext fields at s = split (build_rekey_aad fields)
    where
      split :
          (r : Result Bytes)
          → SlotOnError s (elim r [
            | err e ↦ (err e, s)
            | ok aad ↦
                classified_frame c now fields
                  (frame_of nonce ciphertext aad at)
                  (previous_path c (frame_of nonce ciphertext aad at) s)
          ])
      split (err e) = refl
      split (ok aad) =
          classified_frame-SlotOnError now fields (frame_of nonce ciphertext aad at) s _
            (previous_path-Settled c (frame_of nonce ciphertext aad at) s)

  -- A refused frame on the path with rekey fields changes at most the slot of the incoming
  -- proposal: the chains, the counters, the skipped keys, the replay window and the session's own
  -- proposal are as they were.
  pub ratchet_decrypt_with_rekey_atomic :
      (now : Clock) (nonce ciphertext : Bytes) (fields : RekeyFields) (s t : DoubleRatchetState)
      (e : KyberError)
      → ratchet_decrypt_with_rekey_classified c now nonce ciphertext fields s ≡ (err e, t)
      → t ≡ record s { incoming_proposal = t.incoming_proposal }
  unfolding ratchet_decrypt_with_rekey_classified
  ratchet_decrypt_with_rekey_atomic now nonce ciphertext fields s t e h =
      subst (SlotOnError s) h (split (validate_and_extract_nonce nonce s))
    where
      split :
          (r : Result (ℕ × ℕ))
          → SlotOnError s (elim r [
            | err e ↦ (err e, s)
            | ok at ↦ classified_at c now nonce ciphertext fields at s
          ])
      split (err e) = refl
      split (ok at) = classified_at-SlotOnError now nonce ciphertext fields at s
