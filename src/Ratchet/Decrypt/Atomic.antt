-- ===== src/Ratchet/Decrypt/Atomic.antt =====
-- A frame that is refused leaves the session as it was.
use kyber_pipe.Base.{ℕ, ◌≡◌, refl, subst, Option, none, some, [], Bytes, arith}
use kyber_pipe.Error.{Result, ok, err, KyberError}
use kyber_pipe.Primitives.{Crypto}
use kyber_pipe.Ratchet.State.{SkipKeyMap, DoubleRatchetState}
use kyber_pipe.Ratchet.Chain.{derive_tentative_msg_key, advance_receiving_chain}
use kyber_pipe.Ratchet.Proposal.{commit_pending_rekey_with_race_resolution}
use kyber_pipe.Ratchet.Fields.{Outcome}
use kyber_pipe.Ratchet.SkipKeys.{try_decrypt_with_cached_key}
use kyber_pipe.Ratchet.Receive.{
  validate_and_extract_nonce, try_decrypt_with_chain, try_pending_chain,
}
use kyber_pipe.Ratchet.Previous.{Delivery, try_decrypt_previous_generation}
use kyber_pipe.Ratchet.Decrypt.{
  Frame, ratchet_decrypt, ratchet_decrypt_with_aad, chain_or_pending, with_cache, cached_or_chain,
  previous_path, behind_previous, frame_of,
}

-- An error comes with the state that the call began with.
abbrev pub Unmoved : {A : Type 0} → DoubleRatchetState → Outcome A → Type 0
Unmoved s (err e, t) = t ≡ s
Unmoved s (ok a, t) = Unit

-- An outcome of the previous-generation path that is no delivery has not moved the session.
abbrev pub Settled : DoubleRatchetState → Outcome Delivery → Type 0
Settled s (err e, t) = t ≡ s
Settled s (ok none, t) = t ≡ s
Settled s (ok (some d), t) = Unit

error-Unmoved :
    {A : Type 0} (s t : DoubleRatchetState) (e : KyberError) (o : Outcome A)
    → Unmoved s o
    → o ≡ (err e, t)
    → t ≡ s
error-Unmoved s t e o u h = subst (Unmoved s) h u

module _ (c : Crypto) where
  pub try_decrypt_with_chain-Unmoved :
      (seq : ℕ) (nonce ciphertext aad : Bytes) (s : DoubleRatchetState)
      → Unmoved s (try_decrypt_with_chain c seq nonce ciphertext aad s)
  unfolding try_decrypt_with_chain
  try_decrypt_with_chain-Unmoved seq nonce ciphertext aad s = ground arith

  -- The gap of the pending chain is tested before the commit, and the commit leaves `max_skip`.
  max_skip-commit :
      (s : DoubleRatchetState) → (commit_pending_rekey_with_race_resolution s).max_skip ≡ s.max_skip
  unfolding commit_pending_rekey_with_race_resolution
  max_skip-commit s = ground arith

  pub try_pending_chain-Unmoved :
      (seq : ℕ) (nonce ciphertext aad : Bytes) (e : KyberError) (s : DoubleRatchetState)
      → Unmoved s (try_pending_chain c seq nonce ciphertext aad (err e, s) s)
  unfolding try_pending_chain derive_tentative_msg_key advance_receiving_chain
  try_pending_chain-Unmoved seq nonce ciphertext aad e s = ground (arith, max_skip-commit s)

  try_decrypt_previous_generation-Unmoved :
      (gen seq : ℕ) (nonce ciphertext aad : Bytes) (s : DoubleRatchetState)
      → Unmoved s (try_decrypt_previous_generation c gen seq nonce ciphertext aad s)
  unfolding try_decrypt_previous_generation
  try_decrypt_previous_generation-Unmoved gen seq nonce ciphertext aad s = ground arith

  chain_or_pending-Unmoved :
      (f : Frame) (s : DoubleRatchetState)
      → Unmoved s
          (chain_or_pending c f (try_decrypt_with_chain c f.seq f.nonce f.ciphertext f.aad s))
  chain_or_pending-Unmoved f s =
      settled (try_decrypt_with_chain c f.seq f.nonce f.ciphertext f.aad s)
        (try_decrypt_with_chain-Unmoved f.seq f.nonce f.ciphertext f.aad s)
    where
      settled : (o : Outcome Bytes) → Unmoved s o → Unmoved s (chain_or_pending c f o)
      settled (ok p, t) h = unfold chain_or_pending in tt
      settled (err e, t) h =
          unfold chain_or_pending in
          rw h (try_pending_chain-Unmoved f.seq f.nonce f.ciphertext f.aad e s)

  with_cache-Unmoved :
      (f : Frame) (store : Option SkipKeyMap) (s : DoubleRatchetState)
      → Unmoved s (with_cache c f store s)
  unfolding with_cache
  with_cache-Unmoved f none s = refl
  with_cache-Unmoved f (some store) s =
      split (try_decrypt_with_cached_key c store f.gen f.seq f.nonce f.ciphertext f.aad)
    where
      split : (r : Result (Option Bytes) × SkipKeyMap) → Unmoved s (cached_or_chain c f r s)
      split (err e, m) = refl
      split (ok (some p), m) = tt
      split (ok none, m) = chain_or_pending-Unmoved f s

  pub previous_path-Settled : (f : Frame) (s : DoubleRatchetState) → Settled s (previous_path c f s)
  unfolding previous_path try_decrypt_previous_generation
  previous_path-Settled f s = ground arith

  behind_previous-Unmoved :
      (f : Frame) (s : DoubleRatchetState) (o : Outcome Delivery)
      → Settled s o
      → Unmoved s (behind_previous c f o)
  unfolding behind_previous
  behind_previous-Unmoved f s (err e, t) h = h
  behind_previous-Unmoved f s (ok (some d), t) h = tt
  behind_previous-Unmoved f s (ok none, t) h = rw h (with_cache-Unmoved f s.skip_message_keys s)

  ratchet_decrypt_with_aad-Unmoved :
      (nonce ciphertext aad : Bytes) (s : DoubleRatchetState)
      → Unmoved s (ratchet_decrypt_with_aad c nonce ciphertext aad s)
  unfolding ratchet_decrypt_with_aad
  ratchet_decrypt_with_aad-Unmoved nonce ciphertext aad s =
      elim (validate_and_extract_nonce nonce s)
        as (λ r. Unmoved s (elim r [
          | err e ↦ (err e, s)
          | ok at ↦
              behind_previous c (frame_of nonce ciphertext aad at)
                (previous_path c (frame_of nonce ciphertext aad at) s)
        ])) [
          | err e ↦ refl
          | ok at ↦
              behind_previous-Unmoved (frame_of nonce ciphertext aad at) s _
                (previous_path-Settled (frame_of nonce ciphertext aad at) s)
        ]

  -- A refused frame leaves the session as it was on the path without rekey fields: no chain has
  -- moved, no skipped key is used up, and a pending proposal stays.
  pub ratchet_decrypt_atomic :
      (nonce ciphertext : Bytes) (s t : DoubleRatchetState) (e : KyberError)
      → ratchet_decrypt c nonce ciphertext s ≡ (err e, t)
      → t ≡ s
  unfolding ratchet_decrypt
  ratchet_decrypt_atomic nonce ciphertext s t e h =
      error-Unmoved s t e (ratchet_decrypt_with_aad c nonce ciphertext [] s)
        (ratchet_decrypt_with_aad-Unmoved nonce ciphertext [] s) h
