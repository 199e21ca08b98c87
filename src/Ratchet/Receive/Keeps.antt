-- ===== src/Ratchet/Receive/Keeps.antt =====
-- A predicate that the moves of the current and the pending chain keep holds behind every frame.
use kyber_pipe.Base.{ℕ, ◌-◌, inl, inr, Option, none, some, [], Bytes, Bool-cases}
use kyber_pipe.Error.{Result-cases}
use kyber_pipe.Primitives.{Crypto}
use kyber_pipe.Aead.{decrypt_chacha20}
use kyber_pipe.Ratchet.State.{SkipKeyMap, DoubleRatchetState}
use kyber_pipe.Ratchet.Chain.{
  msg_key_of, gap_exceeded, derive_tentative_msg_key, advance_receiving_chain, skip_loop,
}
use kyber_pipe.Ratchet.Proposal.{commit_pending_rekey_with_race_resolution}
use kyber_pipe.Ratchet.Fields.{Outcome}
use kyber_pipe.Ratchet.Receive.{
  commit_current, open_current, with_store_current, try_decrypt_with_chain, commit_pending_chain,
  advance_pending, pending_key, try_pending_chain,
}

module _ (c : Crypto) (P : DoubleRatchetState → Type 0) where
  open_current-keeps :
      ((seq : ℕ) (ck : Bytes) (keys store : SkipKeyMap) (s : DoubleRatchetState)
        → P s
        → P (commit_current c seq ck keys store s))
      → (seq : ℕ) (nonce ciphertext aad : Bytes) (store : SkipKeyMap) (at : Bytes × SkipKeyMap)
        (s : DoubleRatchetState)
      → P s
      → P (open_current c seq nonce ciphertext aad store at s).1
  unfolding open_current
  open_current-keeps moves seq nonce ciphertext aad store (ck, keys) s v =
      elim (Result-cases (decrypt_chacha20 c (msg_key_of c ck) nonce ciphertext aad)) [
        | inl (e, h) ↦ rw (h, open_current) v
        | inr (p, h) ↦ rw (h, open_current) (moves seq ck keys store s v)
      ]

  with_store_current-keeps :
      ((seq : ℕ) (ck : Bytes) (keys store : SkipKeyMap) (s : DoubleRatchetState)
        → P s
        → P (commit_current c seq ck keys store s))
      → (seq : ℕ) (nonce ciphertext aad : Bytes) (store : Option SkipKeyMap)
        (s : DoubleRatchetState)
      → P s
      → P (with_store_current c seq nonce ciphertext aad store s).1
  unfolding with_store_current
  with_store_current-keeps moves seq nonce ciphertext aad none s v = v
  with_store_current-keeps moves seq nonce ciphertext aad (some store) s v =
      elim (Bool-cases (gap_exceeded s.recv.message_count seq s.max_skip)) [
        | inl h ↦ rw h v
        | inr h ↦ rw h (
            open_current-keeps moves seq nonce ciphertext aad store
              (skip_loop c s.ratchet_generation (seq - s.recv.message_count) s.recv.message_count
                s.recv.key [])
              s v)
      ]

  pub try_decrypt_with_chain-keeps :
      ((seq : ℕ) (ck : Bytes) (keys store : SkipKeyMap) (s : DoubleRatchetState)
        → P s
        → P (commit_current c seq ck keys store s))
      → (seq : ℕ) (nonce ciphertext aad : Bytes) (s : DoubleRatchetState) → P s
      → P (try_decrypt_with_chain c seq nonce ciphertext aad s).1
  unfolding try_decrypt_with_chain
  try_decrypt_with_chain-keeps moves seq nonce ciphertext aad s v =
      with_store_current-keeps moves seq nonce ciphertext aad s.skip_message_keys s v

  advance_pending-keeps :
      ((seq : ℕ) (ck : Bytes) (keys : SkipKeyMap) (s : DoubleRatchetState)
        → P s
        → P (commit_pending_chain seq ck keys s))
      → (seq : ℕ) (plaintext : Bytes) (s : DoubleRatchetState) → P s
      → P (advance_pending c seq plaintext s).1
  unfolding advance_pending
  advance_pending-keeps moves seq plaintext s v =
      elim (Result-cases
        (advance_receiving_chain c s.recv.key 0 seq s.ratchet_generation s.max_skip)) [
          | inl (e, h) ↦ rw (h, advance_pending) v
          | inr ((ck, keys), h) ↦ rw (h, advance_pending) (moves seq ck keys s v)
        ]

  pending_key-keeps :
      ((seq : ℕ) (ck : Bytes) (keys : SkipKeyMap) (s : DoubleRatchetState)
        → P s
        → P (commit_pending_chain seq ck keys s))
      → ((s : DoubleRatchetState) → P s → P (commit_pending_rekey_with_race_resolution s))
      → (seq : ℕ) (nonce ciphertext aad : Bytes) (failed : Outcome Bytes) (pending : Option Bytes)
        (s : DoubleRatchetState)
      → P s
      → P failed.1
      → P (pending_key c seq nonce ciphertext aad failed pending s).1
  unfolding pending_key
  pending_key-keeps moves commits seq nonce ciphertext aad failed none s v w = w
  pending_key-keeps moves commits seq nonce ciphertext aad failed (some pending) s v w =
      elim (Result-cases (derive_tentative_msg_key c pending 0 seq s.max_skip)) [
        | inl (e, h) ↦ rw (h, pending_key) w
        | inr (key, h) ↦ elim (Result-cases (decrypt_chacha20 c key nonce ciphertext aad)) [
          | inl (e, h') ↦ rw (h, h', pending_key) w
          | inr (p, h') ↦
              rw (h, h', pending_key)
                (advance_pending-keeps moves seq p (commit_pending_rekey_with_race_resolution s)
                  (commits s v))
        ]
      ]

  pub try_pending_chain-keeps :
      ((seq : ℕ) (ck : Bytes) (keys : SkipKeyMap) (s : DoubleRatchetState)
        → P s
        → P (commit_pending_chain seq ck keys s))
      → ((s : DoubleRatchetState) → P s → P (commit_pending_rekey_with_race_resolution s))
      → (seq : ℕ) (nonce ciphertext aad : Bytes) (failed : Outcome Bytes) (s : DoubleRatchetState)
      → P s
      → P failed.1
      → P (try_pending_chain c seq nonce ciphertext aad failed s).1
  unfolding try_pending_chain
  try_pending_chain-keeps moves commits seq nonce ciphertext aad failed s v w =
      pending_key-keeps moves commits seq nonce ciphertext aad failed
        s.incoming_proposal.receiving_chain_key s v w
