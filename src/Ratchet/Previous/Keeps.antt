-- ===== src/Ratchet/Previous/Keeps.antt =====
-- A predicate that the two deliveries of the retained generation keep holds behind every frame.
use kyber_pipe.Base.{ℕ, ◌-◌, ltb, ◌==◌, inl, inr, Option, none, some, Bytes, Bool-cases}
use kyber_pipe.Error.{Result, ok, err, Result-cases}
use kyber_pipe.Primitives.{Crypto}
use kyber_pipe.Aead.{decrypt_chacha20}
use kyber_pipe.Ratchet.State.{SkipKeyMap, DoubleRatchetState}
use kyber_pipe.Ratchet.Pairs.{set_contains}
use kyber_pipe.Ratchet.Chain.{msg_key_of, step_chain, advance_receiving_chain}
use kyber_pipe.Ratchet.SkipKeys.{try_decrypt_with_cached_key}
use kyber_pipe.Ratchet.Fields.{Outcome}
use kyber_pipe.Ratchet.Previous.{
  Delivery, Retained, retained, already_delivered, commit_previous, deliver_cached, open_previous,
  step_previous, cache_or_chain, with_store, when_retained, try_decrypt_previous_generation,
}

module _ (c : Crypto) (P : DoubleRatchetState → Type 0)
    (moves : (gen seq : ℕ) (ck : Bytes) (keys store : SkipKeyMap) (s : DoubleRatchetState)
      → P s
      → P (commit_previous gen seq ck keys store s))
    (hits : (gen seq : ℕ) (store : SkipKeyMap) (s : DoubleRatchetState)
      → P s
      → P (deliver_cached gen seq store s)) where
  open_previous-keeps :
      (kept : Retained) (seq : ℕ) (nonce ciphertext aad : Bytes) (store : SkipKeyMap) (ck : Bytes)
      (keys : SkipKeyMap) (s : DoubleRatchetState)
      → P s
      → P (open_previous c kept seq nonce ciphertext aad store ck keys s).1
  unfolding open_previous
  open_previous-keeps kept seq nonce ciphertext aad store ck keys s v =
      elim (Result-cases (
        decrypt_chacha20 c (msg_key_of c (step_chain c (seq - kept.anchor) kept.key)) nonce
          ciphertext aad)) [
            | inl (e, h) ↦ rw (h, open_previous) v
            | inr (p, h) ↦ rw (h, open_previous) (moves kept.gen seq ck keys store s v)
          ]

  step_previous-keeps :
      (kept : Retained) (seq : ℕ) (nonce ciphertext aad : Bytes) (store : SkipKeyMap)
      (s : DoubleRatchetState)
      → P s
      → P (step_previous c kept seq nonce ciphertext aad store s).1
  unfolding step_previous
  step_previous-keeps kept seq nonce ciphertext aad store s v =
      elim (Bool-cases (set_contains (kept.gen, seq) s.replay_window.seen)) [
        | inl seen ↦ rw seen v
        | inr unseen ↦ elim (Bool-cases (ltb seq kept.anchor)) [
          | inl low ↦ rw (unseen, low) v
          | inr high ↦
              elim (Bool-cases (already_delivered seq s.replay_window.prev_gen_highest_delivered)) [
                | inl late ↦ rw (unseen, high, late) v
                | inr new ↦ rw (unseen, high, new) advanced
              ]
        ]
      ]
    where
      advanced :
          P
            (elim (advance_receiving_chain c kept.key kept.anchor seq kept.gen s.max_skip)
              as (λ _. Outcome Delivery) [
                | err e ↦ (err e, s)
                | ok (next_ck, skip_map) ↦
                    open_previous c kept seq nonce ciphertext aad store next_ck skip_map s
              ]).1
      advanced =
          elim (Result-cases
            (advance_receiving_chain c kept.key kept.anchor seq kept.gen s.max_skip)) [
              | inl (e, h) ↦ rw h v
              | inr ((ck, keys), h) ↦
                  rw h (open_previous-keeps kept seq nonce ciphertext aad store ck keys s v)
            ]

  cache_or_chain-keeps :
      (kept : Retained) (seq : ℕ) (nonce ciphertext aad : Bytes) (store : SkipKeyMap)
      (r : Result (Option Bytes) × SkipKeyMap) (s : DoubleRatchetState)
      → P s
      → P (cache_or_chain c kept seq nonce ciphertext aad store r s).1
  unfolding cache_or_chain
  cache_or_chain-keeps kept seq nonce ciphertext aad store (err e, m) s v = v
  cache_or_chain-keeps kept seq nonce ciphertext aad store (ok none, m) s v =
      step_previous-keeps kept seq nonce ciphertext aad store s v
  cache_or_chain-keeps kept seq nonce ciphertext aad store (ok (some p), m) s v =
      hits kept.gen seq m s v

  with_store-keeps :
      (kept : Retained) (seq : ℕ) (nonce ciphertext aad : Bytes) (store : Option SkipKeyMap)
      (s : DoubleRatchetState)
      → P s
      → P (with_store c kept seq nonce ciphertext aad store s).1
  unfolding with_store
  with_store-keeps kept seq nonce ciphertext aad none s v = v
  with_store-keeps kept seq nonce ciphertext aad (some store) s v =
      cache_or_chain-keeps kept seq nonce ciphertext aad store
        (try_decrypt_with_cached_key c store kept.gen seq nonce ciphertext aad) s v

  when_retained-keeps :
      (kept : Option Retained) (gen seq : ℕ) (nonce ciphertext aad : Bytes) (s : DoubleRatchetState)
      → P s
      → P (when_retained c kept gen seq nonce ciphertext aad s).1
  unfolding when_retained
  when_retained-keeps none gen seq nonce ciphertext aad s v = v
  when_retained-keeps (some kept) gen seq nonce ciphertext aad s v =
      elim (Bool-cases (gen == kept.gen)) [
        | inl h ↦ rw h (with_store-keeps kept seq nonce ciphertext aad s.skip_message_keys s v)
        | inr h ↦ rw h v
      ]

  pub try_decrypt_previous_generation-keeps :
      (gen seq : ℕ) (nonce ciphertext aad : Bytes) (s : DoubleRatchetState)
      → P s
      → P (try_decrypt_previous_generation c gen seq nonce ciphertext aad s).1
  unfolding try_decrypt_previous_generation
  try_decrypt_previous_generation-keeps gen seq nonce ciphertext aad s v =
      when_retained-keeps
        (retained s.previous_recv_chain_key s.previous_recv_anchor s.previous_recv_gen) gen seq
        nonce ciphertext aad s v
