-- ===== src/Ratchet/Decrypt/Replay.antt =====
-- A frame that has been delivered is not delivered again.
use kyber_pipe.Base.{
  ℕ, ◌+◌, ◌-◌, ◌^◌, ◌≤◌, ◌<◌, ◌≡◌, refl, ◌∙◌, subst, true, false, inl, inr, Option, none, some, [],
  Bytes, arith, Bool-cases, Option-cases, length, u32_max, wrap64,
}
use kyber_pipe.Error.{Result, Result-cases, ok, err, crypto_error}
use kyber_pipe.Primitives.{Crypto}
use kyber_pipe.Aead.{decrypt_chacha20, generate_nonce_from_seq}
use kyber_pipe.Ratchet.State.{SkipKeyMap, ReplayWindow, DoubleRatchetState}
use kyber_pipe.Ratchet.Policy.{seen_set_max}
use kyber_pipe.Ratchet.Pairs.{set_contains, set_contains-retain}
use kyber_pipe.Ratchet.Window.{record_delivered}
use kyber_pipe.Ratchet.Window.Eviction.{record_delivered_present}
use kyber_pipe.Ratchet.SkipKeys.{try_decrypt_with_cached_key}
use kyber_pipe.Ratchet.Fields.{Outcome}
use kyber_pipe.Ratchet.Receive.{
  validate_and_extract_nonce, try_decrypt_with_chain, try_pending_chain, slide, skip_budget,
  commit_current,
}
use kyber_pipe.Ratchet.Decrypt.{
  Frame, is_previous, frame_of, ratchet_decrypt, with_cache, cached_or_chain, chain_or_pending,
}
use kyber_pipe.Ratchet.Decrypt.Atomic.{Unmoved, try_decrypt_with_chain-Unmoved}
use kyber_pipe.Ratchet.Chain.{msg_key_of, gap_exceeded}
use kyber_pipe.Ratchet.Chain.Steps.{skip_loop-chain}
use kyber_pipe.Ratchet.Decrypt.Path.{
  reaches_cache, refused, chain_key_at, skipped_keys, try_decrypt_with_chain_opens,
  validate_current, validate_seen,
}

-- A session whose window has room, with the usual tolerance, and no rekey of the peer under way.
pub record IsSteady (s : DoubleRatchetState) : Type 0 where
  pub room : length s.replay_window.seen < seen_set_max
  pub tolerant : 0 < s.max_skip
  pub tolerance_fits : s.max_skip < 2 ^ 32
  pub no_pending_chain : s.incoming_proposal.receiving_chain_key ≡ none

-- A delivery has left the pair in the window.
abbrev Remembers : ℕ → ℕ → Outcome Bytes → Type 0
Remembers gen seq (ok p, t) = set_contains (gen, seq) t.replay_window.seen ≡ true
Remembers gen seq (err e, t) = Unit

slide_present :
    (gen seq lower : ℕ) (w : ReplayWindow)
    → lower ≤ seq
    → set_contains (gen, seq) w.seen ≡ true
    → set_contains (gen, seq) (slide gen lower w).seen ≡ true
unfolding slide
slide_present gen seq lower w h e = set_contains-retain (gen, seq) _ w.seen ∙ rw e (ground arith)

module _ (c : Crypto) (s : DoubleRatchetState) (v : IsSteady s) where
  commit_current_present :
      (seq : ℕ) (ck : Bytes) (skip store : SkipKeyMap)
      → seq + 1 < 2 ^ 64
      → set_contains
          (s.ratchet_generation, seq)
          (commit_current c seq ck skip store s).replay_window.seen
        ≡ true
  unfolding commit_current
  commit_current_present seq ck skip store fits =
      slide_present s.ratchet_generation seq (wrap64 (seq + 1) - skip_budget s)
        (record_delivered s.ratchet_generation seq s.replay_window)
        (omega (arith, v.tolerant, v.tolerance_fits))
        (record_delivered_present s.ratchet_generation seq s.replay_window v.room)

  chain-Remembers :
      (seq : ℕ) (nonce ciphertext aad : Bytes)
      → seq + 1 < 2 ^ 64
      → Remembers s.ratchet_generation seq (try_decrypt_with_chain c seq nonce ciphertext aad s)
  chain-Remembers seq nonce ciphertext aad fits = elim (Option-cases s.skip_message_keys) [
    | inl n ↦ unfold try_decrypt_with_chain in ground arith
    | inr (store, hs) ↦ elim (Bool-cases (gap_exceeded s.recv.message_count seq s.max_skip)) [
      | inl far ↦ unfold try_decrypt_with_chain in ground arith
      | inr near ↦
          elim (Result-cases
            (decrypt_chacha20 c (msg_key_of c (chain_key_at c seq s)) nonce ciphertext aad)) [
              | inl (e, failed) ↦
                  unfold try_decrypt_with_chain in
                  ground (
                    arith,
                    skip_loop-chain c s.ratchet_generation (seq - s.recv.message_count)
                        s.recv.message_count s.recv.key [],
                  )
              | inr (p, opens) ↦
                  rw
                    (try_decrypt_with_chain_opens c seq nonce ciphertext aad p store s hs near
                      opens)
                    (commit_current_present seq (chain_key_at c seq s) (skipped_keys c seq s) store
                      fits)
            ]
    ]
  ]

  chain_or_pending-Remembers :
      (f : Frame)
      → f.seq + 1 < 2 ^ 64
      → Remembers s.ratchet_generation f.seq
          (chain_or_pending c f (try_decrypt_with_chain c f.seq f.nonce f.ciphertext f.aad s))
  chain_or_pending-Remembers f fits =
      split (try_decrypt_with_chain c f.seq f.nonce f.ciphertext f.aad s)
        (chain-Remembers f.seq f.nonce f.ciphertext f.aad fits)
        (try_decrypt_with_chain-Unmoved c f.seq f.nonce f.ciphertext f.aad s)
    where
      split :
          (o : Outcome Bytes)
          → Remembers s.ratchet_generation f.seq o
          → Unmoved s o
          → Remembers s.ratchet_generation f.seq (chain_or_pending c f o)
      split (ok p, t) h u = unfold chain_or_pending in h
      split (err e, t) h u =
          unfold chain_or_pending try_pending_chain in rw (u, v.no_pending_chain) tt

  with_cache-Remembers :
      (f : Frame)
      → f.gen ≡ s.ratchet_generation
      → f.seq + 1 < 2 ^ 64
      → (store : Option SkipKeyMap) → Remembers s.ratchet_generation f.seq (with_cache c f store s)
  unfolding with_cache
  with_cache-Remembers f e fits none = tt
  with_cache-Remembers f e fits (some store) =
      split (try_decrypt_with_cached_key c store f.gen f.seq f.nonce f.ciphertext f.aad)
    where
      split :
          (r : Result (Option Bytes) × SkipKeyMap)
          → Remembers s.ratchet_generation f.seq (cached_or_chain c f r s)
      split (err x, m) = tt
      split (ok (some p), m) =
          rw e (record_delivered_present s.ratchet_generation f.seq s.replay_window v.room)
      split (ok none, m) = chain_or_pending-Remembers f fits

  decrypt-Remembers :
      (seq : ℕ) (nonce ciphertext : Bytes)
      → seq + 1 < 2 ^ 64
      → is_previous s.ratchet_generation s ≡ false
      → validate_and_extract_nonce nonce s ≡ ok (s.ratchet_generation, seq)
      → Remembers s.ratchet_generation seq (ratchet_decrypt c nonce ciphertext s)
  unfolding ratchet_decrypt
  decrypt-Remembers seq nonce ciphertext fits other valid =
      rw (reaches_cache c s.ratchet_generation seq nonce ciphertext [] s valid other) (
        with_cache-Remembers (frame_of nonce ciphertext [] (s.ratchet_generation, seq)) refl fits
          s.skip_message_keys)

-- In a session of a generation below 2^32 - 1 that is not the retained one, with room in its
-- replay window, a positive `max_skip` below 2^32 and no pending chain: after a frame of the
-- current generation at a position below 2^64 - 1 has been delivered, by the chain or from the
-- cache, a frame with the same nonce is refused, whatever its ciphertext, and changes nothing.
pub replay_refused :
    (c : Crypto) (s t : DoubleRatchetState) (seq : ℕ) (ciphertext ciphertext' plaintext : Bytes)
    → IsSteady s
    → s.ratchet_generation < u32_max
    → seq + 1 < 2 ^ 64
    → is_previous s.ratchet_generation s ≡ false
    → ratchet_decrypt c (generate_nonce_from_seq seq s.ratchet_generation) ciphertext s
      ≡ (ok plaintext, t)
    → ratchet_decrypt c (generate_nonce_from_seq seq s.ratchet_generation) ciphertext' t
      ≡ (err crypto_error, t)
unfolding ratchet_decrypt
replay_refused c s t seq ciphertext ciphertext' plaintext v small fits other delivered =
    refused c crypto_error nonce ciphertext' [] t
      (validate_seen seq s.ratchet_generation t (omega arith) (omega arith) remembered)
  where
    nonce : Bytes
    nonce = generate_nonce_from_seq seq s.ratchet_generation

    fresh : set_contains (s.ratchet_generation, seq) s.replay_window.seen ≡ false
    fresh = elim (Bool-cases (set_contains (s.ratchet_generation, seq) s.replay_window.seen)) [
      | inl old ↦ cc (
        delivered,
        refused c crypto_error nonce ciphertext [] s
            (validate_seen seq s.ratchet_generation s (omega arith) (omega arith) old),
      )
      | inr new ↦ new
    ]

    remembered : set_contains (s.ratchet_generation, seq) t.replay_window.seen ≡ true
    remembered = subst (Remembers s.ratchet_generation seq) delivered (
        decrypt-Remembers c s v seq nonce ciphertext fits other
          (validate_current seq s.ratchet_generation s refl small (omega arith) fresh))
