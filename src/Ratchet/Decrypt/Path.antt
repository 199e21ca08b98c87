-- ===== src/Ratchet/Decrypt/Path.antt =====
-- The way of a frame through the receive path, where it is opened by the current chain or by a
-- cached key.
use kyber_pipe.Base.{ℕ, ◌-◌, ◌^◌, ◌<◌, ◌≡◌, true, false, none, some, [], Bytes, arith, u32_max}
use kyber_pipe.Error.{ok, err, crypto_error, KyberError}
use kyber_pipe.Primitives.{Crypto}
use kyber_pipe.Aead.{decrypt_chacha20, generate_nonce_from_seq}
use kyber_pipe.Aead.RoundTrip.{gen-generate_nonce_from_seq, seq-generate_nonce_from_seq}
use kyber_pipe.Ratchet.State.{SkipKeyMap, DoubleRatchetState}
use kyber_pipe.Ratchet.Pairs.{set_contains, map_get, map_remove}
use kyber_pipe.Ratchet.Chain.{msg_key_of, step_chain, skip_loop, gap_exceeded}
use kyber_pipe.Ratchet.Chain.Steps.{skip_loop-chain}
use kyber_pipe.Ratchet.SkipKeys.{try_decrypt_with_cached_key}
use kyber_pipe.Ratchet.Receive.{validate_and_extract_nonce, try_decrypt_with_chain, commit_current}
use kyber_pipe.Ratchet.Decrypt.{
  Frame, is_previous, frame_of, deliver_skipped, ratchet_decrypt_with_aad, with_cache,
  previous_path,
}

-- The nonce of a message of the current generation passes, if the pair has not been seen.
pub validate_current :
    (seq gen : ℕ) (s : DoubleRatchetState)
    → s.ratchet_generation ≡ gen
    → gen < u32_max
    → seq < 2 ^ 64
    → set_contains (gen, seq) s.replay_window.seen ≡ false
    → validate_and_extract_nonce (generate_nonce_from_seq seq gen) s ≡ ok (gen, seq)
unfolding validate_and_extract_nonce
validate_current seq gen s e small fits unseen =
    rw
      (
        gen-generate_nonce_from_seq seq gen (omega arith),
        seq-generate_nonce_from_seq seq gen fits,
        e,
        unseen,
      )
      (ground arith)

-- And is refused, if it has.
pub validate_seen :
    (seq gen : ℕ) (s : DoubleRatchetState)
    → gen < 2 ^ 32
    → seq < 2 ^ 64
    → set_contains (gen, seq) s.replay_window.seen ≡ true
    → validate_and_extract_nonce (generate_nonce_from_seq seq gen) s ≡ err crypto_error
unfolding validate_and_extract_nonce
validate_seen seq gen s small fits seen =
    rw (gen-generate_nonce_from_seq seq gen small, seq-generate_nonce_from_seq seq gen fits, seen)
      (ground arith)

module _ (c : Crypto) where
  -- The chain key at the frame's position.
  abbrev pub chain_key_at : ℕ → DoubleRatchetState → Bytes
  chain_key_at seq s = step_chain c (seq - s.recv.message_count) s.recv.key

  abbrev pub skipped_keys : ℕ → DoubleRatchetState → SkipKeyMap
  skipped_keys seq s =
      (skip_loop c s.ratchet_generation (seq - s.recv.message_count) s.recv.message_count s.recv.key
        []).1

  pub try_decrypt_with_chain_opens :
      (seq : ℕ) (nonce ciphertext aad plaintext : Bytes) (store : SkipKeyMap)
      (s : DoubleRatchetState)
      → s.skip_message_keys ≡ some store
      → gap_exceeded s.recv.message_count seq s.max_skip ≡ false
      → decrypt_chacha20 c (msg_key_of c (chain_key_at seq s)) nonce ciphertext aad ≡ ok plaintext
      → try_decrypt_with_chain c seq nonce ciphertext aad s
        ≡ (ok plaintext, commit_current c seq (chain_key_at seq s) (skipped_keys seq s) store s)
  unfolding try_decrypt_with_chain
  try_decrypt_with_chain_opens seq nonce ciphertext aad plaintext store s hs gap opens = ground (
    arith,
    skip_loop-chain c s.ratchet_generation (seq - s.recv.message_count) s.recv.message_count
        s.recv.key [],
  )

  -- A frame that is not of the retained generation.
  not_previous :
      (f : Frame) (s : DoubleRatchetState)
      → is_previous f.gen s ≡ false
      → previous_path c f s ≡ (ok none, s)
  unfolding previous_path
  not_previous f s h = rw h

  pub decrypts_on_chain :
      (gen seq : ℕ) (nonce ciphertext aad plaintext : Bytes) (store : SkipKeyMap)
      (s : DoubleRatchetState)
      → validate_and_extract_nonce nonce s ≡ ok (gen, seq)
      → is_previous gen s ≡ false
      → s.skip_message_keys ≡ some store
      → map_get (gen, seq) store ≡ none
      → gap_exceeded s.recv.message_count seq s.max_skip ≡ false
      → decrypt_chacha20 c (msg_key_of c (chain_key_at seq s)) nonce ciphertext aad ≡ ok plaintext
      → ratchet_decrypt_with_aad c nonce ciphertext aad s
        ≡ (ok plaintext, commit_current c seq (chain_key_at seq s) (skipped_keys seq s) store s)
  unfolding ratchet_decrypt_with_aad try_decrypt_with_cached_key
  decrypts_on_chain gen seq nonce ciphertext aad plaintext store s valid other hs uncached gap
        opens =
      ground (
        arith,
        not_previous (frame_of nonce ciphertext aad (gen, seq)) s other,
        try_decrypt_with_chain_opens seq nonce ciphertext aad plaintext store s hs gap opens,
      )

  pub decrypts_from_cache :
      (gen seq : ℕ) (nonce ciphertext aad plaintext key : Bytes) (store : SkipKeyMap)
      (s : DoubleRatchetState)
      → validate_and_extract_nonce nonce s ≡ ok (gen, seq)
      → is_previous gen s ≡ false
      → s.skip_message_keys ≡ some store
      → map_get (gen, seq) store ≡ some key
      → decrypt_chacha20 c key nonce ciphertext aad ≡ ok plaintext
      → ratchet_decrypt_with_aad c nonce ciphertext aad s ≡ (
        ok plaintext,
        deliver_skipped (frame_of nonce ciphertext aad (gen, seq)) (map_remove (gen, seq) store) s,
      )
  unfolding ratchet_decrypt_with_aad try_decrypt_with_cached_key
  decrypts_from_cache gen seq nonce ciphertext aad plaintext key store s valid other hs cached
        opens =
      ground (arith, not_previous (frame_of nonce ciphertext aad (gen, seq)) s other)

  -- A frame of the current generation reaches the cache.
  pub reaches_cache :
      (gen seq : ℕ) (nonce ciphertext aad : Bytes) (s : DoubleRatchetState)
      → validate_and_extract_nonce nonce s ≡ ok (gen, seq)
      → is_previous gen s ≡ false
      → ratchet_decrypt_with_aad c nonce ciphertext aad s
        ≡ with_cache c (frame_of nonce ciphertext aad (gen, seq)) s.skip_message_keys s
  unfolding ratchet_decrypt_with_aad
  reaches_cache gen seq nonce ciphertext aad s valid other =
      rw (valid, ratchet_decrypt_with_aad)
        (rw (not_previous (frame_of nonce ciphertext aad (gen, seq)) s other))

  -- A frame whose nonce fails the checks is refused.
  pub refused :
      (e : KyberError) (nonce ciphertext aad : Bytes) (s : DoubleRatchetState)
      → validate_and_extract_nonce nonce s ≡ err e
      → ratchet_decrypt_with_aad c nonce ciphertext aad s ≡ (err e, s)
  unfolding ratchet_decrypt_with_aad
  refused e nonce ciphertext aad s h = ground arith
