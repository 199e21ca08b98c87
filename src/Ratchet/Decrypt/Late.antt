-- ===== src/Ratchet/Decrypt/Late.antt =====
-- Messages that arrive out of order.
use kyber_pipe.Base.{
  ℕ, suc, ◌+◌, ◌-◌, ◌^◌, ◌≤◌, ◌<◌, ◌≡◌, refl, sym, ap, ◌∙◌, subst, Bool, false, not, Option, none,
  some, [], Bytes, arith, length, u32_max, wrap64,
}
use kyber_pipe.Error.{ok}
use kyber_pipe.Primitives.{Crypto, AeadLaws, Entropy}
use kyber_pipe.Aead.{encrypt_chacha20, generate_nonce_from_seq}
use kyber_pipe.Aead.RoundTrip.{decrypt_chacha20-encrypt_chacha20}
use kyber_pipe.Tlv.{RatchetEncryptedMessage}
use kyber_pipe.Ratchet.State.{Clock, SkipKeyMap, DoubleRatchetState}
use kyber_pipe.Ratchet.Pairs.{set_contains, map_get, map_extend}
use kyber_pipe.Ratchet.Window.{record_delivered}
use kyber_pipe.Ratchet.Window.Eviction.{record_delivered_absent}
use kyber_pipe.Ratchet.Chain.{msg_key_of, step_chain}
use kyber_pipe.Ratchet.Chain.Steps.{skip_loop_inside}
use kyber_pipe.Ratchet.SkipKeys.{prune_skip_keys}
use kyber_pipe.Ratchet.SkipKeys.Kept.{
  map_extend-some, prune_skip_keys_keeps, length-map_extend, skip_loop-Distinct, length-skip_loop,
}
use kyber_pipe.Ratchet.Fields.{Outcome}
use kyber_pipe.Ratchet.Encrypt.{ratchet_encrypt}
use kyber_pipe.Ratchet.Encrypt.Plain.{sent_state, sent-ratchet_encrypt, quiet_message}
use kyber_pipe.Ratchet.Receive.{validate_and_extract_nonce, commit_current, skip_budget}
use kyber_pipe.Ratchet.Decrypt.{is_previous, ratchet_decrypt}
use kyber_pipe.Ratchet.Decrypt.Path.{
  validate_current, chain_key_at, skipped_keys, decrypts_from_cache,
}
use kyber_pipe.Ratchet.Decrypt.Stream.{
  IsUnheard, Synced, Synced-lost, slide_absent, message_delivered,
}
use kyber_pipe.Ratchet.Decrypt.Traffic.{Traffic, Traffic-Synced, Synced-new}
use kyber_pipe.Ratchet.Session.{new_with_keypair}
use kyber_pipe.Kem.{HybridKeyPair}

module _ (c : Crypto) where
  -- The key of a position that a delivery at `seq` has skipped is in the cache behind it.
  skipped_is_cached :
      (seq j : ℕ) (store : SkipKeyMap) (b : DoubleRatchetState)
      → b.recv.message_count ≤ j
      → j < seq
      → (seq - b.recv.message_count) + length store ≤ skip_budget b
      → map_get
          (b.ratchet_generation, j)
          (prune_skip_keys b.ratchet_generation
            (skip_budget b)
            (map_extend (skipped_keys c seq b) store))
        ≡ some (msg_key_of c (step_chain c (j - b.recv.message_count) b.recv.key))
  skipped_is_cached seq j store b o h room =
      prune_skip_keys_keeps b.ratchet_generation (skip_budget b) (b.ratchet_generation, j)
        (map_extend (skipped_keys c seq b) store) fits (ground arith)
      ∙ map_extend-some (b.ratchet_generation, j) _ (skipped_keys c seq b) store
          (skip_loop-Distinct c b.ratchet_generation (seq - b.recv.message_count)
            b.recv.message_count b.recv.key [] tt)
          (subst
            (λ i.
              map_get (b.ratchet_generation, i) (skipped_keys c seq b)
              ≡ some (msg_key_of c (step_chain c (j - b.recv.message_count) b.recv.key)))
            there
            (skip_loop_inside c b.ratchet_generation (seq - b.recv.message_count)
              b.recv.message_count (j - b.recv.message_count) b.recv.key [] (omega arith)))
    where
      there : b.recv.message_count + (j - b.recv.message_count) ≡ j
      there = omega arith

      fits : length (map_extend (skipped_keys c seq b) store) ≤ skip_budget b
      fits = omega (
        arith,
        length-map_extend (skipped_keys c seq b) store,
        length-skip_loop c b.ratchet_generation (seq - b.recv.message_count) b.recv.message_count
            b.recv.key [],
      )

  -- A position that a delivery has skipped is still unseen behind it.
  skipped_is_unseen :
      (seq j : ℕ) (store : SkipKeyMap) (b : DoubleRatchetState)
      → j < seq
      → set_contains (b.ratchet_generation, j) b.replay_window.seen ≡ false
      → set_contains
          (b.ratchet_generation, j)
          (commit_current c seq
            (chain_key_at c seq b)
            (skipped_keys c seq b)
            store
            b).replay_window.seen
        ≡ false
  unfolding commit_current
  skipped_is_unseen seq j store b h u =
      slide_absent b.ratchet_generation (wrap64 (seq + 1) - skip_budget b) (b.ratchet_generation, j)
        (record_delivered b.ratchet_generation seq b.replay_window)
        (record_delivered_absent b.ratchet_generation seq (b.ratchet_generation, j) b.replay_window
          u (ground arith))

  -- Over an AEAD that meets its laws, for a session of a generation below 2^32 - 1 that is not
  -- the retained one, with nothing seen or cached at its position or behind it: if it has
  -- received `seq` (below 2^64 - 1) ahead of `j`, with room for the keys that it skipped, a
  -- message at `j` that was sealed at its place in the chain is opened to its plaintext.
  pub late_message_opens :
      (seq j : ℕ) (nonce ciphertext plaintext : Bytes) (b : DoubleRatchetState) (u : IsUnheard b)
      → AeadLaws c
      → is_previous b.ratchet_generation b ≡ false
      → b.ratchet_generation < u32_max
      → b.recv.message_count ≤ j
      → j < seq
      → seq + 1 < 2 ^ 64
      → (seq - b.recv.message_count) + length u.store ≤ skip_budget b
      → nonce ≡ generate_nonce_from_seq j b.ratchet_generation
      → encrypt_chacha20 c
          (msg_key_of c (step_chain c (j - b.recv.message_count) b.recv.key))
          nonce
          plaintext
          []
        ≡ ok ciphertext
      → (ratchet_decrypt c nonce ciphertext
          (commit_current c seq (chain_key_at c seq b) (skipped_keys c seq b) u.store b)).0
        ≡ ok plaintext
  unfolding ratchet_decrypt commit_current
  late_message_opens seq j nonce ciphertext plaintext b u laws other small o h fits room named
        sealed =
      ap (λ (r : Outcome Bytes). r.0)
        (decrypts_from_cache c b.ratchet_generation j nonce ciphertext [] plaintext
          (msg_key_of c (step_chain c (j - b.recv.message_count) b.recv.key))
          (prune_skip_keys b.ratchet_generation (skip_budget b)
            (map_extend (skipped_keys c seq b) u.store))
          (commit_current c seq (chain_key_at c seq b) (skipped_keys c seq b) u.store b) valid other
          refl (skipped_is_cached seq j u.store b o h room)
          (decrypt_chacha20-encrypt_chacha20 c laws _ nonce plaintext [] ciphertext sealed))
    where
      valid :
          validate_and_extract_nonce nonce
            (commit_current c seq (chain_key_at c seq b) (skipped_keys c seq b) u.store b)
          ≡ ok (b.ratchet_generation, j)
      valid = rw named (
          validate_current j b.ratchet_generation
            (commit_current c seq (chain_key_at c seq b) (skipped_keys c seq b) u.store b) refl
            small (omega arith) (skipped_is_unseen seq j u.store b h (u.unseen j o)))

  -- Two messages of a sender, of which the second overtakes the first.
  overtaken_opens :
      (p1 p2 : Bytes) (r1 r2 : Entropy) (t1 t2 : Clock) (a b a1 a2 : DoubleRatchetState)
      (m1 m2 : RatchetEncryptedMessage) (store : SkipKeyMap)
      → Synced c a b
      → AeadLaws c
      → ratchet_encrypt c r1 t1 p1 a ≡ (ok m1, a1)
      → ratchet_encrypt c r2 t2 p2 a1 ≡ (ok m2, a2)
      → a.send.message_count + 2 < 2 ^ 64
      → suc a.send.message_count ≤ b.recv.message_count + b.max_skip
      → (suc a.send.message_count - b.recv.message_count) + length store ≤ skip_budget b
      → b.skip_message_keys ≡ some store
      → ((ratchet_decrypt c m2.nonce m2.ciphertext b).0 ≡ ok p2)
        × ((ratchet_decrypt c m1.nonce m1.ciphertext
              (ratchet_decrypt c m2.nonce m2.ciphertext b).1).0
            ≡ ok p1)
  overtaken_opens p1 p2 r1 r2 t1 t2 a b a1 a2 m1 m2 store v laws e1 e2 fits window room hs =
      let (nonce1, sealed1, plain1) = quiet_message c r1 t1 p1 a v.quiet e1 in
      let (nonce2, sealed2, plain2) = quiet_message c r2 t2 p2 (sent_state c a) w.quiet second in
      let ahead =
        message_delivered c (sent_state c a) b m2 p2 laws w (omega arith) (omega arith) nonce2
          sealed2 in
      rw ahead (
        refl,
        late_message_opens (wrap64 (a.send.message_count + 1)) a.send.message_count m1.nonce
            m1.ciphertext p1 b w.unheard laws v.not_retained small v.order (omega arith)
            (omega arith) (omega (arith, room, same_length)) (rw v.same_generation nonce1)
            (rw (← v.key) sealed1),
      )
    where
      w : Synced c (sent_state c a) b
      w = Synced-lost c a b (omega arith) v

      same_length : length w.unheard.store ≡ length store
      same_length = ground (arith, w.unheard.has_store)

      sent_is : a1 ≡ sent_state c a
      sent_is =
          ap (λ (o : Outcome RatchetEncryptedMessage). o.1) (sym e1)
          ∙ sent-ratchet_encrypt c r1 t1 p1 a v.quiet

      second : ratchet_encrypt c r2 t2 p2 (sent_state c a) ≡ (ok m2, a2)
      second = subst (λ s. ratchet_encrypt c r2 t2 p2 s ≡ (ok m2, a2)) sent_is e2

      small : b.ratchet_generation < u32_max
      small = omega (arith, v.quiet.generation_fits, v.same_generation)

  -- Over an AEAD that meets its laws, for two sessions of one pairing, of which the sender never
  -- rekeys, behind any traffic: the sender sends two messages more and the second arrives first.
  -- Both are opened to their plaintexts, if the second is at most `max_skip` positions ahead of
  -- the receiver, the keys that it skips have room in the receiver's cache, and the send counter
  -- is below 2^64 - 2.
  pub out_of_order_delivered :
      (secret p1 p2 : Bytes) (pair pair' : HybridKeyPair) (xpk mpk mpk' : Option Bytes)
      (first : Bool) (r1 r2 : Entropy) (t1 t2 : Clock) (m1 m2 : RatchetEncryptedMessage)
      (store : SkipKeyMap) {a b a1 a2 : DoubleRatchetState}
      → AeadLaws c
      → Traffic c
          (new_with_keypair c secret first pair none mpk)
          (new_with_keypair c secret (not first) pair' xpk mpk')
          a
          b
      → ratchet_encrypt c r1 t1 p1 a ≡ (ok m1, a1)
      → ratchet_encrypt c r2 t2 p2 a1 ≡ (ok m2, a2)
      → a.send.message_count + 2 < 2 ^ 64
      → suc a.send.message_count ≤ b.recv.message_count + b.max_skip
      → (suc a.send.message_count - b.recv.message_count) + length store ≤ skip_budget b
      → b.skip_message_keys ≡ some store
      → ((ratchet_decrypt c m2.nonce m2.ciphertext b).0 ≡ ok p2)
        × ((ratchet_decrypt c m1.nonce m1.ciphertext
              (ratchet_decrypt c m2.nonce m2.ciphertext b).1).0
            ≡ ok p1)
  out_of_order_delivered secret p1 p2 pair pair' xpk mpk mpk' first r1 r2 t1 t2 m1 m2 store {a} {b}
        {a1} {a2} laws traffic e1 e2 fits window room hs =
      overtaken_opens p1 p2 r1 r2 t1 t2 a b a1 a2 m1 m2 store
        (Traffic-Synced c laws (Synced-new c laws secret pair pair' xpk mpk mpk' first) traffic)
        laws e1 e2 fits window room hs
