-- ===== src/Ratchet/Decrypt/Stream.antt =====
-- One direction of a session without rekeys: what the receiver makes of the sender's messages when
-- some are lost on the way.
use kyber_pipe.Base.{
  ℕ, suc, ◌+◌, ◌-◌, ◌^◌, ◌≤◌, ◌<◌, ◌≡◌, refl, ap, ◌∙◌, false, ◌&&◌, none, some, [], Bytes, arith,
  leb, ◌==◌, u32_max, wrap64,
}
use kyber_pipe.Error.{ok}
use kyber_pipe.Primitives.{Crypto, AeadLaws}
use kyber_pipe.Aead.{encrypt_chacha20, decrypt_chacha20, generate_nonce_from_seq}
use kyber_pipe.Aead.RoundTrip.{decrypt_chacha20-encrypt_chacha20}
use kyber_pipe.Tlv.{RatchetEncryptedMessage}
use kyber_pipe.Ratchet.State.{ReplayWindow, SkipKeyMap, DoubleRatchetState}
use kyber_pipe.Ratchet.Pairs.{Pair, set_contains, set_contains-retain, map_get, map_extend}
use kyber_pipe.Ratchet.Window.{record_delivered}
use kyber_pipe.Ratchet.Window.Eviction.{record_delivered_absent}
use kyber_pipe.Ratchet.Chain.{msg_key_of, next_chain_of, step_chain, gap_exceeded}
use kyber_pipe.Ratchet.Chain.Steps.{next-step_chain, skip_loop_outside}
use kyber_pipe.Ratchet.SkipKeys.{prune_skip_keys}
use kyber_pipe.Ratchet.SkipKeys.Cache.{prune_skip_keys-none, map_extend-none}
use kyber_pipe.Ratchet.Encrypt.Plain.{IsQuiet, sent_state}
use kyber_pipe.Ratchet.Receive.{validate_and_extract_nonce, commit_current, skip_budget, slide}
use kyber_pipe.Ratchet.Decrypt.{is_previous, ratchet_decrypt}
use kyber_pipe.Ratchet.Decrypt.Path.{
  validate_current, chain_key_at, skipped_keys, decrypts_on_chain,
}

-- Nothing of a position at or behind `count` is in the replay window or in the cache.
pub record IsUnheard (b : DoubleRatchetState) : Type 0 where
  pub store : SkipKeyMap
  pub has_store : b.skip_message_keys ≡ some store
  pub unseen :
      (n : ℕ)
      → b.recv.message_count ≤ n
      → set_contains (b.ratchet_generation, n) b.replay_window.seen ≡ false
  pub uncached : (n : ℕ) → b.recv.message_count ≤ n → map_get (b.ratchet_generation, n) store ≡ none

-- The sender's chain is the receiver's, some positions further.
pub record Synced (c : Crypto) (a b : DoubleRatchetState) : Type 0 where
  pub quiet : IsQuiet a
  pub same_generation : b.ratchet_generation ≡ a.ratchet_generation
  pub not_retained : is_previous b.ratchet_generation b ≡ false
  pub order : b.recv.message_count ≤ a.send.message_count
  pub key : a.send.key ≡ step_chain c (a.send.message_count - b.recv.message_count) b.recv.key
  pub unheard : IsUnheard b

pub slide_absent :
    (gen lower : ℕ) (q : Pair) (w : ReplayWindow)
    → set_contains q w.seen ≡ false
    → set_contains q (slide gen lower w).seen ≡ false
unfolding slide
slide_absent gen lower q w h =
    set_contains-retain q _ w.seen ∙ ap (λ b. b && (q.0 == gen && leb lower q.1)) h

module _ (c : Crypto) where
  unseen-commit_current :
      (seq n : ℕ) (store : SkipKeyMap) (b : DoubleRatchetState)
      → seq < n
      → set_contains (b.ratchet_generation, n) b.replay_window.seen ≡ false
      → set_contains
          (b.ratchet_generation, n)
          (commit_current c seq
            (chain_key_at c seq b)
            (skipped_keys c seq b)
            store
            b).replay_window.seen
        ≡ false
  unfolding commit_current
  unseen-commit_current seq n store b h u =
      slide_absent b.ratchet_generation _ (b.ratchet_generation, n)
        (record_delivered b.ratchet_generation seq b.replay_window)
        (record_delivered_absent b.ratchet_generation seq (b.ratchet_generation, n) b.replay_window
          u (ground arith))

  uncached-commit_current :
      (seq n : ℕ) (store : SkipKeyMap) (b : DoubleRatchetState)
      → seq < n
      → b.recv.message_count ≤ seq
      → map_get (b.ratchet_generation, n) store ≡ none
      → map_get
          (b.ratchet_generation, n)
          (prune_skip_keys b.ratchet_generation
            (skip_budget b)
            (map_extend (skipped_keys c seq b) store))
        ≡ none
  unfolding map_get
  uncached-commit_current seq n store b h o u =
      prune_skip_keys-none b.ratchet_generation (skip_budget b) _ _ (
        map_extend-none _ (skipped_keys c seq b) store (
          skip_loop_outside c b.ratchet_generation (seq - b.recv.message_count) b.recv.message_count
            b.ratchet_generation n b.recv.key [] (omega arith))
        ∙ u)

  IsUnheard-commit_current :
      (seq : ℕ) (b : DoubleRatchetState) (u : IsUnheard b)
      → b.recv.message_count ≤ seq
      → seq + 1 < 2 ^ 64
      → IsUnheard (commit_current c seq (chain_key_at c seq b) (skipped_keys c seq b) u.store b)
  unfolding commit_current
  IsUnheard-commit_current seq b u o fits = record {
    store =
        prune_skip_keys b.ratchet_generation (skip_budget b)
          (map_extend (skipped_keys c seq b) u.store);
    has_store = refl;
    unseen = λ n h. unseen-commit_current seq n u.store b (omega arith) (u.unseen n (omega arith));
    uncached =
        λ n h. uncached-commit_current seq n u.store b (omega arith) o (u.uncached n (omega arith));
  }

  -- A sent message moves the sender alone.
  pub Synced-lost :
      (a b : DoubleRatchetState)
      → a.send.message_count + 1 < 2 ^ 64
      → Synced c a b
      → Synced c (sent_state c a) b
  Synced-lost a b fits v = record {
    quiet = record {
      no_carrier = refl;
      no_peer_key = v.quiet.no_peer_key;
      generation_fits = v.quiet.generation_fits;
    };
    same_generation = v.same_generation;
    not_retained = v.not_retained;
    order = omega (arith, v.order);
    key =
        ap (next_chain_of c) v.key
        ∙ (next-step_chain c (a.send.message_count - b.recv.message_count) b.recv.key
            ∙ one_further);
    unheard = v.unheard;
  }
    where
      further :
          suc (a.send.message_count - b.recv.message_count)
          ≡ wrap64 (a.send.message_count + 1) - b.recv.message_count
      further = omega (arith, v.order)

      one_further :
          step_chain c (suc (a.send.message_count - b.recv.message_count)) b.recv.key
          ≡ step_chain c (wrap64 (a.send.message_count + 1) - b.recv.message_count) b.recv.key
      one_further = ap (λ k. step_chain c k b.recv.key) further

  -- The receiver behind the message at the sender's position.
  abbrev pub heard_state : (a b : DoubleRatchetState) → Synced c a b → DoubleRatchetState
  heard_state a b v =
      let seq = a.send.message_count in
      commit_current c seq (chain_key_at c seq b) (skipped_keys c seq b) v.unheard.store b

  -- Behind a delivery the two chains stand at the same place.
  pub Synced-commit_current :
      (a b : DoubleRatchetState) (v : Synced c a b)
      → a.send.message_count + 1 < 2 ^ 64
      → Synced c (sent_state c a) (heard_state a b v)
  unfolding commit_current step_chain
  Synced-commit_current a b v fits = record {
    quiet = record {
      no_carrier = refl;
      no_peer_key = v.quiet.no_peer_key;
      generation_fits = v.quiet.generation_fits;
    };
    same_generation = v.same_generation;
    not_retained = v.not_retained;
    order = omega arith;
    key =
        ap (next_chain_of c) v.key
        ∙ ap (λ k. step_chain c k (next_chain_of c (chain_key_at c a.send.message_count b))) here;
    unheard = IsUnheard-commit_current a.send.message_count b v.unheard v.order fits;
  }
    where
      here : 0 ≡ wrap64 (a.send.message_count + 1) - wrap64 (a.send.message_count + 1)
      here = omega arith

  pub message_delivered :
      (a b : DoubleRatchetState) (m : RatchetEncryptedMessage) (plaintext : Bytes)
      → AeadLaws c
      → (v : Synced c a b) → a.send.message_count + 1 < 2 ^ 64
      → a.send.message_count ≤ b.recv.message_count + b.max_skip
      → m.nonce ≡ generate_nonce_from_seq a.send.message_count a.ratchet_generation
      → encrypt_chacha20 c (msg_key_of c a.send.key) m.nonce plaintext [] ≡ ok m.ciphertext
      → ratchet_decrypt c m.nonce m.ciphertext b ≡ (ok plaintext, heard_state a b v)
  unfolding ratchet_decrypt
  message_delivered a b m plaintext laws v fits window nonce sealed =
      decrypts_on_chain c b.ratchet_generation a.send.message_count m.nonce m.ciphertext []
        plaintext v.unheard.store b valid v.not_retained v.unheard.has_store
        (v.unheard.uncached a.send.message_count v.order) near opens
    where
      small : b.ratchet_generation < u32_max
      small = omega (arith, v.quiet.generation_fits, v.same_generation)

      valid : validate_and_extract_nonce m.nonce b ≡ ok (b.ratchet_generation, a.send.message_count)
      valid =
          rw (nonce, ← v.same_generation)
            (validate_current a.send.message_count b.ratchet_generation b refl small (omega arith)
              (v.unheard.unseen a.send.message_count v.order))

      near : gap_exceeded b.recv.message_count a.send.message_count b.max_skip ≡ false
      near = ground (arith, v.order)

      opens :
          decrypt_chacha20 c
            (msg_key_of c (chain_key_at c a.send.message_count b))
            m.nonce
            m.ciphertext
            []
          ≡ ok plaintext
      opens = rw (← v.key) (
          decrypt_chacha20-encrypt_chacha20 c laws (msg_key_of c a.send.key) m.nonce plaintext []
            m.ciphertext sealed)
