-- ===== src/Ratchet/Previous.antt =====
-- core-crypto/src/crypto/ratchet/previous_generation.rs: frames of the generation before the last
-- rekey.
pub mod Keeps
use kyber_pipe.Base.{
  ℕ, zero, suc, ◌+◌, ◌-◌, ◌*◌, max, Bool, true, false, not, ◌&&◌, ◌||◌, Option, none, some, List,
  [], ◌∷◌, is_some, unwrap_or, ltb, leb, ◌==◌, if◌then◌else◌, Bytes, wrap64,
}
use kyber_pipe.Error.{Result, ok, err, crypto_error, session_desynchronized}
use kyber_pipe.Primitives.{Crypto}
use kyber_pipe.Aead.{decrypt_chacha20}
use kyber_pipe.Ratchet.State.{ReplayWindow, SkipKeyMap, DoubleRatchetState}
use kyber_pipe.Ratchet.Pairs.{set_contains}
use kyber_pipe.Ratchet.Window.{record_delivered}
use kyber_pipe.Ratchet.Chain.{msg_key_of, step_chain, advance_receiving_chain}
use kyber_pipe.Ratchet.SkipKeys.{try_decrypt_with_cached_key}
use kyber_pipe.Ratchet.Fields.{Outcome}
use kyber_pipe.Ratchet.Receive.{skip_budget, store_keys}

-- `prev_gen_highest_delivered.map_or(seq, |w| w.max(seq))`.
abbrev pub raise_watermark : ℕ → ReplayWindow → ReplayWindow
raise_watermark seq w = record w {
  prev_gen_highest_delivered = some (max (unwrap_or w.prev_gen_highest_delivered seq) seq);
}

-- A delivery from the cache.
unfoldable pub deliver_cached : ℕ → ℕ → SkipKeyMap → DoubleRatchetState → DoubleRatchetState
deliver_cached gen seq store s = record s {
  skip_message_keys = some store;
  replay_window = raise_watermark seq (record_delivered gen seq s.replay_window);
}

-- A delivery on the retained chain.
unfoldable pub commit_previous :
    ℕ → ℕ → Bytes → SkipKeyMap → SkipKeyMap → DoubleRatchetState → DoubleRatchetState
commit_previous gen seq next_ck skip_map store s = record s {
  previous_recv_chain_key = some next_ck;
  previous_recv_anchor = some (wrap64 (seq + 1));
  skip_message_keys = some (store_keys s.ratchet_generation (skip_budget s) skip_map store);
  replay_window = record_delivered gen seq (raise_watermark seq s.replay_window);
}

-- `seq <= watermark`.
abbrev pub already_delivered : ℕ → Option ℕ → Bool
already_delivered seq none = false
already_delivered seq (some watermark) = leb seq watermark

-- The chain key, the anchor and the generation of the retained chain, and the frame.
pub record Retained : Type 0 where
  pub key : Bytes
  pub anchor : ℕ
  pub gen : ℕ

abbrev pub Delivery : Type 0
Delivery = Option (Bytes × Bool)

open_previous :
    Crypto
    → Retained
    → ℕ
    → Bytes
    → Bytes
    → Bytes
    → SkipKeyMap
    → Bytes
    → SkipKeyMap
    → DoubleRatchetState
    → Outcome Delivery
unfolding commit_previous
open_previous c kept seq nonce ciphertext aad store next_ck skip_map s =
    elim (decrypt_chacha20 c (msg_key_of c (step_chain c (seq - kept.anchor) kept.key)) nonce
      ciphertext aad) [
        | err e ↦ (err e, s)
        | ok plaintext ↦
            (ok (some (plaintext, false)), commit_previous kept.gen seq next_ck skip_map store s)
      ]

step_previous :
    Crypto
    → Retained
    → ℕ
    → Bytes
    → Bytes
    → Bytes
    → SkipKeyMap
    → DoubleRatchetState
    → Outcome Delivery
unfolding open_previous
step_previous c kept seq nonce ciphertext aad store s =
    if set_contains (kept.gen, seq) s.replay_window.seen
    then (err crypto_error, s)
    else if ltb seq kept.anchor
    then (err session_desynchronized, s)
    else if already_delivered seq s.replay_window.prev_gen_highest_delivered
    then (err crypto_error, s)
    else elim (advance_receiving_chain c kept.key kept.anchor seq kept.gen s.max_skip) [
      | err e ↦ (err e, s)
      | ok (next_ck, skip_map) ↦
          open_previous c kept seq nonce ciphertext aad store next_ck skip_map s
    ]

-- The cache first, then the retained chain.
cache_or_chain :
    Crypto
    → Retained
    → ℕ
    → Bytes
    → Bytes
    → Bytes
    → SkipKeyMap
    → Result (Option Bytes) × SkipKeyMap
    → DoubleRatchetState
    → Outcome Delivery
unfolding deliver_cached step_previous
cache_or_chain c kept seq nonce ciphertext aad store (err e, store') s = (err e, s)
cache_or_chain c kept seq nonce ciphertext aad store (ok none, store') s =
    step_previous c kept seq nonce ciphertext aad store s
cache_or_chain c kept seq nonce ciphertext aad store (ok (some plaintext), store') s =
    (ok (some (plaintext, true)), deliver_cached kept.gen seq store' s)

with_store :
    Crypto
    → Retained
    → ℕ
    → Bytes
    → Bytes
    → Bytes
    → Option SkipKeyMap
    → DoubleRatchetState
    → Outcome Delivery
unfolding cache_or_chain
with_store c kept seq nonce ciphertext aad none s = (err crypto_error, s)
with_store c kept seq nonce ciphertext aad (some store) s =
    cache_or_chain c kept seq nonce ciphertext aad store
      (try_decrypt_with_cached_key c store kept.gen seq nonce ciphertext aad) s

retained : Option Bytes → Option ℕ → Option ℕ → Option Retained
retained (some key) (some anchor) (some gen) =
    some (record { key = key; anchor = anchor; gen = gen })
retained _ _ _ = none

when_retained :
    Crypto → Option Retained → ℕ → ℕ → Bytes → Bytes → Bytes → DoubleRatchetState → Outcome Delivery
unfolding with_store
when_retained c none nonce_gen seq nonce ciphertext aad s = (ok none, s)
when_retained c (some kept) nonce_gen seq nonce ciphertext aad s =
    if not (nonce_gen == kept.gen)
    then (ok none, s)
    else with_store c kept seq nonce ciphertext aad s.skip_message_keys s

-- `Ok(None)`: the frame is not of the retained generation. The flag tells a cached key.
unfoldable pub try_decrypt_previous_generation :
    Crypto → ℕ → ℕ → Bytes → Bytes → Bytes → DoubleRatchetState → Outcome Delivery
unfolding when_retained retained
try_decrypt_previous_generation c nonce_gen seq nonce ciphertext aad s =
    when_retained c (retained s.previous_recv_chain_key s.previous_recv_anchor s.previous_recv_gen)
      nonce_gen seq nonce ciphertext aad s
