-- ===== src/Ratchet/Receive.antt =====
-- core-crypto/src/crypto/ratchet/decrypt.rs: what the receive paths share, and the path on the
-- current chain.
pub mod Keeps
use kyber_pipe.Base.{
  ℕ, zero, suc, ◌+◌, ◌-◌, ◌*◌, max, Bool, true, false, not, ◌&&◌, ◌||◌, Option, none, some, List,
  [], ◌∷◌, take, drop, retain, is_some, unwrap_or, ltb, leb, ◌==◌, if◌then◌else◌, Bytes,
  from_be_bytes, wrap64, saturating_add32, u32_max,
}
use kyber_pipe.Error.{Result, ok, err, ok_or, ◌>>=◌, crypto_error, session_desynchronized}
use kyber_pipe.Primitives.{Crypto}
use kyber_pipe.Aead.{decrypt_chacha20}
use kyber_pipe.Ratchet.State.{Chain, ReplayWindow, SkipKeyMap, DoubleRatchetState}
use kyber_pipe.Ratchet.Pairs.{set_contains, map_extend}
use kyber_pipe.Ratchet.Window.{record_delivered}
use kyber_pipe.Ratchet.Chain.{
  msg_key_of, next_chain_of, gap_exceeded, derive_tentative_msg_key, skip_loop,
  advance_receiving_chain,
}
use kyber_pipe.Ratchet.SkipKeys.{prune_skip_keys, try_decrypt_with_cached_key}
use kyber_pipe.Ratchet.Proposal.{commit_pending_rekey_with_race_resolution}
use kyber_pipe.Ratchet.Fields.{Outcome}

-- The generations that a frame may carry.
unfoldable accepts_generation : ℕ → DoubleRatchetState → Bool
accepts_generation nonce_gen s =
    nonce_gen == s.ratchet_generation
    || nonce_gen == saturating_add32 s.ratchet_generation 1
    || nonce_gen == unwrap_or s.previous_recv_gen u32_max && is_some s.previous_recv_chain_key

unfoldable pub validate_and_extract_nonce : Bytes → DoubleRatchetState → Result (ℕ × ℕ)
unfolding accepts_generation
validate_and_extract_nonce nonce s =
    let nonce_gen = from_be_bytes (take 4 nonce) 0 in
    let seq = from_be_bytes (drop 4 nonce) 0 in
    if s.ratchet_generation == u32_max
    then err crypto_error
    else if not (accepts_generation nonce_gen s)
    then err crypto_error
    else if set_contains (nonce_gen, seq) s.replay_window.seen
    then err crypto_error
    else ok (nonce_gen, seq)

-- `self.max_skip * 2`.
abbrev pub skip_budget : DoubleRatchetState → ℕ
skip_budget s = wrap64 (s.max_skip * 2)

-- New skip keys go into the store, which is then pruned.
abbrev pub store_keys : ℕ → ℕ → SkipKeyMap → SkipKeyMap → SkipKeyMap
store_keys current_gen budget keys store =
    prune_skip_keys current_gen budget (map_extend keys store)

-- `seen.retain(..)` behind a delivery on the current chain.
unfoldable pub slide : ℕ → ℕ → ReplayWindow → ReplayWindow
slide gen lower_bound w = record w { seen = retain (λ p. p.0 == gen && leb lower_bound p.1) w.seen }

-- The message has been opened: the chain moves behind it.
unfoldable pub commit_current :
    Crypto → ℕ → Bytes → SkipKeyMap → SkipKeyMap → DoubleRatchetState → DoubleRatchetState
unfolding slide
commit_current c seq tentative_ck tentative_skip store s =
    let count = wrap64 (seq + 1) in
    record s {
      recv = record { key = next_chain_of c tentative_ck; message_count = count };
      replay_window =
          slide s.ratchet_generation (count - skip_budget s)
            (record_delivered s.ratchet_generation seq s.replay_window);
      skip_message_keys =
          some (store_keys s.ratchet_generation (skip_budget s) tentative_skip store);
    }

open_current :
    Crypto
    → ℕ
    → Bytes
    → Bytes
    → Bytes
    → SkipKeyMap
    → Bytes × SkipKeyMap
    → DoubleRatchetState
    → Outcome Bytes
unfolding commit_current
open_current c seq nonce ciphertext aad store (tentative_ck, tentative_skip) s =
    elim (decrypt_chacha20 c (msg_key_of c tentative_ck) nonce ciphertext aad) [
      | err e ↦ (err e, s)
      | ok plaintext ↦ (ok plaintext, commit_current c seq tentative_ck tentative_skip store s)
    ]

with_store_current :
    Crypto → ℕ → Bytes → Bytes → Bytes → Option SkipKeyMap → DoubleRatchetState → Outcome Bytes
unfolding open_current
with_store_current c seq nonce ciphertext aad none s = (err crypto_error, s)
with_store_current c seq nonce ciphertext aad (some store) s =
    if gap_exceeded s.recv.message_count seq s.max_skip
    then (err session_desynchronized, s)
    else open_current c seq nonce ciphertext aad store
        (skip_loop c s.ratchet_generation (seq - s.recv.message_count) s.recv.message_count
          s.recv.key [])
        s

unfoldable pub try_decrypt_with_chain :
    Crypto → ℕ → Bytes → Bytes → Bytes → DoubleRatchetState → Outcome Bytes
unfolding with_store_current
try_decrypt_with_chain c seq nonce ciphertext aad s =
    with_store_current c seq nonce ciphertext aad s.skip_message_keys s

-- Behind the commit of the pending chain: that chain moves from position 0 behind the message.
unfoldable pub commit_pending_chain :
    ℕ → Bytes → SkipKeyMap → DoubleRatchetState → DoubleRatchetState
commit_pending_chain seq next_ck new_skip s = record s {
  recv = record { key = next_ck; message_count = wrap64 (seq + 1) };
  skip_message_keys = elim s.skip_message_keys [
    | none ↦ none
    | some store ↦ some (store_keys s.ratchet_generation (skip_budget s) new_skip store)
  ];
  replay_window = record_delivered s.ratchet_generation seq s.replay_window;
}

advance_pending : Crypto → ℕ → Bytes → DoubleRatchetState → Outcome Bytes
unfolding commit_pending_chain
advance_pending c seq plaintext s =
    elim (advance_receiving_chain c s.recv.key 0 seq s.ratchet_generation s.max_skip) [
      | err e ↦ (err e, s)
      | ok (next_ck, new_skip) ↦ (ok plaintext, commit_pending_chain seq next_ck new_skip s)
    ]

-- The pending chain, behind a failure `first_err` on the current one. The store is there: the
-- caller has looked (`unwrap` in the source).
pending_key :
    Crypto
    → ℕ
    → Bytes
    → Bytes
    → Bytes
    → Outcome Bytes
    → Option Bytes
    → DoubleRatchetState
    → Outcome Bytes
unfolding advance_pending
pending_key c seq nonce ciphertext aad failed none s = failed
pending_key c seq nonce ciphertext aad failed (some pending) s =
    elim (derive_tentative_msg_key c pending 0 seq s.max_skip) [
      | err e ↦ failed
      | ok key ↦ elim (decrypt_chacha20 c key nonce ciphertext aad) [
        | err e ↦ failed
        | ok plaintext ↦
            advance_pending c seq plaintext (commit_pending_rekey_with_race_resolution s)
      ]
    ]

unfoldable pub try_pending_chain :
    Crypto → ℕ → Bytes → Bytes → Bytes → Outcome Bytes → DoubleRatchetState → Outcome Bytes
unfolding pending_key
try_pending_chain c seq nonce ciphertext aad failed s =
    pending_key c seq nonce ciphertext aad failed s.incoming_proposal.receiving_chain_key s
