-- ===== src/Ratchet/Chain.antt =====
-- core-crypto/src/crypto/ratchet/derive.rs and resync.rs: the key derivations of a chain.
pub mod Steps
use kyber_pipe.Base.{
  ℕ, zero, suc, ◌+◌, ◌-◌, Bool, Option, none, some, List, [], ◌∷◌, ltb, if◌then◌else◌, Bytes, ascii,
  ◌&&◌,
}
use kyber_pipe.Error.{Result, ok, err, crypto_error, session_desynchronized}
use kyber_pipe.Primitives.{Crypto}
use kyber_pipe.Ratchet.State.{SkipKeyMap}
use kyber_pipe.Ratchet.Pairs.{map_insert}

-- The gap test of the three derivations: `target > base && target - base > max_skip`.
abbrev pub gap_exceeded : ℕ → ℕ → ℕ → Bool
gap_exceeded base target max_skip = ltb base target && ltb max_skip (target - base)

module _ (c : Crypto) where
  -- The two expansions of a chain key.
  unfoldable pub msg_key_of : Bytes → Bytes
  msg_key_of ck = c.expand (some ck) (ascii "step") (ascii "kyberpipe-msg-key") 32

  unfoldable pub next_chain_of : Bytes → Bytes
  next_chain_of ck = c.expand (some ck) (ascii "step") (ascii "kyberpipe-next-chain") 32

  -- `for _ in a..b` steps the chain key, `b - a` times.
  unfoldable pub step_chain : ℕ → Bytes → Bytes
  step_chain zero ck = ck
  step_chain (suc n) ck = step_chain n (next_chain_of ck)

  unfoldable pub derive_chain_keys_from_root : Bytes → Bytes → Bytes → Bytes × Bytes
  derive_chain_keys_from_root root_key send_label recv_label = (
    c.expand (some (ascii "kyberpipe-chain-salt")) root_key send_label 32,
    c.expand (some (ascii "kyberpipe-chain-salt")) root_key recv_label 32,
  )

  unfoldable pub derive_tentative_msg_key : Bytes → ℕ → ℕ → ℕ → Result Bytes
  derive_tentative_msg_key recv_chain_key recv_message_count target_seq max_skip =
      if gap_exceeded recv_message_count target_seq max_skip
      then err crypto_error
      else ok (msg_key_of (step_chain (target_seq - recv_message_count) recv_chain_key))

  -- `for skip_seq in base..base + n`: the chain key behind the range, and the keys of the range
  -- put into `keys`.
  unfoldable pub skip_loop : ℕ → ℕ → ℕ → Bytes → SkipKeyMap → Bytes × SkipKeyMap
  skip_loop gen zero base ck keys = (ck, keys)
  skip_loop gen (suc n) base ck keys =
      skip_loop gen n (suc base) (next_chain_of ck) (map_insert (gen, base) (msg_key_of ck) keys)

  unfoldable pub advance_receiving_chain : Bytes → ℕ → ℕ → ℕ → ℕ → Result (Bytes × SkipKeyMap)
  advance_receiving_chain recv_chain_key base_seq target_seq generation max_skip =
      let (ck, skip_keys) =
        skip_loop generation (target_seq - base_seq) base_seq recv_chain_key [] in
      if gap_exceeded base_seq target_seq max_skip
      then err session_desynchronized
      else ok (next_chain_of ck, skip_keys)
