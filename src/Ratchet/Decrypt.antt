-- ===== src/Ratchet/Decrypt.antt =====
-- core-crypto/src/crypto/ratchet/decrypt.rs: the receive entry point without rekey fields.
pub mod Atomic
pub mod Carrier
pub mod Path
pub mod Keeps
pub mod Stream
pub mod Replay
pub mod Late
pub mod Traffic
use kyber_pipe.Base.{
  ℕ, zero, suc, ◌+◌, ◌-◌, ◌*◌, max, Bool, true, false, not, ◌&&◌, ◌||◌, Option, none, some, List,
  [], ◌∷◌, is_some, unwrap_or, ltb, leb, ◌==◌, if◌then◌else◌, Bytes, bytes_gt, bytes_eq, u32_max,
}
use kyber_pipe.Error.{Result, ok, err, crypto_error, decapsulation_failed}
use kyber_pipe.Primitives.{Crypto}
use kyber_pipe.Kem.{HybridKeyPair, decapsulate_hybrid}
use kyber_pipe.Ratchet.State.{
  Clock, IncomingProposal, OutgoingProposal, ReplayWindow, SkipKeyMap, DoubleRatchetState,
}
use kyber_pipe.Ratchet.Window.{record_delivered}
use kyber_pipe.Ratchet.SkipKeys.{try_decrypt_with_cached_key}
use kyber_pipe.Ratchet.Proposal.{
  cancel_outgoing_rekey, cancel_pending_incoming_rekey, stamp_incoming_proposal_attached_at,
}
use kyber_pipe.Ratchet.Fields.{
  Outcome, RekeyFields, build_rekey_aad, ProposalKeys, derive_proposal_keys,
}
use kyber_pipe.Ratchet.Receive.{
  validate_and_extract_nonce, try_decrypt_with_chain, try_pending_chain,
}
use kyber_pipe.Ratchet.Previous.{Delivery, try_decrypt_previous_generation}

-- A frame whose nonce has passed the checks.
pub record Frame : Type 0 where
  pub gen : ℕ
  pub seq : ℕ
  pub nonce : Bytes
  pub ciphertext : Bytes
  pub aad : Bytes

-- `nonce_gen == previous_recv_gen.unwrap_or(u32::MAX) && previous_recv_chain_key.is_some()`.
abbrev pub is_previous : ℕ → DoubleRatchetState → Bool
is_previous nonce_gen s =
    nonce_gen == unwrap_or s.previous_recv_gen u32_max && is_some s.previous_recv_chain_key

unfoldable pub previous_path : Crypto → Frame → DoubleRatchetState → Outcome Delivery
previous_path c f s =
    if is_previous f.gen s
    then try_decrypt_previous_generation c f.gen f.seq f.nonce f.ciphertext f.aad s
    else (ok none, s)

-- The current chain, and behind its failure the pending one.
unfoldable pub chain_or_pending : Crypto → Frame → Outcome Bytes → Outcome Bytes
chain_or_pending c f (ok plaintext, s) = (ok plaintext, s)
chain_or_pending c f (err e, s) = try_pending_chain c f.seq f.nonce f.ciphertext f.aad (err e, s) s

-- A delivery from the cache.
unfoldable pub deliver_skipped : Frame → SkipKeyMap → DoubleRatchetState → DoubleRatchetState
deliver_skipped f store s = record s {
  skip_message_keys = some store;
  replay_window = record_delivered f.gen f.seq s.replay_window;
}

cached_or_chain :
    Crypto → Frame → Result (Option Bytes) × SkipKeyMap → DoubleRatchetState → Outcome Bytes
unfolding chain_or_pending deliver_skipped
cached_or_chain c f (err e, store) s = (err e, s)
cached_or_chain c f (ok (some plaintext), store) s = (ok plaintext, deliver_skipped f store s)
cached_or_chain c f (ok none, store) s =
    chain_or_pending c f (try_decrypt_with_chain c f.seq f.nonce f.ciphertext f.aad s)

pub with_cache : Crypto → Frame → Option SkipKeyMap → DoubleRatchetState → Outcome Bytes
unfolding cached_or_chain
with_cache c f none s = (err crypto_error, s)
with_cache c f (some store) s =
    cached_or_chain c f (try_decrypt_with_cached_key c store f.gen f.seq f.nonce f.ciphertext f.aad)
      s

behind_previous : Crypto → Frame → Outcome Delivery → Outcome Bytes
unfolding with_cache
behind_previous c f (err e, s) = (err e, s)
behind_previous c f (ok (some (plaintext, from_cache)), s) = (ok plaintext, s)
behind_previous c f (ok none, s) = with_cache c f s.skip_message_keys s

abbrev pub frame_of : Bytes → Bytes → Bytes → ℕ × ℕ → Frame
frame_of nonce ciphertext aad (gen, seq) = record {
  gen = gen;
  seq = seq;
  nonce = nonce;
  ciphertext = ciphertext;
  aad = aad;
}

unfoldable pub ratchet_decrypt_with_aad :
    Crypto → Bytes → Bytes → Bytes → DoubleRatchetState → Outcome Bytes
unfolding behind_previous previous_path
ratchet_decrypt_with_aad c nonce ciphertext aad s = elim (validate_and_extract_nonce nonce s) [
  | err e ↦ (err e, s)
  | ok at ↦
      behind_previous c (frame_of nonce ciphertext aad at)
        (previous_path c (frame_of nonce ciphertext aad at) s)
]

unfoldable pub ratchet_decrypt : Crypto → Bytes → Bytes → DoubleRatchetState → Outcome Bytes
unfolding ratchet_decrypt_with_aad
ratchet_decrypt c nonce ciphertext s = ratchet_decrypt_with_aad c nonce ciphertext [] s
