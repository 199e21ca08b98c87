-- ===== src/Ratchet/State.antt =====
-- core-crypto/src/crypto/ratchet/state.rs: the data of a ratchet session.
-- An `Instant` is a count of nanoseconds of the monotonic clock; zeroizing has no model.
use kyber_pipe.Base.{ℕ, Bool, false, ◌||◌, Option, none, List, is_some, Bytes}
use kyber_pipe.Kem.{HybridKeyPair}

-- The clocks, which a call reads once: nanoseconds since some start, and unix seconds.
pub record Clock : Type 0 where
  pub mono : ℕ
  pub unix : ℕ

pub record RekeyCarrier : Type 0 where
  pub carrier_seq : ℕ
  pub attached_at : ℕ
  pub attached_at_unix : ℕ
  pub first_attached_at : ℕ
  pub first_attached_at_unix : ℕ
  pub rekey_x25519_pk : Bytes
  pub rekey_mlkem_pk : Bytes
  pub rekey_ciphertext : Bytes

pub record Chain : Type 0 where
  pub key : Bytes
  pub message_count : ℕ

pub record IncomingProposal : Type 0 where
  pub root_key : Option Bytes
  pub sending_chain_key : Option Bytes
  pub receiving_chain_key : Option Bytes
  pub peer_x25519_pk : Option Bytes
  pub peer_mlkem_pk : Option Bytes
  pub generation_bump : Bool
  pub carrier_seq : Option ℕ
  pub carrier_gen : Option ℕ
  pub attached_at_unix : Option ℕ
  pub attached_at_mono : Option ℕ

-- `IncomingProposal::default()`.
abbrev pub no_incoming : IncomingProposal
no_incoming = record {
  root_key = none;
  sending_chain_key = none;
  receiving_chain_key = none;
  peer_x25519_pk = none;
  peer_mlkem_pk = none;
  generation_bump = false;
  carrier_seq = none;
  carrier_gen = none;
  attached_at_unix = none;
  attached_at_mono = none;
}

pub record OutgoingProposal : Type 0 where
  pub root_key : Option Bytes
  pub sending_chain_key : Option Bytes
  pub receiving_chain_key : Option Bytes
  pub hybrid_pair : Option HybridKeyPair
  pub rekey_payload : Option (Bytes × Bytes × Bytes)

abbrev pub no_outgoing : OutgoingProposal
no_outgoing = record {
  root_key = none;
  sending_chain_key = none;
  receiving_chain_key = none;
  hybrid_pair = none;
  rekey_payload = none;
}

-- `is_pending` of the two slots.
abbrev pub incoming_is_pending : IncomingProposal → Bool
incoming_is_pending p = is_some p.root_key || is_some p.receiving_chain_key

abbrev pub outgoing_is_pending : OutgoingProposal → Bool
outgoing_is_pending p = is_some p.root_key || is_some p.sending_chain_key

-- The set `seen` is a list of its (generation, sequence) pairs.
pub record ReplayWindow : Type 0 where
  pub seen : List (ℕ × ℕ)
  pub prev_gen_highest_delivered : Option ℕ

-- `HashMap<(u32, u64), key>`, as an association list.
abbrev pub SkipKeyMap : Type 0
SkipKeyMap = List ((ℕ × ℕ) × Bytes)

pub record DoubleRatchetState : Type 0 where
  pub root_key : Bytes
  pub send : Chain
  pub recv : Chain
  pub our_hybrid_pair : HybridKeyPair
  pub peer_x25519_pk : Option Bytes
  pub peer_mlkem_pk : Option Bytes
  pub rekey_interval : ℕ
  pub ratchet_generation : ℕ
  pub pairing_epoch : ℕ
  pub previous_recv_chain_key : Option Bytes
  pub previous_recv_anchor : Option ℕ
  pub previous_recv_gen : Option ℕ
  pub replay_window : ReplayWindow
  pub incoming_proposal : IncomingProposal
  pub outgoing_proposal : OutgoingProposal
  pub skip_message_keys : Option SkipKeyMap
  pub max_skip : ℕ
  pub previous_keypairs : List HybridKeyPair
  pub max_key_history : ℕ
  pub rekey_pending_confirm_queue : List RekeyCarrier
  pub pending_rekey_ack_seq : Option ℕ
  pub is_initiator : Bool
  pub resync_forward_total : ℕ
  pub peeked_ack_cache : Option (ℕ × Bytes)
