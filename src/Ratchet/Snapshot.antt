-- ===== src/Ratchet/Snapshot.antt =====
-- core-crypto/src/crypto/ratchet/snapshot.rs: a session as it is stored, and its restoration.
-- The seed and key arrays and the serde attributes are as in the other files: byte strings, and a
-- codec that the registry takes as a parameter.
pub mod RoundTrip
use kyber_pipe.Base.{
  ℕ, ◌-◌, Bool, Option, none, some, List, [], ◌∷◌, ◌++◌, length, replicate, unwrap_or, ltb,
  if◌then◌else◌, Bytes,
}
use mathlib.Core.Option
use mathlib.Core.List
use kyber_pipe.Kem.{HybridKeyPair}
use kyber_pipe.Ratchet.State.{
  Clock, RekeyCarrier, Chain, IncomingProposal, OutgoingProposal, ReplayWindow, SkipKeyMap,
  DoubleRatchetState,
}
use kyber_pipe.Ratchet.Pairs.{Pair, set_insert, map_extend}

pub record RatchetSnapshot : Type 0 where
  pub root_key : Bytes
  pub sending_chain_key : Bytes
  pub receiving_chain_key : Bytes
  pub send_message_count : ℕ
  pub recv_message_count : ℕ
  pub our_x25519_pk : Bytes
  pub our_x25519_sk : Bytes
  pub our_mlkem_pk : Bytes
  pub our_mlkem_sk : Bytes
  pub peer_x25519_pk : Option Bytes
  pub peer_mlkem_pk : Option Bytes
  pub ratchet_generation : ℕ
  pub pairing_epoch : ℕ
  pub pending_root_key : Option Bytes
  pub pending_sending_chain_key : Option Bytes
  pub pending_receiving_chain_key : Option Bytes
  pub pending_peer_x25519_pk : Option Bytes
  pub pending_peer_mlkem_pk : Option Bytes
  pub pending_generation_bump : Bool
  pub pending_rekey_carrier_seq : Option ℕ
  pub pending_carrier_gen : Option ℕ
  pub outgoing_root_key : Option Bytes
  pub outgoing_sending_chain_key : Option Bytes
  pub outgoing_receiving_chain_key : Option Bytes
  pub outgoing_x25519_pk : Option Bytes
  pub outgoing_x25519_sk : Option Bytes
  pub outgoing_mlkem_pk : Option Bytes
  pub outgoing_mlkem_sk : Option Bytes
  pub max_skip : ℕ
  pub max_key_history : ℕ
  pub previous_x25519_pk : List Bytes
  pub previous_x25519_sk : List Bytes
  pub previous_mlkem_pk : List Bytes
  pub previous_mlkem_sk : List Bytes
  pub skip_message_keys : SkipKeyMap
  pub seen_sequence_numbers : List Pair
  pub previous_recv_chain_key : Option Bytes
  pub previous_recv_anchor : Option ℕ
  pub previous_recv_gen : Option ℕ
  pub previous_recv_highest_delivered : Option ℕ
  pub rekey_pending_confirm_queue : List ℕ
  pub rekey_pending_confirm_queue_attached_at_unix : List ℕ
  pub rekey_pending_confirm_queue_first_attached_at_unix : List ℕ
  pub pending_rekey_ack_seq : Option ℕ
  pub resync_forward_total : ℕ
  pub is_initiator : Bool
  pub outgoing_rekey_payload : Option (Bytes × Bytes × Bytes)
  pub pending_proposal_attached_at_unix : Option ℕ

entries_of : Option SkipKeyMap → SkipKeyMap
entries_of none = []
entries_of (some m) = m

unfoldable pub to_snapshot : DoubleRatchetState → RatchetSnapshot
unfolding entries_of
to_snapshot s = record {
  root_key = s.root_key;
  sending_chain_key = s.send.key;
  receiving_chain_key = s.recv.key;
  send_message_count = s.send.message_count;
  recv_message_count = s.recv.message_count;
  our_x25519_pk = s.our_hybrid_pair.x25519_pk;
  our_x25519_sk = s.our_hybrid_pair.x25519_sk;
  our_mlkem_pk = s.our_hybrid_pair.mlkem_pk;
  our_mlkem_sk = s.our_hybrid_pair.mlkem_sk;
  peer_x25519_pk = s.peer_x25519_pk;
  peer_mlkem_pk = s.peer_mlkem_pk;
  ratchet_generation = s.ratchet_generation;
  pairing_epoch = s.pairing_epoch;
  pending_root_key = s.incoming_proposal.root_key;
  pending_sending_chain_key = s.incoming_proposal.sending_chain_key;
  pending_receiving_chain_key = s.incoming_proposal.receiving_chain_key;
  pending_peer_x25519_pk = s.incoming_proposal.peer_x25519_pk;
  pending_peer_mlkem_pk = s.incoming_proposal.peer_mlkem_pk;
  pending_generation_bump = s.incoming_proposal.generation_bump;
  pending_rekey_carrier_seq = s.incoming_proposal.carrier_seq;
  pending_carrier_gen = s.incoming_proposal.carrier_gen;
  outgoing_root_key = s.outgoing_proposal.root_key;
  outgoing_sending_chain_key = s.outgoing_proposal.sending_chain_key;
  outgoing_receiving_chain_key = s.outgoing_proposal.receiving_chain_key;
  outgoing_x25519_pk = Option.map (λ p. p.x25519_pk) s.outgoing_proposal.hybrid_pair;
  outgoing_x25519_sk = Option.map (λ p. p.x25519_sk) s.outgoing_proposal.hybrid_pair;
  outgoing_mlkem_pk = Option.map (λ p. p.mlkem_pk) s.outgoing_proposal.hybrid_pair;
  outgoing_mlkem_sk = Option.map (λ p. p.mlkem_sk) s.outgoing_proposal.hybrid_pair;
  max_skip = s.max_skip;
  max_key_history = s.max_key_history;
  previous_x25519_pk = List.map (λ p. p.x25519_pk) s.previous_keypairs;
  previous_x25519_sk = List.map (λ p. p.x25519_sk) s.previous_keypairs;
  previous_mlkem_pk = List.map (λ p. p.mlkem_pk) s.previous_keypairs;
  previous_mlkem_sk = List.map (λ p. p.mlkem_sk) s.previous_keypairs;
  skip_message_keys = entries_of s.skip_message_keys;
  seen_sequence_numbers = s.replay_window.seen;
  previous_recv_chain_key = s.previous_recv_chain_key;
  previous_recv_anchor = s.previous_recv_anchor;
  previous_recv_gen = s.previous_recv_gen;
  previous_recv_highest_delivered = s.replay_window.prev_gen_highest_delivered;
  rekey_pending_confirm_queue = List.map (λ c. c.carrier_seq) s.rekey_pending_confirm_queue;
  rekey_pending_confirm_queue_attached_at_unix =
      List.map (λ c. c.attached_at_unix) s.rekey_pending_confirm_queue;
  rekey_pending_confirm_queue_first_attached_at_unix =
      List.map (λ c. c.first_attached_at_unix) s.rekey_pending_confirm_queue;
  pending_rekey_ack_seq = s.pending_rekey_ack_seq;
  resync_forward_total = s.resync_forward_total;
  is_initiator = s.is_initiator;
  outgoing_rekey_payload = s.outgoing_proposal.rekey_payload;
  pending_proposal_attached_at_unix = s.incoming_proposal.attached_at_unix;
}

-- The loop over the four lists of the key history. The index runs over the first list: a shorter
-- one is an index out of range, a panic, and gives `none`.
unfoldable pub zip_pairs :
    List Bytes → List Bytes → List Bytes → List Bytes → Option (List HybridKeyPair)
zip_pairs [] sks mpks msks = some []
zip_pairs (pk ∷ pks) (sk ∷ sks) (mpk ∷ mpks) (msk ∷ msks) =
    let rest = zip_pairs pks sks mpks msks in
    Option.map (◌∷◌ record { x25519_pk = pk; x25519_sk = sk; mlkem_pk = mpk; mlkem_sk = msk }) rest
zip_pairs (pk ∷ pks) _ _ _ = none

-- The pair of the outgoing proposal, of four parts.
unfoldable pub whole_pair :
    Option Bytes → Option Bytes → Option Bytes → Option Bytes → Option HybridKeyPair
whole_pair (some pk) (some sk) (some mpk) (some msk) =
    some (record { x25519_pk = pk; x25519_sk = sk; mlkem_pk = mpk; mlkem_sk = msk })
whole_pair _ _ _ _ = none

-- `collect` into a hash set.
unfoldable pub collect_set : List Pair → List Pair
collect_set [] = []
collect_set (p ∷ ps) = set_insert p (collect_set ps)

-- `get(idx).copied().unwrap_or(now)`, by the list from `idx` on.
abbrev pub head_or : ℕ → List ℕ → ℕ
head_or now [] = now
head_or now (t ∷ ts) = t

abbrev pub tail_of : List ℕ → List ℕ
tail_of [] = []
tail_of (t ∷ ts) = ts

-- The stamps of the last attachment, filled up where a snapshot of an older build has too few.
unfoldable pub attach_stamps : ℕ → ℕ → List ℕ → List ℕ
attach_stamps now queue_len stamps =
    if ltb (length stamps) queue_len
    then stamps ++ replicate (queue_len - length stamps) now
    else stamps

unfoldable pub first_stamps : ℕ → List ℕ → List ℕ → List ℕ
first_stamps queue_len attached stamps = if ltb (length stamps) queue_len then attached else stamps

unfoldable pub restore_carriers : Clock → List ℕ → List ℕ → List ℕ → List RekeyCarrier
restore_carriers now [] attached first = []
restore_carriers now (seq ∷ seqs) attached first =
    record {
      carrier_seq = seq;
      attached_at = now.mono;
      attached_at_unix = head_or now.unix attached;
      first_attached_at = now.mono;
      first_attached_at_unix = head_or now.unix first;
      rekey_x25519_pk = [];
      rekey_mlkem_pk = [];
      rekey_ciphertext = [];
    }
    ∷ restore_carriers now seqs (tail_of attached) (tail_of first)

-- `back`, as a list of at most one.
unfoldable pub last_alone : List RekeyCarrier → List RekeyCarrier
last_alone [] = []
last_alone (c ∷ []) = c ∷ []
last_alone (c ∷ d ∷ queue) = last_alone (d ∷ queue)

-- Only the last of several carriers stays.
unfoldable pub trim : List RekeyCarrier → List RekeyCarrier
unfolding last_alone
trim queue = if ltb 1 (length queue) then last_alone queue else queue

-- The payload goes to the entry at the back.
unfoldable pub reattach : Option (Bytes × Bytes × Bytes) → List RekeyCarrier → List RekeyCarrier
reattach none queue = queue
reattach (some payload) [] = []
reattach (some (xpk, mpk, ct)) (c ∷ []) =
    record c { rekey_x25519_pk = xpk; rekey_mlkem_pk = mpk; rekey_ciphertext = ct } ∷ []
reattach (some payload) (c ∷ d ∷ queue) = c ∷ reattach (some payload) (d ∷ queue)

unfoldable pub restore_queue :
    Clock → List ℕ → List ℕ → List ℕ → Option (Bytes × Bytes × Bytes) → List RekeyCarrier
unfolding attach_stamps first_stamps restore_carriers trim reattach
restore_queue now seqs attached_at first_attached_at payload =
    let attached = attach_stamps now.unix (length seqs) attached_at in
    let first = first_stamps (length seqs) attached first_attached_at in
    reattach payload (trim (restore_carriers now seqs attached first))

-- `RATCHET_REKEY_INTERVAL` of core-crypto/src/crypto.rs.
abbrev pub ratchet_rekey_interval : ℕ
ratchet_rekey_interval = 100

unfoldable pub restored_state : Clock → RatchetSnapshot → List HybridKeyPair → DoubleRatchetState
unfolding whole_pair collect_set restore_queue
restored_state now snap previous_keypairs = record {
  root_key = snap.root_key;
  send = record { key = snap.sending_chain_key; message_count = snap.send_message_count };
  recv = record { key = snap.receiving_chain_key; message_count = snap.recv_message_count };
  our_hybrid_pair = record {
    x25519_pk = snap.our_x25519_pk;
    x25519_sk = snap.our_x25519_sk;
    mlkem_pk = snap.our_mlkem_pk;
    mlkem_sk = snap.our_mlkem_sk;
  };
  peer_x25519_pk = snap.peer_x25519_pk;
  peer_mlkem_pk = snap.peer_mlkem_pk;
  rekey_interval = ratchet_rekey_interval;
  ratchet_generation = snap.ratchet_generation;
  pairing_epoch = snap.pairing_epoch;
  previous_recv_chain_key = snap.previous_recv_chain_key;
  previous_recv_anchor = snap.previous_recv_anchor;
  previous_recv_gen = snap.previous_recv_gen;
  replay_window = record {
    seen = collect_set snap.seen_sequence_numbers;
    prev_gen_highest_delivered = snap.previous_recv_highest_delivered;
  };
  incoming_proposal = record {
    root_key = snap.pending_root_key;
    sending_chain_key = snap.pending_sending_chain_key;
    receiving_chain_key = snap.pending_receiving_chain_key;
    peer_x25519_pk = snap.pending_peer_x25519_pk;
    peer_mlkem_pk = snap.pending_peer_mlkem_pk;
    generation_bump = snap.pending_generation_bump;
    carrier_seq = snap.pending_rekey_carrier_seq;
    carrier_gen = snap.pending_carrier_gen;
    attached_at_unix = snap.pending_proposal_attached_at_unix;
    attached_at_mono = none;
  };
  outgoing_proposal = record {
    root_key = snap.outgoing_root_key;
    sending_chain_key = snap.outgoing_sending_chain_key;
    receiving_chain_key = snap.outgoing_receiving_chain_key;
    hybrid_pair =
        whole_pair snap.outgoing_x25519_pk snap.outgoing_x25519_sk snap.outgoing_mlkem_pk
          snap.outgoing_mlkem_sk;
    rekey_payload = snap.outgoing_rekey_payload;
  };
  skip_message_keys = some (map_extend snap.skip_message_keys []);
  max_skip = snap.max_skip;
  previous_keypairs = previous_keypairs;
  max_key_history = snap.max_key_history;
  rekey_pending_confirm_queue =
      restore_queue now snap.rekey_pending_confirm_queue
        snap.rekey_pending_confirm_queue_attached_at_unix
        snap.rekey_pending_confirm_queue_first_attached_at_unix snap.outgoing_rekey_payload;
  pending_rekey_ack_seq = snap.pending_rekey_ack_seq;
  is_initiator = snap.is_initiator;
  resync_forward_total = snap.resync_forward_total;
  peeked_ack_cache = none;
}

-- The code's result is always `Ok`; `none` is its panic.
unfoldable pub from_snapshot : Clock → RatchetSnapshot → Option DoubleRatchetState
unfolding restored_state zip_pairs
from_snapshot now snap = Option.map (restored_state now snap) (
    zip_pairs snap.previous_x25519_pk snap.previous_x25519_sk snap.previous_mlkem_pk
      snap.previous_mlkem_sk)
