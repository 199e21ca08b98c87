-- ===== src/Ratchet/Proposal.antt =====
-- core-crypto/src/crypto/ratchet/state.rs: the two proposal slots, their commit and their
-- cancellation, and the acknowledgement of a rekey.
use kyber_pipe.Base.{
  ℕ, ◌-◌, max, Bool, true, false, ◌||◌, Option, none, some, List, [], ◌∷◌, ◌++◌, length, drop,
  is_some, is_none, unwrap_or, ltb, ◌==◌, if◌then◌else◌, Bytes, saturating_add32,
}
use kyber_pipe.Kem.{HybridKeyPair}
use kyber_pipe.Ratchet.State.{
  Clock, RekeyCarrier, IncomingProposal, DoubleRatchetState, no_outgoing,
}
use kyber_pipe.Ratchet.Pairs.{Pair}

-- The largest sequence number of the generation in the set.
max_seen : ℕ → List Pair → Option ℕ
max_seen gen [] = none
max_seen gen ((g, s) ∷ seen) =
    let rest = max_seen gen seen in if g == gen then some (max s (unwrap_or rest s)) else rest

unfoldable pub capture_previous_recv_watermark : DoubleRatchetState → Option ℕ
unfolding max_seen
capture_previous_recv_watermark s =
    let seen_max = max_seen s.ratchet_generation s.replay_window.seen in
    let contiguous = s.recv.message_count - 1 in
    if ltb 0 s.recv.message_count
    then some (max contiguous (unwrap_or seen_max contiguous))
    else seen_max

unfoldable retain_previous_receiving_chain : DoubleRatchetState → DoubleRatchetState
retain_previous_receiving_chain s = record s {
  previous_recv_chain_key = some s.recv.key;
  previous_recv_anchor = some s.recv.message_count;
  previous_recv_gen = some s.ratchet_generation;
  replay_window = record s.replay_window {
    prev_gen_highest_delivered = capture_previous_recv_watermark s;
  };
}

unfoldable reset_generation_counters : DoubleRatchetState → DoubleRatchetState
reset_generation_counters s = record s {
  send = record s.send { message_count = 0 };
  recv = record s.recv { message_count = 0 };
  replay_window = record s.replay_window { seen = [] };
}

-- `if let Some(x) = slot.take() { field = Some(x) }`.
abbrev or_keep {ℓ} : {A : Type ℓ} → Option A → Option A → Option A
or_keep none old = old
or_keep (some x) old = some x

-- The transition of `commit_pending_rekey`, with the three keys of a full proposal.
adopt_incoming : Bytes → Bytes → Bytes → DoubleRatchetState → DoubleRatchetState
unfolding retain_previous_receiving_chain reset_generation_counters
adopt_incoming pk psk prk s =
    let p = s.incoming_proposal in
    let kept = retain_previous_receiving_chain s in
    reset_generation_counters (record kept {
      root_key = pk;
      send = record kept.send { key = psk };
      recv = record kept.recv { key = prk };
      peer_x25519_pk = or_keep p.peer_x25519_pk s.peer_x25519_pk;
      peer_mlkem_pk = or_keep p.peer_mlkem_pk s.peer_mlkem_pk;
      ratchet_generation =
          if p.generation_bump
          then saturating_add32 s.ratchet_generation 1
          else s.ratchet_generation;
    })

-- The slot after a commit: all is cleared but `attached_at_mono`.
unfoldable pub clear_incoming : IncomingProposal → IncomingProposal
clear_incoming p = record {
  root_key = none;
  sending_chain_key = none;
  receiving_chain_key = none;
  peer_x25519_pk = none;
  peer_mlkem_pk = none;
  generation_bump = false;
  carrier_seq = none;
  carrier_gen = none;
  attached_at_unix = none;
  attached_at_mono = p.attached_at_mono;
}

adopt_if_full : Option Bytes → Option Bytes → Option Bytes → DoubleRatchetState → DoubleRatchetState
unfolding adopt_incoming
adopt_if_full (some pk) (some psk) (some prk) s = adopt_incoming pk psk prk s
adopt_if_full _ _ _ s = s

unfoldable pub commit_pending_rekey : DoubleRatchetState → DoubleRatchetState
unfolding adopt_if_full clear_incoming
commit_pending_rekey s =
    let p = s.incoming_proposal in
    let t = adopt_if_full p.root_key p.sending_chain_key p.receiving_chain_key s in
    record t {
      incoming_proposal = clear_incoming p;
      pending_rekey_ack_seq =
          if is_none s.pending_rekey_ack_seq then p.carrier_seq else s.pending_rekey_ack_seq;
    }

unfoldable pub cancel_outgoing_rekey : DoubleRatchetState → DoubleRatchetState
cancel_outgoing_rekey s = record s {
  outgoing_proposal = no_outgoing;
  rekey_pending_confirm_queue = [];
}

unfoldable pub cancel_pending_incoming_rekey : DoubleRatchetState → DoubleRatchetState
unfolding clear_incoming
cancel_pending_incoming_rekey s = record s {
  incoming_proposal = clear_incoming s.incoming_proposal;
}

unfoldable pub commit_pending_rekey_with_race_resolution : DoubleRatchetState → DoubleRatchetState
unfolding commit_pending_rekey cancel_outgoing_rekey
commit_pending_rekey_with_race_resolution s =
    commit_pending_rekey
      (if is_some s.outgoing_proposal.root_key then cancel_outgoing_rekey s else s)

-- `push_back`, and `pop_front` while the history is too long.
abbrev pub push_history : ℕ → List HybridKeyPair → HybridKeyPair → List HybridKeyPair
push_history limit history pair =
    drop (length (history ++ pair ∷ []) - limit) (history ++ pair ∷ [])

swap_pair : Option HybridKeyPair → DoubleRatchetState → DoubleRatchetState
swap_pair none s = s
swap_pair (some new_pair) s = record s {
  our_hybrid_pair = new_pair;
  previous_keypairs = push_history s.max_key_history s.previous_keypairs s.our_hybrid_pair;
  ratchet_generation = saturating_add32 s.ratchet_generation 1;
}

adopt_outgoing :
    Option Bytes → Option Bytes → Option Bytes → DoubleRatchetState → DoubleRatchetState
unfolding swap_pair retain_previous_receiving_chain reset_generation_counters
adopt_outgoing (some k) (some sk) (some rk) s =
    let kept = retain_previous_receiving_chain s in
    reset_generation_counters (
      swap_pair s.outgoing_proposal.hybrid_pair (record kept {
        root_key = k;
        send = record kept.send { key = sk };
        recv = record kept.recv { key = rk };
      }))
adopt_outgoing _ _ _ s = s

unfoldable pub commit_outgoing_rekey : DoubleRatchetState → DoubleRatchetState
unfolding adopt_outgoing
commit_outgoing_rekey s =
    let p = s.outgoing_proposal in
    let t = adopt_outgoing p.root_key p.sending_chain_key p.receiving_chain_key s in
    record t { outgoing_proposal = no_outgoing; rekey_pending_confirm_queue = [] }

unfoldable pub stamp_incoming_proposal_attached_at : Clock → IncomingProposal → IncomingProposal
stamp_incoming_proposal_attached_at now p = record p {
  attached_at_unix = some (unwrap_or p.attached_at_unix now.unix);
  attached_at_mono = some (unwrap_or p.attached_at_mono now.mono);
}

unfoldable pub take_pending_rekey_ack_seq : DoubleRatchetState → Option ℕ × DoubleRatchetState
take_pending_rekey_ack_seq s = (
  s.pending_rekey_ack_seq,
  record s {
    pending_rekey_ack_seq = none;
    incoming_proposal = record s.incoming_proposal { carrier_seq = none };
    peeked_ack_cache = none;
  },
)

-- `iter().position(|c| c.carrier_seq == seq)` finds an entry.
unfoldable awaits_ack : ℕ → List RekeyCarrier → Bool
awaits_ack seq [] = false
awaits_ack seq (c ∷ queue) = c.carrier_seq == seq || awaits_ack seq queue

-- The entry that `remove(idx)` takes out goes with the whole queue, which the commit clears.
unfoldable pub process_rekey_ack : ℕ → DoubleRatchetState → Bool × DoubleRatchetState
unfolding awaits_ack
process_rekey_ack seq s =
    if awaits_ack seq s.rekey_pending_confirm_queue
    then (true, commit_outgoing_rekey s)
    else (false, s)
