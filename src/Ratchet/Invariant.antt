-- ===== src/Ratchet/Invariant.antt =====
-- What holds of every session, whatever it has sent, received and resynchronised.
pub mod Sending
pub mod Receiving
pub mod Reach
use kyber_pipe.Base.{ℕ, ◌≤◌, ◌≡◌, ◌⊎◌, Bool, true, List, [], length, is_some}
use kyber_pipe.Ratchet.State.{OutgoingProposal, IncomingProposal, DoubleRatchetState}
use kyber_pipe.Ratchet.Policy.{seen_set_max}
use kyber_pipe.Ratchet.Resync.{sync_max_cumulative}

-- The three keys of a slot are all there or all absent.
abbrev WholeOutgoing : OutgoingProposal → Type 0
WholeOutgoing p =
    (is_some p.root_key ≡ is_some p.sending_chain_key)
    × (is_some p.root_key ≡ is_some p.receiving_chain_key)

abbrev WholeIncoming : IncomingProposal → Type 0
WholeIncoming p =
    (is_some p.root_key ≡ is_some p.sending_chain_key)
    × (is_some p.root_key ≡ is_some p.receiving_chain_key)

-- At most one carrier, and only for a pending proposal of our own; whole slots; a bounded replay
-- window and key history; a resync total within its budget.
pub record IsWellFormed (s : DoubleRatchetState) : Type 0 where
  pub one_carrier : length s.rekey_pending_confirm_queue ≤ 1
  pub carrier_pending :
      (is_some s.outgoing_proposal.root_key ≡ true) ⊎ (s.rekey_pending_confirm_queue ≡ [])
  pub whole_outgoing : WholeOutgoing s.outgoing_proposal
  pub whole_incoming : WholeIncoming s.incoming_proposal
  pub bounded_window : length s.replay_window.seen ≤ seen_set_max
  pub bounded_history : length s.previous_keypairs ≤ s.max_key_history
  pub bounded_resync : s.resync_forward_total ≤ sync_max_cumulative
