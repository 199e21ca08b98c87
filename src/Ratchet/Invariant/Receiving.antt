-- ===== src/Ratchet/Invariant/Receiving.antt =====
-- The receiving side and the resynchronisation keep the invariant.
use kyber_pipe.Base.{ℕ, ◌+◌, ◌-◌, ◌≤◌, ◌&&◌, arith, leb, ◌==◌, length, length-retain-le, wrap64}
use kyber_pipe.Primitives.{Crypto}
use kyber_pipe.Ratchet.State.{Clock, ReplayWindow, DoubleRatchetState}
use kyber_pipe.Ratchet.Window.{record_delivered}
use kyber_pipe.Ratchet.Window.Eviction.{record_delivered_bound}
use kyber_pipe.Ratchet.Proposal.{stamp_incoming_proposal_attached_at}
use kyber_pipe.Ratchet.Receive.{commit_current, commit_pending_chain, slide, skip_budget}
use kyber_pipe.Ratchet.Previous.{commit_previous, deliver_cached, raise_watermark}
use kyber_pipe.Ratchet.Decrypt.{deliver_skipped}
use kyber_pipe.Ratchet.Rekeyed.{stage_incoming}
use kyber_pipe.Ratchet.Decrypt.Keeps.{Closed}
use kyber_pipe.Ratchet.Resync.Keeps.{resync_receiving_chain-keeps}
use kyber_pipe.Ratchet.Resync.{resync_receiving_chain, advance_to, evict_incoming, evict_outgoing}
use kyber_pipe.Ratchet.Invariant.{IsWellFormed}
use kyber_pipe.Ratchet.Invariant.Sending.{
  commit_race-IsWellFormed, cancel_outgoing_rekey-IsWellFormed,
  cancel_pending_incoming_rekey-IsWellFormed,
}

module _ (c : Crypto) where
  evict_incoming-IsWellFormed :
      (now : Clock) (s : DoubleRatchetState)
      → IsWellFormed s
      → IsWellFormed (evict_incoming now s).1
  unfolding evict_incoming
  evict_incoming-IsWellFormed now s v =
      ground (arith, cancel_pending_incoming_rekey-IsWellFormed s v)

  evict_outgoing-IsWellFormed :
      (now : Clock) (s : DoubleRatchetState)
      → IsWellFormed s
      → IsWellFormed (evict_outgoing now s).1
  unfolding evict_outgoing
  evict_outgoing-IsWellFormed now s v = ground (arith, cancel_outgoing_rekey-IsWellFormed s v)

  advance_to-IsWellFormed :
      (target : ℕ) (s : DoubleRatchetState)
      → IsWellFormed s
      → IsWellFormed (advance_to c target s).1
  unfolding advance_to
  advance_to-IsWellFormed target s v = ground arith

  length-slide :
      (gen lower : ℕ) (w : ReplayWindow) → length (slide gen lower w).seen ≤ length w.seen
  unfolding slide
  length-slide gen lower w = length-retain-le (λ p. p.0 == gen && leb lower p.1) w.seen

  pub receiving : Closed c IsWellFormed
  unfolding commit_current commit_pending_chain deliver_skipped commit_previous deliver_cached
      stage_incoming stamp_incoming_proposal_attached_at
  receiving = record {
    current = λ seq ck keys store s v. ground (
      arith,
      record_delivered_bound s.ratchet_generation seq s.replay_window,
      length-slide s.ratchet_generation (wrap64 (seq + 1) - skip_budget s)
          (record_delivered s.ratchet_generation seq s.replay_window),
    );
    pending = λ seq ck keys s v.
        ground (arith, record_delivered_bound s.ratchet_generation seq s.replay_window);
    commits = commit_race-IsWellFormed;
    skipped = λ f store s v. ground (arith, record_delivered_bound f.gen f.seq s.replay_window);
    previous = λ gen seq ck keys store s v.
        ground (arith, record_delivered_bound gen seq (raise_watermark seq s.replay_window));
    previous_cached =
        λ gen seq store s v. ground (arith, record_delivered_bound gen seq s.replay_window);
    staged = λ now gen seq xpk mpk keys s v. ground arith;
    cancels_outgoing = cancel_outgoing_rekey-IsWellFormed;
    cancels_incoming = cancel_pending_incoming_rekey-IsWellFormed;
    acknowledges = λ seq s v. ground arith;
  }

  pub resync_receiving_chain-IsWellFormed :
      (now : Clock) (target : ℕ) (s : DoubleRatchetState)
      → IsWellFormed s
      → IsWellFormed (resync_receiving_chain c now target s).1
  resync_receiving_chain-IsWellFormed now target s v =
      resync_receiving_chain-keeps c IsWellFormed now target (evict_incoming-IsWellFormed now)
        (evict_outgoing-IsWellFormed now) (advance_to-IsWellFormed target) s v
