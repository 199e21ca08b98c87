-- ===== src/Ratchet/Rekey/Stamps.antt =====
-- How long a staged proposal of the peer counts as fresh.
use kyber_pipe.Base.{
  ℕ, ◌+◌, ◌-◌, ◌*◌, ◌^◌, ◌≤◌, ◌<◌, ◌≡◌, refl, ap, ◌⊎◌, inl, inr, max, leb, true, some, Bytes, arith,
}
use kyber_pipe.Primitives.{Crypto}
use kyber_pipe.Ratchet.State.{Clock, IncomingProposal, DoubleRatchetState, incoming_is_pending}
use kyber_pipe.Ratchet.Policy.{incoming_proposal_is_stale, as_secs}
use kyber_pipe.Ratchet.Proposal.{
  commit_pending_rekey, cancel_pending_incoming_rekey, clear_incoming,
  stamp_incoming_proposal_attached_at,
}
use kyber_pipe.Ratchet.Fields.{ProposalKeys}
use kyber_pipe.Ratchet.Rekeyed.{stage_incoming, renew_age}
use kyber_pipe.Ratchet.Resync.{evict_incoming, behind_incoming, resync_receiving_chain}

-- A proposal that is staged at `now` over one of an older generation, whatever that one's age: at
-- `later` it is stale if and only if 60 seconds have passed since `now` on the wall clock or on the
-- monotonic one, whichever of the two says more: a jump of the wall clock alone is enough.
pub stage_incoming_stale :
    (now later : Clock) (gen old seq : ℕ) (xpk mpk : Bytes) (keys : ProposalKeys)
    (p : IncomingProposal)
    → p.carrier_gen ≡ some old
    → old < gen
    → incoming_proposal_is_stale later (stage_incoming now gen seq xpk mpk keys p)
      ≡ leb 60 (max (later.unix - now.unix) (as_secs (later.mono - now.mono)))
unfolding incoming_proposal_is_stale stage_incoming renew_age stamp_incoming_proposal_attached_at
stage_incoming_stale now later gen old seq xpk mpk keys p e h = ground arith

-- A carrier of the same generation that is staged again does not make the proposal any younger.
pub restaged_keeps_age :
    (now later : Clock) (gen seq : ℕ) (xpk mpk : Bytes) (keys : ProposalKeys) (p : IncomingProposal)
    (unix mono : ℕ)
    → p.carrier_gen ≡ some gen
    → p.attached_at_unix ≡ some unix
    → p.attached_at_mono ≡ some mono
    → incoming_proposal_is_stale later (stage_incoming now gen seq xpk mpk keys p)
      ≡ incoming_proposal_is_stale later p
unfolding incoming_proposal_is_stale stage_incoming renew_age stamp_incoming_proposal_attached_at
restaged_keeps_age now later gen seq xpk mpk keys p unix mono e u m = ground arith

emptied_slot :
    (s emptied : DoubleRatchetState)
    → (emptied ≡ commit_pending_rekey s) ⊎ (emptied ≡ cancel_pending_incoming_rekey s)
    → emptied.incoming_proposal ≡ clear_incoming s.incoming_proposal
unfolding commit_pending_rekey cancel_pending_incoming_rekey
emptied_slot s emptied (inl e) = ap (λ (u : DoubleRatchetState). u.incoming_proposal) e
emptied_slot s emptied (inr e) = ap (λ (u : DoubleRatchetState). u.incoming_proposal) e

stale_at_once :
    (now : Clock) (gen seq old : ℕ) (xpk mpk : Bytes) (keys : ProposalKeys) (p : IncomingProposal)
    → p.attached_at_mono ≡ some old
    → old + 60 * 10 ^ 9 ≤ now.mono
    → incoming_proposal_is_stale now (stage_incoming now gen seq xpk mpk keys (clear_incoming p))
      ≡ true
unfolding incoming_proposal_is_stale stage_incoming renew_age stamp_incoming_proposal_attached_at
    clear_incoming
stale_at_once now gen seq old xpk mpk keys p e h = ground arith

staged-pending :
    (now : Clock) (gen seq : ℕ) (xpk mpk : Bytes) (keys : ProposalKeys) (p : IncomingProposal)
    → incoming_is_pending (stage_incoming now gen seq xpk mpk keys p) ≡ true
unfolding stage_incoming stamp_incoming_proposal_attached_at
staged-pending now gen seq xpk mpk keys p = refl

evict_cancelled :
    (now : Clock) (t : DoubleRatchetState)
    → incoming_proposal_is_stale now t.incoming_proposal ≡ true
    → incoming_is_pending t.incoming_proposal ≡ true
    → evict_incoming now t ≡ evict_incoming now (cancel_pending_incoming_rekey t)
unfolding evict_incoming cancel_pending_incoming_rekey clear_incoming
evict_cancelled now t stale pending = rw (pending, stale) refl

-- A resynchronisation with a stale proposal is one without it.
resync-cancelled :
    (c : Crypto) (now : Clock) (target : ℕ) (t : DoubleRatchetState)
    → incoming_proposal_is_stale now t.incoming_proposal ≡ true
    → incoming_is_pending t.incoming_proposal ≡ true
    → resync_receiving_chain c now target t
      ≡ resync_receiving_chain c now target (cancel_pending_incoming_rekey t)
unfolding resync_receiving_chain
resync-cancelled c now target t stale pending =
    ap (behind_incoming c now target) (evict_cancelled now t stale pending)

-- A session whose proposal slot was emptied, by a commit or by a cancellation, at a time when its
-- proposal had the monotonic stamp `old`. A proposal of the peer that is staged in it 60 seconds
-- after that stamp or later is stale in the same instant, and a resynchronisation at that instant
-- does the same as on the session with that proposal cancelled.
pub committed_stamp_survives :
    (c : Crypto) (now : Clock) (target gen seq old : ℕ) (xpk mpk : Bytes) (keys : ProposalKeys)
    (s emptied : DoubleRatchetState)
    → s.incoming_proposal.attached_at_mono ≡ some old
    → old + 60 * 10 ^ 9 ≤ now.mono
    → (emptied ≡ commit_pending_rekey s) ⊎ (emptied ≡ cancel_pending_incoming_rekey s)
    → let t = record emptied {
      incoming_proposal = stage_incoming now gen seq xpk mpk keys emptied.incoming_proposal;
    } in
      (incoming_proposal_is_stale now t.incoming_proposal ≡ true)
      × (resync_receiving_chain c now target t
          ≡ resync_receiving_chain c now target (cancel_pending_incoming_rekey t))
committed_stamp_survives c now target gen seq old xpk mpk keys s emptied e h by =
    let slot : emptied.incoming_proposal ≡ clear_incoming s.incoming_proposal =
      emptied_slot s emptied by in
    let t : DoubleRatchetState = record emptied {
      incoming_proposal = stage_incoming now gen seq xpk mpk keys emptied.incoming_proposal;
    } in
    let stale : incoming_proposal_is_stale now t.incoming_proposal ≡ true =
      rw slot (stale_at_once now gen seq old xpk mpk keys s.incoming_proposal e h) in
    (
      stale,
      resync-cancelled c now target t stale
          (staged-pending now gen seq xpk mpk keys emptied.incoming_proposal),
    )
