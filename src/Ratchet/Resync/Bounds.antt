-- ===== src/Ratchet/Resync/Bounds.antt =====
-- How far a resynchronisation moves the receiving chain.
use kyber_pipe.Base.{
  ℕ, ◌+◌, ◌-◌, ◌≤◌, ◌<◌, ◌≡◌, refl, ◌∙◌, true, leb, ltb, inl, inr, some, [], arith, Bool-cases,
  is_some, saturating_add64,
}
use kyber_pipe.Error.{ok, err}
use kyber_pipe.Primitives.{Crypto}
use kyber_pipe.Ratchet.State.{Clock, SkipKeyMap, DoubleRatchetState}
use kyber_pipe.Ratchet.Proposal.{cancel_outgoing_rekey, cancel_pending_incoming_rekey}
use kyber_pipe.Ratchet.Chain.{step_chain, skip_loop}
use kyber_pipe.Ratchet.Chain.Steps.{skip_loop-chain}
use kyber_pipe.Ratchet.Fields.{Outcome}
use kyber_pipe.Ratchet.Resync.{
  sync_max_gap, sync_max_cumulative, evict_incoming, evict_outgoing, advance_to, behind_incoming,
  behind_outgoing, resync_receiving_chain, jump,
}

-- What the evictions leave alone.
pub record SameChain (s t : DoubleRatchetState) : Type 0 where
  pub recv : t.recv ≡ s.recv
  pub total : t.resync_forward_total ≡ s.resync_forward_total
  pub store : t.skip_message_keys ≡ s.skip_message_keys

-- The chain has moved `gap` positions, to `target`, within both budgets.
pub record Moved (c : Crypto) (target gap : ℕ) (s t : DoubleRatchetState) : Type 0 where
  pub forward : s.recv.message_count < target
  pub by_gap : gap ≡ target - s.recv.message_count
  pub small : gap ≤ sync_max_gap
  pub count : t.recv.message_count ≡ target
  pub key : t.recv.key ≡ step_chain c gap s.recv.key
  pub total : t.resync_forward_total ≡ s.resync_forward_total + gap
  pub within : t.resync_forward_total ≤ sync_max_cumulative

-- An outcome is a move by the gap that it returns, or leaves the chain where it was.
abbrev pub MovesOrStays : Crypto → ℕ → DoubleRatchetState → Outcome ℕ → Type 0
MovesOrStays c target s (ok gap, t) = Moved c target gap s t
MovesOrStays c target s (err e, t) = SameChain s t

abbrev Chained : DoubleRatchetState → DoubleRatchetState → Type 0
Chained s t = SameChain s t × (is_some t.skip_message_keys ≡ true)

module _ (c : Crypto) where
  jump-Moved :
      (target : ℕ) (store : SkipKeyMap) (s : DoubleRatchetState)
      → s.skip_message_keys ≡ some store
      → s.recv.message_count < target
      → target - s.recv.message_count ≤ sync_max_gap
      → saturating_add64 s.resync_forward_total (target - s.recv.message_count)
        ≤ sync_max_cumulative
      → MovesOrStays c target s (
          jump target
            (target - s.recv.message_count)
            (skip_loop c s.ratchet_generation
              (target - s.recv.message_count)
              s.recv.message_count
              s.recv.key
              [])
            s)
  unfolding jump
  jump-Moved target store s hs forward small within =
      rw (hs, jump)
        (record {
          forward = forward;
          by_gap = refl;
          small = small;
          count = refl;
          key =
              skip_loop-chain c s.ratchet_generation (target - s.recv.message_count)
                s.recv.message_count s.recv.key [];
          total = omega (arith, within);
          within = within;
        })

  -- The checks of the second half, on a session whose store is there.
  advance_to-MovesOrStays :
      (target : ℕ) (store : SkipKeyMap) (s : DoubleRatchetState)
      → s.skip_message_keys ≡ some store
      → MovesOrStays c target s (advance_to c target s)
  unfolding advance_to
  advance_to-MovesOrStays target store s hs = elim (Bool-cases (leb target s.recv.message_count)) [
    | inl behind ↦ rw (behind, advance_to) stays
    | inr ahead ↦ elim (Bool-cases (ltb sync_max_gap (target - s.recv.message_count))) [
      | inl wide ↦ rw (ahead, wide, advance_to) stays
      | inr small ↦
          elim (Bool-cases (
            ltb sync_max_cumulative
              (saturating_add64 s.resync_forward_total (target - s.recv.message_count)))) [
                | inl much ↦ rw (ahead, small, much, advance_to) stays
                | inr within ↦
                    rw (ahead, small, within, advance_to)
                      (jump-Moved target store s hs (ground arith) (ground arith) (ground arith))
              ]
    ]
  ]
    where
      stays : SameChain s s
      stays = record { recv = refl; total = refl; store = refl }

  evict_incoming-SameChain :
      (now : Clock) (s : DoubleRatchetState) → SameChain s (evict_incoming now s).1
  unfolding evict_incoming cancel_pending_incoming_rekey
  evict_incoming-SameChain now s = ground arith

  evict_outgoing-SameChain :
      (now : Clock) (s : DoubleRatchetState) → SameChain s (evict_outgoing now s).1
  unfolding evict_outgoing cancel_outgoing_rekey
  evict_outgoing-SameChain now s = ground arith

  SameChain-trans : (s t u : DoubleRatchetState) → SameChain s t → SameChain t u → SameChain s u
  SameChain-trans s t u p q = record {
    recv = q.recv ∙ p.recv;
    total = q.total ∙ p.total;
    store = q.store ∙ p.store;
  }

  -- A move of a session is one of every session with the same chain.
  from_SameChain :
      (target : ℕ) (s t : DoubleRatchetState) (o : Outcome ℕ)
      → SameChain s t
      → MovesOrStays c target t o
      → MovesOrStays c target s o
  from_SameChain target s t (err e, u) p q = SameChain-trans s t u p q
  from_SameChain target s t (ok gap, u) p m = record {
    forward = rw (← p.recv) m.forward;
    by_gap = rw (← p.recv) m.by_gap;
    small = m.small;
    count = m.count;
    key = rw (← p.recv) m.key;
    total = rw (← p.total) m.total;
    within = m.within;
  }

  behind_outgoing-MovesOrStays :
      (target : ℕ) (store : SkipKeyMap) (s : DoubleRatchetState) (o : Outcome Unit)
      → s.skip_message_keys ≡ some store
      → SameChain s o.1
      → MovesOrStays c target s (behind_outgoing c target o)
  unfolding behind_outgoing
  behind_outgoing-MovesOrStays target store s (err e, t) hs p = p
  behind_outgoing-MovesOrStays target store s (ok u, t) hs p =
      from_SameChain target s t (advance_to c target t) p
        (advance_to-MovesOrStays target store t (p.store ∙ hs))

  behind_incoming-MovesOrStays :
      (now : Clock) (target : ℕ) (store : SkipKeyMap) (s : DoubleRatchetState) (o : Outcome Unit)
      → s.skip_message_keys ≡ some store
      → SameChain s o.1
      → MovesOrStays c target s (behind_incoming c now target o)
  unfolding behind_incoming
  behind_incoming-MovesOrStays now target store s (err e, t) hs p = p
  behind_incoming-MovesOrStays now target store s (ok u, t) hs p =
      behind_outgoing-MovesOrStays target store s (evict_outgoing now t) hs
        (SameChain-trans s t (evict_outgoing now t).1 p (evict_outgoing-SameChain now t))

  -- A resynchronisation of a session whose key store is there either returns a gap or an error. With
  -- a gap, the target lies ahead of the receiving chain by that gap, which is at most 1000, the
  -- chain stands at the target with the key that many steps on, and the total of all gaps has grown
  -- by the gap and is at most 20000. With an error, the chain, the total and the store are as before.
  pub resync-MovesOrStays :
      (now : Clock) (target : ℕ) (store : SkipKeyMap) (s : DoubleRatchetState)
      → s.skip_message_keys ≡ some store
      → MovesOrStays c target s (resync_receiving_chain c now target s)
  unfolding resync_receiving_chain
  resync-MovesOrStays now target store s hs =
      behind_incoming-MovesOrStays now target store s (evict_incoming now s) hs
        (evict_incoming-SameChain now s)
