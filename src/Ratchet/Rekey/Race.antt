-- ===== src/Ratchet/Rekey/Race.antt =====
-- Two proposals that cross: one of the two sides yields, and never both or none.
use kyber_pipe.Base.{
  ℕ, ◌≡◌, ◌≢◌, true, false, ◌⊎◌, inl, inr, none, some, [], Bytes, arith, bytes_gt_asymm,
  bytes_gt_total, bytes_gt_irrefl, bytes_eq_refl, bytes_eq_sound, bytes_gt_neq, Bool-cases, is_some,
}
use kyber_pipe.Ratchet.State.{DoubleRatchetState, no_outgoing}
use kyber_pipe.Ratchet.Proposal.{
  cancel_outgoing_rekey, cancel_pending_incoming_rekey, clear_incoming,
}
use kyber_pipe.Ratchet.Rekeyed.{keys_gt, peer_wins, resolve_rekey_race_and_ack}

keys_gt_asymm : (p q : Bytes × Bytes) → keys_gt p q ≡ true → keys_gt q p ≡ false
keys_gt_asymm (x, m) (x', m') h = ground (
  arith,
  bytes_gt_asymm x x',
  bytes_gt_neq x x',
  bytes_eq_sound x x',
  bytes_gt_irrefl x,
  bytes_gt_asymm m m',
)

keys_gt_total : (p q : Bytes × Bytes) → keys_gt p q ≡ false → keys_gt q p ≡ false → p ≡ q
keys_gt_total (x, m) (x', m') h k =
    ground (arith, bytes_gt_total x x', bytes_eq_refl x, bytes_gt_total m m')

-- A session before and after it has resolved the race in favour of its own proposal.
pub record Stands (s t : DoubleRatchetState) : Type 0 where
  pub own : t.outgoing_proposal ≡ s.outgoing_proposal
  pub theirs_gone : t.incoming_proposal.root_key ≡ none
  pub not_acknowledged : t.pending_rekey_ack_seq ≡ s.pending_rekey_ack_seq

-- And in favour of the peer's, which came with the message `seq`.
pub record Yields (seq : ℕ) (s t : DoubleRatchetState) : Type 0 where
  pub own_gone : t.outgoing_proposal ≡ no_outgoing
  pub no_carrier : t.rekey_pending_confirm_queue ≡ []
  pub theirs : t.incoming_proposal ≡ s.incoming_proposal
  pub acknowledged : t.pending_rekey_ack_seq ≡ some seq

-- A proposal of our own is pending, and the peer's has been staged.
pub record Racing (own theirs : Bytes × Bytes) (s : DoubleRatchetState) : Type 0 where
  pub pending : is_some s.outgoing_proposal.root_key ≡ true
  pub ciphertext : Bytes
  pub payload : s.outgoing_proposal.rekey_payload ≡ some (own.0, own.1, ciphertext)
  pub their_x25519 : s.incoming_proposal.peer_x25519_pk ≡ some theirs.0
  pub their_mlkem : s.incoming_proposal.peer_mlkem_pk ≡ some theirs.1

yields :
    (own theirs : Bytes × Bytes) (seq : ℕ) (s : DoubleRatchetState)
    → Racing own theirs s
    → keys_gt theirs own ≡ true
    → Yields seq s (resolve_rekey_race_and_ack seq true s)
unfolding resolve_rekey_race_and_ack cancel_outgoing_rekey peer_wins
yields own theirs seq s v h = ground (arith, h, v.payload)

stands :
    (own theirs : Bytes × Bytes) (seq : ℕ) (s : DoubleRatchetState)
    → Racing own theirs s
    → keys_gt theirs own ≡ false
    → Stands s (resolve_rekey_race_and_ack seq true s)
unfolding resolve_rekey_race_and_ack cancel_pending_incoming_rekey clear_incoming peer_wins
stands own theirs seq s v h = ground (arith, h, v.payload)

-- Two sessions whose proposals have crossed, each with the other's staged, and with different key
-- pairs: when both have resolved the race, one of them keeps its own proposal, has dropped the
-- other's and acknowledges nothing, and the other has dropped its own, keeps the peer's and
-- acknowledges the message that carried it.
pub one_side-Yields :
    (a_keys b_keys : Bytes × Bytes) (seq seq' : ℕ) (a b : DoubleRatchetState)
    → Racing a_keys b_keys a
    → Racing b_keys a_keys b
    → a_keys ≢ b_keys
    → (Stands a (resolve_rekey_race_and_ack seq true a)
        × Yields seq' b (resolve_rekey_race_and_ack seq' true b))
      ⊎ (Yields seq a (resolve_rekey_race_and_ack seq true a)
          × Stands b (resolve_rekey_race_and_ack seq' true b))
one_side-Yields a_keys b_keys seq seq' a b u v apart = elim (Bool-cases (keys_gt a_keys b_keys)) [
  | inl more ↦ inl (
    stands a_keys b_keys seq a u (keys_gt_asymm a_keys b_keys more),
    yields b_keys a_keys seq' b v more,
  )
  | inr less ↦ elim (Bool-cases (keys_gt b_keys a_keys)) [
    | inl more ↦ inr (yields a_keys b_keys seq a u more, stands b_keys a_keys seq' b v less)
    | inr less' ↦ absurd (apart (keys_gt_total a_keys b_keys less less'))
  ]
]
