-- ===== src/Ratchet/Resync.antt =====
-- core-crypto/src/crypto/ratchet/resync.rs: `resync_receiving_chain`.
pub mod Keeps
pub mod Bounds
use kyber_pipe.Base.{
  ℕ, ◌+◌, ◌-◌, ◌*◌, Bool, true, false, not, ◌&&◌, ◌||◌, Option, none, some, List, [], is_some, ltb,
  leb, if◌then◌else◌, Bytes, saturating_add64,
}
use kyber_pipe.Error.{Result, ok, err, crypto_error}
use kyber_pipe.Primitives.{Crypto}
use kyber_pipe.Ratchet.State.{
  Clock, Chain, SkipKeyMap, DoubleRatchetState, incoming_is_pending, outgoing_is_pending,
}
use kyber_pipe.Ratchet.Policy.{incoming_proposal_is_stale, outgoing_proposal_is_stale}
use kyber_pipe.Ratchet.Chain.{skip_loop}
use kyber_pipe.Ratchet.Proposal.{cancel_outgoing_rekey, cancel_pending_incoming_rekey}
use kyber_pipe.Ratchet.Fields.{Outcome}
use kyber_pipe.Ratchet.Receive.{skip_budget, store_keys}

abbrev pub sync_max_gap : ℕ
sync_max_gap = 1000

abbrev pub sync_max_cumulative : ℕ
sync_max_cumulative = 20_000

-- A pending proposal that is stale goes, and one that is fresh refuses the resync.
unfoldable pub evict_incoming : Clock → DoubleRatchetState → Outcome (Unit {0})
evict_incoming now s =
    if not (incoming_is_pending s.incoming_proposal)
    then (ok tt, s)
    else if incoming_proposal_is_stale now s.incoming_proposal
    then (ok tt, cancel_pending_incoming_rekey s)
    else (err crypto_error, s)

unfoldable pub evict_outgoing : Clock → DoubleRatchetState → Outcome (Unit {0})
evict_outgoing now s =
    if not (outgoing_is_pending s.outgoing_proposal)
    then (ok tt, s)
    else if outgoing_proposal_is_stale now s.rekey_pending_confirm_queue
    then (ok tt, cancel_outgoing_rekey s)
    else (err crypto_error, s)

-- The chain has moved before the store is looked at.
store_skipped : ℕ → SkipKeyMap → Option SkipKeyMap → DoubleRatchetState → Outcome ℕ
store_skipped gap skip_keys none s = (err crypto_error, s)
store_skipped gap skip_keys (some store) s = (
  ok gap,
  record s {
    skip_message_keys = some (store_keys s.ratchet_generation (skip_budget s) skip_keys store);
  },
)

jump : ℕ → ℕ → Bytes × SkipKeyMap → DoubleRatchetState → Outcome ℕ
unfolding store_skipped
jump target_seq gap (ck, skip_keys) s = store_skipped gap skip_keys s.skip_message_keys (record s {
  recv = record { key = ck; message_count = target_seq };
  resync_forward_total = saturating_add64 s.resync_forward_total gap;
})

unfoldable pub advance_to : Crypto → ℕ → DoubleRatchetState → Outcome ℕ
unfolding jump
advance_to c target_seq s =
    let cur = s.recv.message_count in
    let gap = target_seq - cur in
    if leb target_seq cur
    then (err crypto_error, s)
    else if ltb sync_max_gap gap
    then (err crypto_error, s)
    else if ltb sync_max_cumulative (saturating_add64 s.resync_forward_total gap)
    then (err crypto_error, s)
    else jump target_seq gap (skip_loop c s.ratchet_generation gap cur s.recv.key []) s

behind_outgoing : Crypto → ℕ → Outcome (Unit {0}) → Outcome ℕ
unfolding advance_to
behind_outgoing c target_seq (err e, s) = (err e, s)
behind_outgoing c target_seq (ok _, s) = advance_to c target_seq s

pub behind_incoming : Crypto → Clock → ℕ → Outcome (Unit {0}) → Outcome ℕ
unfolding behind_outgoing evict_outgoing
behind_incoming c now target_seq (err e, s) = (err e, s)
behind_incoming c now target_seq (ok _, s) = behind_outgoing c target_seq (evict_outgoing now s)

unfoldable pub resync_receiving_chain : Crypto → Clock → ℕ → DoubleRatchetState → Outcome ℕ
unfolding behind_incoming evict_incoming
resync_receiving_chain c now target_seq s = behind_incoming c now target_seq (evict_incoming now s)
