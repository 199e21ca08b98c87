-- ===== src/Ratchet/Snapshot/RoundTrip.antt =====
-- A session that is stored and restored is the session but for its clocks and its caches.
use kyber_pipe.Base.{
  ◌≤◌, ◌≡◌, refl, ap, Option, none, some, List, [], ◌∷◌, length, All, arith, Bytes,
}
use mathlib.Core.Option
use mathlib.Core.List
use kyber_pipe.Kem.{HybridKeyPair}
use kyber_pipe.Ratchet.State.{Clock, RekeyCarrier, SkipKeyMap, DoubleRatchetState}
use kyber_pipe.Ratchet.Pairs.{Pair, set_insert, map_extend}
use kyber_pipe.Ratchet.Pairs.Distinct.{Distinct, DistinctKeys, map_extend_fresh}
use kyber_pipe.Ratchet.Snapshot.{
  to_snapshot, from_snapshot, zip_pairs, whole_pair, collect_set, restore_queue, entries_of,
  restored_state, ratchet_rekey_interval, attach_stamps, first_stamps, restore_carriers, trim,
  last_alone, reattach,
}

-- The payload that a carrier repeats is the proposal's.
abbrev pub Carries : Option (Bytes × Bytes × Bytes) → RekeyCarrier → Type 0
Carries payload c = payload ≡ some (c.rekey_x25519_pk, c.rekey_mlkem_pk, c.rekey_ciphertext)

-- What a session has that is stored and restored in full: no frame and no key twice, a key store,
-- and at most one carrier, of the proposal's payload.
pub record IsStorable (s : DoubleRatchetState) (store : SkipKeyMap) : Type 0 where
  pub distinct_seen : Distinct s.replay_window.seen
  pub has_store : s.skip_message_keys ≡ some store
  pub distinct_keys : DistinctKeys store
  pub one_carrier : length s.rekey_pending_confirm_queue ≤ 1
  pub carries : All (Carries s.outgoing_proposal.rekey_payload) s.rekey_pending_confirm_queue

-- A carrier whose monotonic stamps begin at the restoration.
abbrev pub restart_carrier : Clock → RekeyCarrier → RekeyCarrier
restart_carrier now c = record c { attached_at = now.mono; first_attached_at = now.mono }

-- The session behind a restart.
abbrev pub restart : Clock → DoubleRatchetState → DoubleRatchetState
restart now s = record s {
  rekey_interval = ratchet_rekey_interval;
  incoming_proposal = record s.incoming_proposal { attached_at_mono = none };
  rekey_pending_confirm_queue = List.map (restart_carrier now) s.rekey_pending_confirm_queue;
  peeked_ack_cache = none;
}

zip_pairs_map :
    (pairs : List HybridKeyPair)
    → zip_pairs
        (List.map (λ p. p.x25519_pk) pairs)
        (List.map (λ p. p.x25519_sk) pairs)
        (List.map (λ p. p.mlkem_pk) pairs)
        (List.map (λ p. p.mlkem_sk) pairs)
      ≡ some pairs
unfolding zip_pairs
zip_pairs_map [] = refl
zip_pairs_map (p ∷ pairs) = ap (Option.map (◌∷◌ p)) (zip_pairs_map pairs)

whole_pair_map :
    (pair : Option HybridKeyPair)
    → whole_pair
        (Option.map (λ p. p.x25519_pk) pair)
        (Option.map (λ p. p.x25519_sk) pair)
        (Option.map (λ p. p.mlkem_pk) pair)
        (Option.map (λ p. p.mlkem_sk) pair)
      ≡ pair
unfolding whole_pair
whole_pair_map none = refl
whole_pair_map (some pair) = refl

collect_set-Distinct : (seen : List Pair) → Distinct seen → collect_set seen ≡ seen
unfolding collect_set set_insert
collect_set-Distinct [] d = refl
collect_set-Distinct (p ∷ seen) d = rw (collect_set-Distinct seen d.1) (rw (d.0) refl)

queue_restarts :
    (now : Clock) (payload : Option (Bytes × Bytes × Bytes)) (queue : List RekeyCarrier)
    → length queue ≤ 1
    → All (Carries payload) queue
    → restore_queue now
        (List.map (λ c. c.carrier_seq) queue)
        (List.map (λ c. c.attached_at_unix) queue)
        (List.map (λ c. c.first_attached_at_unix) queue)
        payload
      ≡ List.map (restart_carrier now) queue
unfolding restore_queue attach_stamps first_stamps restore_carriers trim last_alone reattach
queue_restarts now none [] h carries = refl
queue_restarts now (some payload) [] h carries = refl
queue_restarts now payload (c ∷ []) h carries = rw (carries.0) refl
queue_restarts now payload (c ∷ d ∷ queue) h carries = absurd (omega arith)

module _ (now : Clock) (s : DoubleRatchetState) where
  store_restarts :
      (store : SkipKeyMap)
      → s.skip_message_keys ≡ some store
      → DistinctKeys store
      → some (map_extend (entries_of s.skip_message_keys) []) ≡ s.skip_message_keys
  unfolding entries_of
  store_restarts store h d = rw h (ap some (map_extend_fresh store d))

  -- A session with a key store, with no frame and no skipped key recorded twice, and with at most
  -- one carrier, of the payload of its outgoing proposal, that is stored and restored: the
  -- restoration does not panic, and gives the session back but for the monotonic stamps, which
  -- begin anew (the incoming proposal's is gone), for the rekey interval, which is 100, and for the
  -- cached acknowledgement, which is dropped.
  pub from_snapshot-to_snapshot :
      (store : SkipKeyMap)
      → IsStorable s store
      → from_snapshot now (to_snapshot s) ≡ some (restart now s)
  unfolding from_snapshot to_snapshot restored_state
  from_snapshot-to_snapshot store h =
      rw
        (
          zip_pairs_map s.previous_keypairs,
          whole_pair_map s.outgoing_proposal.hybrid_pair,
          collect_set-Distinct s.replay_window.seen h.distinct_seen,
          store_restarts store h.has_store h.distinct_keys,
          queue_restarts now s.outgoing_proposal.rekey_payload s.rekey_pending_confirm_queue
              h.one_carrier h.carries,
        )
        refl
