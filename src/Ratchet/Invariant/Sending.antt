-- ===== src/Ratchet/Invariant/Sending.antt =====
-- The sending side, the commits, the cancellations and the acknowledgement keep the invariant.
use kyber_pipe.Base.{
  ℕ, ◌+◌, ◌-◌, ◌≤◌, ◌≡◌, refl, ap, true, not, inl, inr, Option, none, some, List, [], ◌∷◌, ◌++◌,
  Bytes, arith, is_some, ◌==◌, length, length-drop, retain, length-retain-le, Bool-cases, wrap64,
  u32_max,
}
use kyber_pipe.Error.{ok, err}
use kyber_pipe.Primitives.{Crypto, Entropy}
use kyber_pipe.Aead.{generate_nonce_from_seq}
use kyber_pipe.Kem.{HybridKeyPair}
use kyber_pipe.Ratchet.State.{Clock, RekeyCarrier, DoubleRatchetState}
use kyber_pipe.Ratchet.Proposal.{
  commit_pending_rekey, cancel_outgoing_rekey, cancel_pending_incoming_rekey,
  commit_pending_rekey_with_race_resolution, commit_outgoing_rekey, push_history,
  take_pending_rekey_ack_seq, process_rekey_ack,
}
use kyber_pipe.Ratchet.Fields.{Outcome, RekeyFields}
use kyber_pipe.Ratchet.Encrypt.{
  ratchet_encrypt, dh_ratchet_rekey, first_due, is_due, attach, finish,
}
use kyber_pipe.Ratchet.Invariant.{IsWellFormed}

pub cancel_outgoing_rekey-IsWellFormed :
    (s : DoubleRatchetState) → IsWellFormed s → IsWellFormed (cancel_outgoing_rekey s)
unfolding cancel_outgoing_rekey
cancel_outgoing_rekey-IsWellFormed s v = ground arith

pub cancel_pending_incoming_rekey-IsWellFormed :
    (s : DoubleRatchetState) → IsWellFormed s → IsWellFormed (cancel_pending_incoming_rekey s)
unfolding cancel_pending_incoming_rekey
cancel_pending_incoming_rekey-IsWellFormed s v = ground arith

commit_pending_rekey-IsWellFormed :
    (s : DoubleRatchetState) → IsWellFormed s → IsWellFormed (commit_pending_rekey s)
unfolding commit_pending_rekey
commit_pending_rekey-IsWellFormed s v = ground arith

pub commit_race-IsWellFormed :
    (s : DoubleRatchetState)
    → IsWellFormed s
    → IsWellFormed (commit_pending_rekey_with_race_resolution s)
unfolding commit_pending_rekey_with_race_resolution
commit_race-IsWellFormed s v = ground arith

length-push_history :
    (limit : ℕ) (history : List HybridKeyPair) (pair : HybridKeyPair)
    → length (push_history limit history pair) ≤ limit
length-push_history limit history pair =
    omega (arith, length-drop (length (history ++ pair ∷ []) - limit) (history ++ pair ∷ []))

commit_outgoing_rekey-IsWellFormed :
    (s : DoubleRatchetState) → IsWellFormed s → IsWellFormed (commit_outgoing_rekey s)
unfolding commit_outgoing_rekey
commit_outgoing_rekey-IsWellFormed s v =
    ground (arith, length-push_history s.max_key_history s.previous_keypairs s.our_hybrid_pair)

pub process_rekey_ack-IsWellFormed :
    (seq : ℕ) (s : DoubleRatchetState) → IsWellFormed s → IsWellFormed (process_rekey_ack seq s).1
unfolding process_rekey_ack
process_rekey_ack-IsWellFormed seq s v = ground (arith, commit_outgoing_rekey-IsWellFormed s v)

pub take_ack-IsWellFormed :
    (s : DoubleRatchetState) → IsWellFormed s → IsWellFormed (take_pending_rekey_ack_seq s).1
unfolding take_pending_rekey_ack_seq
take_ack-IsWellFormed s v = ground arith

-- The one carrier that is due is taken out of the queue.
due_alone :
    (now : Clock) (carrier : RekeyCarrier) (queue : List RekeyCarrier)
    → length queue ≤ 1
    → first_due now queue ≡ some carrier
    → retain (λ q. not (is_due now q)) queue ≡ []
unfolding first_due
due_alone now carrier [] h e = refl
due_alone now carrier (q ∷ []) h e = ground arith
due_alone now carrier (q ∷ q' ∷ queue) h e = absurd (omega arith)

pub dh_ratchet_rekey-IsWellFormed :
    (c : Crypto) (r : Entropy) (now : Clock) (xpk mpk : Bytes) (s : DoubleRatchetState)
    → IsWellFormed s
    → IsWellFormed (dh_ratchet_rekey c r now xpk mpk s).1
unfolding dh_ratchet_rekey
dh_ratchet_rekey-IsWellFormed c r now xpk mpk s v = ground arith

finish-IsWellFormed :
    (c : Crypto) (nonce plaintext : Bytes) (o : Outcome RekeyFields)
    → IsWellFormed o.1
    → IsWellFormed (finish c nonce plaintext o).1
unfolding finish
finish-IsWellFormed c nonce plaintext (err e, s) v = v
finish-IsWellFormed c nonce plaintext (ok f, s) v = ground arith

-- The state that a message has been counted in, without the carriers that are due.
abbrev counted : Clock → DoubleRatchetState → DoubleRatchetState
counted now s = record s {
  send = record s.send { message_count = wrap64 (s.send.message_count + 1) };
  rekey_pending_confirm_queue =
      retain (λ carrier. not (is_due now carrier)) s.rekey_pending_confirm_queue;
}

counted-IsWellFormed :
    (now : Clock) (s : DoubleRatchetState) → IsWellFormed s → IsWellFormed (counted now s)
counted-IsWellFormed now s v = record {
  one_carrier = omega (
    arith,
    length-retain-le (λ carrier. not (is_due now carrier)) s.rekey_pending_confirm_queue,
    v.one_carrier,
  );
  carrier_pending = elim v.carrier_pending [
    | inl p ↦ inl p
    | inr e ↦ inr (ap (retain (λ carrier. not (is_due now carrier))) e)
  ];
  whole_outgoing = v.whole_outgoing;
  whole_incoming = v.whole_incoming;
  bounded_window = v.bounded_window;
  bounded_history = v.bounded_history;
  bounded_resync = v.bounded_resync;
}

due_is_pending :
    (now : Clock) (carrier : RekeyCarrier) (s : DoubleRatchetState)
    → IsWellFormed s
    → first_due now s.rekey_pending_confirm_queue ≡ some carrier
    → is_some s.outgoing_proposal.root_key ≡ true
unfolding first_due
due_is_pending now carrier s v e = elim v.carrier_pending [ inl p ↦ p | inr empty ↦ ground arith ]

attach-IsWellFormed :
    (c : Crypto) (r : Entropy) (now : Clock) (seq : ℕ) (s : DoubleRatchetState)
    (due : Option RekeyCarrier)
    → IsWellFormed s
    → first_due now s.rekey_pending_confirm_queue ≡ due
    → IsWellFormed (attach c r now seq due (counted now s)).1
unfolding attach
attach-IsWellFormed c r now seq s (some carrier) v e = ground (
  arith,
  counted-IsWellFormed now s v,
  due_is_pending now carrier s v e,
  due_alone now carrier s.rekey_pending_confirm_queue v.one_carrier e,
)
attach-IsWellFormed c r now seq s none v e = ground (arith, counted-IsWellFormed now s v)

pub ratchet_encrypt-IsWellFormed :
    (c : Crypto) (r : Entropy) (now : Clock) (plaintext : Bytes) (s : DoubleRatchetState)
    → IsWellFormed s
    → IsWellFormed (ratchet_encrypt c r now plaintext s).1
unfolding ratchet_encrypt
ratchet_encrypt-IsWellFormed c r now plaintext s v =
    elim (Bool-cases (s.ratchet_generation == u32_max)) [
      | inl last ↦ rw last (ground arith)
      | inr more ↦ rw more (
          finish-IsWellFormed c (generate_nonce_from_seq s.send.message_count s.ratchet_generation)
            plaintext
            (attach c r now s.send.message_count (first_due now s.rekey_pending_confirm_queue)
              (counted now s))
            (attach-IsWellFormed c r now s.send.message_count s
              (first_due now s.rekey_pending_confirm_queue) v refl))
    ]
