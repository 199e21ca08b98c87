-- ===== src/RatchetFfi/RekeyAck/Peek.antt =====
-- The peek and the consumption of an acknowledgement.
use kyber_pipe.Base.{
  ℕ, ◌≡◌, refl, ap, ◌∙◌, subst, true, Option, none, some, Bytes, arith, ==-refl, inl, inr,
  Option-cases,
}
use kyber_pipe.Error.{ok, err}
use kyber_pipe.Primitives.{Crypto, Entropy}
use kyber_pipe.Packets.{PacketJson, to_json, rekey_ack}
use kyber_pipe.Tlv.{RatchetEncryptedMessage}
use kyber_pipe.Ratchet.State.{Clock, RekeyCarrier, DoubleRatchetState}
use kyber_pipe.Ratchet.Proposal.{commit_pending_rekey, take_pending_rekey_ack_seq}
use kyber_pipe.Ratchet.Fields.{Outcome, RekeyFields}
use kyber_pipe.Ratchet.Encrypt.{ratchet_encrypt, attach, finish, propose, seal_message}
use kyber_pipe.Ratchet.Acks.{generate_rekey_ack, encrypt_packet}
use kyber_pipe.RatchetFfi.RekeyAck.{
  peek, peek_pending, peek_cached, peeked_for, keep_peeked, printed, consume,
}

finish_keeps_ack :
    (c : Crypto) (nonce plaintext : Bytes) (o : Outcome RekeyFields)
    → (finish c nonce plaintext o).1.pending_rekey_ack_seq ≡ o.1.pending_rekey_ack_seq
unfolding finish seal_message
finish_keeps_ack c nonce plaintext (err e, s) = refl
finish_keeps_ack c nonce plaintext (ok f, s) = ground arith

attach_keeps_ack :
    (c : Crypto) (r : Entropy) (now : Clock) (seq : ℕ) (due : Option RekeyCarrier)
    (s : DoubleRatchetState)
    → (attach c r now seq due s).1.pending_rekey_ack_seq ≡ s.pending_rekey_ack_seq
unfolding attach propose
attach_keeps_ack c r now seq due s = ground arith

pub encrypt_keeps_ack :
    (c : Crypto) (r : Entropy) (now : Clock) (plaintext : Bytes) (s : DoubleRatchetState)
    → (ratchet_encrypt c r now plaintext s).1.pending_rekey_ack_seq ≡ s.pending_rekey_ack_seq
unfolding ratchet_encrypt
encrypt_keeps_ack c r now plaintext s = ground (arith, finish_keeps_ack c, attach_keeps_ack c)

generate_keeps_ack :
    (c : Crypto) (json : PacketJson) (rng : Entropy) (now : Clock) (seq : ℕ)
    (s : DoubleRatchetState)
    → (generate_rekey_ack c json rng now seq s).1.pending_rekey_ack_seq ≡ s.pending_rekey_ack_seq
unfolding generate_rekey_ack encrypt_packet to_json
generate_keeps_ack c json rng now seq s = elim (Option-cases (json.write (rekey_ack seq))) [
  | inl h ↦ ground (arith, h)
  | inr (text, h) ↦ ground (arith, h, encrypt_keeps_ack c rng now text s)
]

-- What an answered peek leaves: the acknowledgement still pending, and its bytes at hand.
abbrev Answered : Bytes → DoubleRatchetState → Type 0
Answered bin t =
    (seq : ℕ) × (t.pending_rekey_ack_seq ≡ some seq)
    × (peeked_for seq t.peeked_ack_cache ≡ some bin)

kept_answers :
    (seq : ℕ) (o : Outcome Bytes) {bin : Bytes} {t : DoubleRatchetState}
    → o.1.pending_rekey_ack_seq ≡ some seq
    → keep_peeked seq o ≡ (ok (some bin), t)
    → Answered bin t
unfolding keep_peeked
kept_answers seq (ok b, s) {bin} {t} p h =
    let e : b ≡ bin = ground arith in
    subst (Answered bin) (ap (λ o. o.1) h) (seq, p, rw (==-refl seq) (ap some e))
kept_answers seq (err e, s) p h = absurd (ground arith)

printed_keeps_ack :
    (o : Outcome RatchetEncryptedMessage)
    → (printed o).1.pending_rekey_ack_seq ≡ o.1.pending_rekey_ack_seq
printed_keeps_ack (ok m, s) = refl
printed_keeps_ack (err e, s) = refl

cached_answers :
    (c : Crypto) (json : PacketJson) (rng : Entropy) (now : Clock) (seq : ℕ) (cached : Option Bytes)
    (s : DoubleRatchetState) {bin : Bytes} {t : DoubleRatchetState}
    → s.pending_rekey_ack_seq ≡ some seq
    → peeked_for seq s.peeked_ack_cache ≡ cached
    → peek_cached c json rng now seq cached s ≡ (ok (some bin), t)
    → Answered bin t
unfolding peek_cached
cached_answers c json rng now seq (some tlv) s {bin} {t} p e h =
    let same : tlv ≡ bin = ground arith in
    subst (Answered bin) (ap (λ o. o.1) h) (seq, p, e ∙ ap some same)
cached_answers c json rng now seq none s p e h =
    kept_answers seq (printed (generate_rekey_ack c json rng now seq s))
      (printed_keeps_ack (generate_rekey_ack c json rng now seq s)
        ∙ generate_keeps_ack c json rng now seq s
        ∙ p)
      h

pending_answers :
    (c : Crypto) (json : PacketJson) (rng : Entropy) (now : Clock) (pending : Option ℕ)
    (s : DoubleRatchetState) {bin : Bytes} {t : DoubleRatchetState}
    → s.pending_rekey_ack_seq ≡ pending
    → peek_pending c json rng now pending s ≡ (ok (some bin), t)
    → Answered bin t
unfolding peek_pending
pending_answers c json rng now none s p h = absurd (ground arith)
pending_answers c json rng now (some seq) s p h =
    cached_answers c json rng now seq (peeked_for seq s.peeked_ack_cache) s p refl h

-- A peek that gives the bytes of an acknowledgement leaves the session so that every later peek, at
-- whatever time and with whatever randomness, gives the same bytes and changes nothing: in
-- particular no further position of the sending chain is used.
pub peek_idempotent :
    (c : Crypto) (json : PacketJson) (rng rng' : Entropy) (now now' : Clock)
    (s : DoubleRatchetState) {bin : Bytes} {t : DoubleRatchetState}
    → peek c json rng now s ≡ (ok (some bin), t)
    → peek c json rng' now' t ≡ (ok (some bin), t)
unfolding peek peek_pending peek_cached
peek_idempotent c json rng rng' now now' s {bin} {t} h =
    let (seq, pending, cached) = pending_answers c json rng now s.pending_rekey_ack_seq s refl h in
    simp (pending, cached) refl

-- A session with an acknowledgement pending for the carrier of the incoming proposal, which the
-- caller consumes: the pending acknowledgement is gone, and comes back with the commit of that
-- proposal; where the acknowledgement is taken instead, the commit leaves none.
pub consumed_ack_returns :
    (seq : ℕ) (s : DoubleRatchetState)
    → s.pending_rekey_ack_seq ≡ some seq
    → s.incoming_proposal.carrier_seq ≡ some seq
    → ((consume s).0 ≡ ok true)
      × ((consume s).1.pending_rekey_ack_seq ≡ none)
      × ((commit_pending_rekey (consume s).1).pending_rekey_ack_seq ≡ some seq)
      × ((commit_pending_rekey (take_pending_rekey_ack_seq s).1).pending_rekey_ack_seq ≡ none)
unfolding consume commit_pending_rekey take_pending_rekey_ack_seq
consumed_ack_returns seq s pending carrier = ground (arith, pending, carrier)
