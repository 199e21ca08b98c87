-- ===== src/RatchetFfi/RekeyAck.antt =====
-- core-crypto/src/ratchet_ffi/rekey_ack.rs: the channel of the rekey acknowledgements.
pub mod Peek
use kyber_pipe.Base.{
  ℕ, Bool, true, false, not, Option, none, some, length, is_some, ◌==◌, if◌then◌else◌, Bytes,
}
use kyber_pipe.Error.{Result, ok, err, crypto_error, decryption_failed}
use kyber_pipe.Primitives.{Crypto, Entropy}
use kyber_pipe.Packets.{KyberMessage, PacketJson, rekey_ack, from_json}
use kyber_pipe.Tlv.{RatchetEncryptedMessage, to_binary, from_binary}
use kyber_pipe.Ratchet.State.{Clock, DoubleRatchetState}
use kyber_pipe.Ratchet.Proposal.{take_pending_rekey_ack_seq, process_rekey_ack}
use kyber_pipe.Ratchet.Fields.{Outcome}
use kyber_pipe.Ratchet.Acks.{generate_rekey_ack}
use kyber_pipe.RatchetFfi.Peers.{PeerIdentity}
use kyber_pipe.RatchetFfi.Registry.{Registry, Reply, with_ratchet_session}
use kyber_pipe.RatchetFfi.Messages.{decrypt_dispatched}

unfoldable pub generate_rekey_ack_message :
    Crypto
    → PacketJson
    → Entropy
    → Clock
    → PeerIdentity
    → ℕ
    → Registry
    → Reply RatchetEncryptedMessage
unfolding with_ratchet_session
generate_rekey_ack_message c json rng now peer seq r =
    with_ratchet_session peer (generate_rekey_ack c json rng now seq) r

-- A success that there may be.
abbrev in_some : {A : Type 0} → Outcome A → Outcome (Option A)
in_some (ok a, s) = (ok (some a), s)
in_some (err e, s) = (err e, s)

abbrev pub printed : Outcome RatchetEncryptedMessage → Outcome Bytes
printed (ok m, s) = (to_binary m, s)
printed (err e, s) = (err e, s)

-- Behind `take_pending_rekey_ack_seq`.
acked :
    Crypto
    → PacketJson
    → Entropy
    → Clock
    → Option ℕ × DoubleRatchetState
    → Outcome (Option RatchetEncryptedMessage)
unfolding generate_rekey_ack
acked c json rng now (none, s) = (ok none, s)
acked c json rng now (some seq, s) = in_some (generate_rekey_ack c json rng now seq s)

acked_binary :
    Crypto → PacketJson → Entropy → Clock → Option ℕ × DoubleRatchetState → Outcome (Option Bytes)
unfolding generate_rekey_ack
acked_binary c json rng now (none, s) = (ok none, s)
acked_binary c json rng now (some seq, s) =
    in_some (printed (generate_rekey_ack c json rng now seq s))

unfoldable pub ratchet_generate_rekey_ack :
    Crypto
    → PacketJson
    → Entropy
    → Clock
    → PeerIdentity
    → Registry
    → Reply (Option RatchetEncryptedMessage)
unfolding acked with_ratchet_session
ratchet_generate_rekey_ack c json rng now peer r =
    with_ratchet_session peer (λ s. acked c json rng now (take_pending_rekey_ack_seq s)) r

unfoldable pub ratchet_generate_rekey_ack_binary :
    Crypto → PacketJson → Entropy → Clock → PeerIdentity → Registry → Reply (Option Bytes)
unfolding acked_binary with_ratchet_session
ratchet_generate_rekey_ack_binary c json rng now peer r =
    with_ratchet_session peer (λ s. acked_binary c json rng now (take_pending_rekey_ack_seq s)) r

acknowledged : ℕ → DoubleRatchetState → Outcome Bool
acknowledged seq s = let (matched, t) = process_rekey_ack seq s in (ok matched, t)

unfoldable pub ratchet_process_rekey_ack : PeerIdentity → ℕ → Registry → Reply Bool
unfolding acknowledged with_ratchet_session
ratchet_process_rekey_ack peer seq r = with_ratchet_session peer (acknowledged seq) r

-- A fresh acknowledgement is kept for the next peek.
unfoldable pub keep_peeked : ℕ → Outcome Bytes → Outcome (Option Bytes)
keep_peeked seq (ok bin, s) = (ok (some bin), record s { peeked_ack_cache = some (seq, bin) })
keep_peeked seq (err e, s) = (err e, s)

abbrev pub peeked_for : ℕ → Option (ℕ × Bytes) → Option Bytes
peeked_for seq none = none
peeked_for seq (some (cached_seq, tlv)) = if cached_seq == seq then some tlv else none

unfoldable pub peek_cached :
    Crypto
    → PacketJson
    → Entropy
    → Clock
    → ℕ
    → Option Bytes
    → DoubleRatchetState
    → Outcome (Option Bytes)
unfolding keep_peeked generate_rekey_ack
peek_cached c json rng now seq (some tlv) s = (ok (some tlv), s)
peek_cached c json rng now seq none s =
    keep_peeked seq (printed (generate_rekey_ack c json rng now seq s))

unfoldable pub peek_pending :
    Crypto → PacketJson → Entropy → Clock → Option ℕ → DoubleRatchetState → Outcome (Option Bytes)
unfolding peek_cached
peek_pending c json rng now none s = (ok none, record s { peeked_ack_cache = none })
peek_pending c json rng now (some seq) s =
    peek_cached c json rng now seq (peeked_for seq s.peeked_ack_cache) s

unfoldable pub peek :
    Crypto → PacketJson → Entropy → Clock → DoubleRatchetState → Outcome (Option Bytes)
unfolding peek_pending
peek c json rng now s = peek_pending c json rng now s.pending_rekey_ack_seq s

unfoldable pub ratchet_generate_rekey_ack_binary_peek :
    Crypto → PacketJson → Entropy → Clock → PeerIdentity → Registry → Reply (Option Bytes)
unfolding peek with_ratchet_session
ratchet_generate_rekey_ack_binary_peek c json rng now peer r =
    with_ratchet_session peer (peek c json rng now) r

unfoldable pub consume : DoubleRatchetState → Outcome Bool
consume s = (
  ok (is_some s.pending_rekey_ack_seq),
  record s { pending_rekey_ack_seq = none; peeked_ack_cache = none },
)

abbrev or_false : Reply Bool → Bool × Registry
or_false (ok b, r) = (b, r)
or_false (err e, r) = (false, r)

unfoldable pub ratchet_consume_rekey_ack : PeerIdentity → Registry → Bool × Registry
unfolding consume with_ratchet_session
ratchet_consume_rekey_ack peer r = or_false (with_ratchet_session peer consume r)

-- The packet in an opened acknowledgement.
unfoldable pub ack_seq : PacketJson → Bytes → Result ℕ
unfolding from_json
ack_seq json plaintext = elim (from_json json (json.from_utf8_lossy plaintext)) [
  | ok (rekey_ack seq) ↦ ok seq
  | _ ↦ err crypto_error
]

process_opened : PacketJson → PeerIdentity → Reply Bytes → Reply Bool
unfolding ack_seq ratchet_process_rekey_ack
process_opened json peer (err e, r) = (err e, r)
process_opened json peer (ok plaintext, r) = elim (ack_seq json plaintext) [
  | err e ↦ (err e, r)
  | ok seq ↦ ratchet_process_rekey_ack peer seq r
]

unfoldable pub ratchet_process_rekey_ack_binary :
    Crypto → PacketJson → Clock → PeerIdentity → Bytes → Registry → Reply Bool
unfolding process_opened decrypt_dispatched
ratchet_process_rekey_ack_binary c json now peer bytes r = elim (from_binary bytes) [
  | err e ↦ (err e, r)
  | ok m ↦
      if not (length m.nonce == 12)
      then (err decryption_failed, r)
      else process_opened json peer (with_ratchet_session peer (decrypt_dispatched c now m) r)
]
