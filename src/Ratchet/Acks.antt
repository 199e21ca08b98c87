-- ===== src/Ratchet/Acks.antt =====
-- core-crypto/src/crypto/ratchet/state.rs: the acknowledgement of a rekey as a message.
use kyber_pipe.Base.{ℕ, Bool, true, false, Bytes}
use kyber_pipe.Error.{Result, ok, err}
use kyber_pipe.Primitives.{Crypto, Entropy}
use kyber_pipe.Packets.{KyberMessage, PacketJson, rekey_ack, to_json, safe_decode_packet}
use kyber_pipe.Tlv.{RatchetEncryptedMessage}
use kyber_pipe.Ratchet.State.{Clock, DoubleRatchetState}
use kyber_pipe.Ratchet.Fields.{Outcome}
use kyber_pipe.Ratchet.Encrypt.{ratchet_encrypt}

-- A packet, printed and sealed.
unfoldable pub encrypt_packet :
    Crypto
    → PacketJson
    → Entropy
    → Clock
    → KyberMessage
    → DoubleRatchetState
    → Outcome RatchetEncryptedMessage
unfolding to_json
encrypt_packet c json rng now packet s = elim (to_json json packet) [
  | err e ↦ (err e, s)
  | ok text ↦ ratchet_encrypt c rng now text s
]

unfoldable pub generate_rekey_ack :
    Crypto → PacketJson → Entropy → Clock → ℕ → DoubleRatchetState → Outcome RatchetEncryptedMessage
unfolding encrypt_packet
generate_rekey_ack c json rng now seq s = encrypt_packet c json rng now (rekey_ack seq) s

abbrev is_ack : Result KyberMessage → Bool
is_ack (ok (rekey_ack seq)) = true
is_ack _ = false

unfoldable pub is_rekey_ack : PacketJson → Bytes → Bool
unfolding safe_decode_packet
is_rekey_ack json plaintext = is_ack (safe_decode_packet json plaintext)
