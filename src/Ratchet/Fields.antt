-- ===== src/Ratchet/Fields.antt =====
-- core-crypto/src/crypto/ratchet: the rekey fields of a message, and the keys that a proposal derives.
use kyber_pipe.Base.{◌+◌, ◌&&◌, Option, none, some, [], ◌++◌, ltb, if◌then◌else◌, Bytes, ascii}
use kyber_pipe.Error.{Result, ok, err, crypto_error}
use kyber_pipe.Primitives.{Crypto}
use kyber_pipe.Kem.{HybridKeyPair}
use kyber_pipe.Tlv.{count_some}
use kyber_pipe.Ratchet.State.{OutgoingProposal, DoubleRatchetState}

-- The rekey fields of a message: x25519 key, ML-KEM key, KEM ciphertext.
pub record RekeyFields : Type 0 where
  pub x25519_pk : Option Bytes
  pub mlkem_pk : Option Bytes
  pub ciphertext : Option Bytes

abbrev pub no_rekey : RekeyFields
no_rekey = record { x25519_pk = none; mlkem_pk = none; ciphertext = none }

unfoldable pub aad_of : Option Bytes → Option Bytes → Option Bytes → Bytes
aad_of (some ct) (some xpk) (some mpk) =
    ascii "r" ++ (xpk ++ (ascii "m" ++ (mpk ++ (ascii "c" ++ ct))))
aad_of _ _ _ = []

unfoldable pub build_rekey_aad : RekeyFields → Result Bytes
unfolding aad_of
build_rekey_aad f =
    let present = count_some f.ciphertext + count_some f.x25519_pk + count_some f.mlkem_pk in
    if ltb 0 present && ltb present 3
    then err crypto_error
    else ok (aad_of f.ciphertext f.x25519_pk f.mlkem_pk)

-- The three keys of a proposal: new root, and the initiator's sending and receiving chain.
pub record ProposalKeys : Type 0 where
  pub root : Bytes
  pub sender : Bytes
  pub receiver : Bytes

unfoldable pub derive_proposal_keys : Crypto → Bytes → Bytes → ProposalKeys
derive_proposal_keys c root_key shared_secret = record {
  root = c.expand (some root_key) shared_secret (ascii "kyberpipe-next-root-key") 32;
  sender = c.expand (some root_key) shared_secret (ascii "kyberpipe-next-send-chain-from-rekey") 32;
  receiver =
      c.expand (some root_key) shared_secret (ascii "kyberpipe-next-recv-chain-from-rekey") 32;
}

abbrev pub stage_outgoing : ProposalKeys → HybridKeyPair → Bytes → Bytes → Bytes → OutgoingProposal
stage_outgoing keys pair xpk mpk ct = record {
  root_key = some keys.root;
  sending_chain_key = some keys.sender;
  receiving_chain_key = some keys.receiver;
  hybrid_pair = some pair;
  rekey_payload = some (xpk, mpk, ct);
}

-- What a session operation gives: its result, and the state, which an error keeps as it then is.
abbrev pub Outcome : Type 0 → Type 0
Outcome A = Result A × DoubleRatchetState
