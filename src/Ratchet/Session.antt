-- ===== src/Ratchet/Session.antt =====
-- core-crypto/src/crypto/ratchet/state.rs: the start of a session.
use kyber_pipe.Base.{Bool, Option, none, some, [], ◌++◌, if◌then◌else◌, Bytes, ascii}
use kyber_pipe.Primitives.{Crypto, Entropy}
use kyber_pipe.Kem.{HybridKeyPair, generate_hybrid_keypair}
use kyber_pipe.Ratchet.State.{DoubleRatchetState, no_incoming, no_outgoing}
use kyber_pipe.Ratchet.Chain.{derive_chain_keys_from_root}

-- The labels of the two directions, the session's own sending one first.
chain_keys : Crypto → Bool → Bytes → Bytes × Bytes
chain_keys c is_initiator root_key =
    if is_initiator
    then derive_chain_keys_from_root c root_key (ascii "kyberpipe-send-chain")
        (ascii "kyberpipe-recv-chain")
    else derive_chain_keys_from_root c root_key (ascii "kyberpipe-recv-chain")
        (ascii "kyberpipe-send-chain")

session_root : Crypto → Bytes → Bytes
session_root c secret =
    let session_salt = c.expand none secret (ascii "kyberpipe-session-salt") 16 in
    let master_seed =
      c.expand (some (ascii "kyberpipe-pq-salt-" ++ session_salt)) secret
        (ascii "kyberpipe-master-seed") 32 in
    c.expand (some (ascii "kyberpipe-root-" ++ session_salt)) master_seed
      (ascii "kyberpipe-root-key") 32

unfoldable pub new_with_keypair :
    Crypto → Bytes → Bool → HybridKeyPair → Option Bytes → Option Bytes → DoubleRatchetState
unfolding chain_keys session_root
new_with_keypair c master_shared_secret is_initiator our_hybrid_pair peer_x25519_pk peer_mlkem_pk =
    let root = session_root c master_shared_secret in
    let (sending_ck, receiving_ck) = chain_keys c is_initiator root in
    record {
      root_key = root;
      send = record { key = sending_ck; message_count = 0 };
      recv = record { key = receiving_ck; message_count = 0 };
      our_hybrid_pair = our_hybrid_pair;
      peer_x25519_pk = peer_x25519_pk;
      peer_mlkem_pk = peer_mlkem_pk;
      rekey_interval = 100;
      ratchet_generation = 0;
      pairing_epoch = 0;
      previous_recv_chain_key = none;
      previous_recv_anchor = none;
      previous_recv_gen = none;
      replay_window = record { seen = []; prev_gen_highest_delivered = none };
      incoming_proposal = no_incoming;
      outgoing_proposal = no_outgoing;
      skip_message_keys = some [];
      max_skip = 100;
      previous_keypairs = [];
      max_key_history = 3;
      rekey_pending_confirm_queue = [];
      pending_rekey_ack_seq = none;
      is_initiator = is_initiator;
      resync_forward_total = 0;
      peeked_ack_cache = none;
    }

unfoldable pub new :
    Crypto → Entropy → Bytes → Bool → Option Bytes → Option Bytes → DoubleRatchetState
unfolding new_with_keypair
new c r master_shared_secret is_initiator peer_x25519_pk peer_mlkem_pk =
    new_with_keypair c master_shared_secret is_initiator (generate_hybrid_keypair c r)
      peer_x25519_pk peer_mlkem_pk
