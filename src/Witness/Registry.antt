-- ===== src/Witness/Registry.antt =====
-- The table of sessions and the stored sessions, over the toy functions.
use kyber_pipe.Base.{
  ◌≡◌, refl, true, false, none, some, List, [], ◌∷◌, arith, if◌then◌else◌, bytes_eq,
}
use kyber_pipe.Error.{ok, err}
use kyber_pipe.Aead.{encrypt_chacha20}
use kyber_pipe.Toy.{toy}
use kyber_pipe.Kem.{generate_hybrid_keypair}
use kyber_pipe.Tlv.{RatchetEncryptedMessage}
use kyber_pipe.Ratchet.State.{RekeyCarrier, SkipKeyMap, DoubleRatchetState}
use kyber_pipe.Ratchet.Session.{new_with_keypair}
use kyber_pipe.Ratchet.Pairs.{map_extend, map_insert, set_contains, set_insert}
use kyber_pipe.Ratchet.Encrypt.{ratchet_encrypt}
use kyber_pipe.Ratchet.Snapshot.{to_snapshot, from_snapshot}
use kyber_pipe.Ratchet.Snapshot.RoundTrip.{IsStorable, restart, from_snapshot-to_snapshot}
use kyber_pipe.Base.{Bytes}
use kyber_pipe.Ratchet.Encrypt.Sealed.{IsSealedUnder}
use kyber_pipe.RatchetFfi.Peers.{PeerIdentity, peer_get, peer_insert}
use kyber_pipe.RatchetFfi.Registry.{
  Registry, Slot, SnapshotJson, with_ratchet_session, ratchet_export_session, Reply,
}
use kyber_pipe.RatchetFfi.Registry.Watermark.{of_snapshot, dominates_or_equals}
use kyber_pipe.RatchetFfi.Registry.Refinement.{
  opens, bumps, removes, runs, Call, view, run, run_spec, run_refines,
}
use kyber_pipe.RatchetFfi.Registry.Import.{
  import_watermark_guard, import_insert, ratchet_import_session,
}
use kyber_pipe.RatchetFfi.Registry.Import.Monotone.{Keeps, ratchet_import_session_no_rollback}
use kyber_pipe.RatchetFfi.Registry.Import.Race.{import_race_repeats_nonce, import-export}
use kyber_pipe.Witness.Sessions.{entropy, noon, pair_of, alice, bob, text, sends, is_ok, message_of}

abbrev pub peer : PeerIdentity
peer = 112 ∷ []

-- A session with something in each place.
abbrev busy_carrier : RekeyCarrier
busy_carrier = record {
  carrier_seq = 7;
  attached_at = 1;
  attached_at_unix = 999_990;
  first_attached_at = 1;
  first_attached_at_unix = 999_980;
  rekey_x25519_pk = 1 ∷ [];
  rekey_mlkem_pk = 2 ∷ [];
  rekey_ciphertext = 3 ∷ [];
}

abbrev two_skipped : SkipKeyMap
two_skipped = ((0, 4), 9 ∷ []) ∷ ((0, 2), 8 ∷ []) ∷ []

abbrev busy : DoubleRatchetState
busy = record alice {
  replay_window = record alice.replay_window { seen = (0, 3) ∷ (0, 1) ∷ [] };
  skip_message_keys = some two_skipped;
  outgoing_proposal = record {
    root_key = some (5 ∷ []);
    sending_chain_key = some (6 ∷ []);
    receiving_chain_key = some (7 ∷ []);
    hybrid_pair = some (pair_of 1);
    rekey_payload = some (1 ∷ [], 2 ∷ [], 3 ∷ []);
  };
  rekey_pending_confirm_queue = busy_carrier ∷ [];
}

busy-IsStorable : IsStorable busy two_skipped
unfolding set_contains
busy-IsStorable = record {
  distinct_seen = (refl, (refl, tt));
  has_store = refl;
  distinct_keys = ((refl, tt), (tt, tt));
  one_carrier = omega arith;
  carries = (refl, tt);
}

from_snapshot-to_snapshot_example : from_snapshot noon (to_snapshot busy) ≡ some (restart noon busy)
from_snapshot-to_snapshot_example = from_snapshot-to_snapshot noon busy two_skipped busy-IsStorable

abbrev pub empty_registry : Registry
empty_registry = record { poisoned = false; sessions = [] }

abbrev some_calls : List Call
some_calls =
    opens peer alice ∷ opens (113 ∷ []) bob ∷ runs peer sends ∷ bumps peer ∷ removes (113 ∷ []) ∷ []

run_refines_example :
    view (run some_calls empty_registry) ≡ run_spec some_calls (view empty_registry)
run_refines_example = run_refines some_calls empty_registry refl

-- A codec for the one snapshot.
abbrev busy_json : SnapshotJson
busy_json = record {
  write = λ snap. some (7 ∷ []);
  read = λ bytes. if bytes_eq bytes (7 ∷ []) then some (to_snapshot busy) else none;
  read_numbers = λ bytes. none;
}

abbrev busy_slot : Slot
busy_slot = record { poisoned = false; session = busy }

abbrev pub one_session : DoubleRatchetState → Registry
one_session s = record {
  poisoned = false;
  sessions = (peer, record { poisoned = false; session = s }) ∷ [];
}

busy_found : peer_get peer (one_session busy).sessions ≡ some busy_slot
unfolding peer_get
busy_found = refl

import-export_example :
    (ratchet_export_session busy_json peer (one_session busy) ≡ ok (some (7 ∷ [])))
    × (ratchet_import_session busy_json noon peer (7 ∷ []) empty_registry
        ≡ some (ok tt, import_insert peer (restart noon busy) empty_registry))
unfolding peer_get
import-export_example =
    import-export busy_json noon peer (one_session busy) empty_registry busy_slot two_skipped refl
      refl refl refl busy-IsStorable refl

-- An import over the session that it was exported from.
over_itself :
    ratchet_import_session busy_json noon peer (7 ∷ []) (one_session busy)
    ≡ some (ok tt, import_insert peer (restart noon busy) (one_session busy))
unfolding ratchet_import_session peer_get new_with_keypair to_snapshot dominates_or_equals
    from_snapshot generate_hybrid_keypair set_insert map_extend map_insert
over_itself = refl

ratchet_import_session_no_rollback_example :
    Keeps peer busy_slot (import_insert peer (restart noon busy) (one_session busy))
ratchet_import_session_no_rollback_example =
    ratchet_import_session_no_rollback busy_json noon peer (7 ∷ []) (one_session busy) busy_slot
      busy_found refl over_itself

abbrev alice_slot : Slot
alice_slot = record { poisoned = false; session = alice }

alice-IsStorable : IsStorable alice []
unfolding new_with_keypair
alice-IsStorable = record {
  distinct_seen = tt;
  has_store = refl;
  distinct_keys = tt;
  one_carrier = omega arith;
  carries = tt;
}

-- A reply that is a success is its message and its table.
replied_ok : (o : Reply RatchetEncryptedMessage) → is_ok o.0 ≡ true → o ≡ (ok (message_of o.0), o.1)
replied_ok (ok m, r) h = refl
replied_ok (err e, r) h = ground arith

abbrev first_sent : Reply RatchetEncryptedMessage
first_sent =
    with_ratchet_session peer (ratchet_encrypt toy (entropy 3) noon text) (one_session alice)

abbrev second_sent : Reply RatchetEncryptedMessage
second_sent =
    with_ratchet_session peer (ratchet_encrypt toy (entropy 4) noon (9 ∷ []))
      (import_insert peer (restart noon alice) first_sent.1)

first_ok : is_ok first_sent.0 ≡ true
unfolding with_ratchet_session peer_get ratchet_encrypt new_with_keypair encrypt_chacha20 toy
first_ok = refl

second_ok : is_ok second_sent.0 ≡ true
unfolding with_ratchet_session peer_get import_insert peer_insert ratchet_encrypt new_with_keypair
    encrypt_chacha20 toy
second_ok = refl

alice_found : peer_get peer (one_session alice).sessions ≡ some alice_slot
unfolding peer_get
alice_found = refl

import_race_repeats_nonce_example :
    (import_watermark_guard peer (of_snapshot (to_snapshot alice)) (one_session alice) ≡ false)
    × (from_snapshot noon (to_snapshot alice) ≡ some (restart noon alice))
    × ((nonce : Bytes) × IsSealedUnder toy alice.send.key nonce text (message_of first_sent.0)
        × IsSealedUnder toy alice.send.key nonce (9 ∷ []) (message_of second_sent.0))
import_race_repeats_nonce_example =
    import_race_repeats_nonce toy (entropy 3) (entropy 4) noon noon noon peer text (9 ∷ [])
      (one_session alice) alice_slot [] alice_found alice-IsStorable
      (replied_ok first_sent first_ok) (replied_ok second_sent second_ok)
