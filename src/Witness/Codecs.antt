-- ===== src/Witness/Codecs.antt =====
-- Round trips at concrete inputs.
use kyber_pipe.Base.{ℕ, ◌<◌, ◌≡◌, ◌≢◌, ◌⊎◌, refl, some, [], ◌∷◌, ◌++◌, Bytes, arith, length}
use kyber_pipe.Error.{Result, ok, err, ◌>>=◌, encryption_failed, serialization_error}
use kyber_pipe.Toy.{toy, toy-AeadLaws, toy-KemLaws}
use kyber_pipe.Aead.{encrypt_chacha20, decrypt_chacha20, generate_nonce_from_seq}
use kyber_pipe.Aead.RoundTrip.{decrypt_chacha20-encrypt_chacha20, generate_nonce_from_seq_distinct}
use kyber_pipe.Kem.{
  HybridKemResult, encapsulate_hybrid, decapsulate_hybrid, generate_hybrid_keypair,
  is_low_order_x25519_point, all_zero,
}
use kyber_pipe.Kem.Agreement.{decapsulate_hybrid-encapsulate_hybrid}
use kyber_pipe.Padding.{pad_payload, unpad_payload}
use kyber_pipe.Padding.RoundTrip.{unpad_payload-pad_payload, pad_payload_sizes, IsBlockSize}
use kyber_pipe.Tlv.{RatchetEncryptedMessage, to_binary, from_binary, count_some}
use kyber_pipe.Tlv.RoundTrip.{from_binary-to_binary, to_binary_all_or_nothing}
use kyber_pipe.Frame.{QuicFrame, encode, recv_frame}
use kyber_pipe.Frame.RoundTrip.{recv_frame-encode}
use kyber_pipe.Base.{from_be_bytes}
use kyber_pipe.Crdt.{LwwRegister, key_of, merge}
use kyber_pipe.Crdt.Convergence.{merge_commutes}
use kyber_pipe.Sas.{code_of, chars}
use kyber_pipe.Sas.Windows.{digits, code_of-digits}
use kyber_pipe.Witness.Sessions.{entropy, pair_of, text, bytes_of}
use kyber_pipe.Witness.Rekeys.{kem_of}

abbrev sealed : Bytes
sealed = bytes_of (encrypt_chacha20 toy (1 ∷ []) (2 ∷ []) text (3 ∷ []))

decrypt_chacha20-encrypt_chacha20_example :
    decrypt_chacha20 toy (1 ∷ []) (2 ∷ []) sealed (3 ∷ []) ≡ ok text
unfolding encrypt_chacha20 toy
decrypt_chacha20-encrypt_chacha20_example =
    decrypt_chacha20-encrypt_chacha20 toy toy-AeadLaws (1 ∷ []) (2 ∷ []) text (3 ∷ []) sealed refl

-- The same position in two generations.
apart : ◌≢◌ {A = ℕ × ℕ} (7, 2) (7, 3)
apart e = ground arith

generate_nonce_from_seq_distinct_example : generate_nonce_from_seq 7 2 ≢ generate_nonce_from_seq 7 3
generate_nonce_from_seq_distinct_example =
    generate_nonce_from_seq_distinct (7, 2) (7, 3) (omega arith) (omega arith) (omega arith)
      (omega arith) apart

abbrev shared : Result HybridKemResult
shared = encapsulate_hybrid toy (entropy 4) (pair_of 2).x25519_pk (pair_of 2).mlkem_pk

decapsulate_hybrid-encapsulate_hybrid_example :
    decapsulate_hybrid toy
      (kem_of shared).ciphertext_bytes
      (pair_of 2).x25519_sk
      (pair_of 2).mlkem_sk
    ≡ ok (kem_of shared).combined_shared_secret
unfolding encapsulate_hybrid toy generate_hybrid_keypair is_low_order_x25519_point all_zero
decapsulate_hybrid-encapsulate_hybrid_example =
    decapsulate_hybrid-encapsulate_hybrid toy toy-KemLaws (entropy 4) (entropy 2) (kem_of shared)
      refl

unpad_payload-pad_payload_example : (pad_payload text >>= unpad_payload) ≡ ok text
unpad_payload-pad_payload_example = unpad_payload-pad_payload text (omega arith)

pad_payload_sizes_example :
    ((padded : Bytes) × (pad_payload text ≡ ok padded) × IsBlockSize (length text) (length padded))
    ⊎ ((pad_payload text ≡ err encryption_failed) × (65532 < length text))
pad_payload_sizes_example = pad_payload_sizes text

abbrev message : RatchetEncryptedMessage
message = record {
  nonce = 1 ∷ 2 ∷ [];
  ciphertext = 3 ∷ [];
  rekey_x25519_pk = some (4 ∷ []);
  rekey_mlkem_pk = some (5 ∷ []);
  rekey_ciphertext = some (6 ∷ 7 ∷ []);
}

from_binary-to_binary_example : from_binary (bytes_of (to_binary message) ++ text) ≡ ok message
unfolding to_binary
from_binary-to_binary_example =
    from_binary-to_binary message (bytes_of (to_binary message)) text
      (record {
        nonce_fits = omega arith;
        ciphertext_fits = omega arith;
        x25519_fits = (omega arith, omega arith);
        mlkem_fits = (omega arith, omega arith);
        rekey_ciphertext_fits = (omega arith, omega arith);
      })
      refl

to_binary_all_or_nothing_example :
    ((wire : Bytes) × (to_binary message ≡ ok wire)
      × ((count_some message.rekey_x25519_pk ≡ count_some message.rekey_mlkem_pk)
          × (count_some message.rekey_mlkem_pk ≡ count_some message.rekey_ciphertext)))
    ⊎ ((to_binary message ≡ err serialization_error)
        × ((count_some message.rekey_x25519_pk ≢ count_some message.rekey_mlkem_pk)
            ⊎ (count_some message.rekey_mlkem_pk ≢ count_some message.rekey_ciphertext)))
to_binary_all_or_nothing_example = to_binary_all_or_nothing message

abbrev frame : QuicFrame
frame = record { stream_type = 3; body = text }

recv_frame-encode_example : recv_frame (encode frame ++ text) ≡ ok (frame, text)
recv_frame-encode_example = recv_frame-encode frame text (omega arith)

abbrev register : ℕ → Bytes → LwwRegister ℕ
register v name = record { value = v; timestamp = 100_000; node_id = name }

-- Two nodes at one timestamp.
names_apart : ◌≢◌ {A = ℕ × Bytes} (key_of (register 2 (98 ∷ []))) (key_of (register 3 (99 ∷ [])))
names_apart e = ground arith

merge_commutes_example :
    (merge 100_000
      (register 3 (99 ∷ []))
      (merge 100_000 (register 2 (98 ∷ [])) (register 1 (97 ∷ []))).1).1
    ≡ (merge 100_000
        (register 2 (98 ∷ []))
        (merge 100_000 (register 3 (99 ∷ [])) (register 1 (97 ∷ []))).1).1
merge_commutes_example =
    merge_commutes 100_000 (register 2 (98 ∷ [])) (register 3 (99 ∷ [])) (register 1 (97 ∷ []))
      names_apart

code_of-digits_example :
    code_of (1 ∷ 2 ∷ 3 ∷ 4 ∷ 5 ∷ 6 ∷ 7 ∷ [])
    ≡ chars (digits (from_be_bytes (1 ∷ 2 ∷ 3 ∷ 4 ∷ 5 ∷ 6 ∷ 7 ∷ []) 0))
code_of-digits_example =
    code_of-digits 1 2 3 4 5 6 7 (omega arith) (omega arith) (omega arith) (omega arith)
      (omega arith) (omega arith) (omega arith)
