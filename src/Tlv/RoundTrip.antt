-- ===== src/Tlv/RoundTrip.antt =====
-- Parsing a printed ratchet message.
use kyber_pipe.Base.{
  ℕ, ◌<◌, ◌^◌, ◌≡◌, ◌≢◌, refl, ◌⊎◌, false, Option, none, some, [], ◌∷◌, ◌++◌, append_assoc, length,
  length-append, take-append, drop-append, is_empty, arith, le→ltb, Bytes, wrap32, to_be_bytes32,
  from_be_bytes-to_be_bytes32, length-to_be_bytes32,
}
use kyber_pipe.Error.{ok, err, serialization_error}
use kyber_pipe.Tlv.{
  RatchetEncryptedMessage, count_some, put_bytes, to_binary, take_bytes, take_byte, read_bytes,
  read_fields, from_binary,
}

-- A field whose length fits its prefix.
abbrev IsField : Bytes → Type 0
IsField bytes = length bytes < 2 ^ 32

-- A rekey field: a field that is not empty, or absent.
abbrev IsRekeyField : Option Bytes → Type 0
IsRekeyField none = Unit
IsRekeyField (some bytes) = (0 < length bytes) × IsField bytes

pub record IsEncodable (m : RatchetEncryptedMessage) : Type 0 where
  pub nonce_fits : IsField m.nonce
  pub ciphertext_fits : IsField m.ciphertext
  pub x25519_fits : IsRekeyField m.rekey_x25519_pk
  pub mlkem_fits : IsRekeyField m.rekey_mlkem_pk
  pub rekey_ciphertext_fits : IsRekeyField m.rekey_ciphertext

take_bytes-append :
    (n : ℕ) (xs rest : Bytes) → length xs ≡ n → take_bytes n (xs ++ rest) ≡ ok (xs, rest)
unfolding take_bytes
take_bytes-append n xs rest e = rw (← e) (
    rw (
      le→ltb (length (xs ++ rest)) (length xs) (omega (arith, length-append xs rest)),
      take-append xs rest,
      drop-append xs rest,
    ))

read_bytes-put_bytes :
    (bytes rest : Bytes) → IsField bytes → read_bytes (put_bytes bytes ++ rest) ≡ ok (bytes, rest)
unfolding read_bytes put_bytes
read_bytes-put_bytes bytes rest h =
    let e : wrap32 (length bytes) ≡ length bytes = omega arith in
    rw (
      e,
      append_assoc (to_be_bytes32 (length bytes)) bytes rest,
      take_bytes-append 4 (to_be_bytes32 (length bytes)) (bytes ++ rest)
          (length-to_be_bytes32 (length bytes)),
      from_be_bytes-to_be_bytes32 (length bytes) h,
      take_bytes-append (length bytes) bytes rest refl,
    )

not_empty : (bytes : Bytes) → 0 < length bytes → is_empty bytes ≡ false
not_empty [] h = absurd (omega arith)
not_empty (b ∷ bytes) h = refl

abbrev plain : Bytes → Bytes → RatchetEncryptedMessage
plain nonce ciphertext = record {
  nonce = nonce;
  ciphertext = ciphertext;
  rekey_x25519_pk = none;
  rekey_mlkem_pk = none;
  rekey_ciphertext = none;
}

from_binary-plain :
    (nonce ciphertext rest : Bytes)
    → IsField nonce
    → IsField ciphertext
    → from_binary (1 ∷ 0 ∷ (put_bytes nonce ++ (put_bytes ciphertext ++ rest)))
      ≡ ok (plain nonce ciphertext)
unfolding from_binary take_byte
from_binary-plain nonce ciphertext rest hn hc = rw (
  read_bytes-put_bytes nonce (put_bytes ciphertext ++ rest) hn,
  read_bytes-put_bytes ciphertext rest hc,
)

read_fields-put_bytes :
    (nonce ciphertext x m ct rest : Bytes)
    → IsRekeyField (some x)
    → IsRekeyField (some m)
    → IsRekeyField (some ct)
    → read_fields nonce ciphertext (put_bytes x ++ (put_bytes m ++ (put_bytes ct ++ rest)))
      ≡ ok (record (plain nonce ciphertext) {
        rekey_x25519_pk = some x;
        rekey_mlkem_pk = some m;
        rekey_ciphertext = some ct;
      })
unfolding read_fields
read_fields-put_bytes nonce ciphertext x m ct rest hx hm hct = rw (
  read_bytes-put_bytes x (put_bytes m ++ (put_bytes ct ++ rest)) hx.1,
  read_bytes-put_bytes m (put_bytes ct ++ rest) hm.1,
  read_bytes-put_bytes ct rest hct.1,
  not_empty x hx.0,
  not_empty m hm.0,
  not_empty ct hct.0,
)

from_binary-rekey :
    (nonce ciphertext rest : Bytes)
    → IsField nonce
    → IsField ciphertext
    → from_binary (1 ∷ 1 ∷ (put_bytes nonce ++ (put_bytes ciphertext ++ rest)))
      ≡ read_fields nonce ciphertext rest
unfolding from_binary take_byte
from_binary-rekey nonce ciphertext rest hn hc = rw (
  read_bytes-put_bytes nonce (put_bytes ciphertext ++ rest) hn,
  read_bytes-put_bytes ciphertext rest hc,
)

-- What the bytes of a message are, in front of `rest`.
abbrev wire_of : ℕ → Bytes → Bytes → Bytes → Bytes
wire_of flag nonce ciphertext fields =
    1 ∷ flag ∷ (put_bytes nonce ++ (put_bytes ciphertext ++ fields))

wire_of-append :
    (flag : ℕ) (nonce ciphertext fields rest : Bytes)
    → wire_of flag nonce ciphertext fields ++ rest ≡ wire_of flag nonce ciphertext (fields ++ rest)
wire_of-append flag nonce ciphertext fields rest = simp append_assoc

module _ (nonce ciphertext wire rest : Bytes) (hn : IsField nonce) (hc : IsField ciphertext) where
  round_trip :
      (x m ct : Option Bytes)
      → IsRekeyField x
      → IsRekeyField m
      → IsRekeyField ct
      → to_binary (record {
        nonce = nonce;
        ciphertext = ciphertext;
        rekey_x25519_pk = x;
        rekey_mlkem_pk = m;
        rekey_ciphertext = ct;
      })
        ≡ ok wire
      → from_binary (wire ++ rest)
        ≡ ok (record {
          nonce = nonce;
          ciphertext = ciphertext;
          rekey_x25519_pk = x;
          rekey_mlkem_pk = m;
          rekey_ciphertext = ct;
        })
  unfolding to_binary
  round_trip none none none hx hm hct e =
      let e' : wire ≡ wire_of 0 nonce ciphertext [] = ground arith in
      rw (
        e',
        wire_of-append 0 nonce ciphertext [] rest,
        from_binary-plain nonce ciphertext rest hn hc,
      )
  round_trip (some x) (some m) (some ct) hx hm hct e =
      let fields = put_bytes x ++ (put_bytes m ++ (put_bytes ct ++ [])) in
      let e' : wire ≡ wire_of 1 nonce ciphertext fields = ground arith in
      let assoc : fields ++ rest ≡ put_bytes x ++ (put_bytes m ++ (put_bytes ct ++ rest)) =
        simp (append_assoc) in
      rw (
        e',
        wire_of-append 1 nonce ciphertext fields rest,
        from_binary-rekey nonce ciphertext (fields ++ rest) hn hc,
        assoc,
        read_fields-put_bytes nonce ciphertext x m ct rest hx hm hct,
      )
  round_trip none none (some ct) hx hm hct e = ground arith
  round_trip none (some m) ct hx hm hct e = ground arith
  round_trip (some x) none ct hx hm hct e = ground arith
  round_trip (some x) (some m) none hx hm hct e = ground arith

-- A message whose fields are shorter than 2^32 bytes and whose rekey fields are not empty, if it
-- prints, is parsed back from its bytes, whatever bytes follow them.
pub from_binary-to_binary :
    (m : RatchetEncryptedMessage) (wire rest : Bytes)
    → IsEncodable m
    → to_binary m ≡ ok wire
    → from_binary (wire ++ rest) ≡ ok m
from_binary-to_binary m wire rest v e =
    round_trip m.nonce m.ciphertext wire rest v.nonce_fits v.ciphertext_fits m.rekey_x25519_pk
      m.rekey_mlkem_pk m.rekey_ciphertext v.x25519_fits v.mlkem_fits v.rekey_ciphertext_fits e

-- A message prints exactly when its three rekey fields are all there or all absent.
pub to_binary_all_or_nothing :
    (m : RatchetEncryptedMessage)
    → ((wire : Bytes) × (to_binary m ≡ ok wire)
        × ((count_some m.rekey_x25519_pk ≡ count_some m.rekey_mlkem_pk)
            × (count_some m.rekey_mlkem_pk ≡ count_some m.rekey_ciphertext)))
      ⊎ ((to_binary m ≡ err serialization_error)
          × ((count_some m.rekey_x25519_pk ≢ count_some m.rekey_mlkem_pk)
              ⊎ (count_some m.rekey_mlkem_pk ≢ count_some m.rekey_ciphertext)))
unfolding to_binary
to_binary_all_or_nothing m = ground arith
