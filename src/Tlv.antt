-- ===== src/Tlv.antt =====
-- core-crypto/src/crypto/ratchet/tlv.rs: the wire form of a ratchet message.
pub mod RoundTrip
use kyber_pipe.Base.{
  ℕ, ◌+◌, Bool, true, false, not, ◌&&◌, ◌||◌, Option, none, some, List, [], ◌∷◌, ◌++◌, length, take,
  drop, is_empty, is_some, ltb, ◌==◌, if◌then◌else◌, Bytes, wrap32, to_be_bytes32, from_be_bytes,
}
use kyber_pipe.Error.{Result, ok, err, ◌>>=◌, serialization_error}

pub record RatchetEncryptedMessage : Type 0 where
  pub nonce : Bytes
  pub ciphertext : Bytes
  pub rekey_x25519_pk : Option Bytes
  pub rekey_mlkem_pk : Option Bytes
  pub rekey_ciphertext : Option Bytes

-- `is_some() as u8`.
abbrev pub count_some : Option Bytes → ℕ
count_some none = 0
count_some (some b) = 1

-- A length prefix and the bytes.
unfoldable pub put_bytes : Bytes → Bytes
put_bytes bytes = to_be_bytes32 (wrap32 (length bytes)) ++ bytes

-- The loop over the three fields. `expect` on a missing field is a panic in the source; the guard
-- before the loop excludes it, and here a missing field would write nothing.
unfoldable put_fields : List (Option Bytes) → Bytes
put_fields [] = []
put_fields (none ∷ fields) = put_fields fields
put_fields (some bytes ∷ fields) = put_bytes bytes ++ put_fields fields

abbrev has_rekey_byte : Bool → ℕ
has_rekey_byte true = 1
has_rekey_byte false = 0

unfoldable pub to_binary : RatchetEncryptedMessage → Result Bytes
unfolding put_bytes put_fields
to_binary m =
    let present =
      count_some m.rekey_x25519_pk + count_some m.rekey_mlkem_pk + count_some m.rekey_ciphertext in
    let has_rekey = present == 3 in
    let fields =
      if has_rekey
      then put_fields (m.rekey_x25519_pk ∷ m.rekey_mlkem_pk ∷ m.rekey_ciphertext ∷ [])
      else [] in
    if ltb 0 present && ltb present 3
    then err serialization_error
    else ok
        (1 ∷ has_rekey_byte has_rekey ∷ (put_bytes m.nonce ++ (put_bytes m.ciphertext ++ fields)))

-- The closure `take`: the next `n` bytes, and the bytes that the cursor has not reached.
unfoldable pub take_bytes : ℕ → Bytes → Result (Bytes × Bytes)
take_bytes n rest =
    if ltb (length rest) n then err serialization_error else ok (take n rest, drop n rest)

-- `take(1, ..)?[0]`.
unfoldable pub take_byte : Bytes → Result (ℕ × Bytes)
take_byte [] = err serialization_error
take_byte (b ∷ rest) = ok (b, rest)

-- The closure `read_bytes`.
unfoldable pub read_bytes : Bytes → Result (Bytes × Bytes)
read_bytes rest = do (prefix, rest1) ← take_bytes 4 rest; take_bytes (from_be_bytes prefix 0) rest1

unfoldable read_fields : Bytes → Bytes → Bytes → Result RatchetEncryptedMessage
read_fields nonce ciphertext rest = do
  (x, rest1) ← read_bytes rest
  (m, rest2) ← read_bytes rest1
  (ct, rest3) ← read_bytes rest2
  if is_empty x || is_empty m || is_empty ct
      then err serialization_error
      else ok (record {
        nonce = nonce;
        ciphertext = ciphertext;
        rekey_x25519_pk = some x;
        rekey_mlkem_pk = some m;
        rekey_ciphertext = some ct;
      })

-- Bytes behind the last field are not looked at.
unfoldable pub from_binary : Bytes → Result RatchetEncryptedMessage
unfolding read_fields
from_binary bytes = do
  (version, rest1) ← take_byte bytes
  if not (version == 1) then err serialization_error else do
    (flag, rest2) ← take_byte rest1
    (nonce, rest3) ← read_bytes rest2
    (ciphertext, rest4) ← read_bytes rest3
    if not (flag == 0)
        then read_fields nonce ciphertext rest4
        else ok (record {
          nonce = nonce;
          ciphertext = ciphertext;
          rekey_x25519_pk = none;
          rekey_mlkem_pk = none;
          rekey_ciphertext = none;
        })
