-- ===== src/Sas.antt =====
-- core-crypto/src/crypto/sas.rs: the short authentication string.
pub mod Windows
use kyber_pipe.Base.{
  ℕ, zero, suc, ◌+◌, ◌-◌, ◌*◌, ◌/◌, ◌%◌, ◌^◌, some, List, [], ◌∷◌, ◌++◌, ltb, if◌then◌else◌, Bytes,
  ascii,
}
use kyber_pipe.Primitives.{Crypto}

abbrev pub charset : Bytes
unfolding ascii
charset = ascii "ABCDEFGHJKLMNPQRSTUVWXYZ23456789"

-- `charset[idx]`; the index is below 32.
unfoldable pub char_at : ℕ → Bytes → ℕ
char_at n [] = 0
char_at zero (c ∷ cs) = c
char_at (suc n) (c ∷ cs) = char_at n cs

-- The register, the number of its bits that are not used yet, and the bytes ahead.
pub record Register : Type 0 where
  pub accum : ℕ
  pub bits_in_accum : ℕ
  pub ahead : Bytes

-- One round of `while bits_in_accum < 5`: the register takes 8 bits more, of the next byte or zeros.
-- `(accum << 8) | byte` in 64 bits is written out.
abbrev grow : ℕ → ℕ → Bytes → Register
grow a n [] = record { accum = a * 256 % 2 ^ 64; bits_in_accum = n + 8; ahead = [] }
grow a n (b ∷ bs) = record { accum = a * 256 % 2 ^ 64 + b; bits_in_accum = n + 8; ahead = bs }

-- A round adds 8 bits, so that one is enough.
unfoldable top_up : Register → Register
top_up r = if ltb r.bits_in_accum 5 then grow r.accum r.bits_in_accum r.ahead else r

-- `for _ in 0..CODE_LEN`: a window of five bits, `(accum >> shift) & 0x1F`.
unfoldable pub windows : ℕ → Register → List ℕ
unfolding top_up
windows zero r = []
windows (suc n) r =
    let full = top_up r in
    let shift = full.bits_in_accum - 5 in
    full.accum / 2 ^ shift % 32 ∷ windows n (record full { bits_in_accum = shift })

abbrev pub chars : List ℕ → Bytes
chars [] = []
chars (i ∷ is) = char_at i charset ∷ chars is

abbrev code_len : ℕ
code_len = 7

unfoldable pub code_of : Bytes → Bytes
unfolding windows
code_of okm = chars (windows code_len (record { accum = 0; bits_in_accum = 0; ahead = okm }))

unfoldable generate_sas_code : Crypto → Bytes → Bytes → Bytes → Bytes
unfolding code_of
generate_sas_code c host_pk client_pk shared_secret = code_of (
    c.expand (some (ascii "kyberpipe-sas-v2-salt")) (host_pk ++ (client_pk ++ shared_secret))
      (ascii "kyberpipe-sas-code-v2") 7)
