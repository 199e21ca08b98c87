-- ===== src/Aead/RoundTrip.antt =====
-- What aead.rs seals, it opens.
use kyber_pipe.Base.{
  ℕ, ◌<◌, ◌^◌, from_be_bytes, to_be_bytes64, take-to_be_bytes32, drop-to_be_bytes32,
  from_be_bytes-to_be_bytes32, from_be_bytes-to_be_bytes64, take, drop, ◌-◌, ◌≡◌, ◌≢◌, sym, ap, ◌∙◌,
  inl, inr, some, [], ◌∷◌, ◌++◌, length, length-append, take-append, drop-append, arith,
  Option-cases, Bytes, le→ltb,
}
use kyber_pipe.Error.{ok}
use kyber_pipe.Primitives.{Crypto, AeadLaws}
use kyber_pipe.Aead.{generate_nonce_from_seq, encrypt_chacha20, decrypt_chacha20}

module _ (c : Crypto) (laws : AeadLaws c) where
  open_detached :
      (key nonce plaintext body tag aad : Bytes) (a : ℕ)
      → c.seal_detached key nonce (a ∷ aad) plaintext ≡ some (body, tag)
      → decrypt_chacha20 c key nonce (body ++ tag) (a ∷ aad) ≡ ok plaintext
  unfolding decrypt_chacha20
  open_detached key nonce plaintext body tag aad a e = rw (
    le→ltb (length (body ++ tag)) 16 (omega (arith, length-append body tag, sixteen)),
    at,
    take-append body tag,
    drop-append body tag,
    laws.unseal_detached-seal_detached _ _ _ _ _ _ e,
  )
    where
      sixteen : length tag ≡ 16
      sixteen = laws.length-tag _ _ _ _ _ _ e

      at : length (body ++ tag) - 16 ≡ length body
      at = omega (arith, length-append body tag, sixteen)

  -- Over an AEAD that meets its laws: whatever `encrypt_chacha20` returns, `decrypt_chacha20`
  -- with the same key, nonce and associated data gives the plaintext back, with associated data
  -- (a detached tag) and without.
  pub decrypt_chacha20-encrypt_chacha20 :
      (key nonce plaintext aad sealed : Bytes)
      → encrypt_chacha20 c key nonce plaintext aad ≡ ok sealed
      → decrypt_chacha20 c key nonce sealed aad ≡ ok plaintext
  unfolding encrypt_chacha20
  decrypt_chacha20-encrypt_chacha20 key nonce plaintext [] sealed e =
      elim (Option-cases (c.seal key nonce plaintext)) [
        | inl n ↦ ground arith
        | inr (x, s) ↦
            unfold decrypt_chacha20 in ground (arith, laws.unseal-seal key nonce plaintext x s)
      ]
  decrypt_chacha20-encrypt_chacha20 key nonce plaintext (a ∷ aad) sealed e =
      elim (Option-cases (c.seal_detached key nonce (a ∷ aad) plaintext)) [
        | inl n ↦ ground arith
        | inr ((body, tag), s) ↦ ground (arith, open_detached key nonce plaintext body tag aad a s)
      ]

-- The two halves of a nonce are read back.
pub gen-generate_nonce_from_seq :
    (seq gen : ℕ) → gen < 2 ^ 32 → from_be_bytes (take 4 (generate_nonce_from_seq seq gen)) 0 ≡ gen
unfolding generate_nonce_from_seq
gen-generate_nonce_from_seq seq gen h =
    rw (take-to_be_bytes32 gen (to_be_bytes64 seq)) (from_be_bytes-to_be_bytes32 gen h)

pub seq-generate_nonce_from_seq :
    (seq gen : ℕ) → seq < 2 ^ 64 → from_be_bytes (drop 4 (generate_nonce_from_seq seq gen)) 0 ≡ seq
unfolding generate_nonce_from_seq
seq-generate_nonce_from_seq seq gen h =
    rw (drop-to_be_bytes32 gen (to_be_bytes64 seq)) (from_be_bytes-to_be_bytes64 seq h)

nonce_injective :
    (p q : ℕ × ℕ)
    → p.0 < 2 ^ 64
    → p.1 < 2 ^ 32
    → q.0 < 2 ^ 64
    → q.1 < 2 ^ 32
    → generate_nonce_from_seq p.0 p.1 ≡ generate_nonce_from_seq q.0 q.1
    → p ≡ q
nonce_injective (seq, gen) (seq', gen') s g s' g' e =
    let es : seq ≡ seq' =
      sym (seq-generate_nonce_from_seq seq gen s)
      ∙ (ap (λ n. from_be_bytes (drop 4 n) 0) e ∙ seq-generate_nonce_from_seq seq' gen' s') in
    let eg : gen ≡ gen' =
      sym (gen-generate_nonce_from_seq seq gen g)
      ∙ (ap (λ n. from_be_bytes (take 4 n) 0) e ∙ gen-generate_nonce_from_seq seq' gen' g') in
    ground arith

-- Two messages of which the 64-bit positions or the 32-bit generations differ have different nonces.
pub generate_nonce_from_seq_distinct :
    (p q : ℕ × ℕ)
    → p.0 < 2 ^ 64
    → p.1 < 2 ^ 32
    → q.0 < 2 ^ 64
    → q.1 < 2 ^ 32
    → p ≢ q
    → generate_nonce_from_seq p.0 p.1 ≢ generate_nonce_from_seq q.0 q.1
generate_nonce_from_seq_distinct p q s g s' g' apart e = apart (nonce_injective p q s g s' g' e)
