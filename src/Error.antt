-- ===== src/Error.antt =====
-- core-crypto/src/error.rs: the error type, and `Result` with the early return of `?`.
-- A message is text for the log and for people; only the variant is kept.
use kyber_pipe.Base.{◌≡◌, refl, ◌⊎◌, inl, inr, ℕ, Option, none, some}

pub data KyberError : Type 0 where
  crypto_error key_generation_failed encapsulation_failed decapsulation_failed : KyberError
  encryption_failed decryption_failed serialization_error network_error : KyberError
  session_desynchronized cross_generation_resync_required : KyberError
  invalid_key_length : ℕ → ℕ → KyberError
  carrier_misrouted : KyberError

pub data Result {ℓ} (A : Type ℓ) : Type ℓ where
  ok : A → Result A
  err : KyberError → Result A

infixl 5 ◌>>=◌
abbrev pub ◌>>=◌ {ℓ κ} : {A : Type ℓ} {B : Type κ} → Result A → (A → Result B) → Result B
ok a >>= f = f a
err e >>= f = err e

-- `ok_or`, and `map_err` of a library call whose own error carries nothing that is kept.
abbrev pub ok_or {ℓ} : {A : Type ℓ} → Option A → KyberError → Result A
ok_or none e = err e
ok_or (some a) e = ok a

pub Result-cases {ℓ} :
    {A : Type ℓ} (r : Result A) → ((e : KyberError) × (r ≡ err e)) ⊎ ((a : A) × (r ≡ ok a))
Result-cases (err e) = inl (e, refl)
Result-cases (ok a) = inr (a, refl)
