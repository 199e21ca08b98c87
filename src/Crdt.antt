-- ===== src/Crdt.antt =====
-- core-crypto/src/crypto/crdt.rs: the last-write-wins register.
pub mod Convergence
use kyber_pipe.Base.{
  ℕ, ◌+◌, ◌-◌, Bool, true, false, not, ◌&&◌, ◌||◌, ltb, leb, ◌==◌, if◌then◌else◌, Bytes, bytes_gt,
  u64_max,
}

-- A node's name is its bytes, which is how `String` compares.
pub record LwwRegister {ℓ} (T : Type ℓ) : Type ℓ where
  pub value : T
  pub timestamp : ℕ
  pub node_id : Bytes

abbrev pub max_clock_drift_ms : ℕ
max_clock_drift_ms = 60_000

-- `u64::abs_diff`.
abbrev pub abs_diff : ℕ → ℕ → ℕ
abs_diff a b = (a - b) + (b - a)

-- The later timestamp, and at one timestamp the greater name.
abbrev pub newer : ℕ × Bytes → ℕ × Bytes → Bool
newer (t, n) (t', n') = ltb t' t || t == t' && bytes_gt n n'

abbrev pub key_of {ℓ} : {T : Type ℓ} → LwwRegister T → ℕ × Bytes
key_of x = (x.timestamp, x.node_id)

-- The clock that `merge` reads is its first argument.
unfoldable pub merge {ℓ} : {T : Type ℓ} → ℕ → LwwRegister T → LwwRegister T → Bool × LwwRegister T
merge local_now incoming own =
    if incoming.timestamp == u64_max
    then (false, own)
    else if ltb max_clock_drift_ms (abs_diff incoming.timestamp local_now)
    then (false, own)
    else if newer (key_of incoming) (key_of own)
    then (true, incoming)
    else (false, own)
