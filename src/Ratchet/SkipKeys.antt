-- ===== src/Ratchet/SkipKeys.antt =====
-- core-crypto/src/crypto/ratchet/resync.rs: the cache of skipped message keys.
pub mod Cache
pub mod Kept
use kyber_pipe.Base.{
  ℕ, zero, suc, ◌-◌, ◌*◌, Bool, true, false, ◌&&◌, ◌||◌, Option, none, some, List, [], ◌∷◌, length,
  retain, ltb, leb, ◌==◌, if◌then◌else◌, Bytes, u32_max,
}
use kyber_pipe.Error.{Result, ok, err}
use kyber_pipe.Primitives.{Crypto}
use kyber_pipe.Aead.{decrypt_chacha20}
use kyber_pipe.Ratchet.State.{SkipKeyMap}
use kyber_pipe.Ratchet.Pairs.{Pair, pair_lt, map_get, map_remove}

-- `store.keys().min().unwrap_or(&(0, 0))`.
least_key : Pair → SkipKeyMap → Pair
least_key p [] = p
least_key p ((q, k) ∷ m) = least_key (if pair_lt q p then q else p) m

unfoldable pub oldest_key : SkipKeyMap → Pair
unfolding least_key
oldest_key [] = (0, 0)
oldest_key ((p, k) ∷ m) = least_key p m

-- The generations that stay: the current one and the one before it.
abbrev pub is_live_gen : ℕ → ℕ → Bool
is_live_gen current_gen gen =
    gen == current_gen
    || ltb 0 current_gen && gen == current_gen - 1
    || current_gen == u32_max && gen == u32_max

-- `while store.len() > budget`, with fuel: each round removes a key.
unfoldable pub shrink : ℕ → ℕ → SkipKeyMap → SkipKeyMap
unfolding oldest_key
shrink budget zero m = m
shrink budget (suc fuel) m =
    let rest = shrink budget fuel (map_remove (oldest_key m) m) in
    if ltb budget (length m) then rest else m

unfoldable pub prune_skip_keys : ℕ → ℕ → SkipKeyMap → SkipKeyMap
prune_skip_keys current_gen budget store =
    let live = retain (λ e. is_live_gen current_gen e.0.0) store in shrink budget (length live) live

-- The store comes back with the result: it has lost the key only if the key opened the message.
unfoldable pub try_decrypt_with_cached_key :
    Crypto → SkipKeyMap → ℕ → ℕ → Bytes → Bytes → Bytes → Result (Option Bytes) × SkipKeyMap
try_decrypt_with_cached_key c store nonce_gen seq nonce ciphertext aad =
    elim (map_get (nonce_gen, seq) store) [
      | none ↦ (ok none, store)
      | some cached_key ↦ elim (decrypt_chacha20 c cached_key nonce ciphertext aad) [
        | err e ↦ (err e, store)
        | ok plaintext ↦ (ok (some plaintext), map_remove (nonce_gen, seq) store)
      ]
    ]
