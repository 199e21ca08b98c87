-- ===== src/Ratchet/SkipKeys/Kept.antt =====
-- A key that has been skipped stays in the cache while there is room for it.
use kyber_pipe.Base.{
  ℕ, zero, suc, ◌+◌, ◌≤◌, ◌≡◌, refl, ap, ◌∙◌, true, inl, inr, none, some, [], ◌∷◌, Bytes, arith,
  length, length-retain-le, retain, Bool-cases,
}
use kyber_pipe.Primitives.{Crypto}
use kyber_pipe.Ratchet.State.{SkipKeyMap}
use kyber_pipe.Ratchet.Pairs.{
  Pair, pair_eq, pair_eq→≡, map_get, map_insert, map_extend, map_get-map_insert,
}
use kyber_pipe.Ratchet.Chain.{msg_key_of, next_chain_of, skip_loop}
use kyber_pipe.Ratchet.SkipKeys.{is_live_gen, shrink, prune_skip_keys}
use kyber_pipe.Ratchet.SkipKeys.Cache.{map_extend-none}

-- No pair has two keys.
abbrev Distinct : SkipKeyMap → Type 0
Distinct [] = Unit
Distinct ((p, k) ∷ m) = (map_get p m ≡ none) × Distinct m

map_insert-Distinct :
    (p : Pair) (k : Bytes) (m : SkipKeyMap) → Distinct m → Distinct (map_insert p k m)
unfolding map_insert map_get
map_insert-Distinct p k [] h = (refl, tt)
map_insert-Distinct p k ((q, k') ∷ m) (h, hs) = elim (Bool-cases (pair_eq q p)) [
  | inl e ↦ rw e (rw (← pair_eq→≡ q p e) h, hs)
  | inr e ↦ rw e (map_get-map_insert p q k m ∙ ground arith, map_insert-Distinct p k m hs)
]

length-map_insert :
    (p : Pair) (k : Bytes) (m : SkipKeyMap) → length (map_insert p k m) ≤ suc (length m)
unfolding map_insert
length-map_insert p k [] = omega arith
length-map_insert p k ((q, k') ∷ m) = ground (arith, length-map_insert p k m)

pub length-map_extend :
    (m store : SkipKeyMap) → length (map_extend m store) ≤ length m + length store
unfolding map_extend
length-map_extend [] store = omega arith
length-map_extend ((p, k) ∷ m) store =
    omega (arith, length-map_extend m (map_insert p k store), length-map_insert p k store)

pub map_extend-some :
    (q : Pair) (k : Bytes) (m store : SkipKeyMap)
    → Distinct m
    → map_get q m ≡ some k
    → map_get q (map_extend m store) ≡ some k
unfolding map_extend map_get
map_extend-some q k [] store d h = ground arith
map_extend-some q k ((p, k') ∷ m) store (d, ds) h = elim (Bool-cases (pair_eq p q)) [
  | inl e ↦
      map_extend-none q m (map_insert p k' store) (rw (← pair_eq→≡ p q e) d)
      ∙ (map_get-map_insert p q k' store ∙ ground arith)
  | inr e ↦ map_extend-some q k m (map_insert p k' store) ds (ground arith)
]

map_get_live :
    (gen : ℕ) (q : Pair) (m : SkipKeyMap)
    → is_live_gen gen q.0 ≡ true
    → map_get q (retain (λ e. is_live_gen gen e.0.0) m) ≡ map_get q m
unfolding map_get
map_get_live gen q [] h = refl
map_get_live gen q ((p, k) ∷ m) h = elim (Bool-cases (pair_eq p q)) [
  | inl e ↦ ground (arith, pair_eq→≡ p q e, map_get_live gen q m h)
  | inr e ↦ ground (arith, map_get_live gen q m h)
]

shrink_fits : (budget fuel : ℕ) (m : SkipKeyMap) → length m ≤ budget → shrink budget fuel m ≡ m
unfolding shrink
shrink_fits budget zero m h = refl
shrink_fits budget (suc fuel) m h = ground arith

-- A cache within its budget loses only the generations that are gone.
pub prune_skip_keys_keeps :
    (gen budget : ℕ) (q : Pair) (m : SkipKeyMap)
    → length m ≤ budget
    → is_live_gen gen q.0 ≡ true
    → map_get q (prune_skip_keys gen budget m) ≡ map_get q m
unfolding prune_skip_keys
prune_skip_keys_keeps gen budget q m h live =
    let live_keys = retain (λ e. is_live_gen gen e.0.0) m in
    ap (map_get q) (
      shrink_fits budget (length live_keys) live_keys
        (omega (arith, length-retain-le (λ e. is_live_gen gen e.0.0) m)))
    ∙ map_get_live gen q m live

module _ (c : Crypto) where
  pub skip_loop-Distinct :
      (gen n base : ℕ) (ck : Bytes) (keys : SkipKeyMap)
      → Distinct keys
      → Distinct (skip_loop c gen n base ck keys).1
  unfolding skip_loop
  skip_loop-Distinct gen zero base ck keys h = h
  skip_loop-Distinct gen (suc n) base ck keys h =
      skip_loop-Distinct gen n (suc base) (next_chain_of c ck)
        (map_insert (gen, base) (msg_key_of c ck) keys)
        (map_insert-Distinct (gen, base) (msg_key_of c ck) keys h)

  pub length-skip_loop :
      (gen n base : ℕ) (ck : Bytes) (keys : SkipKeyMap)
      → length (skip_loop c gen n base ck keys).1 ≤ n + length keys
  unfolding skip_loop
  length-skip_loop gen zero base ck keys = omega arith
  length-skip_loop gen (suc n) base ck keys = omega (
    arith,
    length-map_insert (gen, base) (msg_key_of c ck) keys,
    length-skip_loop gen n (suc base) (next_chain_of c ck)
        (map_insert (gen, base) (msg_key_of c ck) keys),
  )
