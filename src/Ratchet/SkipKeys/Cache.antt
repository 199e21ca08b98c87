-- ===== src/Ratchet/SkipKeys/Cache.antt =====
-- What the pruned cache of skipped keys holds.
use kyber_pipe.Base.{
  ℕ, zero, suc, ◌≤◌, ◌<◌, ◌≡◌, ◌⊎◌, inl, inr, refl, Bool, true, not, none, [], ◌∷◌, ltb, arith,
  Bytes, if◌then◌else◌, length, retain, All, length-retain-le, All-retain, Bool-cases,
}
use kyber_pipe.Ratchet.State.{SkipKeyMap}
use kyber_pipe.Ratchet.Pairs.{
  Pair, pair_eq, pair_eq_refl, pair_lt, map_get, map_insert, map_remove, map_extend,
  map_get-map_insert, map_get-map_remove,
}
use kyber_pipe.Ratchet.SkipKeys.{oldest_key, least_key, is_live_gen, shrink, prune_skip_keys}

map_get-retain-none :
    (q : Pair) (test : Pair × Bytes → Bool) (m : SkipKeyMap)
    → map_get q m ≡ none
    → map_get q (retain test m) ≡ none
unfolding map_get
map_get-retain-none q test [] h = refl
map_get-retain-none q test ((p, k) ∷ m) h = ground (arith, map_get-retain-none q test m)

shrink-none :
    (budget fuel : ℕ) (q : Pair) (m : SkipKeyMap)
    → map_get q m ≡ none
    → map_get q (shrink budget fuel m) ≡ none
unfolding shrink
shrink-none budget zero q m h = h
shrink-none budget (suc fuel) q m h = ground (
  arith,
  shrink-none budget fuel q (map_remove (oldest_key m) m),
  map_get-map_remove (oldest_key m) q m,
)

-- Pruning adds no key.
pub prune_skip_keys-none :
    (gen budget : ℕ) (q : Pair) (m : SkipKeyMap)
    → map_get q m ≡ none
    → map_get q (prune_skip_keys gen budget m) ≡ none
unfolding prune_skip_keys
prune_skip_keys-none gen budget q m h = shrink-none budget _ q _ (map_get-retain-none q _ m h)

pub map_extend-none :
    (q : Pair) (m store : SkipKeyMap)
    → map_get q m ≡ none
    → map_get q (map_extend m store) ≡ map_get q store
unfolding map_extend map_get
map_extend-none q [] store h = refl
map_extend-none q ((p, k) ∷ m) store h =
    ground (arith, map_extend-none q m (map_insert p k store), map_get-map_insert p q k store)

least_key_found :
    (p : Pair) (m : SkipKeyMap)
    → (least_key p m ≡ p) ⊎ (length (map_remove (least_key p m) m) < length m)
unfolding least_key map_remove
least_key_found p [] = inl refl
least_key_found p ((q, k) ∷ m) = ground (
  arith,
  least_key_found (if pair_lt q p then q else p) m,
  pair_eq_refl q,
  length-retain-le
      (λ (e : Pair × Bytes). not (pair_eq e.0 (least_key (if pair_lt q p then q else p) m))) m,
)

-- The least key of a cache that is not empty is one of its keys.
oldest_key_found :
    (p : Pair) (k : Bytes) (m : SkipKeyMap)
    → length (map_remove (oldest_key ((p, k) ∷ m)) ((p, k) ∷ m)) ≤ length m
unfolding oldest_key map_remove
oldest_key_found p k m = ground (
  arith,
  least_key_found p m,
  pair_eq_refl p,
  length-retain-le (λ (e : Pair × Bytes). not (pair_eq e.0 (least_key p m))) m,
)

shrink_bound :
    (budget fuel : ℕ) (m : SkipKeyMap) → length m ≤ fuel → length (shrink budget fuel m) ≤ budget
unfolding shrink
shrink_bound budget zero [] h = omega arith
shrink_bound budget zero (e ∷ m) h = absurd (omega arith)
shrink_bound budget (suc fuel) [] h = ground arith
shrink_bound budget (suc fuel) ((p, k) ∷ m) h = ground (
  arith,
  oldest_key_found p k m,
  shrink_bound budget fuel (map_remove (oldest_key ((p, k) ∷ m)) ((p, k) ∷ m)),
)

abbrev AllLive : ℕ → SkipKeyMap → Type 0
AllLive gen m = All (λ e. is_live_gen gen e.0.0 ≡ true) m

shrink-AllLive :
    (gen budget fuel : ℕ) (m : SkipKeyMap) → AllLive gen m → AllLive gen (shrink budget fuel m)
unfolding shrink
shrink-AllLive gen budget zero m h = h
shrink-AllLive gen budget (suc fuel) m h = elim (Bool-cases (ltb budget (length m))) [
  | inl more ↦ rw more (shrink-AllLive gen budget fuel _ (unfold map_remove in All-retain _ _ m h))
  | inr less ↦ rw less h
]

retain-AllLive : (gen : ℕ) (m : SkipKeyMap) → AllLive gen (retain (λ e. is_live_gen gen e.0.0) m)
retain-AllLive gen [] = tt
retain-AllLive gen (e ∷ m) = elim (Bool-cases (is_live_gen gen e.0.0)) [
  | inl live ↦ rw live (live, retain-AllLive gen m)
  | inr gone ↦ rw gone (retain-AllLive gen m)
]

-- After pruning, the cache holds at most `budget` keys, each of the current generation or the one
-- before it.
pub prune_skip_keys_bounds :
    (gen budget : ℕ) (m : SkipKeyMap)
    → (length (prune_skip_keys gen budget m) ≤ budget)
      × All (λ e. is_live_gen gen e.0.0 ≡ true) (prune_skip_keys gen budget m)
unfolding prune_skip_keys
prune_skip_keys_bounds gen budget m =
    (shrink_bound budget _ _ (omega arith), shrink-AllLive gen budget _ _ (retain-AllLive gen m))
