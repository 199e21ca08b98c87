-- ===== src/Ratchet/Pairs.antt =====
-- Sets of (generation, sequence) pairs and maps keyed by such pairs, as the hash tables of the
-- ratchet: `HashSet<(u32, u64)>` and `HashMap<(u32, u64), key>`. A hash table's order of iteration
-- is arbitrary; no definition that uses these depends on the order of a list.
pub mod Distinct
use kyber_pipe.Base.{
  ℕ, suc, ◌≤◌, ◌≡◌, refl, Bool, true, false, not, ◌&&◌, ◌||◌, Option, none, some, List, [], ◌∷◌,
  length, retain, ltb, ◌==◌, if◌then◌else◌, arith, Bool-cases, inl, inr,
}

abbrev pub Pair : Type 0
Pair = ℕ × ℕ

abbrev pub pair_eq : Pair → Pair → Bool
pair_eq p q = p.0 == q.0 && p.1 == q.1

-- The derived order of tuples.
abbrev pub pair_lt : Pair → Pair → Bool
pair_lt p q = ltb p.0 q.0 || p.0 == q.0 && ltb p.1 q.1

pub pair_eq_refl : (p : Pair) → pair_eq p p ≡ true
pair_eq_refl p = ground arith

pub pair_eq→≡ : (p q : Pair) → pair_eq p q ≡ true → p ≡ q
pair_eq→≡ (g, s) (h, t) e = ground arith

unfoldable pub set_contains : Pair → List Pair → Bool
set_contains p [] = false
set_contains p (q ∷ qs) = pair_eq q p || set_contains p qs

unfoldable pub set_insert : Pair → List Pair → List Pair
unfolding set_contains
set_insert p qs = if set_contains p qs then qs else p ∷ qs

unfoldable pub set_remove : Pair → List Pair → List Pair
set_remove p qs = retain (λ q. not (pair_eq q p)) qs

pub set_contains-set_insert :
    (p q : Pair) (qs : List Pair)
    → set_contains q (set_insert p qs) ≡ (pair_eq p q || set_contains q qs)
unfolding set_insert
set_contains-set_insert p q qs = elim (Bool-cases (set_contains p qs)) [
  | inl old ↦ elim (Bool-cases (pair_eq p q)) [
    | inl e ↦ rw (old, e) (rw (← pair_eq→≡ p q e) old)
    | inr e ↦ rw (old, e)
  ]
  | inr new ↦ rw (new, set_contains)
]

pub length-set_insert : (p : Pair) (qs : List Pair) → length (set_insert p qs) ≤ suc (length qs)
unfolding set_insert
length-set_insert p qs = ground arith

pub set_contains-retain :
    (p : Pair) (test : Pair → Bool) (qs : List Pair)
    → set_contains p (retain test qs) ≡ (set_contains p qs && test p)
unfolding set_contains
set_contains-retain p test [] = refl
set_contains-retain p test (q ∷ qs) = elim (Bool-cases (pair_eq q p)) [
  | inl e ↦ elim (Bool-cases (test q)) [
    | inl t ↦ rw (e, t, set_contains, ← pair_eq→≡ q p e) (ground (arith, t, pair_eq_refl q))
    | inr f ↦ rw (f, e, ← pair_eq→≡ q p e) (ground (arith, f, set_contains-retain q test qs))
  ]
  | inr n ↦ ground (arith, set_contains-retain p test qs)
]

module _ {ℓ} {V : Type ℓ} where
  unfoldable pub map_get : Pair → List (Pair × V) → Option V
  map_get p [] = none
  map_get p ((q, v) ∷ m) = if pair_eq q p then some v else map_get p m

  unfoldable pub map_insert : Pair → V → List (Pair × V) → List (Pair × V)
  map_insert p v [] = (p, v) ∷ []
  map_insert p v ((q, w) ∷ m) = if pair_eq q p then (p, v) ∷ m else (q, w) ∷ map_insert p v m

  unfoldable pub map_remove : Pair → List (Pair × V) → List (Pair × V)
  map_remove p m = retain (λ e. not (pair_eq e.0 p)) m

  -- `for (k, v) in map { store.insert(k, v) }`.
  unfoldable pub map_extend : List (Pair × V) → List (Pair × V) → List (Pair × V)
  map_extend [] store = store
  map_extend ((p, v) ∷ m) store = map_extend m (map_insert p v store)

  pub map_get-map_insert :
      (p q : Pair) (v : V) (m : List (Pair × V))
      → map_get q (map_insert p v m) ≡ (if pair_eq p q then some v else map_get q m)
  unfolding map_get map_insert
  map_get-map_insert p q v [] = refl
  map_get-map_insert p q v ((r, w) ∷ m) = ground (arith, map_get-map_insert p q v m)

  pub map_get-map_remove :
      (p q : Pair) (m : List (Pair × V))
      → map_get q (map_remove p m) ≡ (if pair_eq p q then none else map_get q m)
  unfolding map_get map_remove
  map_get-map_remove p q [] = ground arith
  map_get-map_remove p q ((r, w) ∷ m) = ground (arith, map_get-map_remove p q m)
