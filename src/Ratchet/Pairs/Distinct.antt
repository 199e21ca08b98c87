-- ===== src/Ratchet/Pairs/Distinct.antt =====
-- Lists of pairs as sets and maps in earnest: no pair and no key twice. A list that a hash table
-- gives is one of these, and building the table again gives it back.
use kyber_pipe.Base.{
  ◌≡◌, refl, ap, sym, ◌∙◌, false, none, List, [], ◌∷◌, ◌++◌, append_assoc, append-nil, arith, All,
}
use kyber_pipe.Ratchet.Pairs.{
  Pair, pair_eq, set_contains, map_get, map_insert, map_extend, map_get-map_insert,
}

abbrev pub Distinct : List Pair → Type 0
Distinct [] = Unit
Distinct (p ∷ ps) = (set_contains p ps ≡ false) × Distinct ps

module _ {ℓ} {V : Type ℓ} where
  abbrev pub DistinctKeys : List (Pair × V) → Type ℓ
  DistinctKeys [] = Unit
  DistinctKeys ((p, v) ∷ m) = All (λ e. pair_eq p e.0 ≡ false) m × DistinctKeys m

  -- No key of the second list is in the first.
  abbrev Apart : List (Pair × V) → List (Pair × V) → Type ℓ
  Apart acc m = All (λ e. map_get e.0 acc ≡ none) m

  map_insert_new :
      (p : Pair) (v : V) (acc : List (Pair × V))
      → map_get p acc ≡ none
      → map_insert p v acc ≡ acc ++ (p, v) ∷ []
  unfolding map_get map_insert
  map_insert_new p v [] h = refl
  map_insert_new p v ((q, w) ∷ acc) h = ground (arith, map_insert_new p v acc)

  Apart-insert :
      (p : Pair) (v : V) (acc m : List (Pair × V))
      → Apart acc m
      → All (λ e. pair_eq p e.0 ≡ false) m
      → Apart (map_insert p v acc) m
  Apart-insert p v acc [] h k = tt
  Apart-insert p v acc ((q, w) ∷ m) h k =
      (map_get-map_insert p q v acc ∙ rw (k.0) h.0, Apart-insert p v acc m h.1 k.1)

  map_extend-Apart :
      (m acc : List (Pair × V)) → Apart acc m → DistinctKeys m → map_extend m acc ≡ acc ++ m
  unfolding map_extend
  map_extend-Apart [] acc h d = sym (append-nil acc)
  map_extend-Apart ((p, v) ∷ m) acc h d =
      map_extend-Apart m (map_insert p v acc) (Apart-insert p v acc m h.1 d.0) d.1
      ∙ ap (λ xs. xs ++ m) (map_insert_new p v acc h.0)
      ∙ append_assoc acc ((p, v) ∷ []) m

  Apart-nil : (m : List (Pair × V)) → Apart [] m
  unfolding map_get
  Apart-nil [] = tt
  Apart-nil (e ∷ m) = (refl, Apart-nil m)

  -- A map whose entries are inserted one by one into an empty one is that map.
  pub map_extend_fresh : (m : List (Pair × V)) → DistinctKeys m → map_extend m [] ≡ m
  map_extend_fresh m d = map_extend-Apart m [] (Apart-nil m) d
