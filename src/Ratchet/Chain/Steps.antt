-- ===== src/Ratchet/Chain/Steps.antt =====
-- Chain positions, and the keys that a walk over a range caches.
use kyber_pipe.Base.{ℕ, zero, suc, ◌+◌, ◌≤◌, ◌<◌, ◌≡◌, refl, ap, ◌∙◌, some, arith, Bytes}
use kyber_pipe.Primitives.{Crypto}
use kyber_pipe.Ratchet.State.{SkipKeyMap}
use kyber_pipe.Ratchet.Pairs.{map_get, map_insert, map_get-map_insert}
use kyber_pipe.Ratchet.Chain.{msg_key_of, next_chain_of, step_chain, skip_loop}

module _ (c : Crypto) where
  pub next-step_chain :
      (n : ℕ) (ck : Bytes) → next_chain_of c (step_chain c n ck) ≡ step_chain c (suc n) ck
  unfolding step_chain
  next-step_chain zero ck = refl
  next-step_chain (suc n) ck = next-step_chain n (next_chain_of c ck)

  step_chain-add :
      (m n : ℕ) (ck : Bytes) → step_chain c n (step_chain c m ck) ≡ step_chain c (m + n) ck
  unfolding step_chain
  step_chain-add zero n ck = let e : n ≡ zero + n = omega arith in ap (λ k. step_chain c k ck) e
  step_chain-add (suc m) n ck =
      let e : suc (m + n) ≡ suc m + n = omega arith in
      step_chain-add m n (next_chain_of c ck) ∙ ap (λ k. step_chain c k ck) e

  pub skip_loop-chain :
      (gen n base : ℕ) (ck : Bytes) (keys : SkipKeyMap)
      → (skip_loop c gen n base ck keys).0 ≡ step_chain c n ck
  unfolding skip_loop step_chain
  skip_loop-chain gen zero base ck keys = refl
  skip_loop-chain gen (suc n) base ck keys = skip_loop-chain gen n (suc base) _ _

  -- The walk caches nothing outside its range.
  pub skip_loop_outside :
      (gen n base g j : ℕ) (ck : Bytes) (keys : SkipKeyMap)
      → base + n ≤ j
      → map_get (g, j) (skip_loop c gen n base ck keys).1 ≡ map_get (g, j) keys
  unfolding skip_loop
  skip_loop_outside gen zero base g j ck keys h = refl
  skip_loop_outside gen (suc n) base g j ck keys h =
      skip_loop_outside gen n (suc base) g j _ _ (omega arith)
      ∙ (map_get-map_insert (gen, base) (g, j) (msg_key_of c ck) keys ∙ ground arith)

  skip_loop_below :
      (gen n base g j : ℕ) (ck : Bytes) (keys : SkipKeyMap)
      → j < base
      → map_get (g, j) (skip_loop c gen n base ck keys).1 ≡ map_get (g, j) keys
  unfolding skip_loop
  skip_loop_below gen zero base g j ck keys h = refl
  skip_loop_below gen (suc n) base g j ck keys h =
      skip_loop_below gen n (suc base) g j _ _ (omega arith)
      ∙ (map_get-map_insert (gen, base) (g, j) (msg_key_of c ck) keys ∙ ground arith)

  -- And caches for each position of the range the message key of that position.
  pub skip_loop_inside :
      (gen n base i : ℕ) (ck : Bytes) (keys : SkipKeyMap)
      → i < n
      → map_get (gen, base + i) (skip_loop c gen n base ck keys).1
        ≡ some (msg_key_of c (step_chain c i ck))
  unfolding skip_loop step_chain
  skip_loop_inside gen zero base i ck keys h = elim h [ ]
  skip_loop_inside gen (suc n) base zero ck keys h =
      skip_loop_below gen n (suc base) gen (base + 0) _ _ (omega arith)
      ∙ (map_get-map_insert (gen, base) (gen, base + 0) (msg_key_of c ck) keys ∙ ground arith)
  skip_loop_inside gen (suc n) base (suc i) ck keys h =
      let e : base + suc i ≡ suc base + i = omega arith in
      ap
        (λ j.
          map_get (gen, j)
            (skip_loop c gen n (suc base) (next_chain_of c ck)
              (map_insert (gen, base) (msg_key_of c ck) keys)).1)
        e
      ∙ skip_loop_inside gen n (suc base) i (next_chain_of c ck) _ (omega arith)
