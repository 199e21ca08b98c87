-- ===== src/Ratchet/Window/Eviction.antt =====
-- The size of the replay window, and what an eviction leaves.
use kyber_pipe.Base.{
  ℕ, zero, suc, ◌-◌, ◌≤◌, ◌<◌, ◌≡◌, ◌⊎◌, inl, refl, ap, ◌∙◌, Bool, true, false, not, ◌&&◌, Option,
  none, some, List, [], ◌∷◌, ltb, ◌==◌, arith, if◌then◌else◌, length, retain, All, length-retain-le,
  take,
}
use kyber_pipe.Ratchet.State.{ReplayWindow}
use kyber_pipe.Ratchet.Policy.{seen_set_max}
use kyber_pipe.Ratchet.Pairs.{
  Pair, pair_eq, pair_eq_refl, length-set_insert, set_contains, set_insert, set_contains-set_insert,
  set_contains-retain, set_remove,
}
use kyber_pipe.Ratchet.Window.{
  least_gen, oldest_gen, evict, evict_step, sort, remove_all, record_delivered,
}

remove_all_absent :
    (q : Pair) (ps seen : List Pair)
    → set_contains q seen ≡ false
    → set_contains q (remove_all ps seen) ≡ false
unfolding remove_all set_remove
remove_all_absent q [] seen h = h
remove_all_absent q (p ∷ ps) seen h =
    remove_all_absent q ps _ (set_contains-retain q _ seen ∙ ap (λ b. b && not (pair_eq q p)) h)

if_absent :
    (b : Bool) (q : Pair) (xs ys : List Pair)
    → set_contains q xs ≡ false
    → set_contains q ys ≡ false
    → set_contains q (if b then xs else ys) ≡ false
if_absent true q xs ys hx hy = hx
if_absent false q xs ys hx hy = hy

evict_step_absent :
    (limit : ℕ) (g : Option ℕ) (q : Pair) (seen : List Pair)
    → set_contains q seen ≡ false
    → set_contains q (evict_step limit seen g) ≡ false
unfolding evict_step
evict_step_absent limit none q seen h = h
evict_step_absent limit (some g) q seen h =
    let kept : set_contains q (retain (λ p. not (p.0 == g)) seen) ≡ false =
      set_contains-retain q _ seen ∙ ap (λ b. b && not (q.0 == g)) h in
    let rest : List Pair = retain (λ p. not (p.0 == g)) seen in
    if_absent (length seen - length rest == 0) q
      (remove_all (take (length rest - limit) (sort rest)) rest) rest
      (remove_all_absent q (take (length rest - limit) (sort rest)) rest kept) kept

evict_absent :
    (limit fuel : ℕ) (q : Pair) (seen : List Pair)
    → set_contains q seen ≡ false
    → set_contains q (evict limit fuel seen) ≡ false
unfolding evict
evict_absent limit zero q seen h = h
evict_absent limit (suc fuel) q seen h =
    ground (arith, evict_absent limit fuel q _ (evict_step_absent limit (oldest_gen seen) q seen h))

-- A pair that was not in the window and is not the delivered one is not in it afterwards.
pub record_delivered_absent :
    (gen seq : ℕ) (q : Pair) (w : ReplayWindow)
    → set_contains q w.seen ≡ false
    → pair_eq (gen, seq) q ≡ false
    → set_contains q (record_delivered gen seq w).seen ≡ false
unfolding record_delivered
record_delivered_absent gen seq q w h n =
    evict_absent seen_set_max _ q _ (set_contains-set_insert (gen, seq) q w.seen ∙ rw (h, n))

abbrev without_gen : ℕ → List Pair → List Pair
without_gen g seen = retain (λ p. not (p.0 == g)) seen

-- The oldest generation is the one given, or one of the list.
least_gen_found :
    (g : ℕ) (ps : List Pair)
    → (least_gen g ps ≡ g) ⊎ (length (without_gen (least_gen g ps) ps) < length ps)
unfolding least_gen
least_gen_found g [] = inl refl
least_gen_found g (p ∷ ps) = ground (
  arith,
  least_gen_found (if ltb p.0 g then p.0 else g) ps,
  length-retain-le (λ (q : Pair). not (q.0 == least_gen (if ltb p.0 g then p.0 else g) ps)) ps,
)

-- So a round of the loop drops a whole generation, and the branch `removed == 0` is never taken.
evict_step_shrinks :
    (limit : ℕ) (p : Pair) (ps : List Pair)
    → length (evict_step limit (p ∷ ps) (oldest_gen (p ∷ ps))) ≤ length ps
unfolding evict_step oldest_gen
evict_step_shrinks limit p ps = ground (
  arith,
  least_gen_found p.0 ps,
  length-retain-le (λ (q : Pair). not (q.0 == least_gen p.0 ps)) ps,
)

evict_bound :
    (limit fuel : ℕ) (seen : List Pair)
    → length seen ≤ fuel
    → length (evict limit fuel seen) ≤ limit
unfolding evict
evict_bound limit zero [] h = omega arith
evict_bound limit zero (p ∷ ps) h = absurd (omega arith)
evict_bound limit (suc fuel) [] h = ground arith
evict_bound limit (suc fuel) (p ∷ ps) h = ground (
  arith,
  evict_step_shrinks limit p ps,
  evict_bound limit fuel (evict_step limit (p ∷ ps) (oldest_gen (p ∷ ps))),
)

-- However many frames are delivered, the window never holds more than `seen_set_max` pairs.
pub record_delivered_bound :
    (gen seq : ℕ) (w : ReplayWindow) → length (record_delivered gen seq w).seen ≤ seen_set_max
unfolding record_delivered
record_delivered_bound gen seq w =
    evict_bound seen_set_max (length (set_insert (gen, seq) w.seen)) (set_insert (gen, seq) w.seen)
      (omega arith)

abbrev pub OfGen : ℕ → List Pair → Type 0
OfGen g ps = All (λ p. p.0 ≡ g) ps

without_gen_same : (g : ℕ) (ps : List Pair) → OfGen g ps → without_gen g ps ≡ []
without_gen_same g [] h = refl
without_gen_same g (p ∷ ps) (e, h) = ground (arith, without_gen_same g ps h)

least_gen_same : (g : ℕ) (ps : List Pair) → OfGen g ps → least_gen g ps ≡ g
unfolding least_gen
least_gen_same g [] h = refl
least_gen_same g (p ∷ ps) (e, h) = ground (arith, least_gen_same g ps h)

evict_nil : (limit fuel : ℕ) → evict limit fuel [] ≡ []
unfolding evict
evict_nil limit zero = refl
evict_nil limit (suc fuel) = ground arith

evict_clears :
    (limit fuel g s : ℕ) (ps : List Pair)
    → OfGen g ps
    → limit < suc (length ps)
    → evict limit (suc fuel) ((g, s) ∷ ps) ≡ []
unfolding evict evict_step oldest_gen
evict_clears limit fuel g s ps h over =
    ground (arith, least_gen_same g ps h, without_gen_same g ps h, evict_nil limit fuel)

-- Where a full window holds one generation alone, the next new delivery of that generation empties
-- it: not even the pair just delivered is kept.
pub record_delivered_clears :
    (gen seq : ℕ) (w : ReplayWindow)
    → OfGen gen w.seen
    → length w.seen ≡ seen_set_max
    → set_contains (gen, seq) w.seen ≡ false
    → (record_delivered gen seq w).seen ≡ []
unfolding record_delivered set_insert
record_delivered_clears gen seq w h full new =
    rw new (evict_clears seen_set_max (length w.seen) gen seq w.seen h (omega arith))

evict_small :
    (limit fuel : ℕ) (seen : List Pair) → length seen ≤ limit → evict limit fuel seen ≡ seen
unfolding evict
evict_small limit zero seen h = refl
evict_small limit (suc fuel) seen h = ground arith

-- A window with room remembers what is delivered.
pub record_delivered_present :
    (gen seq : ℕ) (w : ReplayWindow)
    → length w.seen < seen_set_max
    → set_contains (gen, seq) (record_delivered gen seq w).seen ≡ true
unfolding record_delivered
record_delivered_present gen seq w h = rw (
  evict_small seen_set_max (length (set_insert (gen, seq) w.seen)) (set_insert (gen, seq) w.seen)
      (omega (arith, length-set_insert (gen, seq) w.seen)),
  set_contains-set_insert (gen, seq) (gen, seq) w.seen,
  pair_eq_refl (gen, seq),
)
