-- ===== src/Ratchet/Window.antt =====
-- core-crypto/src/crypto/ratchet/state.rs: `ReplayWindow::record_delivered`.
pub mod Eviction
use kyber_pipe.Base.{
  ℕ, zero, suc, ◌-◌, Bool, true, false, not, Option, none, some, List, [], ◌∷◌, length, take,
  retain, ltb, leb, ◌==◌, if◌then◌else◌,
}
use kyber_pipe.Ratchet.State.{ReplayWindow}
use kyber_pipe.Ratchet.Policy.{seen_set_max}
use kyber_pipe.Ratchet.Pairs.{Pair, pair_lt, set_insert, set_remove}

-- `iter().map(|(g, _)| *g).min()`.
least_gen : ℕ → List Pair → ℕ
least_gen g [] = g
least_gen g (p ∷ ps) = least_gen (if ltb p.0 g then p.0 else g) ps

unfoldable pub oldest_gen : List Pair → Option ℕ
unfolding least_gen
oldest_gen [] = none
oldest_gen (p ∷ ps) = some (least_gen p.0 ps)

-- `sort()`.
insert_sorted : Pair → List Pair → List Pair
insert_sorted p [] = p ∷ []
insert_sorted p (q ∷ qs) = if pair_lt q p then q ∷ insert_sorted p qs else p ∷ q ∷ qs

sort : List Pair → List Pair
unfolding insert_sorted
sort [] = []
sort (p ∷ ps) = insert_sorted p (sort ps)

remove_all : List Pair → List Pair → List Pair
remove_all [] seen = seen
remove_all (p ∷ ps) seen = remove_all ps (set_remove p seen)

-- The branch `removed == 0`.
evict_lowest : ℕ → List Pair → List Pair
unfolding sort remove_all
evict_lowest cap seen = remove_all (take (length seen - cap) (sort seen)) seen

-- One round of the loop on a set over the cap, whose oldest generation is `g`.
evict_round : ℕ → ℕ → List Pair → List Pair
unfolding evict_lowest
evict_round cap g seen =
    let kept = retain (λ p. not (p.0 == g)) seen in
    let removed = length seen - length kept in if removed == 0 then evict_lowest cap kept else kept

evict_step : ℕ → List Pair → Option ℕ → List Pair
unfolding evict_round
evict_step cap seen none = seen
evict_step cap seen (some g) = evict_round cap g seen

-- The loop, with fuel: each round drops an entry, so one unit for each entry is enough.
unfoldable pub evict : ℕ → ℕ → List Pair → List Pair
unfolding evict_step oldest_gen
evict cap zero seen = seen
evict cap (suc fuel) seen =
    let rest = evict cap fuel (evict_step cap seen (oldest_gen seen)) in
    if leb (length seen) cap then seen else rest

unfoldable pub record_delivered : ℕ → ℕ → ReplayWindow → ReplayWindow
record_delivered gen seq w =
    let seen = set_insert (gen, seq) w.seen in
    record w { seen = evict seen_set_max (length seen) seen }
