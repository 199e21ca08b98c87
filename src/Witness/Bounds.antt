-- ===== src/Witness/Bounds.antt =====
-- The bounds of the session state, over the toy functions.
use kyber_pipe.Base.{
  ℕ, zero, suc, ◌≤◌, ◌≡◌, refl, ap, true, false, none, List, [], ◌∷◌, All, arith, length,
}
use kyber_pipe.Toy.{toy}
use kyber_pipe.Ratchet.State.{ReplayWindow, SkipKeyMap}
use kyber_pipe.Ratchet.Policy.{seen_set_max}
use kyber_pipe.Ratchet.Pairs.{Pair, set_contains}
use kyber_pipe.Ratchet.Window.{record_delivered}
use kyber_pipe.Ratchet.Window.Eviction.{record_delivered_bound, record_delivered_clears, OfGen}
use kyber_pipe.Ratchet.SkipKeys.{is_live_gen, prune_skip_keys}
use kyber_pipe.Ratchet.SkipKeys.Cache.{prune_skip_keys_bounds}
use kyber_pipe.Ratchet.Session.{new_with_keypair}
use kyber_pipe.Ratchet.Resync.{resync_receiving_chain}
use kyber_pipe.Ratchet.Resync.Bounds.{MovesOrStays, resync-MovesOrStays}
use kyber_pipe.Ratchet.Invariant.{IsWellFormed}
use kyber_pipe.Ratchet.Invariant.Reach.{Reach-IsWellFormed, opened, encrypts, resyncs}
use kyber_pipe.Witness.Sessions.{entropy, noon, secret, pair_of, text, alice1, bob}

Reach-IsWellFormed_example : IsWellFormed (resync_receiving_chain toy noon 5 alice1).1
Reach-IsWellFormed_example =
    Reach-IsWellFormed toy (resync_receiving_chain toy noon 5 alice1).1
      (resyncs noon 5 (encrypts (entropy 3) noon text (opened secret true (pair_of 1) none none)))

resync-MovesOrStays_example : MovesOrStays toy 150 bob (resync_receiving_chain toy noon 150 bob)
unfolding new_with_keypair
resync-MovesOrStays_example = resync-MovesOrStays toy noon 150 [] bob refl

abbrev two_keys : SkipKeyMap
two_keys = ((4, 1), 1 ∷ []) ∷ ((2, 1), 2 ∷ []) ∷ []

prune_skip_keys_bounds_example :
    (length (prune_skip_keys 4 1 two_keys) ≤ 1)
    × All (λ e. is_live_gen 4 e.0.0 ≡ true) (prune_skip_keys 4 1 two_keys)
prune_skip_keys_bounds_example = prune_skip_keys_bounds 4 1 two_keys

abbrev empty_window : ReplayWindow
empty_window = record { seen = []; prev_gen_highest_delivered = none }

record_delivered_bound_example : length (record_delivered 0 3 empty_window).seen ≤ seen_set_max
record_delivered_bound_example = record_delivered_bound 0 3 empty_window

-- The positions below `n` of generation 0.
upto : ℕ → List Pair
upto zero = []
upto (suc n) = (0, n) ∷ upto n

upto_gen : (n : ℕ) → OfGen 0 (upto n)
unfolding upto
upto_gen zero = tt
upto_gen (suc n) = (refl, upto_gen n)

length-upto : (n : ℕ) → length (upto n) ≡ n
unfolding upto
length-upto zero = refl
length-upto (suc n) = ap suc (length-upto n)

upto_absent : (n k : ℕ) → n ≤ k → set_contains (0, k) (upto n) ≡ false
unfolding upto set_contains
upto_absent zero k h = refl
upto_absent (suc n) k h = ground (arith, upto_absent n k)

abbrev full_window : ReplayWindow
full_window = record { seen = upto 4096; prev_gen_highest_delivered = none }

record_delivered_clears_example : (record_delivered 0 4096 full_window).seen ≡ []
record_delivered_clears_example =
    record_delivered_clears 0 4096 full_window (upto_gen 4096) (length-upto 4096)
      (upto_absent 4096 4096 (omega arith))
