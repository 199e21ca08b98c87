-- ===== src/Crdt/Convergence.antt =====
-- Registers that have merged the same updates hold the same value.
use kyber_pipe.Base.{
  ℕ, ◌≡◌, ◌≢◌, inl, inr, refl, sym, ◌∙◌, Bool, true, false, not, ◌&&◌, ltb, ◌==◌, if◌then◌else◌,
  Bytes, arith, Bool-cases, bytes_gt_irrefl, bytes_gt_asymm, bytes_gt_total, bytes_gt_trans,
  u64_max,
}
use kyber_pipe.Crdt.{LwwRegister, max_clock_drift_ms, abs_diff, newer, key_of, merge}

newer_asymm : (p q : ℕ × Bytes) → newer p q ≡ true → newer q p ≡ false
newer_asymm (t, n) (t', n') h = ground (arith, bytes_gt_asymm n n')

newer_trans : (p q r : ℕ × Bytes) → newer p q ≡ true → newer q r ≡ true → newer p r ≡ true
newer_trans (t, n) (t', n') (t'', n'') h k = ground (arith, bytes_gt_trans n n' n'')

newer_irrefl : (k : ℕ × Bytes) → newer k k ≡ false
newer_irrefl (t, n) = ground (arith, bytes_gt_irrefl n)

newer_total : (p q : ℕ × Bytes) → newer p q ≡ false → newer q p ≡ false → p ≡ q
newer_total (t, n) (t', n') h k = ground (arith, bytes_gt_total n n')

-- What is not newer than a key is not newer than one above it.
newer_mono : (p q r : ℕ × Bytes) → newer p r ≡ true → newer q r ≡ false → newer q p ≡ false
newer_mono p q r h k = elim (Bool-cases (newer q p)) [
  | inl up ↦ up ∙ (sym (newer_trans q p r up h) ∙ k)
  | inr down ↦ down
]

module _ {ℓ} {T : Type ℓ} where
  abbrev pick : LwwRegister T → LwwRegister T → LwwRegister T
  pick x s = if newer (key_of x) (key_of s) then x else s

  abbrev admissible : ℕ → LwwRegister T → Bool
  admissible now x =
      not (x.timestamp == u64_max) && not (ltb max_clock_drift_ms (abs_diff x.timestamp now))

  merge-pick :
      (now : ℕ) (x s : LwwRegister T)
      → (merge now x s).1 ≡ (if admissible now x then pick x s else s)
  unfolding merge
  merge-pick now x s = ground arith

  pick_commutes :
      (x y s : LwwRegister T) → key_of x ≢ key_of y → pick y (pick x s) ≡ pick x (pick y s)
  pick_commutes x y s apart = elim (Bool-cases (newer (key_of x) (key_of s))) [
    | inl xs ↦ elim (Bool-cases (newer (key_of y) (key_of s))) [
      | inl ys ↦ elim (Bool-cases (newer (key_of x) (key_of y))) [
        | inl xy ↦ rw (xs, ys, xy, newer_asymm (key_of x) (key_of y) xy) refl
        | inr xy ↦ elim (Bool-cases (newer (key_of y) (key_of x))) [
          | inl yx ↦ rw (xs, ys, xy, yx) refl
          | inr yx ↦ absurd (apart (newer_total (key_of x) (key_of y) xy yx))
        ]
      ]
      | inr ys ↦ rw (xs, ys, newer_mono (key_of x) (key_of y) (key_of s) xs ys, xs) refl
    ]
    | inr xs ↦ elim (Bool-cases (newer (key_of y) (key_of s))) [
      | inl ys ↦ rw (xs, ys, newer_mono (key_of y) (key_of x) (key_of s) ys xs) refl
      | inr ys ↦ rw (xs, ys, xs) refl
    ]
  ]

  -- Two updates whose (timestamp, node) pairs differ, merged at one reading of the clock in either
  -- order, leave the same register, also where the drift check refuses one of them or both.
  pub merge_commutes :
      (now : ℕ) (x y s : LwwRegister T)
      → key_of x ≢ key_of y
      → (merge now y (merge now x s).1).1 ≡ (merge now x (merge now y s).1).1
  merge_commutes now x y s apart = rw (merge-pick now x s, merge-pick now y s) both
    where
      both :
          (merge now y (if admissible now x then pick x s else s)).1
          ≡ (merge now x (if admissible now y then pick y s else s)).1
      both = elim (Bool-cases (admissible now x)) [
        | inl ax ↦ elim (Bool-cases (admissible now y)) [
          | inl ay ↦
              rw (ax, ay, merge-pick now y (pick x s), merge-pick now x (pick y s), ax, ay)
                (pick_commutes x y s apart)
          | inr ay ↦ rw (ax, ay, merge-pick now y (pick x s), merge-pick now x s, ax, ay) refl
        ]
        | inr ax ↦ elim (Bool-cases (admissible now y)) [
          | inl ay ↦ rw (ax, ay, merge-pick now y s, merge-pick now x (pick y s), ax, ay) refl
          | inr ay ↦ rw (ax, ay, merge-pick now y s, merge-pick now x s, ax, ay) refl
        ]
      ]

  -- A second merge of the same update, whatever the clock then reads, reports no change and makes
  -- none.
  pub merge_idempotent :
      (now later : ℕ) (x s : LwwRegister T)
      → (merge now x s).0 ≡ true
      → merge later x (merge now x s).1 ≡ (false, (merge now x s).1)
  unfolding merge
  merge_idempotent now later x s h = ground (arith, newer_irrefl (key_of x))
