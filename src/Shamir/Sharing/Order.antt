-- ===== src/Shamir/Sharing/Order.antt =====
-- Sorting finds no equal neighbours among different bytes.
use kyber_pipe.Base.{
  ℕ, suc, ◌<◌, ◌≤◌, ◌≡◌, ◌≢◌, refl, true, false, List, [], ◌∷◌, All, arith, inl, inr, leb, ◌==◌,
  Bytes, Bool-cases,
}
use kyber_pipe.Shamir.Sharing.{insert_byte, sort_bytes, equal_neighbours}

-- No number twice.
abbrev pub Different : List ℕ → Type 0
Different [] = Unit
Different (x ∷ xs) = All (λ y. x ≢ y) xs × Different xs

-- From `lo` on, each number above the one before.
abbrev Rising : ℕ → Bytes → Type 0
Rising lo [] = Unit
Rising lo (x ∷ xs) = (lo ≤ x) × Rising (suc x) xs

Rising-below : (lo lo' : ℕ) (xs : Bytes) → lo ≤ lo' → Rising lo' xs → Rising lo xs
Rising-below lo lo' [] h r = tt
Rising-below lo lo' (x ∷ xs) h r = (omega (arith, r.0), r.1)

lt_of_ne : (x y : ℕ) → leb x y ≡ true → x ≢ y → x < y
lt_of_ne x y h n = ground arith

lt_of_above : (x y : ℕ) → leb x y ≡ false → y < x
lt_of_above x y h = ground arith

insert-Rising :
    (lo x : ℕ) (xs : Bytes)
    → lo ≤ x
    → All (λ y. x ≢ y) xs
    → Rising lo xs
    → Rising lo (insert_byte x xs)
unfolding insert_byte
insert-Rising lo x [] h a r = (h, tt)
insert-Rising lo x (y ∷ ys) h a r = elim (Bool-cases (leb x y)) [
  | inl below ↦ rw (below, insert_byte) (h, (lt_of_ne x y below a.0, r.1))
  | inr above ↦
      rw (above, insert_byte) (r.0, insert-Rising (suc y) x ys (lt_of_above x y above) a.1 r.1)
]

All-insert_byte : (P : ℕ → Type 0) (x : ℕ) (xs : Bytes) → P x → All P xs → All P (insert_byte x xs)
unfolding insert_byte
All-insert_byte P x [] h a = (h, tt)
All-insert_byte P x (y ∷ ys) h a = elim (Bool-cases (leb x y)) [
  | inl below ↦ rw (below, insert_byte) (h, a)
  | inr above ↦ rw (above, insert_byte) (a.0, All-insert_byte P x ys h a.1)
]

All-sort_bytes : (P : ℕ → Type 0) (xs : Bytes) → All P xs → All P (sort_bytes xs)
unfolding sort_bytes
All-sort_bytes P [] a = tt
All-sort_bytes P (x ∷ xs) a = All-insert_byte P x (sort_bytes xs) a.0 (All-sort_bytes P xs a.1)

sort_bytes-Rising : (xs : Bytes) → Different xs → Rising 0 (sort_bytes xs)
unfolding sort_bytes
sort_bytes-Rising [] d = tt
sort_bytes-Rising (x ∷ xs) d =
    insert-Rising 0 x (sort_bytes xs) (omega arith) (All-sort_bytes (λ y. x ≢ y) xs d.0)
      (sort_bytes-Rising xs d.1)

Rising-neighbours : (lo : ℕ) (xs : Bytes) → Rising lo xs → equal_neighbours xs ≡ false
unfolding equal_neighbours
Rising-neighbours lo [] r = refl
Rising-neighbours lo (x ∷ []) r = refl
Rising-neighbours lo (x ∷ y ∷ ys) r =
    let apart : (x == y) ≡ false = ground (arith, r.1.0) in
    rw (apart, equal_neighbours) (Rising-neighbours (suc x) (y ∷ ys) r.1)

pub sort_bytes_neighbours : (xs : Bytes) → Different xs → equal_neighbours (sort_bytes xs) ≡ false
sort_bytes_neighbours xs d = Rising-neighbours 0 (sort_bytes xs) (sort_bytes-Rising xs d)
