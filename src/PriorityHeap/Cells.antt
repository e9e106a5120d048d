-- ===== src/PriorityHeap/Cells.antt =====
-- The cells of the block of entries after a write, a swap, an append or a cut.
use dartino_sdk.Base.{
  ℕ, zero, suc, ◌≤◌, ◌<◌, ◌≡◌, refl, List, [], ◌∷◌, ◌++◌, arith, length, take, set, ◌==◌,
  if◌then◌else◌, length-set,
}
use dartino_sdk.PriorityHeap.{Entry, PriorityHeap, at, size, swap}

pub at-set :
    (xs : List Entry) (i j : ℕ) (v : Entry)
    → i < length xs
    → at (set xs i v) j ≡ (if i == j then v else at xs j)
unfolding at
at-set [] i j v h = absurd (omega arith)
at-set (x ∷ xs) zero zero v h = refl
at-set (x ∷ xs) zero (suc j) v h = ground arith
at-set (x ∷ xs) (suc i) zero v h = ground arith
at-set (x ∷ xs) (suc i) (suc j) v h = ground (arith, at-set xs i j v)

pub at-append :
    (xs : List Entry) (e : Entry) (j : ℕ)
    → j ≤ length xs
    → at (xs ++ e ∷ []) j ≡ (if j == length xs then e else at xs j)
unfolding at
at-append [] e zero h = refl
at-append [] e (suc j) h = absurd (omega arith)
at-append (x ∷ xs) e zero h = ground arith
at-append (x ∷ xs) e (suc j) h = ground (arith, at-append xs e j)

pub at-take : (n : ℕ) (xs : List Entry) (j : ℕ) → j < n → at (take n xs) j ≡ at xs j
unfolding at
at-take zero xs j h = absurd (omega arith)
at-take (suc n) [] j h = refl
at-take (suc n) (x ∷ xs) zero h = refl
at-take (suc n) (x ∷ xs) (suc j) h = at-take n xs j (omega arith)

module _ (h : PriorityHeap) (a b : ℕ) where
  pub size-swap : size (swap h a b) ≡ size h
  unfolding swap
  size-swap = omega (
    arith,
    length-set (set h.items a (at h.items b)) b (at h.items a),
    length-set h.items a (at h.items b),
  )

  pub at-swap :
      a < size h
      → b < size h
      → (c : ℕ)
      → at (swap h a b).items c
        ≡ (if b == c then at h.items a else if a == c then at h.items b else at h.items c)
  unfolding swap
  at-swap p q c = ground (
    arith,
    at-set (set h.items a (at h.items b)) b c (at h.items a),
    at-set h.items a c (at h.items b),
    length-set h.items a (at h.items b),
  )
