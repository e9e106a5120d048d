-- ===== src/Memory.antt =====
-- Blocks of memory as lists of cells: what the C library's memcpy and memset do to a block, and
-- which segments of the block they leave alone. An access outside the block is `none`.
use dartino_sdk.Base.{
  ◌<◌, ◌⊎◌, get_elem?, set, ◌==◌, ℕ, zero, suc, ◌+◌, ◌≤◌, ◌≡◌, refl, ap, sym, ◌∙◌, Option, none,
  some, List, [], ◌∷◌, ◌++◌, arith, length, take, drop, replicate, leb, if◌then◌else◌,
}

infixl 5 ◌>>=◌
abbrev pub ◌>>=◌ {ℓ κ} : {A : Type ℓ} {B : Type κ} → Option A → (A → Option B) → Option B
none >>= f = none
some a >>= f = f a

module _ {ℓ} {A : Type ℓ} where
  -- The `n` cells from cell `i`.
  unfoldable pub seg : List A → ℕ → ℕ → List A
  seg xs i n = take n (drop i xs)

  -- The block after the cells of `src` are written from cell `off`.
  unfoldable pub blit : List A → ℕ → List A → List A
  blit [] off src = []
  blit (x ∷ xs) (suc off) src = x ∷ blit xs off src
  blit (x ∷ xs) zero [] = x ∷ xs
  blit (x ∷ xs) zero (s ∷ src) = s ∷ blit xs zero src

  -- memcpy into a block, and out of it.
  unfoldable pub memcpy : List A → ℕ → List A → Option (List A)
  memcpy xs off src = if leb (off + length src) (length xs) then some (blit xs off src) else none

  unfoldable pub load : List A → ℕ → ℕ → Option (List A)
  load xs off n = if leb (off + n) (length xs) then some (seg xs off n) else none

  unfoldable pub memset : List A → ℕ → A → ℕ → Option (List A)
  unfolding memcpy
  memset xs off a n = memcpy xs off (replicate n a)

  pub length-blit : (xs : List A) (off : ℕ) (src : List A) → length (blit xs off src) ≡ length xs
  unfolding blit
  length-blit [] off src = refl
  length-blit (x ∷ xs) (suc off) src = ap suc (length-blit xs off src)
  length-blit (x ∷ xs) zero [] = refl
  length-blit (x ∷ xs) zero (s ∷ src) = ap suc (length-blit xs zero src)

  pub length-seg : (xs : List A) (i n : ℕ) → i + n ≤ length xs → length (seg xs i n) ≡ n
  unfolding seg
  length-seg xs i zero h = refl
  length-seg [] zero (suc n) h = absurd (omega arith)
  length-seg [] (suc i) (suc n) h = absurd (omega arith)
  length-seg (x ∷ xs) zero (suc n) h = ap suc (length-seg xs zero n (omega arith))
  length-seg (x ∷ xs) (suc i) (suc n) h = length-seg xs i (suc n) (omega arith)

  pub take-append_le : (n : ℕ) (xs ys : List A) → n ≤ length xs → take n (xs ++ ys) ≡ take n xs
  take-append_le zero xs ys h = refl
  take-append_le (suc n) [] ys h = absurd (omega arith)
  take-append_le (suc n) (x ∷ xs) ys h = ap (◌∷◌ x) (take-append_le n xs ys (omega arith))

  pub seg-append : (xs ys : List A) (n : ℕ) → n ≤ length xs → seg (xs ++ ys) 0 n ≡ seg xs 0 n
  unfolding seg
  seg-append xs ys n h = take-append_le n xs ys h

  pub seg_zero : (xs : List A) (i : ℕ) → seg xs i 0 ≡ []
  unfolding seg
  seg_zero xs i = refl

  pub seg_whole : (xs : List A) (n : ℕ) → length xs ≤ n → seg xs 0 n ≡ xs
  unfolding seg
  seg_whole [] zero h = refl
  seg_whole [] (suc n) h = refl
  seg_whole (x ∷ xs) zero h = absurd (omega arith)
  seg_whole (x ∷ xs) (suc n) h = ap (◌∷◌ x) (seg_whole xs n (omega arith))

  drop-nil : (n : ℕ) → drop {A = A} n [] ≡ []
  drop-nil zero = refl
  drop-nil (suc n) = refl

  take-nil : (n : ℕ) → take {A = A} n [] ≡ []
  take-nil zero = refl
  take-nil (suc n) = refl

  drop-drop : (xs : List A) (i n : ℕ) → drop (i + n) xs ≡ drop n (drop i xs)
  drop-drop xs zero n = ap (λ k. drop k xs) (omega arith)
  drop-drop [] (suc i) n = drop-nil (suc i + n) ∙ sym (drop-nil n)
  drop-drop (x ∷ xs) (suc i) n =
      ap (λ k. drop k (x ∷ xs)) {y = suc (i + n)} (omega arith) ∙ drop-drop xs i n

  pub take-take : (xs : List A) (n m : ℕ) → take (n + m) xs ≡ take n xs ++ take m (drop n xs)
  take-take xs zero m = ap (λ k. take k xs) (omega arith)
  take-take [] (suc n) m = take-nil (suc n + m) ∙ sym (take-nil m)
  take-take (x ∷ xs) (suc n) m =
      ap (λ k. take k (x ∷ xs)) {y = suc (n + m)} (omega arith) ∙ ap (◌∷◌ x) (take-take xs n m)

  pub seg_split : (xs : List A) (i n m : ℕ) → seg xs i (n + m) ≡ seg xs i n ++ seg xs (i + n) m
  unfolding seg
  seg_split xs i n m =
      take-take (drop i xs) n m
      ∙ ap (λ ys. take n (drop i xs) ++ take m ys) (sym (drop-drop xs i n))

  -- A write is read back, and the other segments stay.
  pub seg-blit_self :
      (xs : List A) (off : ℕ) (src : List A)
      → off + length src ≤ length xs
      → seg (blit xs off src) off (length src) ≡ src
  unfolding seg blit
  seg-blit_self xs off [] h = refl
  seg-blit_self [] off (s ∷ src) h = absurd (omega arith)
  seg-blit_self (x ∷ xs) zero (s ∷ src) h = ap (◌∷◌ s) (seg-blit_self xs zero src (omega arith))
  seg-blit_self (x ∷ xs) (suc off) (s ∷ src) h = seg-blit_self xs off (s ∷ src) (omega arith)

  pub seg-blit_before :
      (xs : List A) (i n off : ℕ) (src : List A)
      → i + n ≤ off
      → seg (blit xs off src) i n ≡ seg xs i n
  unfolding seg blit
  seg-blit_before [] i n off src h = refl
  seg-blit_before (x ∷ xs) i zero zero src h = refl
  seg-blit_before (x ∷ xs) i (suc n) zero src h = absurd (omega arith)
  seg-blit_before (x ∷ xs) zero zero (suc off) src h = refl
  seg-blit_before (x ∷ xs) zero (suc n) (suc off) src h =
      ap (◌∷◌ x) (seg-blit_before xs zero n off src (omega arith))
  seg-blit_before (x ∷ xs) (suc i) n (suc off) src h = seg-blit_before xs i n off src (omega arith)

  pub drop-blit_after :
      (xs : List A) (i off : ℕ) (src : List A)
      → off + length src ≤ i
      → drop i (blit xs off src) ≡ drop i xs
  unfolding blit
  drop-blit_after [] i off src h = refl
  drop-blit_after (x ∷ xs) zero zero [] h = refl
  drop-blit_after (x ∷ xs) zero zero (s ∷ src) h = absurd (omega arith)
  drop-blit_after (x ∷ xs) zero (suc off) src h = absurd (omega arith)
  drop-blit_after (x ∷ xs) (suc i) zero [] h = refl
  drop-blit_after (x ∷ xs) (suc i) zero (s ∷ src) h = drop-blit_after xs i zero src (omega arith)
  drop-blit_after (x ∷ xs) (suc i) (suc off) src h = drop-blit_after xs i off src (omega arith)

  pub seg-blit_after :
      (xs : List A) (i n off : ℕ) (src : List A)
      → off + length src ≤ i
      → seg (blit xs off src) i n ≡ seg xs i n
  unfolding seg
  seg-blit_after xs i n off src h = ap (take n) (drop-blit_after xs i off src h)

module _ {ℓ} {A : Type ℓ} where
  pub get_elem?-blit_out :
      (xs : List A) (off : ℕ) (src : List A) (k : ℕ)
      → (k < off) ⊎ (off + length src ≤ k)
      → get_elem? (blit xs off src) k ≡ get_elem? xs k
  unfolding blit
  get_elem?-blit_out [] off src k h = refl
  get_elem?-blit_out (x ∷ xs) (suc off) src zero h = refl
  get_elem?-blit_out (x ∷ xs) (suc off) src (suc k) h =
      get_elem?-blit_out xs off src k (omega arith)
  get_elem?-blit_out (x ∷ xs) zero [] k h = refl
  get_elem?-blit_out (x ∷ xs) zero (s ∷ src) zero h = absurd (omega arith)
  get_elem?-blit_out (x ∷ xs) zero (s ∷ src) (suc k) h =
      get_elem?-blit_out xs zero src k (omega arith)

  pub get_elem?-blit_in :
      (xs : List A) (off n : ℕ) (a : A) (k : ℕ)
      → off ≤ k
      → k < off + n
      → k < length xs
      → get_elem? (blit xs off (replicate n a)) k ≡ some a
  unfolding blit
  get_elem?-blit_in [] off n a k p q h = absurd (omega arith)
  get_elem?-blit_in (x ∷ xs) (suc off) n a zero p q h = absurd (omega arith)
  get_elem?-blit_in (x ∷ xs) (suc off) n a (suc k) p q h =
      get_elem?-blit_in xs off n a k (omega arith) (omega arith) (omega arith)
  get_elem?-blit_in (x ∷ xs) zero zero a k p q h = absurd (omega arith)
  get_elem?-blit_in (x ∷ xs) zero (suc n) a zero p q h = refl
  get_elem?-blit_in (x ∷ xs) zero (suc n) a (suc k) p q h =
      get_elem?-blit_in xs zero n a k (omega arith) (omega arith) (omega arith)

  -- Two blocks with the same cells are one.
  pub cells_eq : (xs ys : List A) → ((k : ℕ) → get_elem? xs k ≡ get_elem? ys k) → xs ≡ ys
  cells_eq [] [] h = refl
  cells_eq [] (y ∷ ys) h = cc (h 0)
  cells_eq (x ∷ xs) [] h = cc (h 0)
  cells_eq (x ∷ xs) (y ∷ ys) h = cc (h 0, cells_eq xs ys (λ k. h (suc k)))

  pub get_elem?-set :
      (xs : List A) (i k : ℕ) (v : A)
      → i < length xs
      → get_elem? (set xs i v) k ≡ (if i == k then some v else get_elem? xs k)
  get_elem?-set [] i k v h = absurd (omega arith)
  get_elem?-set (x ∷ xs) zero zero v h = refl
  get_elem?-set (x ∷ xs) zero (suc k) v h = ground arith
  get_elem?-set (x ∷ xs) (suc i) zero v h = ground arith
  get_elem?-set (x ∷ xs) (suc i) (suc k) v h = ground (arith, get_elem?-set xs i k v)
