-- ===== src/Natives/Strings/Fill.antt =====
-- FillFrom, and the strings that two fillings make.
use dartino_sdk.Base.{
  take-drop, length-drop, leb→le, Bool-cases, inl, inr, ◌<◌, ℕ, zero, suc, ◌+◌, ◌≤◌, ◌≡◌, refl, sym,
  ap, ◌∙◌, true, some, List, [], ◌∷◌, ◌++◌, length, set, take, drop, arith, leb, append_assoc,
  append-nil, length-append, take-append, drop_all, length-set,
}
use dartino_sdk.Int.{ℤ, pos, negsuc}
use dartino_sdk.Natives.Strings.{fill_from, fill_from_one_byte, fill_units}

take-set :
    (xs : List ℕ) (u n : ℕ) → suc n ≤ length xs → take (suc n) (set xs n u) ≡ take n xs ++ u ∷ []
take-set [] u n h = absurd (omega arith)
take-set (x ∷ xs) u zero h = refl
take-set (x ∷ xs) u (suc n) h = ap (λ ys. x ∷ ys) (take-set xs u n (omega (arith, h)))

drop-set : (xs : List ℕ) (u n m : ℕ) → n < m → drop m (set xs n u) ≡ drop m xs
drop-set [] u n m h = refl
drop-set (x ∷ xs) u zero zero h = absurd (omega arith)
drop-set (x ∷ xs) u zero (suc m) h = refl
drop-set (x ∷ xs) u (suc n) zero h = absurd (omega arith)
drop-set (x ∷ xs) u (suc n) (suc m) h = drop-set xs u n m (omega (arith, h))

-- The loop does what memcpy does.
pub fill_units_lem :
    (us target : List ℕ) (n : ℕ)
    → n + length us ≤ length target
    → fill_units target us n ≡ take n target ++ (us ++ drop (n + length us) target)
unfolding fill_units
fill_units_lem [] target n h = sym (
    ap (λ m. take n target ++ drop m target) {x = n + 0} {y = n} (omega arith) ∙ take-drop n target)
fill_units_lem (u ∷ us) target n h =
    let next : n + 1 ≡ suc n = omega arith in
    let total : n + 1 + length us ≡ n + suc (length us) = omega arith in
    fill_units_lem us (set target n u) (n + 1) (omega (arith, h, length-set target n u))
    ∙ ap (λ k. take k (set target n u) ++ (us ++ drop (n + 1 + length us) (set target n u))) next
    ∙ ap (λ t. t ++ (us ++ drop (n + 1 + length us) (set target n u)))
        (take-set target u n (omega (arith, h)))
    ∙ append_assoc (take n target) (u ∷ []) (us ++ drop (n + 1 + length us) (set target n u))
    ∙ ap (λ d. take n target ++ (u ∷ (us ++ d)))
        (drop-set target u n (n + 1 + length us) (omega arith))
    ∙ ap (λ k. take n target ++ (u ∷ (us ++ drop k target))) total

pub fill_from_one_byte_lem :
    (target xs : List ℕ) (n : ℤ) → fill_from_one_byte target xs n ≡ fill_from target xs n
unfolding fill_from fill_from_one_byte
fill_from_one_byte_lem target xs (pos n) = elim (Bool-cases (leb (n + length xs) (length target))) [
  | inl e ↦ rw e (ap some (fill_units_lem xs target n (leb→le (n + length xs) (length target) e)))
  | inr e ↦ rw e refl
]
fill_from_one_byte_lem target xs (negsuc n) = refl

-- Two fillings cover a string of the length of both.
pub fill_both :
    (target xs ys : List ℕ)
    → length target ≡ length xs + length ys
    → (r : List ℕ) × (fill_from target xs (pos 0) ≡ some r)
      × (fill_from r ys (pos (length xs)) ≡ some (xs ++ ys))
unfolding fill_from
fill_both target xs ys h =
    let r = xs ++ drop (0 + length xs) target in
    let room : leb (0 + length xs) (length target) ≡ true = ground (arith, h) in
    let rest = length-append xs (drop (0 + length xs) target) in
    let size = length-drop (0 + length xs) target in
    let room2 : leb (length xs + length ys) (length r) ≡ true = ground (arith, h, rest, size) in
    let full : length r ≤ length xs + length ys = ground (arith, h, rest, size) in
    (
      r,
      rw room refl,
      rw room2 (
          ap some (
            ap (λ t. t ++ (ys ++ drop (length xs + length ys) r))
              (take-append xs (drop (0 + length xs) target))
            ∙ ap (λ d. xs ++ (ys ++ d)) (drop_all (length xs + length ys) r full)
            ∙ ap (λ d. xs ++ d) (append-nil ys))),
    )
