-- ===== src/Pages/Search.antt =====
-- The two loops of Arena::AllocatePages: runs of free pages in a map.
use dartino_sdk.Base.{
  ℕ, zero, suc, ◌+◌, ◌-◌, ◌≤◌, ◌<◌, ◌≡◌, refl, ap, ◌∙◌, ◌≢◌, ◌⊎◌, inl, inr, Option, none, some,
  List, [], ◌∷◌, arith, length, get_elem?, ltb, ltb→lt, ◌==◌, Bool-cases, ==_iff,
}
use dartino_sdk.Pages.{busy_at, find_run}

-- The `n` pages from page `i` on are in the map, and free.
abbrev pub FreeRun : List ℕ → ℕ → ℕ → Type 0
FreeRun m i n = (k : ℕ) → k < n → get_elem? m (i + k) ≡ some 0

-- No run of `n` free pages starts in `[lo, hi)`.
abbrev pub NoRun : List ℕ → ℕ → ℕ → ℕ → Type 0
NoRun m n lo hi = (k : ℕ) → lo ≤ k → k < hi → ¬ FreeRun m k n

-- A cell in range has a value.
pub cell_in : (m : List ℕ) (i : ℕ) → i < length m → (c : ℕ) × (get_elem? m i ≡ some c)
cell_in [] i h = absurd (omega arith)
cell_in (x ∷ m) zero h = (x, refl)
cell_in (x ∷ m) (suc i) h = cell_in m i (omega arith)

-- What the inner loop finds.
abbrev Inner : List ℕ → ℕ → ℕ → ℕ → Type 0
Inner m i j n =
    ((busy_at m i j n ≡ some none) × ((k : ℕ) → j ≤ k → k < j + n → get_elem? m (i + k) ≡ some 0))
    ⊎ ((b : ℕ) × (busy_at m i j n ≡ some (some b))
        × (j ≤ b)
        × (b < j + n)
        × (get_elem? m (i + b) ≢ some 0))

busy_at_lem : (m : List ℕ) (i j n : ℕ) → i + j + n ≤ length m → Inner m i j n
unfolding busy_at
busy_at_lem m i j zero h = inl (refl, λ k p q. absurd (omega arith))
busy_at_lem m i j (suc n) h =
    let (c, e) = cell_in m (i + j) (omega arith) in
    elim (Bool-cases (c == 0)) [
      | inl free ↦
          let at : get_elem? m (i + j) ≡ some 0 = e ∙ ap some ((==_iff c 0).0 free) in
          elim (busy_at_lem m i (suc j) n (omega arith)) [
            | inl (r, all) ↦ inl (
              ground (arith, e, r),
              λ k p q. elim (Bool-cases (k == j)) [
                | inl here ↦ rw ((==_iff k j).0 here) at
                | inr past ↦ all k (ground arith) (omega arith)
              ],
            )
            | inr (b, r, p, q, ne) ↦ inr (b, ground (arith, e, r), omega arith, omega arith, ne)
          ]
      | inr taken ↦ inr (j, ground (arith, e), omega arith, omega arith, λ z. ground (arith, e, z))
    ]

-- The search finds the first run, or there is none; it never reads outside the map.
abbrev pub Outer : List ℕ → ℕ → ℕ → ℕ → Option (Option ℕ) → Type 0
Outer m limit n i r =
    ((k : ℕ) × (r ≡ some (some k)) × (i ≤ k) × (k < limit) × FreeRun m k n × NoRun m n i k)
    ⊎ ((r ≡ some none) × NoRun m n i limit)

-- A taken page is in no run of free pages.
blocked : (m : List ℕ) (n i b : ℕ) → b < n → get_elem? m (i + b) ≢ some 0 → NoRun m n i (i + b + 1)
blocked m n i b lt ne k p q run =
    ne (ap (get_elem? m) {y = k + (i + b - k)} (omega arith) ∙ run (i + b - k) (omega arith))

NoRun-join : (m : List ℕ) (n i j k : ℕ) → NoRun m n i j → NoRun m n j k → NoRun m n i k
NoRun-join m n i j k f g x p q = elim (Bool-cases (ltb x j)) [
  | inl lt ↦ f x p (ltb→lt x j lt)
  | inr ge ↦ g x (ground arith) q
]

pub find_run_lem :
    (fuel : ℕ) (m : List ℕ) (limit n i : ℕ)
    → limit + n ≤ length m + 1
    → limit - i < fuel
    → Outer m limit n i (find_run fuel m limit n i)
unfolding find_run
find_run_lem zero m limit n i h f = absurd (omega arith)
find_run_lem (suc fuel) m limit n i h f = elim (Bool-cases (ltb i limit)) [
  | inr done ↦ inr (ground arith, λ k p q. absurd (ground arith))
  | inl more ↦ elim (busy_at_lem m i 0 n (ground arith)) [
    | inl (r, all) ↦ inl (
      i,
      ground (arith, r),
      omega arith,
      ltb→lt i limit more,
      (λ k q. all k (omega arith) (omega arith)),
      λ k p q. absurd (omega arith),
    )
    | inr (b, r, p, q, ne) ↦
        let skipped : NoRun m n i (i + b + 1) = blocked m n i b (omega arith) ne in
        elim (find_run_lem fuel m limit n (i + b + 1) h (omega (arith, ltb→lt i limit more))) [
          | inl (k, e, at, lt, run, before) ↦ inl (
            k,
            ground (arith, r, e),
            omega arith,
            lt,
            run,
            NoRun-join m n i (i + b + 1) k skipped before,
          )
          | inr (e, nowhere) ↦
              inr (ground (arith, r, e), NoRun-join m n i (i + b + 1) limit skipped nowhere)
        ]
  ]
]
