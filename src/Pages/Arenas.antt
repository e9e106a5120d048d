-- ===== src/Pages/Arenas.antt =====
-- Allocating and freeing in one arena.
use native.Mathlib.Decide.{ℕ_discrete, dec_le, dec_lt}
use dartino_sdk.Base.{
  ℕ, zero, suc, ◌+◌, ◌-◌, ◌*◌, ◌/◌, ◌%◌, ◌≤◌, ◌<◌, ◌≡◌, refl, sym, ap, ◌∙◌, ◌≢◌, ◌⊎◌, inl, inr,
  true, Option, none, some, List, arith, length, get_elem?, set, replicate, length-replicate,
  length-set, ltb, le→leb, ◌==◌, Bool-cases, ◌||◌,
}
use dartino_sdk.Memory.{
  memset, blit, length-blit, memcpy, get_elem?-blit_in, get_elem?-blit_out, get_elem?-set, cells_eq,
}
use dartino_sdk.Pages.{Arena, arena_allocate, arena_free, free_cells, page_size, word_mod}
use dartino_sdk.Pages.Search.{FreeRun, NoRun, find_run_lem}

-- Every page has a cell in the map, and an address that does not wrap.
abbrev pub IsMapped : Arena → Type 0
IsMapped a = (a.pages ≤ length a.map) × (a.base + a.pages * page_size ≤ word_mod)

-- Page `i` is taken.
abbrev pub IsTaken : List ℕ → ℕ → Type 0
IsTaken m i = (c : ℕ) × (get_elem? m i ≡ some c) × (c ≢ 0)

-- The arena `a'` is `a` with `n` pages taken from page `i` on.
pub record Takes (a : Arena) (i n : ℕ) (a' : Arena) : Type 0 where
  pub pages : a'.pages ≡ a.pages
  pub base : a'.base ≡ a.base
  pub map_at : a'.map_at ≡ a.map_at
  pub sized : length a'.map ≡ length a.map
  pub taken : (k : ℕ) → i ≤ k → k < i + n → get_elem? a'.map k ≡ some 1
  pub others : (k : ℕ) → (k < i) ⊎ (i + n ≤ k) → get_elem? a'.map k ≡ get_elem? a.map k

abbrev pub Allocates : Arena → ℕ → Option (Option ℕ × Arena) → Type 0
Allocates a n r =
    ((i : ℕ) × (a' : Arena) × (r ≡ some (some (a.base + i * page_size), a'))
      × (0 < n)
      × (i + n ≤ a.pages)
      × FreeRun a.map i n
      × NoRun a.map n 0 i
      × Takes a i n a')
    ⊎ ((r ≡ some (none, a)) × ((n ≡ 0) ⊎ ((i : ℕ) → i + n ≤ a.pages → ¬ FreeRun a.map i n)))

mark : Arena → ℕ → ℕ → Arena
mark a i n = record a { map = blit a.map i (replicate n 1) }

mark-Takes : (a : Arena) (i n : ℕ) → i + n ≤ length a.map → Takes a i n (mark a i n)
unfolding mark
mark-Takes a i n h = record {
  pages = refl;
  base = refl;
  map_at = refl;
  sized = length-blit a.map i (replicate n 1);
  taken = λ k p q. get_elem?-blit_in a.map i n 1 k p q (omega arith);
  others = λ k out.
      get_elem?-blit_out a.map i (replicate n 1) k (omega (arith, length-replicate {A = ℕ} n 1));
}

refused_cases :
    (a : Arena) (n : ℕ)
    → (n == 0 || ltb a.pages n) ≡ true
    → (n ≡ 0) ⊎ ((i : ℕ) → i + n ≤ a.pages → ¬ FreeRun a.map i n)
refused_cases a n h = elim (ℕ_discrete n 0) [
  | yes e ↦ inl e
  | no ne ↦ inr (λ i q. absurd (ground arith))
]

-- An allocation in an arena with a cell and an address below 2^32 for each page returns the
-- first run of free pages and takes just those, or it returns NULL and changes nothing, and
-- then no page was asked for or there is no such run. It never reads or writes outside the map.
pub arena_allocate_lem : (a : Arena) (n : ℕ) → IsMapped a → Allocates a n (arena_allocate a n)
unfolding arena_allocate mark memset memcpy
arena_allocate_lem a n v = elim (Bool-cases (n == 0 || ltb a.pages n)) [
  | inl refused ↦ inr (rw refused refl, refused_cases a n refused)
  | inr fits ↦
      let pos : 0 < n = ground arith in
      let le : n ≤ a.pages = ground arith in
      elim (find_run_lem (a.pages + 1) a.map (a.pages - n + 1) n 0 (omega arith) (omega arith)) [
        | inl (i, e, p, q, run, first) ↦
            let inside : i + length {A = ℕ} (replicate n 1) ≤ length a.map =
              omega (arith, length-replicate {A = ℕ} n 1) in
            let address : (a.base + i * page_size) % word_mod ≡ a.base + i * page_size =
              omega (arith, v, q, pos) in
            inl (
              i,
              mark a i n,
              rw (fits, e, le→leb _ _ inside, address) refl,
              pos,
              omega arith,
              run,
              first,
              mark-Takes a i n (omega arith),
            )
        | inr (e, nowhere) ↦
            inr (rw (fits, e) refl, inr (λ i q run. nowhere i (omega arith) (omega arith) run))
      ]
]

-- The loop of FreePages clears taken pages, and its ASSERT holds.
record Clears (m : List ℕ) (i n : ℕ) (m' : List ℕ) : Type 0 where
  sized : length m' ≡ length m
  cleared : (k : ℕ) → i ≤ k → k < i + n → get_elem? m' k ≡ some 0
  others : (k : ℕ) → (k < i) ⊎ (i + n ≤ k) → get_elem? m' k ≡ get_elem? m k

free_cells_lem :
    (m : List ℕ) (i n : ℕ)
    → i + n ≤ length m
    → ((k : ℕ) → i ≤ k → k < i + n → IsTaken m k)
    → (m' : List ℕ) × (free_cells m i n ≡ some m') × Clears m i n m'
unfolding free_cells
free_cells_lem m i zero h t = (
  m,
  refl,
  record { sized = refl; cleared = λ k p q. absurd (omega arith); others = λ k o. refl },
)
free_cells_lem m i (suc n) h t =
    let (c, e, ne) = t i (omega arith) (omega arith) in
    let at = get_elem?-set m i in
    let taken : (k : ℕ) → suc i ≤ k → k < suc i + n → IsTaken (set m i 0) k = λ k p q.
      let (d, f, nd) = t k (omega arith) (omega arith) in
      (d, ground (arith, at k 0 (omega arith), f), nd) in
    let (m', r, s) = free_cells_lem (set m i 0) (suc i) n (omega (arith, length-set m i 0)) taken in
    (
      m',
      ground (arith, e, ne, r),
      record {
        sized = s.sized ∙ length-set m i 0;
        cleared = λ k p q. elim (ℕ_discrete i k) [
          | yes here ↦ s.others k (inl (omega arith)) ∙ ground (arith, at k 0 (omega arith))
          | no past ↦ s.cleared k (omega arith) (omega arith)
        ];
        others = λ k o. s.others k (omega arith) ∙ ground (arith, at k 0 (omega arith));
      },
    )

page_index : (base i : ℕ) → (base + i * page_size - base) / page_size ≡ i
page_index base i = omega arith

-- Freeing pages that are taken clears just those.
pub arena_free_lem :
    (a : Arena) (i n : ℕ)
    → i + n ≤ length a.map
    → ((k : ℕ) → i ≤ k → k < i + n → IsTaken a.map k)
    → (m' : List ℕ) × (arena_free a (a.base + i * page_size) n ≡ some (record a { map = m' }))
      × (length m' ≡ length a.map)
      × ((k : ℕ) → i ≤ k → k < i + n → get_elem? m' k ≡ some 0)
      × ((k : ℕ) → (k < i) ⊎ (i + n ≤ k) → get_elem? m' k ≡ get_elem? a.map k)
unfolding arena_free
arena_free_lem a i n h t =
    let (m', r, s) = free_cells_lem a.map i n h t in
    (m', rw (page_index a.base i, r) refl, s.sized, s.cleared, s.others)

restored :
    (a b : Arena) (m' : List ℕ) (i n : ℕ)
    → FreeRun a.map i n
    → Takes a i n b
    → ((k : ℕ) → i ≤ k → k < i + n → get_elem? m' k ≡ some 0)
    → ((k : ℕ) → (k < i) ⊎ (i + n ≤ k) → get_elem? m' k ≡ get_elem? b.map k)
    → (k : ℕ) → get_elem? m' k ≡ get_elem? a.map k
restored a b m' i n run s clear others k = elim (dec_le i k) [
  | no below ↦ others k (inl (omega arith)) ∙ s.others k (inl (omega arith))
  | yes le ↦ elim (dec_lt k (i + n)) [
    | no above ↦ others k (inr (omega arith)) ∙ s.others k (inr (omega arith))
    | yes lt ↦ clear k le lt ∙ sym (run (k - i) (omega arith)) ∙ ap (get_elem? a.map) (omega arith)
  ]
]

-- Pages that were just allocated can be freed, and the arena is then as it was before.
pub free-allocate :
    (a a' : Arena) (n p : ℕ)
    → IsMapped a
    → arena_allocate a n ≡ some (some p, a')
    → arena_free a' p n ≡ some a
free-allocate a a' n p v e = elim (arena_allocate_lem a n v) [
  | inr (r, _) ↦ cc
  | inl (i, b, r, pos, fits, run, _, s) ↦
      let same : b ≡ a' = cc in
      let at : p ≡ a.base + i * page_size = cc in
      let (m', freed, long, clear, others) =
        arena_free_lem b i n (omega (arith, s.sized))
          (λ k p' q. (1, s.taken k p' q, omega arith)) in
      let back : m' ≡ a.map = cells_eq m' a.map (restored a b m' i n run s clear others) in
      let fields : record b { map = m' } ≡ a = ground (arith, back, s.base, s.pages, s.map_at) in
      let at' : p ≡ b.base + i * page_size = omega (arith, at, s.base) in
      rw (← same, at') (freed ∙ ap some fields)
]
