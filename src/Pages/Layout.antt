-- ===== src/Pages/Layout.antt =====
-- Where Arena::Initialize puts the pages and the map.
use dartino_sdk.Base.{
  ℕ, ◌+◌, ◌-◌, ◌*◌, ◌/◌, ◌%◌, ◌≤◌, ◌<◌, ◌≡◌, refl, inl, inr, Option, none, some, List, arith,
  length, get_elem?, replicate, length-replicate, Option-cases, zero, suc,
}
use dartino_sdk.Memory.{memset, memcpy, blit, length-blit, get_elem?-blit_in}
use dartino_sdk.Pages.{
  Arena, Map, supplied, whole_pages, place, initialize, page_size, word_mod, round_up, round_down,
}
use dartino_sdk.Pages.Arenas.{IsMapped}
use dartino_sdk.Pages.Search.{FreeRun}

-- The memory from `start` on, `bytes` long, ends at least two pages below the end of the address space, and
-- its first page boundary is not behind its last.
abbrev pub IsUsable : ℕ → ℕ → Type 0
IsUsable start bytes =
    (start + bytes + 2 * page_size ≤ word_mod) × (round_up start ≤ round_down (start + bytes))

-- The pages are aligned, lie in the memory given, have a cell each and are all free; a map in the
-- arena itself lies in the memory given too, below the pages.
pub record Laid (start bytes : ℕ) (own : Option (ℕ × List ℕ)) (a : Arena) : Type 0 where
  pub aligned : a.base % page_size ≡ 0
  pub from : start ≤ a.base
  pub to : a.base + a.pages * page_size ≤ start + bytes
  pub mapped : IsMapped a
  pub all_free : FreeRun a.map 0 a.pages
  pub own_map : own ≡ none → (start ≤ a.map_at) × (a.map_at + a.pages ≤ a.base)

get_elem?-replicate : (n k : ℕ) → k < n → get_elem? {A = ℕ} (replicate n 0) k ≡ some 0
get_elem?-replicate zero k h = absurd (omega arith)
get_elem?-replicate (suc n) zero h = refl
get_elem?-replicate (suc n) (suc k) h = get_elem?-replicate n k (omega arith)

supplied-fits :
    (map : Map) (pages : ℕ) {own : ℕ × List ℕ}
    → supplied map pages ≡ some own
    → pages ≤ length own.1
supplied-fits none pages e = cc
supplied-fits (some (at, cells)) pages e = ground arith

-- In the pages of a usable arena nothing wraps.
usable_pages :
    (start bytes : ℕ)
    → IsUsable start bytes
    → (start ≤ round_up start)
      × (round_up start + whole_pages start bytes * page_size ≤ start + bytes)
      × (round_up start % page_size ≡ 0)
usable_pages start bytes u = (omega arith, omega arith, omega arith)

module _ (start bytes first pages : ℕ) (room : start + bytes + 2 * page_size ≤ word_mod)
    (from : start ≤ first) (to : first + pages * page_size ≤ start + bytes)
    (aligned : first % page_size ≡ 0) where
  place_supplied :
      (at : ℕ) (cells : List ℕ)
      → pages ≤ length cells
      → (a : Arena) × (place first pages (some (at, cells)) ≡ some a)
        × Laid start bytes (some (at, cells)) a
  unfolding place memset memcpy
  place_supplied at cells fits =
      let n = length-replicate {A = ℕ} pages 0 in
      let long = length-blit cells 0 (replicate pages 0) in
      (
        record { pages = pages; base = first; map_at = at; map = blit cells 0 (replicate pages 0) },
        ground (arith, n),
        record {
          aligned = aligned;
          from = from;
          to = to;
          mapped = omega (arith, long);
          all_free = λ k h.
              get_elem?-blit_in cells 0 pages 0 (0 + k) (omega arith) (omega arith) (omega arith);
          own_map = λ e. cc;
        },
      )

  place_own : (a : Arena) × (place first pages none ≡ some a) × Laid start bytes none a
  unfolding place
  place_own =
      let kept : ℕ = pages - round_up pages / page_size in
      (
        record {
          pages = kept;
          base = round_up ((first + kept) % word_mod);
          map_at = first;
          map = replicate kept 0;
        },
        refl,
        record {
          aligned = omega arith;
          from = omega arith;
          to = omega arith;
          mapped = omega (arith, length-replicate {A = ℕ} kept 0);
          all_free = λ k h. get_elem?-replicate kept (0 + k) (omega arith);
          own_map = λ e. (omega arith, omega arith);
        },
      )

-- Arena::Initialize, on memory that holds a page boundary and ends at least two pages below the
-- end of the address space, puts the pages on page boundaries inside the memory, with a free
-- cell for each; a map in the arena itself lies in the memory below the pages.
pub initialize_lem :
    (start bytes : ℕ) (map : Map)
    → IsUsable start bytes
    → (a : Arena) × (initialize start bytes map ≡ some a)
      × Laid start bytes (supplied map (whole_pages start bytes)) a
unfolding initialize
initialize_lem start bytes map u =
    let (from, to, aligned) = usable_pages start bytes u in
    elim (Option-cases (supplied map (whole_pages start bytes))) [
      | inl e ↦ rw e (place_own start bytes _ _ u.0 from to aligned)
      | inr ((at, cells), e) ↦
          rw e (place_supplied start bytes _ _ u.0 from to aligned at cells (supplied-fits map _ e))
    ]

-- For memory below the end of the address space with its last page boundary before its first,
-- so that no page fits, Arena::Initialize computes 1048575 pages, which is 2^20 - 1: the size
-- wraps below zero.
pub whole_pages_wrap :
    (start bytes : ℕ)
    → start + bytes < word_mod
    → round_down (start + bytes) < round_up start
    → whole_pages start bytes ≡ 1048575
whole_pages_wrap start bytes h k = omega (arith, h, k)
