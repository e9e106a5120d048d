-- ===== src/Pages.antt =====
-- src/freertos/page_allocator.h and page_allocator.cc, with the rounding macros of
-- src/freertos/globals.h: up to three arenas of 4096-byte pages, each with a map of one byte a page.
-- Addresses and sizes are 32-bit words, as on the STM32 boards: what can wrap around is written out.
-- The name of an arena is only kept for a debugger, and is left out.
-- A call is `none` where the code reads or writes outside a map, or where an ASSERT or FATAL stops it.
pub mod Search
pub mod Arenas
pub mod Blocks
pub mod Allocator
pub mod Layout
mod Tests
use dartino_sdk.Base.{
  ℕ, zero, suc, ◌+◌, ◌-◌, ◌*◌, ◌/◌, ◌%◌, ◌^◌, ◌≡◌, Bool, true, false, Option, none, some, List, [],
  ◌∷◌, ◌&&◌, ◌||◌, length, replicate, get_elem?, set, ltb, leb, ◌==◌, if◌then◌else◌,
}
use dartino_sdk.Memory.{◌>>=◌, memset}

abbrev pub page_size : ℕ
page_size = 4096

abbrev pub word_mod : ℕ
word_mod = 2 ^ 32

-- ROUNDDOWN and ROUNDUP to a page: `& ~(PAGE_SIZE - 1)` clears the low twelve bits.
abbrev pub round_down : ℕ → ℕ
round_down a = a / page_size * page_size

abbrev pub round_up : ℕ → ℕ
round_up a = round_down ((a + (page_size - 1)) % word_mod)

abbrev pub is_page_aligned : ℕ → Bool
is_page_aligned a = a % page_size == 0

pub pages_for_bytes : ℕ → ℕ
pages_for_bytes bytes = round_up bytes / page_size

pub record Arena : Type 0 where
  pub pages : ℕ
  pub base : ℕ
  pub map_at : ℕ
  pub map : List ℕ

-- An arena after the allocator's memset to zero.
pub unused : Arena
unused = record { pages = 0; base = 0; map_at = 0; map = [] }

pub is_free : Arena → Bool
is_free a = a.pages == 0

pub arena_size : Arena → ℕ
arena_size a = a.pages * page_size

pub contains_page_at : Arena → ℕ → Bool
contains_page_at a start = leb a.base start && ltb start ((a.base + a.pages * page_size) % word_mod)

-- A map that the caller passes: where it stands, and its bytes. NULL is `none`.
abbrev pub Map : Type 0
Map = Option (ℕ × List ℕ)

-- A supplied map that can hold the state of all the pages.
abbrev pub supplied : Map → ℕ → Option (ℕ × List ℕ)
supplied none pages = none
supplied (some (at, cells)) pages = if leb pages (length cells) then some (at, cells) else none

-- The pages between the first page boundary and the last; the subtraction is of `size_t`.
abbrev pub whole_pages : ℕ → ℕ → ℕ
whole_pages arena_start arena_bytes =
    (round_down ((arena_start + arena_bytes) % word_mod) + word_mod - round_up arena_start)
    % word_mod
    / page_size

-- The second half of Arena::Initialize. A map in the arena itself is as large as the pages that
-- are left.
pub place : ℕ → ℕ → Option (ℕ × List ℕ) → Option Arena
place start pages (some (at, cells)) = memset cells 0 0 pages >>= λ zeroed.
    some (record { pages = pages; base = start; map_at = at; map = zeroed })
place start pages none =
    let kept = pages - round_up pages / page_size in
    some (record {
      pages = kept;
      base = round_up ((start + kept) % word_mod);
      map_at = start;
      map = replicate kept 0;
    })

-- Arena::Initialize.
pub initialize : ℕ → ℕ → Map → Option Arena
unfolding place
initialize arena_start arena_bytes map =
    let pages = whole_pages arena_start arena_bytes in
    place (round_up arena_start) pages (supplied map pages)

-- The inner loop of Arena::AllocatePages, with `left` rounds to go: the first `j` at which the page
-- `i + j` is taken, or none.
pub busy_at : List ℕ → ℕ → ℕ → ℕ → Option (Option ℕ)
busy_at m i j zero = some none
busy_at m i j (suc left) = get_elem? m (i + j) >>= λ c. elim (c == 0) [
  | true ↦ busy_at m i (suc j) left
  | false ↦ some (some j)
]

-- The outer loop: the first run of `n` free pages from page `i` on. `limit` is `pages_ - pages + 1`.
pub find_run : ℕ → List ℕ → ℕ → ℕ → ℕ → Option (Option ℕ)
find_run zero m limit n i = none
find_run (suc fuel) m limit n i = elim (ltb i limit) [
  | true ↦
      busy_at m i 0 n
      >>= elim [ none ↦ some (some i) | some j ↦ find_run fuel m limit n (i + j + 1) ]
  | false ↦ some none
]

-- Arena::AllocatePages.
pub arena_allocate : Arena → ℕ → Option (Option ℕ × Arena)
arena_allocate a n =
    if n == 0 || ltb a.pages n
    then some (none, a)
    else (find_run (a.pages + 1) a.map (a.pages - n + 1) n 0 >>= elim [
      | none ↦ some (none, a)
      | some i ↦ memset a.map i 1 n >>= λ m.
          some (some ((a.base + i * page_size) % word_mod), record a { map = m })
    ])

-- The loop of Arena::FreePages, with its ASSERT.
pub free_cells : List ℕ → ℕ → ℕ → Option (List ℕ)
free_cells m i zero = some m
free_cells m i (suc n) =
    get_elem? m i >>= λ c. elim (c == 0) [ true ↦ none | false ↦ free_cells (set m i 0) (suc i) n ]

pub arena_free : Arena → ℕ → ℕ → Option Arena
arena_free a start n =
    free_cells a.map ((start - a.base) / page_size) n >>= λ m. some (record a { map = m })

abbrev pub max_arenas : ℕ
max_arenas = 3

-- The allocator is its list of `max_arenas` arenas.
pub empty_arenas : List Arena
empty_arenas = replicate max_arenas unused

-- AddArena, from arena `i` on: the bit of the arena, and the arenas after. FATAL is `none`.
pub add_arena : List Arena → ℕ → ℕ → ℕ → Map → Option (ℕ × List Arena)
add_arena [] i start bytes map = none
add_arena (a ∷ as') i start bytes map = elim (is_free a) [
  | true ↦ initialize start bytes map >>= λ a'. some (2 ^ i, a' ∷ as')
  | false ↦ add_arena as' (suc i) start bytes map >>= λ (bit, rest). some (bit, a ∷ rest)
]

-- GetArenas: the address and the size of at most `ranges` arenas in use.
pub get_arenas : List Arena → ℕ → List (ℕ × ℕ)
get_arenas [] ranges = []
get_arenas (a ∷ as') zero = []
get_arenas (a ∷ as') (suc ranges) =
    if is_free a
    then get_arenas as' (suc ranges)
    else (a.base, arena_size a) ∷ get_arenas as' ranges

-- `(arenas_bitmap & (1 << i)) != 0`.
abbrev pub has_bit : ℕ → ℕ → Bool
has_bit bitmap i = bitmap / 2 ^ i % 2 == 1

-- AllocatePages, from arena `i` on.
pub allocate_pages : List Arena → ℕ → ℕ → ℕ → Option (Option ℕ × List Arena)
allocate_pages [] i n bitmap = some (none, [])
allocate_pages (a ∷ as') i n bitmap =
    let rest = allocate_pages as' (suc i) n bitmap in
    let skip = rest >>= λ (r, bs). some (r, a ∷ bs) in
    if has_bit bitmap i
    then (arena_allocate a n >>= λ (r, a'). elim r [
      | none ↦ rest >>= λ (r', bs). some (r', a' ∷ bs)
      | some p ↦ some (some p, a' ∷ as')
    ])
    else skip

-- FreePages: the ASSERT, then the first arena that holds the page.
pub free_in : List Arena → ℕ → ℕ → Option (List Arena)
free_in [] start n = none
free_in (a ∷ as') start n = elim (contains_page_at a start) [
  | true ↦ arena_free a start n >>= λ a'. some (a' ∷ as')
  | false ↦ free_in as' start n >>= λ bs. some (a ∷ bs)
]

pub free_pages : List Arena → ℕ → ℕ → Option (List Arena)
unfolding free_in
free_pages arenas start n = if is_page_aligned start then free_in arenas start n else none
