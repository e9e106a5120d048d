-- ===== src/Pages/Tests.antt =====
-- Runs of the page allocator, and its theorems at small arenas.
use dartino_sdk.Base.{◌≡◌, refl, none, some, [], ◌∷◌, arith}
use dartino_sdk.Pages.{Arena, initialize, whole_pages, arena_allocate, arena_free, free_cells}
use dartino_sdk.Pages.Arenas.{Allocates, arena_allocate_lem}
use dartino_sdk.Pages.Blocks.{Use, here, freed, start, next, Inv, Reach-Inv}
use dartino_sdk.Pages.Layout.{Laid, initialize_lem, whole_pages_wrap}

-- Four pages from 8192 on, of which the second and the third are one block.
abbrev small : Arena
small = record { pages = 4; base = 8192; map_at = 4096; map = 0 ∷ 1 ∷ 1 ∷ 0 ∷ [] }

abbrev held : Use
held = record { arena = small; live = (1, 2) ∷ [] }

held-Inv : Inv held
held-Inv = record {
  mapped = omega arith;
  owned = ((omega arith, omega arith, λ k p q. (1, grind arith, omega arith)), tt);
  apart = (tt, tt);
}

arena_allocate_lem_example : Allocates small 1 (arena_allocate small 1)
arena_allocate_lem_example = arena_allocate_lem small 1 (omega arith)

Reach-Inv_example : Inv (record { arena = record small { map = 0 ∷ 0 ∷ 0 ∷ 0 ∷ [] }; live = [] })
unfolding arena_free free_cells
Reach-Inv_example = Reach-Inv held-Inv (next start (freed (1, 2) here refl))

initialize_lem_example :
    (a : Arena) × (initialize 5000 50000 none ≡ some a) × Laid 5000 50000 none a
initialize_lem_example = initialize_lem 5000 50000 none (omega arith)

-- A hundred bytes inside one page.
whole_pages_wrap_example : whole_pages 5000 100 ≡ 1048575
whole_pages_wrap_example = whole_pages_wrap 5000 100 (omega arith) (omega arith)
