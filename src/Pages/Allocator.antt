-- ===== src/Pages/Allocator.antt =====
-- The three arenas together.
use dartino_sdk.Base.{
  ℕ, suc, ◌+◌, ◌*◌, ◌%◌, ◌≤◌, ◌<◌, ◌≡◌, ◌⊎◌, true, Option, none, some, List, [], ◌∷◌,
}
use dartino_sdk.Pages.{Arena, free_in, has_bit, page_size, word_mod}
use dartino_sdk.Pages.Arenas.{IsMapped}

-- The pages of two arenas do not meet.
abbrev pub Separate : Arena → Arena → Type 0
Separate a b = (a.base + a.pages * page_size ≤ b.base) ⊎ (b.base + b.pages * page_size ≤ a.base)

abbrev pub SeparateFrom : Arena → List Arena → Type 0
SeparateFrom a [] = Unit
SeparateFrom a (b ∷ bs) = Separate a b × SeparateFrom a bs

-- Each arena has its map, starts at a page boundary and ends below the end of the address space, and
-- no two meet.
abbrev pub AreValid : List Arena → Type 0
AreValid [] = Unit
AreValid (a ∷ as') =
    IsMapped a
    × (a.base % page_size ≡ 0)
    × (a.base + a.pages * page_size < word_mod)
    × SeparateFrom a as'
    × AreValid as'

-- The `n` pages at `p` lie in one arena, from number `i` on, whose bit is set.
abbrev pub Served : List Arena → ℕ → ℕ → ℕ → ℕ → Type 0
Served [] i n bitmap p = ⊥
Served (a ∷ as') i n bitmap p =
    ((has_bit bitmap i ≡ true)
      × (a.base ≤ p)
      × (p + n * page_size ≤ a.base + a.pages * page_size)
      × (p % page_size ≡ 0))
    ⊎ Served as' (suc i) n bitmap p

-- What a call returns: pages that free_in gives back, or nothing and no change.
abbrev Outcome : List Arena → ℕ → ℕ → ℕ → Option (Option ℕ × List Arena) → Type 0
Outcome arenas i n bitmap r =
    ((p : ℕ) × (bs : List Arena) × (r ≡ some (some p, bs))
      × Served arenas i n bitmap p
      × (0 < n)
      × (free_in bs p n ≡ some arenas))
    ⊎ (r ≡ some (none, arenas))
