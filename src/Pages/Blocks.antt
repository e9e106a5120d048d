-- ===== src/Pages/Blocks.antt =====
-- The life of an arena: its clients allocate blocks of pages and free them again.
use native.Mathlib.Decide.{dec_le}
use dartino_sdk.Base.{
  ℕ, ◌+◌, ◌-◌, ◌*◌, ◌≤◌, ◌<◌, ◌≡◌, refl, ap, subst, ◌∙◌, ◌⊎◌, inl, inr, none, some, List, [], ◌∷◌,
  arith, get_elem?, max,
}
use dartino_sdk.Pages.{Arena, arena_allocate, arena_free, page_size}
use dartino_sdk.Pages.Search.{FreeRun}
use dartino_sdk.Pages.Arenas.{IsMapped, IsTaken, Takes, arena_allocate_lem, arena_free_lem}

-- A block: its first page, and how many pages it has.
abbrev pub Block : Type 0
Block = ℕ × ℕ

abbrev pub address : Arena → Block → ℕ
address a b = a.base + b.0 * page_size

-- An arena with the blocks that its clients hold.
pub record Use : Type 0 where
  pub arena : Arena
  pub live : List Block

-- `rest` is the list without one entry `b`.
pub data Pick (b : Block) : List Block → List Block → Type 0 where
  here : {bs : List Block} → Pick b (b ∷ bs) bs
  there : {c : Block} {bs rest : List Block} → Pick b bs rest → Pick b (c ∷ bs) (c ∷ rest)

pub data Step (s : Use) : Use → Type 0 where
  allocated :
      {a : Arena} (b : Block)
      → arena_allocate s.arena b.1 ≡ some (some (address s.arena b), a)
      → Step s (record { arena = a; live = b ∷ s.live })
  refused :
      {a : Arena} (n : ℕ)
      → arena_allocate s.arena n ≡ some (none, a)
      → Step s (record { arena = a; live = s.live })
  freed :
      {a : Arena} {rest : List Block} (b : Block)
      → Pick b s.live rest
      → arena_free s.arena (address s.arena b) b.1 ≡ some a
      → Step s (record { arena = a; live = rest })

pub data Reach (s : Use) : Use → Type 0 where
  start : Reach s s
  next : {t u : Use} → Reach s t → Step t u → Reach s u

-- No page is in two blocks.
abbrev pub Apart : Block → Block → Type 0
Apart b c = (b.0 + b.1 ≤ c.0) ⊎ (c.0 + c.1 ≤ b.0)

abbrev pub All : (Block → Type 0) → List Block → Type 0
All P [] = Unit
All P (b ∷ bs) = P b × All P bs

abbrev pub AllApart : List Block → Type 0
AllApart [] = Unit
AllApart (b ∷ bs) = All (Apart b) bs × AllApart bs

-- A block lies in the arena, and its pages are taken.
abbrev pub Owned : Arena → Block → Type 0
Owned a b =
    (0 < b.1) × (b.0 + b.1 ≤ a.pages) × ((k : ℕ) → b.0 ≤ k → k < b.0 + b.1 → IsTaken a.map k)

pub record Inv (s : Use) : Type 0 where
  pub mapped : IsMapped s.arena
  pub owned : All (Owned s.arena) s.live
  pub apart : AllApart s.live

All-map : (P Q : Block → Type 0) (bs : List Block) → ((b : Block) → P b → Q b) → All P bs → All Q bs
All-map P Q [] f h = tt
All-map P Q (b ∷ bs) f h = (f b h.0, All-map P Q bs f h.1)

All-zip :
    (P Q R : Block → Type 0) (bs : List Block)
    → ((b : Block) → P b → Q b → R b)
    → All P bs
    → All Q bs
    → All R bs
All-zip P Q R [] f h g = tt
All-zip P Q R (b ∷ bs) f h g = (f b h.0 g.0, All-zip P Q R bs f h.1 g.1)

Pick-All :
    (P : Block → Type 0) {b : Block} {bs rest : List Block}
    → Pick b bs rest
    → All P bs
    → P b × All P rest
Pick-All P here h = h
Pick-All P (there p) h = let (x, y) = Pick-All P p h.1 in (x, (h.0, y))

Apart-sym : (b c : Block) → Apart c b → Apart b c
Apart-sym b c h = omega arith

Pick-AllApart :
    {b : Block} {bs rest : List Block}
    → Pick b bs rest
    → AllApart bs
    → All (Apart b) rest × AllApart rest
Pick-AllApart here h = h
Pick-AllApart {b} (there {c = c} p) h =
    let (x, y) = Pick-All (Apart c) p h.0 in
    let (u, w) = Pick-AllApart p h.1 in ((Apart-sym b c x, u), (y, w))

-- A run of free pages is apart from a block whose pages are taken.
free-Apart : (a : Arena) (b c : Block) → 0 < b.1 → FreeRun a.map b.0 b.1 → Owned a c → Apart b c
free-Apart a b c pos run o = elim (dec_le (b.0 + b.1) c.0) [
  | yes h ↦ inl h
  | no h ↦ elim (dec_le (c.0 + c.1) b.0) [
    | yes g ↦ inr g
    | no g ↦
        let k : ℕ = max b.0 c.0 in
        let (v, e, ne) = o.2 k (omega arith) (omega arith) in
        let free : get_elem? a.map k ≡ some 0 =
          ap (get_elem? a.map) {y = b.0 + (k - b.0)} (omega arith) ∙ run (k - b.0) (omega arith) in
        let zero_there : v ≡ 0 = cc (e, free) in absurd (ne zero_there)
  ]
]

-- What a change of other pages leaves of a block.
Owned-kept :
    (a a' : Arena) (b c : Block)
    → a'.pages ≡ a.pages
    → ((k : ℕ) → (k < b.0) ⊎ (b.0 + b.1 ≤ k) → get_elem? a'.map k ≡ get_elem? a.map k)
    → Apart b c
    → Owned a c
    → Owned a' c
Owned-kept a a' b c e others apart (pos, fits, taken) = (
  pos,
  omega arith,
  λ k p q. let (v, at, ne) = taken k p q in (v, others k (omega arith) ∙ at, ne),
)

allocated_at :
    (s : Use) (a : Arena) (b : Block)
    → Inv s
    → 0 < b.1
    → b.0 + b.1 ≤ s.arena.pages
    → FreeRun s.arena.map b.0 b.1
    → Takes s.arena b.0 b.1 a
    → Inv (record { arena = a; live = b ∷ s.live })
allocated_at s a b v pos fits run t =
    let away : All (Apart b) s.live =
      All-map (Owned s.arena) (Apart b) s.live (λ c. free-Apart s.arena b c pos run) v.owned in
    record {
      mapped = omega (arith, t.pages, t.sized, v.mapped);
      owned = (
        (pos, omega (arith, t.pages), λ k p q. (1, t.taken k p q, omega arith)),
        All-zip (Apart b) (Owned s.arena) (Owned a) s.live
            (λ c. Owned-kept s.arena a b c t.pages t.others) away v.owned,
      );
      apart = (away, v.apart);
    }

allocated-Inv :
    (s : Use) {a : Arena} (b : Block)
    → Inv s
    → arena_allocate s.arena b.1 ≡ some (some (address s.arena b), a)
    → Inv (record { arena = a; live = b ∷ s.live })
allocated-Inv s {a} b v e = elim (arena_allocate_lem s.arena b.1 v.mapped) [
  | inr (r, _) ↦ absurd (cc)
  | inl (i, a', r, pos, fits, run, _, t) ↦
      let same : a' ≡ a = cc in
      let at : s.arena.base + i * page_size ≡ address s.arena b = cc in
      let index : i ≡ b.0 = omega (arith, at) in
      allocated_at s a b v pos (omega (arith, index))
        (subst (λ j. FreeRun s.arena.map j b.1) index run)
        (subst (λ j. Takes s.arena j b.1 a) index (subst (Takes s.arena i b.1) same t))
]

pub free-succeeds :
    (s : Use) (b : Block) {rest : List Block}
    → Inv s
    → Pick b s.live rest
    → (a : Arena) × (arena_free s.arena (address s.arena b) b.1 ≡ some a)
      × Inv (record { arena = a; live = rest })
free-succeeds s b {rest} v p =
    let ((pos, fits, taken), others) = Pick-All (Owned s.arena) p v.owned in
    let (away, apart) = Pick-AllApart p v.apart in
    let (m, e, long, _, kept) = arena_free_lem s.arena b.0 b.1 (omega (arith, v.mapped)) taken in
    (
      record (s.arena) { map = m },
      e,
      record {
        mapped = omega (arith, long, v.mapped);
        owned =
            All-zip (Apart b) (Owned s.arena) (Owned (record (s.arena) { map = m })) rest
              (λ c. Owned-kept s.arena (record (s.arena) { map = m }) b c refl kept) away others;
        apart = apart;
      },
    )

Step-Inv : {s t : Use} → Step s t → Inv s → Inv t
Step-Inv {s} (allocated b e) v = allocated-Inv s b v e
Step-Inv {s} (refused {a = a} n e) v = elim (arena_allocate_lem s.arena n v.mapped) [
  | inl (i, a', r, _, _, _, _, _) ↦ absurd (cc)
  | inr (r, _) ↦
      let same : s.arena ≡ a = cc in subst (λ b. Inv (record { arena = b; live = s.live })) same v
]
Step-Inv {s} (freed {a = a} {rest = rest} b p e) v =
    let (a', r, u) = free-succeeds s b v p in
    let same : a' ≡ a = cc in subst (λ c. Inv (record { arena = c; live = rest })) same u

-- Whatever clients allocate and free, from an arena in order, the blocks that they hold lie in
-- the arena, their pages are taken, and no two blocks share a page.
pub Reach-Inv : {s t : Use} → Inv s → Reach s t → Inv t
Reach-Inv v start = v
Reach-Inv v (next r st) = Step-Inv st (Reach-Inv v r)
