-- ===== src/PriorityHeap/Order.antt =====
-- BubbleUp and BubbleDown restore the heap order.
use native.Mathlib.Decide.{ℕ_discrete}
use dartino_sdk.Base.{
  subst, ℕ, zero, suc, ◌+◌, ◌-◌, ◌*◌, ◌≤◌, ◌<◌, ◌≡◌, ◌≢◌, inl, inr, List, arith, length, ltb, ◌==◌,
  ◌⊎◌, ◌&&◌, not, if◌then◌else◌, Bool-cases,
}
use dartino_sdk.PriorityHeap.{
  Entry, PriorityHeap, key, size, swap, parent, bubble_up, bubble_down, smallest_index,
}
use dartino_sdk.PriorityHeap.Cells.{at-swap, size-swap}

-- No cell has a lower priority than its parent.
abbrev pub IsHeap : List Entry → Type 0
IsHeap xs = (c : ℕ) → 0 < c → c < length xs → key xs (parent c) ≤ key xs c

-- All edges are in order but the one above `i`, and past `i` the edges from its parent to its
-- children are.
pub record UpInv (h : PriorityHeap) (i : ℕ) : Type 0 where
  pub inside : i < size h
  pub edges : (c : ℕ) → 0 < c → c < size h → c ≢ i → key h.items (parent c) ≤ key h.items c
  pub bridged :
      (c : ℕ) → 0 < c → c < size h → parent c ≡ i → 0 < i → key h.items (parent i) ≤ key h.items c

up_step :
    (h : PriorityHeap) (i : ℕ)
    → UpInv h i
    → 0 < i
    → UpInv
        (if ltb (key h.items i) (key h.items (parent i)) then swap h (parent i) i else h)
        (parent i)
up_step h i v pos = elim (Bool-cases (ltb (key h.items i) (key h.items (parent i)))) [
  | inl lt ↦
      let n = size-swap h (parent i) i in
      let s = at-swap h (parent i) i (omega (arith, v.inside)) v.inside in
      rw lt (record {
        inside = omega (arith, n, v.inside);
        edges = λ c p q ne. ground (arith, n, s c, s (parent c), v.edges c, v.bridged c, v.inside);
        bridged = λ c p q e pi.
            ground (arith, n, s c, s (parent (parent i)), v.edges c, v.edges (parent i), v.inside);
      })
  | inr ge ↦ rw ge (record {
    inside = omega (arith, v.inside);
    edges = λ c p q ne. ground (arith, v.edges c, v.inside);
    bridged = λ c p q e pi. ground (arith, v.edges c, v.edges (parent i), v.inside);
  })
]

pub bubble_up-IsHeap :
    (fuel : ℕ) (h : PriorityHeap) (i : ℕ) → i < fuel → UpInv h i → IsHeap (bubble_up fuel h i).items
unfolding bubble_up
bubble_up-IsHeap zero h i f v = absurd (omega arith)
bubble_up-IsHeap (suc fuel) h i f v = elim (Bool-cases (i == 0)) [
  | inl root ↦ rw (root, bubble_up) (λ c p q. ground (arith, v.edges c))
  | inr below ↦
      rw (below, bubble_up)
        (bubble_up-IsHeap fuel _ (parent i) (ground arith) (up_step h i v (ground arith)))
]

-- All edges are in order but those below `i`, and past `i` they are too.
pub record DownInv (h : PriorityHeap) (i : ℕ) : Type 0 where
  pub edges : (c : ℕ) → 0 < c → c < size h → parent c ≢ i → key h.items (parent c) ≤ key h.items c
  pub bridged :
      (c : ℕ) → 0 < c → c < size h → parent c ≡ i → 0 < i → key h.items (parent i) ≤ key h.items c

-- What BubbleDown compares: the cell with its one or two children.
record Smallest (h : PriorityHeap) (i s : ℕ) : Type 0 where
  least : (c : ℕ) → 0 < c → c < size h → parent c ≡ i → key h.items s ≤ key h.items c
  child : i ≢ s → (i < s) × (s < size h) × (parent s ≡ i) × (key h.items s < key h.items i)

children : (c i : ℕ) → 0 < c → parent c ≡ i → (c ≡ 2 * i + 1) ⊎ (c ≡ 2 * i + 1 + 1)
children c i p e = omega arith

smallest : (h : PriorityHeap) (i : ℕ) → 2 * i + 1 < size h → Smallest h i (smallest_index h i)
unfolding smallest_index
smallest h i left = record {
  least = λ c p q e. elim (children c i p e) [
    | inl l ↦ rw l (ground arith)
    | inr r ↦ rw r (ground (arith, r))
  ];
  child = λ ne. (ground arith, ground arith, ground arith, ground arith);
}

down_step :
    (h : PriorityHeap) (i s : ℕ)
    → i < size h
    → DownInv h i
    → Smallest h i s
    → i ≢ s
    → DownInv (swap h i s) s
down_step h i s inside v m ne =
    let (lt, in_heap, e, less) = m.child ne in
    let n = size-swap h i s in
    let at = at-swap h i s inside in_heap in
    record {
      edges = λ c p q away.
          ground (arith, n, at c, at (parent c), v.edges c, v.bridged c, v.bridged s, m.least c);
      bridged = λ c p q e' ps. ground (arith, n, at c, at (parent s), v.edges c);
    }

pub bubble_down-IsHeap :
    (fuel : ℕ) (h : PriorityHeap) (i : ℕ)
    → size h - i < fuel
    → DownInv h i
    → IsHeap (bubble_down fuel h i).items
unfolding bubble_down
bubble_down-IsHeap zero h i f v = absurd (omega arith)
bubble_down-IsHeap (suc fuel) h i f v =
    elim (Bool-cases (ltb (2 * i + 1) (size h) && not (i == smallest_index h i))) [
      | inl go ↦
          let left : 2 * i + 1 < size h = ground arith in
          let m = smallest h i left in
          let ne : i ≢ smallest_index h i = ground arith in
          rw (go, bubble_down)
            (bubble_down-IsHeap fuel _ (smallest_index h i)
              (omega (arith, m.child ne, size-swap h i (smallest_index h i)))
              (down_step h i (smallest_index h i) (omega arith) v m ne))
      | inr stop ↦
          rw (stop, bubble_down)
            (λ c p q. elim (ℕ_discrete (parent c) i) [
              | no ne ↦ v.edges c p q ne
              | yes e ↦
                  let m = smallest h i (omega arith) in
                  let same : smallest_index h i ≡ i = ground arith in
                  rw e (subst (λ s. key h.items s ≤ key h.items c) same (m.least c p q e))
            ])
    ]
