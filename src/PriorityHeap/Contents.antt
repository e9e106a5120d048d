-- ===== src/PriorityHeap/Contents.antt =====
-- The heap seen as a map from values to priorities, and what keeps that map.
use dartino_sdk.Base.{
  ℕ, zero, suc, ◌+◌, ◌*◌, ◌<◌, ◌≡◌, refl, ◌∙◌, inl, inr, Option, none, some, arith, ltb, ◌==◌, ◌&&◌,
  not, if◌then◌else◌, Bool-cases, Option-cases,
}
use dartino_sdk.PriorityHeap.{
  PriorityHeap, at, key, size, update, assigned, swap, parent, bubble_up, bubble_down,
  smallest_index,
}
use dartino_sdk.PriorityHeap.Cells.{at-swap, size-swap}

unfoldable pub contents : PriorityHeap → ℕ → Option ℕ
contents h v = elim (h.index v) [ none ↦ none | some i ↦ some (key h.items i) ]

-- The hash map gives each value its cell, and no other value, and has as many keys.
pub record IsIndexed (h : PriorityHeap) : Type 0 where
  pub named : (i : ℕ) → i < size h → h.index (at h.items i).value ≡ some i
  pub found : (v i : ℕ) → h.index v ≡ some i → (i < size h) × ((at h.items i).value ≡ v)
  pub counted : h.count ≡ size h

-- A change that moves entries about.
pub record Keeps (h h' : PriorityHeap) : Type 0 where
  pub indexed : IsIndexed h'
  pub sized : size h' ≡ size h
  pub roomed : h'.backing_size ≡ h.backing_size
  pub same : (v : ℕ) → contents h' v ≡ contents h v

-- Giving a value to a key that is there keeps the size of the hash map.
pub assigned_there : (f : ℕ → Option ℕ) (v n i : ℕ) → f v ≡ some i → assigned f v n ≡ n
assigned_there f v n i e = rw (assigned, e) refl

module _ (h : PriorityHeap) (a b : ℕ) (ix : IsIndexed h) (p : a < size h) (q : b < size h) where
  swap-index :
      (v : ℕ)
      → (swap h a b).index v
        ≡ update (update h.index (at h.items b).value (some a)) (at h.items a).value (some b) v
  unfolding swap
  swap-index v = refl

  swap-count : (swap h a b).count ≡ h.count
  unfolding swap
  swap-count =
      let x = (at h.items a).value in
      let y = (at h.items b).value in
      let f = update h.index y (some a) in
      let first = assigned_there h.index y h.count b (ix.named b q) in
      elim (Bool-cases (y == x)) [
        | inl e ↦ assigned_there f x _ a (rw e refl) ∙ first
        | inr e ↦ assigned_there f x _ a (rw e (ix.named a p)) ∙ first
      ]

  swap-IsIndexed : IsIndexed (swap h a b)
  swap-IsIndexed = record {
    counted = omega (arith, swap-count, size-swap h a b, ix.counted);
    named = λ i r. ground (
      arith,
      swap-index (at (swap h a b).items i).value,
      at-swap h a b p q i,
      size-swap h a b,
      ix.named a p,
      ix.named b q,
      ix.named i,
    );
    found = λ v i e. ground (
      arith,
      swap-index v,
      at-swap h a b p q i,
      size-swap h a b,
      ix.named a p,
      ix.named b q,
      ix.found v i,
    );
  }

  swap-contents : (v : ℕ) → contents (swap h a b) v ≡ contents h v
  unfolding contents
  swap-contents v = elim (Option-cases (h.index v)) [
    | inl e ↦ ground (arith, swap-index v, ix.named a p, ix.named b q, e)
    | inr (i, e) ↦ ground (
      arith,
      swap-index v,
      e,
      ix.named a p,
      ix.named b q,
      ix.found v i e,
      at-swap h a b p q i,
      at-swap h a b p q a,
      at-swap h a b p q b,
    )
  ]

  pub swap-Keeps : Keeps h (swap h a b)
  unfolding swap
  swap-Keeps = record {
    indexed = swap-IsIndexed;
    sized = size-swap h a b;
    roomed = refl;
    same = swap-contents;
  }

pub Keeps-refl : (h : PriorityHeap) → IsIndexed h → Keeps h h
Keeps-refl h ix = record { indexed = ix; sized = refl; roomed = refl; same = λ v. refl }

pub Keeps-trans : {h h' h'' : PriorityHeap} → Keeps h h' → Keeps h' h'' → Keeps h h''
Keeps-trans k l = record {
  indexed = l.indexed;
  sized = l.sized ∙ k.sized;
  roomed = l.roomed ∙ k.roomed;
  same = λ v. l.same v ∙ k.same v;
}

up_step-Keeps :
    (h : PriorityHeap) (i : ℕ)
    → IsIndexed h
    → i < size h
    → Keeps h (if ltb (key h.items i) (key h.items (parent i)) then swap h (parent i) i else h)
up_step-Keeps h i ix r = elim (Bool-cases (ltb (key h.items i) (key h.items (parent i)))) [
  | inl lt ↦ rw lt (swap-Keeps h (parent i) i ix (omega arith) r)
  | inr ge ↦ rw ge (Keeps-refl h ix)
]

pub bubble_up-Keeps :
    (fuel : ℕ) (h : PriorityHeap) (i : ℕ) → IsIndexed h → i < size h → Keeps h (bubble_up fuel h i)
unfolding bubble_up
bubble_up-Keeps zero h i ix r = Keeps-refl h ix
bubble_up-Keeps (suc fuel) h i ix r = elim (Bool-cases (i == 0)) [
  | inl root ↦ rw (root, bubble_up) (Keeps-refl h ix)
  | inr below ↦
      let k = up_step-Keeps h i ix r in
      rw (below, bubble_up)
        (Keeps-trans k (bubble_up-Keeps fuel _ (parent i) k.indexed (omega (arith, k.sized))))
]

smallest-in : (h : PriorityHeap) (i : ℕ) → 2 * i + 1 < size h → smallest_index h i < size h
unfolding smallest_index
smallest-in h i left = ground arith

pub bubble_down-Keeps :
    (fuel : ℕ) (h : PriorityHeap) (i : ℕ) → IsIndexed h → Keeps h (bubble_down fuel h i)
unfolding bubble_down
bubble_down-Keeps zero h i ix = Keeps-refl h ix
bubble_down-Keeps (suc fuel) h i ix =
    elim (Bool-cases (ltb (2 * i + 1) (size h) && not (i == smallest_index h i))) [
      | inl go ↦
          let left : 2 * i + 1 < size h = ground arith in
          let k = swap-Keeps h i (smallest_index h i) ix (omega arith) (smallest-in h i left) in
          rw (go, bubble_down)
            (Keeps-trans k (bubble_down-Keeps fuel _ (smallest_index h i) k.indexed))
      | inr stop ↦ rw (stop, bubble_down) (Keeps-refl h ix)
    ]
