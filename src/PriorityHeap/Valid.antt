-- ===== src/PriorityHeap/Valid.antt =====
-- The invariant of the heap, and its least entry.
use dartino_sdk.Base.{
  ℕ, zero, suc, ◌≤◌, ◌<◌, ◌≡◌, refl, none, some, arith, ◌==◌, Option-cases, Bool-cases, ◌⊎◌, inl,
  inr,
}
use dartino_sdk.PriorityHeap.{Entry, PriorityHeap, init, minimum, is_empty, at, key, size, parent}
use dartino_sdk.PriorityHeap.Order.{IsHeap}
use dartino_sdk.PriorityHeap.Contents.{IsIndexed, contents}

pub record IsValid (h : PriorityHeap) : Type 0 where
  pub ordered : IsHeap h.items
  pub indexed : IsIndexed h
  pub fits : size h ≤ h.backing_size
  pub positive : 0 < h.backing_size

pub init-IsValid : IsValid init × ((v : ℕ) → contents init v ≡ none)
unfolding init contents
init-IsValid = (
  record {
    ordered = λ c p q. absurd (omega arith);
    indexed = record { named = λ i q. absurd (omega arith); found = λ v i e. cc; counted = refl };
    fits = omega arith;
    positive = omega arith;
  },
  λ v. refl,
)

root_below :
    (k : ℕ) (h : PriorityHeap) (i : ℕ)
    → IsHeap h.items
    → i < k
    → i < size h
    → key h.items 0 ≤ key h.items i
root_below zero h i o f p = absurd (omega arith)
root_below (suc k) h i o f p = ground (arith, o i, root_below k h (parent i) o)

-- Minimum of a valid heap is an entry of the map with the lowest priority in it; it fails on
-- the empty heap alone.
pub minimum_lem :
    (h : PriorityHeap)
    → IsValid h
    → ((minimum h ≡ none) × (size h ≡ 0))
      ⊎ ((e : Entry) × (minimum h ≡ some e)
          × (contents h e.value ≡ some e.priority)
          × ((v p : ℕ) → contents h v ≡ some p → e.priority ≤ p))
unfolding minimum is_empty contents
minimum_lem h v = elim (Bool-cases (size h == 0)) [
  | inl empty ↦ inl (rw empty refl, ground arith)
  | inr full ↦ inr (
    at h.items 0,
    rw full refl,
    ground (arith, v.indexed.named 0),
    λ w p e. elim (Option-cases (h.index w)) [
      | inl missing ↦ absurd (ground (arith, missing))
      | inr (i, there) ↦
          ground (
            arith,
            there,
            v.indexed.found w i there,
            root_below (suc i) h i v.ordered (omega arith),
          )
    ],
  )
]
