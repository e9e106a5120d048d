-- ===== src/PriorityHeap/Changed.antt =====
-- InsertOrChangePriority on a value that is there: the heap with the new priority in its cell.
use dartino_sdk.Base.{
  ℕ, zero, suc, ◌≤◌, ◌<◌, ◌≡◌, ◌⊎◌, inl, inr, refl, false, some, arith, ltb, set, ◌==◌,
  if◌then◌else◌, Option-cases, Bool-cases, length-set,
}
use dartino_sdk.PriorityHeap.{PriorityHeap, bubble_up, at, key, size, parent}
use dartino_sdk.PriorityHeap.Cells.{at-set}
use dartino_sdk.PriorityHeap.Order.{IsHeap, DownInv, UpInv}
use dartino_sdk.PriorityHeap.Contents.{IsIndexed, contents}
use dartino_sdk.PriorityHeap.Valid.{IsValid}

-- The heap with the new priority in place, before it is moved.
unfoldable pub changed : PriorityHeap → ℕ → ℕ → PriorityHeap
changed h p i = record h { items = set h.items i (record (at h.items i) { priority = p }) }

module _ (h : PriorityHeap) (p i : ℕ) (valid : IsValid h) (inside : i < size h) where
  pub size-changed : size (changed h p i) ≡ size h
  unfolding changed
  size-changed = length-set h.items i (record (at h.items i) { priority = p })

  pub changed_cell :
      (j : ℕ)
      → (key (changed h p i).items j ≡ (if i == j then p else key h.items j))
        × ((at (changed h p i).items j).value ≡ (at h.items j).value)
  unfolding changed
  changed_cell j = (
    ground (arith, at-set h.items i j (record (at h.items i) { priority = p }) inside),
    ground (arith, at-set h.items i j (record (at h.items i) { priority = p }) inside),
  )

  pub changed_index : (w : ℕ) → (changed h p i).index w ≡ h.index w
  unfolding changed
  changed_index w = refl

  pub changed_count : (changed h p i).count ≡ h.count
  unfolding changed
  changed_count = refl

  pub changed-IsIndexed : IsIndexed (changed h p i)
  changed-IsIndexed = record {
    counted = omega (arith, changed_count, size-changed, valid.indexed.counted);
    named = λ j q. ground (
      arith,
      size-changed,
      changed_cell j,
      changed_index (at h.items j).value,
      valid.indexed.named j,
    );
    found = λ w j e.
        ground (arith, size-changed, changed_cell j, changed_index w, valid.indexed.found w j);
  }

  pub changed-contents :
      (w : ℕ)
      → contents (changed h p i) w ≡ (if (at h.items i).value == w then some p else contents h w)
  unfolding contents
  changed-contents w = elim (Option-cases (h.index w)) [
    | inl e ↦ ground (arith, changed_index w, e, valid.indexed.named i)
    | inr (j, e) ↦ ground (
      arith,
      changed_index w,
      e,
      changed_cell j,
      valid.indexed.found w j e,
      valid.indexed.named i,
    )
  ]

  pub changed-DownInv : (i ≡ 0) ⊎ (key h.items (parent i) ≤ p) → DownInv (changed h p i) i
  changed-DownInv fine = record {
    edges = λ c q r ne.
        ground (arith, size-changed, changed_cell c, changed_cell (parent c), valid.ordered c);
    bridged = λ c q r e pos. ground (
      arith,
      size-changed,
      changed_cell c,
      changed_cell (parent i),
      valid.ordered c,
      valid.ordered i,
    );
  }

  pub changed-UpInv : 0 < i → p ≤ key h.items (parent i) → UpInv (changed h p i) i
  changed-UpInv pos le = record {
    inside = omega (arith, size-changed);
    edges = λ c q r ne. ground (
      arith,
      size-changed,
      changed_cell c,
      changed_cell (parent c),
      valid.ordered c,
      valid.ordered i,
    );
    bridged = λ c q r e pi. ground (
      arith,
      size-changed,
      changed_cell c,
      changed_cell (parent i),
      valid.ordered c,
      valid.ordered i,
    );
  }

  pub changed-IsHeap : 0 < i → p ≡ key h.items (parent i) → IsHeap (changed h p i).items
  changed-IsHeap pos e c q r = ground (
    arith,
    size-changed,
    changed_cell c,
    changed_cell (parent c),
    valid.ordered c,
    valid.ordered i,
  )

-- Nothing moves up where the edges on the way to the root are in order.
pub up_stays :
    (fuel : ℕ) (h : PriorityHeap) (i : ℕ)
    → ((c : ℕ) → 0 < c → c ≤ i → key h.items (parent c) ≤ key h.items c)
    → bubble_up fuel h i ≡ h
unfolding bubble_up
up_stays zero h i o = refl
up_stays (suc fuel) h i o = elim (Bool-cases (i == 0)) [
  | inl root ↦ rw (root, bubble_up) refl
  | inr below ↦
      let fixed : ltb (key h.items i) (key h.items (parent i)) ≡ false = ground (arith, o i) in
      rw (below, bubble_up) (rw fixed (up_stays fuel h (parent i) (λ c q r. o c q (omega arith))))
]
