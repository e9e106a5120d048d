-- ===== src/PriorityHeap/Moved.antt =====
-- RemoveAt below the last cell. The last entry takes the place of the removed one and sinks; it
-- never rises, although it may stand in another part of the heap.
use dartino_sdk.Base.{
  ℕ, zero, suc, ◌+◌, ◌-◌, ◌*◌, ◌≤◌, ◌<◌, ◌≡◌, ◌∙◌, ◌⊎◌, inl, inr, refl, false, none, some, arith,
  take, set, ◌==◌, if◌then◌else◌, Option-cases, length-take, length-set,
}
use dartino_sdk.PriorityHeap.{
  PriorityHeap, bubble_down, smallest_index, replace, at, key, size, parent, update, assigned,
}
use dartino_sdk.Memory.{◌>>=◌}
use dartino_sdk.PriorityHeap.Cells.{at-set, at-take}
use dartino_sdk.PriorityHeap.Order.{DownInv}
use dartino_sdk.PriorityHeap.Contents.{IsIndexed, contents, assigned_there}
use dartino_sdk.PriorityHeap.Valid.{IsValid}

-- The heap after Replace with the last entry and the cut, before BubbleDown.
unfoldable pub moved : PriorityHeap → ℕ → PriorityHeap
moved h offset =
    let entry = at h.items (size h - 1) in
    let erased = update h.index (at h.items offset).value none in
    record h {
      items = take (size h - 1) (set h.items offset entry);
      index = update erased entry.value (some offset);
      count = assigned erased entry.value (h.count - 1);
    }

pub replace_lem :
    (h : PriorityHeap) (offset i : ℕ)
    → h.index (at h.items offset).value ≡ some i
    → (replace h offset (size h - 1) >>= λ r.
        some (bubble_down (size h) (record r { items = take (size h - 1) r.items }) offset))
      ≡ some (bubble_down (size h) (moved h offset) offset)
unfolding moved replace
replace_lem h offset i e = rw (replace, e) refl

-- The contents without one value.
abbrev pub Erased : PriorityHeap → ℕ → PriorityHeap → Type 0
Erased h v h' = (w : ℕ) → contents h' w ≡ (if v == w then none else contents h w)

module _ (h : PriorityHeap) (offset : ℕ) (valid : IsValid h) (inner : offset < size h - 1) where
  pub size-moved : size (moved h offset) ≡ size h - 1
  unfolding moved
  size-moved =
      let e = at h.items (size h - 1) in
      omega (arith, length-take (size h - 1) (set h.items offset e), length-set h.items offset e)

  pub moved_cell :
      (i : ℕ)
      → i < size h - 1
      → at (moved h offset).items i
        ≡ (if offset == i then at h.items (size h - 1) else at h.items i)
  unfolding moved
  moved_cell i q =
      let e = at h.items (size h - 1) in
      at-take (size h - 1) (set h.items offset e) i q ∙ at-set h.items offset i e (omega arith)

  pub moved_index :
      (w : ℕ)
      → (moved h offset).index w
        ≡ update
            (update h.index (at h.items offset).value none)
            (at h.items (size h - 1)).value
            (some offset)
            w
  unfolding moved
  moved_index w = refl

  pub moved_roomed : (moved h offset).backing_size ≡ h.backing_size
  unfolding moved
  moved_roomed = refl

  moved_count : (moved h offset).count ≡ size h - 1
  unfolding moved
  moved_count =
      let v = (at h.items offset).value in
      let w = (at h.items (size h - 1)).value in
      let last = valid.indexed.named (size h - 1) (omega arith) in
      let other : (v == w) ≡ false = ground (arith, last, valid.indexed.named offset) in
      assigned_there (update h.index v none) w (h.count - 1) (size h - 1) (rw other last)
      ∙ omega (arith, valid.indexed.counted)

  pub moved-IsIndexed : IsIndexed (moved h offset)
  moved-IsIndexed = record {
    counted = omega (arith, moved_count, size-moved);
    named = λ i q. ground (
      arith,
      size-moved,
      moved_cell i,
      moved_index (at (moved h offset).items i).value,
      valid.indexed.named i,
      valid.indexed.named offset,
      valid.indexed.named (size h - 1),
    );
    found = λ w i e. ground (
      arith,
      size-moved,
      moved_cell i,
      moved_index w,
      valid.indexed.found w i,
      valid.indexed.named offset,
      valid.indexed.named (size h - 1),
    );
  }

  pub moved-Erased : Erased h (at h.items offset).value (moved h offset)
  unfolding contents
  moved-Erased w = elim (Option-cases (h.index w)) [
    | inl e ↦ ground (arith, moved_index w, e, valid.indexed.named (size h - 1))
    | inr (i, e) ↦ ground (
      arith,
      moved_index w,
      e,
      valid.indexed.found w i e,
      moved_cell i,
      moved_cell offset inner,
      valid.indexed.named offset,
      valid.indexed.named (size h - 1),
    )
  ]

  -- The moved entry is not below its new parent's priority.
  pub moved-DownInv :
      (offset ≡ 0) ⊎ (key h.items (parent offset) ≤ key h.items (size h - 1))
      → DownInv (moved h offset) offset
  moved-DownInv fine = record {
    edges = λ c p q ne.
        ground (arith, size-moved, moved_cell c, moved_cell (parent c), valid.ordered c);
    bridged = λ c p q e pos. ground (
      arith,
      size-moved,
      moved_cell c,
      moved_cell (parent offset),
      valid.ordered c,
      valid.ordered offset,
    );
  }

  -- Below its new parent's priority it is below its children's too, and stays.
  pub moved_stays :
      0 < offset
      → key h.items (size h - 1) < key h.items (parent offset)
      → (fuel : ℕ) → bubble_down fuel (moved h offset) offset ≡ moved h offset
  unfolding bubble_down smallest_index
  moved_stays pos less zero = refl
  moved_stays pos less (suc fuel) = ground (
    arith,
    size-moved,
    moved_cell offset,
    moved_cell (2 * offset + 1),
    moved_cell (2 * offset + 1 + 1),
    valid.ordered offset,
    valid.ordered (2 * offset + 1),
    valid.ordered (2 * offset + 1 + 1),
  )
