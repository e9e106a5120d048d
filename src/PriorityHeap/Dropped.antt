-- ===== src/PriorityHeap/Dropped.antt =====
-- RemoveAt before the block shrinks, at the last cell and below it.
use native.Mathlib.Decide.{ℕ_discrete, dec_le}
use dartino_sdk.Base.{
  ℕ, ◌-◌, ◌≤◌, ◌<◌, ◌≡◌, ◌∙◌, ◌⊎◌, inl, inr, refl, sym, subst, true, none, some, arith, take, ◌==◌,
  Option-cases, Bool-cases, length-take,
}
use dartino_sdk.PriorityHeap.{PriorityHeap, bubble_down, drop_at, at, key, size, parent, update}
use dartino_sdk.PriorityHeap.Cells.{at-take}
use dartino_sdk.PriorityHeap.Order.{IsHeap, bubble_down-IsHeap}
use dartino_sdk.PriorityHeap.Contents.{IsIndexed, contents, bubble_down-Keeps}
use dartino_sdk.PriorityHeap.Valid.{IsValid}
use dartino_sdk.PriorityHeap.Moved.{
  moved, replace_lem, Erased, size-moved, moved_cell, moved_roomed, moved-IsIndexed, moved-Erased,
  moved-DownInv, moved_stays,
}

-- The heap after the last entry is erased.
cut : PriorityHeap → PriorityHeap
cut h = record h {
  items = take (size h - 1) h.items;
  index = update h.index (at h.items (size h - 1)).value none;
  count = h.count - 1;
}

module _ (h : PriorityHeap) (valid : IsValid h) (full : 0 < size h) where
  size-cut : size (cut h) ≡ size h - 1
  unfolding cut
  size-cut = omega (arith, length-take (size h - 1) h.items)

  cut_cell : (i : ℕ) → i < size h - 1 → at (cut h).items i ≡ at h.items i
  unfolding cut
  cut_cell i q = at-take (size h - 1) h.items i q

  cut_index : (w : ℕ) → (cut h).index w ≡ update h.index (at h.items (size h - 1)).value none w
  unfolding cut
  cut_index w = refl

  cut_count : (cut h).count ≡ h.count - 1
  unfolding cut
  cut_count = refl

  cut-IsIndexed : IsIndexed (cut h)
  cut-IsIndexed = record {
    counted = omega (arith, cut_count, size-cut, valid.indexed.counted);
    named = λ i q. ground (
      arith,
      size-cut,
      cut_cell i,
      cut_index (at (cut h).items i).value,
      valid.indexed.named i,
      valid.indexed.named (size h - 1),
    );
    found = λ w i e. ground (
      arith,
      size-cut,
      cut_cell i,
      cut_index w,
      valid.indexed.found w i,
      valid.indexed.named (size h - 1),
    );
  }

  cut-Erased : Erased h (at h.items (size h - 1)).value (cut h)
  unfolding contents
  cut-Erased w = elim (Option-cases (h.index w)) [
    | inl e ↦ ground (arith, cut_index w, e)
    | inr (i, e) ↦ ground (arith, cut_index w, e, valid.indexed.found w i e, cut_cell i)
  ]

  cut-IsHeap : IsHeap (cut h).items
  cut-IsHeap c p q = ground (arith, size-cut, cut_cell c, cut_cell (parent c), valid.ordered c)

-- Removing the entry at `offset` puts the last entry below a larger one.
abbrev pub Misplaces : PriorityHeap → ℕ → Type 0
Misplaces h offset =
    (0 < offset) × (offset < size h - 1) × (key h.items (size h - 1) < key h.items (parent offset))

-- The heap that RemoveAt leaves.
pub record Dropped (h : PriorityHeap) (offset : ℕ) (h' : PriorityHeap) : Type 0 where
  pub indexed : IsIndexed h'
  pub sized : size h' ≡ size h - 1
  pub roomed : h'.backing_size ≡ h.backing_size
  pub erased : Erased h (at h.items offset).value h'
  pub ordered : ¬ Misplaces h offset → IsHeap h'.items
  pub disordered : Misplaces h offset → ¬ IsHeap h'.items

placed :
    (h : PriorityHeap) (offset : ℕ)
    → offset < size h - 1
    → ¬ Misplaces h offset
    → (offset ≡ 0) ⊎ (key h.items (parent offset) ≤ key h.items (size h - 1))
placed h offset inner fine = elim (ℕ_discrete offset 0) [
  | yes e ↦ inl e
  | no ne ↦ elim (dec_le (key h.items (parent offset)) (key h.items (size h - 1))) [
    | yes le ↦ inr le
    | no gt ↦ absurd (fine (omega arith, inner, omega arith))
  ]
]

drop_inner :
    (h : PriorityHeap) (offset : ℕ)
    → IsValid h
    → offset < size h - 1
    → Dropped h offset (bubble_down (size h) (moved h offset) offset)
drop_inner h offset valid inner =
    let n = size-moved h offset valid inner in
    let k =
      bubble_down-Keeps (size h) (moved h offset) offset (moved-IsIndexed h offset valid inner) in
    record {
      indexed = k.indexed;
      sized = k.sized ∙ n;
      roomed = k.roomed ∙ moved_roomed h offset valid inner;
      erased = λ w. k.same w ∙ moved-Erased h offset valid inner w;
      ordered = λ fine.
          bubble_down-IsHeap (size h) (moved h offset) offset (omega (arith, n))
            (moved-DownInv h offset valid inner (placed h offset inner fine));
      disordered = λ (pos, _, less). rw (moved_stays h offset valid inner pos less (size h)) (λ o.
          ground (
            arith,
            n,
            o offset,
            moved_cell h offset valid inner offset,
            moved_cell h offset valid inner (parent offset),
          ));
    }

pub drop_at_lem :
    (h : PriorityHeap) (offset : ℕ)
    → IsValid h
    → offset < size h
    → (h' : PriorityHeap) × (drop_at h offset ≡ some h') × Dropped h offset h'
unfolding drop_at cut
drop_at_lem h offset valid inside = elim (Bool-cases (offset == size h - 1)) [
  | inr inner ↦
      let lt : offset < size h - 1 = ground arith in
      (
        bubble_down (size h) (moved h offset) offset,
        rw inner (replace_lem h offset offset (valid.indexed.named offset inside)),
        drop_inner h offset valid lt,
      )
  | inl last ↦
      let e : offset ≡ size h - 1 = ground arith in
      let there = valid.indexed.named (size h - 1) (omega arith) in
      let self : (size h - 1 == size h - 1) ≡ true = ground arith in
      subst (λ o. (h' : PriorityHeap) × (drop_at h o ≡ some h') × Dropped h o h') (sym e)
        (
          cut h,
          rw (self, there) refl,
          record {
            indexed = cut-IsIndexed h valid (omega arith);
            sized = size-cut h valid (omega arith);
            roomed = refl;
            erased = cut-Erased h valid (omega arith);
            ordered = λ _. cut-IsHeap h valid (omega arith);
            disordered = λ (_, lt, _). absurd (omega arith);
          },
        )
]
