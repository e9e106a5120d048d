-- ===== src/PriorityHeap/Change.antt =====
-- InsertOrChangePriority on a value that is there. The sign of a 64-bit difference is read off an
-- `int`, so it is right for priorities less than 2^31 apart.
use dartino_sdk.Base.{
  ℕ, ◌+◌, ◌^◌, ◌≤◌, ◌<◌, ◌≡◌, true, false, some, arith, ◌==◌, if◌then◌else◌, subst, le→leb,
}
use dartino_sdk.PriorityHeap.{PriorityHeap, change_priority, diff_negative, at, key, size, parent}
use dartino_sdk.PriorityHeap.Order.{IsHeap}
use dartino_sdk.PriorityHeap.Contents.{IsIndexed, contents}
use dartino_sdk.PriorityHeap.Valid.{IsValid}
use dartino_sdk.PriorityHeap.Changed.{changed, size-changed, changed_cell, up_stays}

-- The new priority is close enough to the parent's for the sign of the difference.
abbrev pub IsClose : PriorityHeap → ℕ → ℕ → Type 0
IsClose h p i =
    (p < key h.items (parent i) + 2 ^ 31)
    × (key h.items (parent i) < p + 2 ^ 31)
    × (key h.items (parent i) < 2 ^ 63)

far_above : (p q : ℕ) → q + 2 ^ 31 ≤ p → p < q + 2 ^ 32 → q < 2 ^ 63 → diff_negative p q ≡ true
far_above p q le close big = le→leb _ _ (omega arith)

module _ (h : PriorityHeap) (p i : ℕ) (valid : IsValid h) (inside : i < size h) where
  abbrev above : ℕ
  above = key h.items (parent i)

  -- One branch of the code, given what that branch keeps and brings about.
  abbrev Changed : PriorityHeap → Type 0
  Changed h' =
      IsIndexed h'
      × (size h' ≡ size h)
      × (h'.backing_size ≡ h.backing_size)
      × ((w : ℕ) → contents h' w ≡ (if (at h.items i).value == w then some p else contents h w))

  at_parent : 0 < i → key (changed h p i).items (parent i) ≡ above
  at_parent pos = ground (arith, changed_cell h p i valid inside (parent i))

far_stays :
    (h : PriorityHeap) (p i : ℕ)
    → IsValid h
    → 0 < i
    → i < size h
    → key h.items (parent i) < 2 ^ 63
    → key h.items (parent i) + 2 ^ 31 ≤ p
    → p < key h.items (parent i) + 2 ^ 32
    → change_priority h p i ≡ changed h p i
unfolding change_priority changed
far_stays h p i valid pos inside big far close =
    let c : PriorityHeap = changed h p i in
    let below : (i == 0) ≡ false = ground arith in
    let cell = changed_cell h p i valid inside in
    let fixed =
      up_stays (i + 1) c i (λ d q r. ground (arith, valid.ordered d, cell d, cell (parent d))) in
    rw (below, at_parent h p i valid inside pos, far_above p _ far close big) fixed

-- In a valid heap, a new priority that is larger than a child of the entry has, and larger than
-- the parent of the entry has by 2^31 or more but less than 2^32, leaves the heap invalid: the
-- int difference reads as negative.
pub change_far :
    (h : PriorityHeap) (p i c : ℕ)
    → IsValid h
    → 0 < i
    → key h.items (parent i) < 2 ^ 63
    → key h.items (parent i) + 2 ^ 31 ≤ p
    → p < key h.items (parent i) + 2 ^ 32
    → i < c
    → c < size h
    → parent c ≡ i
    → key h.items c < p
    → ¬ IsValid (change_priority h p i)
change_far h p i c valid pos big far close lt inside child less u =
    let here : i < size h = omega arith in
    let stays = far_stays h p i valid pos here big far close in
    let o : IsHeap (changed h p i).items = subst (λ g. IsHeap g.items) stays u.ordered in
    let cell = changed_cell h p i valid here in
    ground (arith, o c, cell c, cell i, size-changed h p i valid here)
