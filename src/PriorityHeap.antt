-- ===== src/PriorityHeap.antt =====
-- src/vm/priority_heap.h: PriorityHeapWithValueIndex<int64, Port*>, the timeouts of the event
-- handler. A port is a number, and so is a priority, a time in milliseconds that is not negative.
-- The hash map enters as the map that it stands for, with the number of its keys, and the block of entries by its first `size_`
-- cells with the number of cells that it has room for; malloc does not fail.
-- `none` is an ASSERT that fails.
pub mod Cells
pub mod Order
pub mod Contents
pub mod Valid
pub mod Insert
pub mod Moved
pub mod Dropped
pub mod Remove
pub mod Changed
pub mod Change
mod Tests
use dartino_sdk.Base.{
  ℕ, zero, suc, ◌+◌, ◌-◌, ◌*◌, ◌/◌, ◌%◌, ◌^◌, ◌≡◌, Bool, true, false, Option, none, some, List, [],
  ◌∷◌, ◌++◌, not, ◌&&◌, length, take, set, ltb, leb, ◌==◌, if◌then◌else◌,
}
use dartino_sdk.Memory.{◌>>=◌}

pub record Entry : Type 0 where
  pub priority : ℕ
  pub value : ℕ

pub record PriorityHeap : Type 0 where
  pub backing_size : ℕ
  pub items : List Entry
  pub index : ℕ → Option ℕ
  pub count : ℕ

abbrev pub minimum_size : ℕ
minimum_size = 16

-- The cell `i`; every index that the code uses is checked against the size first.
pub at : List Entry → ℕ → Entry
at [] i = record { priority = 0; value = 0 }
at (x ∷ xs) zero = x
at (x ∷ xs) (suc i) = at xs i

abbrev pub key : List Entry → ℕ → ℕ
key xs i = (at xs i).priority

abbrev pub size : PriorityHeap → ℕ
size h = length h.items

-- The hash map after one key is given a value, or erased.
abbrev pub update : (ℕ → Option ℕ) → ℕ → Option ℕ → ℕ → Option ℕ
update f v r w = if v == w then r else f w

-- The size of the hash map after `hashmap_[v] = ...`, which adds the key if it is not there.
abbrev pub assigned : (ℕ → Option ℕ) → ℕ → ℕ → ℕ
assigned f v n = elim (f v) [ none ↦ n + 1 | some i ↦ n ]

abbrev pub is_some : Option ℕ → Bool
is_some none = false
is_some (some i) = true

pub init : PriorityHeap
init = record { backing_size = minimum_size; items = []; index = λ v. none; count = 0 }

pub is_empty : PriorityHeap → Bool
is_empty h = size h == 0

pub contains_value : PriorityHeap → ℕ → Bool
contains_value h v = is_some (h.index v)

abbrev pub parent : ℕ → ℕ
parent i = (i - 1) / 2

pub swap : PriorityHeap → ℕ → ℕ → PriorityHeap
swap h a b =
    let x = at h.items a in
    let y = at h.items b in
    record h {
      items = set (set h.items a y) b x;
      index = update (update h.index y.value (some a)) x.value (some b);
      count = assigned (update h.index y.value (some a)) x.value (assigned h.index y.value h.count);
    }

-- BubbleUp. It swaps where the parent's priority is larger, and goes on to the root.
pub bubble_up : ℕ → PriorityHeap → ℕ → PriorityHeap
bubble_up zero h offset = h
bubble_up (suc fuel) h offset = elim (offset == 0) [
  | true ↦ h
  | false ↦
      bubble_up fuel
        (if ltb (key h.items offset) (key h.items (parent offset))
          then swap h (parent offset) offset
          else h)
        (parent offset)
]

-- The cell that BubbleDown swaps with: the smallest of the cell and its children.
pub smallest_index : PriorityHeap → ℕ → ℕ
smallest_index h offset =
    let left = 2 * offset + 1 in
    let right = left + 1 in
    let smallest = if ltb (key h.items left) (key h.items offset) then left else offset in
    if ltb right (size h) && ltb (key h.items right) (key h.items smallest) then right else smallest

pub bubble_down : ℕ → PriorityHeap → ℕ → PriorityHeap
bubble_down zero h offset = h
bubble_down (suc fuel) h offset =
    elim (ltb (2 * offset + 1) (size h) && not (offset == smallest_index h offset)) [
      | true ↦ bubble_down fuel (swap h offset (smallest_index h offset)) (smallest_index h offset)
      | false ↦ h
    ]

-- Resize, with both its ASSERTs, keeps the entries; only the room changes.
pub resize : PriorityHeap → ℕ → Option PriorityHeap
resize h n =
    if ltb (size h) n && not (n == h.backing_size)
    then some (record h { backing_size = n })
    else none

-- Insert, with its ASSERT.
pub insert : PriorityHeap → ℕ → ℕ → Option PriorityHeap
insert h priority value =
    if contains_value h value
    then none
    else (if size h == h.backing_size then resize h (h.backing_size * 2) else some h) >>= λ grown.
        let placed = record grown {
          items = h.items ++ record { priority = priority; value = value } ∷ [];
          index = update h.index value (some (size h));
          count = assigned h.index value h.count;
        } in
        some (bubble_up (size h + 1) placed (size h))

pub minimum : PriorityHeap → Option Entry
minimum h = if is_empty h then none else some (at h.items 0)

-- Replace, with its ASSERT and the entry that it drops.
pub replace : PriorityHeap → ℕ → ℕ → Option PriorityHeap
replace h i other =
    let entry = at h.items other in
    let erased = update h.index (at h.items i).value none in
    elim (h.index (at h.items i).value) [
      | none ↦ none
      | some _ ↦ some (record h {
        items = set h.items i entry;
        index = update erased entry.value (some i);
        count = assigned erased entry.value (h.count - 1);
      })
    ]

-- RemoveAt, before the block shrinks: the last cell goes, behind the ASSERT that its value is in the
-- hash map, or takes the place of the one removed.
pub drop_at : PriorityHeap → ℕ → Option PriorityHeap
drop_at h offset =
    let last = size h - 1 in
    if offset == last
    then (elim (h.index (at h.items offset).value) [
      | none ↦ none
      | some _ ↦ some (record h {
        items = take last h.items;
        index = update h.index (at h.items offset).value none;
        count = h.count - 1;
      })
    ])
    else (replace h offset last >>= λ moved.
        some (bubble_down (size h) (record moved { items = take last moved.items }) offset))

pub shrink : PriorityHeap → Option PriorityHeap
shrink h =
    if leb (size h) (h.backing_size / 4) && leb minimum_size (h.backing_size / 2)
    then resize h (h.backing_size / 2)
    else some h

pub remove_at : PriorityHeap → ℕ → Option PriorityHeap
unfolding shrink
remove_at h offset = if ltb offset (size h) then drop_at h offset >>= shrink else none

pub remove_minimum : PriorityHeap → Option PriorityHeap
remove_minimum h = if is_empty h then none else remove_at h 0

-- RemoveByValue, with its ASSERT on the size of the hash map.
pub remove_by_value : PriorityHeap → ℕ → Option (Bool × PriorityHeap)
remove_by_value h v = elim (h.index v) [
  | some offset ↦ remove_at h offset >>= λ h'. if h'.count == size h' then some (true, h') else none
  | none ↦ some (false, h)
]

-- `int diff = a - b` on 64-bit priorities: the low 32 bits, read as a signed number.
abbrev pub diff_bits : ℕ → ℕ → ℕ
diff_bits a b = (a + 2 ^ 64 - b) % 2 ^ 32

abbrev pub diff_negative : ℕ → ℕ → Bool
diff_negative a b = leb (2 ^ 31) (diff_bits a b)

abbrev pub diff_positive : ℕ → ℕ → Bool
diff_positive a b = ltb 0 (diff_bits a b) && ltb (diff_bits a b) (2 ^ 31)

pub change_priority : PriorityHeap → ℕ → ℕ → PriorityHeap
change_priority h priority offset =
    let changed = record h {
      items = set h.items offset (record (at h.items offset) { priority = priority });
    } in
    if offset == 0
    then bubble_down (size h + 1) changed offset
    else if diff_negative priority (key changed.items (parent offset))
    then bubble_up (offset + 1) changed offset
    else if diff_positive priority (key changed.items (parent offset))
    then bubble_down (size h + 1) changed offset
    else changed

pub insert_or_change_priority : PriorityHeap → ℕ → ℕ → Option (Bool × PriorityHeap)
insert_or_change_priority h priority value = elim (h.index value) [
  | none ↦ insert h priority value >>= λ h'. some (true, h')
  | some offset ↦
      if ltb offset (size h) then some (false, change_priority h priority offset) else none
]
