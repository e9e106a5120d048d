-- ===== src/PriorityHeap/Insert.antt =====
-- Insert adds one entry to the map.
use dartino_sdk.Base.{ℕ, some, [], ◌∷◌, ◌++◌}
use dartino_sdk.PriorityHeap.{Entry, PriorityHeap, size, update, assigned}

abbrev entry : ℕ → ℕ → Entry
entry priority value = record { priority = priority; value = value }

-- The heap with the entry in the cell behind the last, before BubbleUp.
place : PriorityHeap → ℕ → ℕ → ℕ → PriorityHeap
place h priority value backing = record {
  backing_size = backing;
  items = h.items ++ entry priority value ∷ [];
  index = update h.index value (some (size h));
  count = assigned h.index value h.count;
}
