-- ===== src/PriorityHeap/Tests.antt =====
-- Runs of the priority heap, and its theorems at concrete heaps.
use dartino_sdk.Base.{
  ℕ, ◌≤◌, ◌≡◌, ◌⊎◌, refl, true, false, none, some, List, [], ◌∷◌, arith, ltb, if◌then◌else◌, map,
}
use dartino_sdk.Memory.{◌>>=◌}
use dartino_sdk.PriorityHeap.{
  Entry, PriorityHeap, init, insert, minimum, remove_minimum, remove_by_value, change_priority, at,
  size, contains_value, resize, bubble_up, swap, remove_at, shrink, drop_at, replace, bubble_down,
  smallest_index,
}
use dartino_sdk.PriorityHeap.Contents.{contents}
use dartino_sdk.PriorityHeap.Valid.{IsValid, minimum_lem}
use dartino_sdk.PriorityHeap.Moved.{Erased}
use dartino_sdk.PriorityHeap.Dropped.{Misplaces}
use dartino_sdk.PriorityHeap.Remove.{remove_minimum_lem, remove_by_value_lem}
use dartino_sdk.PriorityHeap.Change.{change_far}

abbrev e : ℕ → ℕ → Entry
e p v = record { priority = p; value = v }

-- Five timeouts, of ports 0 to 4.
abbrev sample : PriorityHeap
sample = record {
  backing_size = 16;
  items = e 1 0 ∷ e 10 1 ∷ e 2 2 ∷ e 11 3 ∷ e 12 4 ∷ e 3 5 ∷ [];
  index = λ v. if ltb v 6 then some v else none;
  count = 6;
}

sample-IsValid : IsValid sample
unfolding at
sample-IsValid = record {
  ordered = λ c p q. grind arith;
  indexed = record { named = λ i q. grind arith; found = λ v i h. grind arith; counted = refl };
  fits = omega arith;
  positive = omega arith;
}

abbrev priorities : PriorityHeap → List ℕ
priorities h = map (λ x. x.priority) h.items

inserted :
    (insert init 5 7 >>= λ h. insert h 3 8 >>= λ h. insert h 4 9 >>= λ h. some (priorities h))
    ≡ some (3 ∷ 5 ∷ 4 ∷ [])
unfolding insert init contains_value resize bubble_up swap at
inserted = refl

-- Removing port 3 puts the entry of port 5 below that of port 1.
misplaced :
    (remove_by_value sample 3 >>= λ (b, h). some (priorities h)) ≡ some (1 ∷ 10 ∷ 2 ∷ 3 ∷ 12 ∷ [])
unfolding remove_by_value remove_at shrink drop_at replace resize bubble_down smallest_index swap at
misplaced = refl

minimum_lem_example :
    ((minimum sample ≡ none) × (size sample ≡ 0))
    ⊎ ((x : Entry) × (minimum sample ≡ some x)
        × (contents sample x.value ≡ some x.priority)
        × ((v p : ℕ) → contents sample v ≡ some p → x.priority ≤ p))
minimum_lem_example = minimum_lem sample sample-IsValid

remove_minimum_lem_example :
    ((remove_minimum sample ≡ none) × (size sample ≡ 0))
    ⊎ ((x : Entry) × (h : PriorityHeap) × (minimum sample ≡ some x)
        × (remove_minimum sample ≡ some h)
        × IsValid h
        × Erased sample x.value h)
remove_minimum_lem_example = remove_minimum_lem sample sample-IsValid

remove_by_value_lem_example :
    ((remove_by_value sample 3 ≡ some (false, sample)) × (contents sample 3 ≡ none))
    ⊎ ((i : ℕ) × (h : PriorityHeap) × (remove_by_value sample 3 ≡ some (true, h))
        × (sample.index 3 ≡ some i)
        × Erased sample 3 h
        × (¬ Misplaces sample i → IsValid h)
        × (Misplaces sample i → ¬ IsValid h))
remove_by_value_lem_example = remove_by_value_lem sample 3 sample-IsValid

change_far_example : ¬ IsValid (change_priority sample 2200000000 1)
unfolding at
change_far_example =
    change_far sample 2200000000 1 3 sample-IsValid (omega arith) (omega arith) (omega arith)
      (omega arith) (omega arith) (omega arith) (refl) (omega arith)
