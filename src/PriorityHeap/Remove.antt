-- ===== src/PriorityHeap/Remove.antt =====
-- RemoveAt, and its callers RemoveMinimum and RemoveByValue.
use dartino_sdk.Base.{
  ℕ, ◌-◌, ◌/◌, ◌≤◌, ◌<◌, ◌≡◌, ◌⊎◌, inl, inr, refl, true, false, none, some, arith, leb, ltb, not,
  ◌==◌, ◌&&◌, Option-cases, Bool-cases, subst,
}
use dartino_sdk.PriorityHeap.{
  Entry, PriorityHeap, remove_at, remove_minimum, remove_by_value, is_empty, at, size,
}
use dartino_sdk.PriorityHeap.Order.{IsHeap}
use dartino_sdk.PriorityHeap.Contents.{IsIndexed, contents}
use dartino_sdk.PriorityHeap.Valid.{IsValid}
use dartino_sdk.PriorityHeap.{shrink, resize, minimum}
use dartino_sdk.PriorityHeap.Moved.{Erased}
use dartino_sdk.PriorityHeap.Dropped.{Misplaces, drop_at_lem}

-- What RemoveAt leaves, with its ASSERT met: a smaller map, and the heap order unless the removal
-- misplaces the last entry.
pub record Removed (h : PriorityHeap) (offset : ℕ) (h' : PriorityHeap) : Type 0 where
  pub indexed : IsIndexed h'
  pub sized : size h' ≡ size h - 1
  pub fits : size h' ≤ h'.backing_size
  pub positive : 0 < h'.backing_size
  pub erased : Erased h (at h.items offset).value h'
  pub ordered : ¬ Misplaces h offset → IsHeap h'.items
  pub disordered : Misplaces h offset → ¬ IsHeap h'.items

remove_at_lem :
    (h : PriorityHeap) (offset : ℕ)
    → IsValid h
    → offset < size h
    → (h' : PriorityHeap) × (remove_at h offset ≡ some h') × Removed h offset h'
unfolding remove_at shrink contents resize
remove_at_lem h offset valid inside =
    let (g, run, d) = drop_at_lem h offset valid inside in
    let ok : ltb offset (size h) ≡ true = ground arith in
    elim (Bool-cases (leb (size g) (g.backing_size / 4) && leb 16 (g.backing_size / 2))) [
      | inl smaller ↦
          let room : (ltb (size g) (g.backing_size / 2)
                && not (g.backing_size / 2 == g.backing_size))
              ≡ true =
            ground arith in
          (
            record g { backing_size = g.backing_size / 2 },
            rw (ok, run, smaller, room) refl,
            record {
              indexed = record {
                named = d.indexed.named;
                found = d.indexed.found;
                counted = d.indexed.counted;
              };
              sized = d.sized;
              fits = ground (arith, d.sized);
              positive = ground arith;
              erased = d.erased;
              ordered = d.ordered;
              disordered = d.disordered;
            },
          )
      | inr same ↦ (
        g,
        rw (ok, run, same) refl,
        record {
          indexed = d.indexed;
          sized = d.sized;
          fits = omega (arith, d.sized, d.roomed, valid.fits);
          positive = omega (arith, d.roomed, valid.positive);
          erased = d.erased;
          ordered = d.ordered;
          disordered = d.disordered;
        },
      )
    ]

-- RemoveMinimum on a valid heap takes the entry that Minimum shows out of the map and keeps the
-- heap valid; an ASSERT fails on the empty heap alone.
pub remove_minimum_lem :
    (h : PriorityHeap)
    → IsValid h
    → ((remove_minimum h ≡ none) × (size h ≡ 0))
      ⊎ ((e : Entry) × (h' : PriorityHeap) × (minimum h ≡ some e)
          × (remove_minimum h ≡ some h')
          × IsValid h'
          × Erased h e.value h')
unfolding remove_minimum minimum is_empty
remove_minimum_lem h valid = elim (Bool-cases (size h == 0)) [
  | inl empty ↦ inl (rw empty refl, ground arith)
  | inr full ↦
      let (h', e, r) = remove_at_lem h 0 valid (ground arith) in
      inr (
        at h.items 0,
        h',
        rw full refl,
        rw full e,
        record {
          ordered = r.ordered (λ m. absurd (omega (arith, m.0)));
          indexed = r.indexed;
          fits = r.fits;
          positive = r.positive;
        },
        r.erased,
      )
]

-- RemoveByValue on a valid heap fails no ASSERT: it takes a value that is there out of the map
-- and answers true, or answers false and changes nothing if the value is not there. The heap is
-- valid afterwards if and only if the last entry was not put below a parent with a larger
-- priority.
pub remove_by_value_lem :
    (h : PriorityHeap) (v : ℕ)
    → IsValid h
    → ((remove_by_value h v ≡ some (false, h)) × (contents h v ≡ none))
      ⊎ ((i : ℕ) × (h' : PriorityHeap) × (remove_by_value h v ≡ some (true, h'))
          × (h.index v ≡ some i)
          × Erased h v h'
          × (¬ Misplaces h i → IsValid h')
          × (Misplaces h i → ¬ IsValid h'))
unfolding remove_by_value contents
remove_by_value_lem h v valid = elim (Option-cases (h.index v)) [
  | inl e ↦ inl (ground (arith, e), ground (arith, e))
  | inr (i, e) ↦
      let (inside, named) = valid.indexed.found v i e in
      let (h', run, r) = remove_at_lem h i valid inside in
      inr (
        i,
        h',
        (let counted : (h'.count == size h') ≡ true = ground (arith, r.indexed.counted) in
            rw (remove_by_value, e, run, counted) refl),
        e,
        subst (λ w. Erased h w h') named r.erased,
        (λ fine. record {
          ordered = r.ordered fine;
          indexed = r.indexed;
          fits = r.fits;
          positive = r.positive;
        }),
        λ bad u. r.disordered bad u.ordered,
      )
]
