-- ===== src/Ticks/Tests.antt =====
-- A sample that is added and taken while the next one is added.
use dartino_sdk.Base.{
  ℕ, ◌≡◌, ◌≢◌, ◌≤◌, refl, none, some, List, [], ◌∷◌, ◌++◌, length, replicate, ◌==◌, if◌then◌else◌,
}
use dartino_sdk.Ticks.{
  TickSample, TickQueue, Producer, Consumer, World, Step, Reach, start, init, next, start_add,
  start_remove, complete_add, complete_remove,
}
use dartino_sdk.Ticks.Order.{fifo_lem, slots_apart, start_lem}

abbrev sample : ℕ → TickSample
sample n = record { hashtag = 1; bcp = n; pc = n; sp = 0; fp = 0 }

abbrev queue_at : ℕ → ℕ → TickQueue
queue_at add remove = record {
  discarded_ticks = 0;
  buffer = sample 5 ∷ replicate 1023 (sample 0);
  add_pos = add;
  remove_pos = remove;
}

abbrev world : ℕ → Producer → Consumer → List TickSample → World
world add p c added = record {
  queue = queue_at add 0;
  producer = p;
  consumer = c;
  added = added;
  removed = [];
}

-- One sample is in; both sides hold an entry.
abbrev both : World
both = world 1 (Producer.adding 1) (Consumer.removing 0) (sample 5 ∷ [])

both-Reach : Reach (sample 0) both
unfolding start init start_add start_remove complete_add complete_remove next
both-Reach =
    Reach.then_step _ _
      (Reach.then_step _ _
        (Reach.then_step _ _
          (Reach.then_step _ _
            (Reach.then_step _ _
              (Reach.then_step _ _
                (Reach.then_step _ _ (Reach.then_step _ _ Reach.here (Step.load_remove _ refl))
                  (Step.begin_add _ 0 refl))
                (Step.fill _ 0 (sample 5) refl))
              (Step.end_add _ (sample 5) refl))
            (Step.load_remove _ refl))
          (Step.begin_add _ 0 refl))
        (Step.load_add _ refl))
      (Step.begin_remove _ 1 refl)

fifo_lem_example :
    (left : List TickSample) × (both.added ≡ both.removed ++ left) × (length left ≤ 1023)
fifo_lem_example = fifo_lem (sample 0) both both-Reach

slots_apart_example : ◌≢◌ {A = ℕ} 1 0
slots_apart_example = slots_apart (sample 0) both both-Reach 1 0 refl refl

start_lem_example :
    ((start_add both.queue 0).0 ≡ (if 1 == 1023 then none else some 1))
    × (start_remove both.queue 1 ≡ (if 1 == 0 then none else some 0))
start_lem_example = start_lem (sample 0) both both-Reach
