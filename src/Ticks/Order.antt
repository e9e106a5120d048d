-- ===== src/Ticks/Order.antt =====
-- What the clients of the queue can rely on.
use dartino_sdk.Base.{
  ℕ, ◌+◌, ◌≤◌, ◌≡◌, ◌≢◌, sym, ap, ◌∙◌, subst, none, some, List, ◌++◌, arith, length, drop, ◌==◌,
  if◌then◌else◌, take-drop, length-drop,
}
use dartino_sdk.Ticks.{TickSample, Producer, Consumer, World, Reach, next, start_add, start_remove}
use dartino_sdk.Ticks.Valid.{ProducerOk, ConsumerOk}
use dartino_sdk.Ticks.Steps.{Reach-Valid, next-mod}

module _ (garbage : TickSample) (w : World) (r : Reach garbage w) where
  -- In whatever order the steps of the producer and the consumer interleave, the samples added
  -- are those removed, in the same order, and then at most 1023 that are left.
  pub fifo_lem : (left : List TickSample) × (w.added ≡ w.removed ++ left) × (length left ≤ 1023)
  fifo_lem =
      let v = Reach-Valid garbage w r in
      (
        drop (length w.removed) w.added,
        sym (take-drop (length w.removed) w.added)
            ∙ ap (λ xs. xs ++ drop (length w.removed) w.added) (sym v.front),
        omega (arith, length-drop (length w.removed) w.added, v.room),
      )

  -- In whatever order the steps interleave, when each side holds an entry of the buffer, the
  -- two entries are different.
  pub slots_apart :
      (slot slot' : ℕ)
      → w.producer ≡ Producer.adding slot
      → w.consumer ≡ Consumer.removing slot'
      → slot ≢ slot'
  slots_apart slot slot' e e' same =
      let v = Reach-Valid garbage w r in
      let (at, room) =
        subst (λ p. ProducerOk p (length w.added) (length w.removed) w.queue.buffer) e
          v.producer_ok in
      let (at', more) = subst (λ c. ConsumerOk c (length w.removed) w.added) e' v.consumer_ok in
      omega (arith, at, room, at', more, same)

  -- In every reachable state, StartAdd with the present remove position refuses only when 1023
  -- samples are left, and StartRemove with the present add position refuses only when none is.
  pub start_lem :
      ((start_add w.queue w.queue.remove_pos).0
        ≡ (if length w.added == length w.removed + 1023 then none else some w.queue.add_pos))
      × (start_remove w.queue w.queue.add_pos
          ≡ (if length w.added == length w.removed then none else some w.queue.remove_pos))
  unfolding start_add start_remove
  start_lem =
      let v = Reach-Valid garbage w r in
      let n = ap next v.add_at ∙ next-mod (length w.added) in
      (
        ground (arith, n, v.remove_at, v.room, v.ordered),
        ground (arith, v.add_at, v.remove_at, v.room, v.ordered),
      )
