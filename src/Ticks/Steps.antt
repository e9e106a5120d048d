-- ===== src/Ticks/Steps.antt =====
-- Every step of the producer or the consumer keeps the invariant.
use dartino_sdk.Base.{
  ℕ, zero, suc, ◌+◌, ◌%◌, ◌<◌, ◌≡◌, refl, sym, ap, ◌∙◌, subst, false, some, List, [], ◌∷◌, ◌++◌,
  arith, length, take, set, get_elem?, ltb, ltb→lt, ◌==◌, ==_iff, Bool-cases, inl, inr,
  length-append, length-set, get_elem?-append_left, get_elem?-append_right,
}
use dartino_sdk.Memory.{get_elem?-set, take-append_le}
use dartino_sdk.Ticks.{
  TickSample, TickQueue, Producer, Consumer, World, Step, Reach, next, start_add, start_remove,
  complete_add, complete_remove, after_start_add, after_start_remove,
}
use dartino_sdk.Ticks.Valid.{Inv, ProducerOk, ConsumerOk, start-Inv}

pub next-mod : (n : ℕ) → next (n % 1024) ≡ (n + 1) % 1024
unfolding next
next-mod n = ground arith

take_suc :
    {A : Type 0} (xs : List A) (n : ℕ) (a : A)
    → get_elem? xs n ≡ some a
    → take (n + 1) xs ≡ take n xs ++ a ∷ []
take_suc [] n a h = absurd (ground arith)
take_suc (x ∷ xs) zero a h = ground arith
take_suc (x ∷ xs) (suc n) a h =
    ap (λ k. take k (x ∷ xs)) {y = suc (n + 1)} (omega arith)
    ∙ ap (λ ys. x ∷ ys) (take_suc xs n a h)

module _ (w : World) (v : Inv w) where
  producer_at :
      (p : Producer)
      → w.producer ≡ p
      → ProducerOk p (length w.added) (length w.removed) w.queue.buffer
  producer_at p e =
      subst (λ q. ProducerOk q (length w.added) (length w.removed) w.queue.buffer) e v.producer_ok

  consumer_at : (c : Consumer) → w.consumer ≡ c → ConsumerOk c (length w.removed) w.added
  consumer_at c e = subst (λ q. ConsumerOk q (length w.removed) w.added) e v.consumer_ok

  -- A step that leaves the buffer, the positions and the samples as they are.
  moved-Inv :
      (q : TickQueue) (p : Producer) (c : Consumer)
      → q.buffer ≡ w.queue.buffer
      → q.add_pos ≡ w.queue.add_pos
      → q.remove_pos ≡ w.queue.remove_pos
      → ProducerOk p (length w.added) (length w.removed) w.queue.buffer
      → ConsumerOk c (length w.removed) w.added
      → Inv (record w { queue = q; producer = p; consumer = c })
  moved-Inv q p c b a r pok cok = record {
    sized = ap length b ∙ v.sized;
    add_at = a ∙ v.add_at;
    remove_at = r ∙ v.remove_at;
    ordered = v.ordered;
    room = v.room;
    front = v.front;
    cells = λ i h k. ap (λ xs. get_elem? xs (i % 1024)) b ∙ v.cells i h k;
    producer_ok = subst (λ xs. ProducerOk p (length w.added) (length w.removed) xs) (sym b) pok;
    consumer_ok = cok;
  }

  load_remove-Inv : Inv (record w { producer = Producer.loaded w.queue.remove_pos })
  load_remove-Inv =
      moved-Inv w.queue (Producer.loaded w.queue.remove_pos) w.consumer refl refl refl
        (length w.removed, v.remove_at, omega arith, v.room) v.consumer_ok

  load_add-Inv : Inv (record w { consumer = Consumer.seen w.queue.add_pos })
  load_add-Inv =
      (moved-Inv w.queue w.producer (Consumer.seen w.queue.add_pos) refl refl refl v.producer_ok
        (length w.added, v.add_at, v.ordered, omega arith))

  begin_add-Inv :
      (rp : ℕ)
      → w.producer ≡ Producer.loaded rp
      → Inv (record w {
        queue = (start_add w.queue rp).1;
        producer = after_start_add (start_add w.queue rp).0;
      })
  unfolding start_add
  begin_add-Inv rp e =
      let (r, at, old, room) = producer_at (Producer.loaded rp) e in
      let n = ap next v.add_at ∙ next-mod (length w.added) in
      elim (Bool-cases (next w.queue.add_pos == rp)) [
        | inl full ↦ rw full (
            moved-Inv (record w.queue { discarded_ticks = w.queue.discarded_ticks + 1 })
              Producer.idle w.consumer refl refl refl tt v.consumer_ok)
        | inr more ↦ rw more (
            moved-Inv w.queue (Producer.adding w.queue.add_pos) w.consumer refl refl refl
              (v.add_at, ground (arith, n, at, old, room)) v.consumer_ok)
      ]

  fill-Inv :
      (slot : ℕ) (s : TickSample)
      → w.producer ≡ Producer.adding slot
      → Inv (record w {
        queue = record w.queue { buffer = set w.queue.buffer slot s };
        producer = Producer.filled s;
      })
  fill-Inv slot s e =
      let (at, room) = producer_at (Producer.adding slot) e in
      let inside : slot < length w.queue.buffer = omega (arith, at, v.sized) in
      record {
        sized = length-set w.queue.buffer slot s ∙ v.sized;
        add_at = v.add_at;
        remove_at = v.remove_at;
        ordered = v.ordered;
        room = v.room;
        front = v.front;
        cells = λ i h k.
            let apart : (slot == i % 1024) ≡ false = ground (arith, at, room) in
            get_elem?-set w.queue.buffer slot (i % 1024) s inside ∙ rw apart (v.cells i h k);
        producer_ok = (
          room,
          get_elem?-set w.queue.buffer slot (length w.added % 1024) s inside
              ∙ rw ((==_iff slot (length w.added % 1024)).1 at) refl,
        );
        consumer_ok = v.consumer_ok;
      }

  begin_remove-Inv :
      (ap' : ℕ)
      → w.consumer ≡ Consumer.seen ap'
      → Inv (record w { consumer = after_start_remove (start_remove w.queue ap') })
  unfolding start_remove
  begin_remove-Inv ap' e =
      let (a, at, low, high) = consumer_at (Consumer.seen ap') e in
      elim (Bool-cases (w.queue.remove_pos == ap')) [
        | inl none_there ↦
            rw none_there
              (moved-Inv w.queue w.producer Consumer.waiting refl refl refl v.producer_ok tt)
        | inr more ↦ rw more (
            moved-Inv w.queue w.producer (Consumer.removing w.queue.remove_pos) refl refl refl
              v.producer_ok (v.remove_at, ground (arith, at, low, high, v.remove_at)))
      ]

  take_sample-Inv :
      (slot : ℕ) (s : TickSample)
      → w.consumer ≡ Consumer.removing slot
      → get_elem? w.queue.buffer slot ≡ some s
      → Inv (record w { consumer = Consumer.taken s })
  take_sample-Inv slot s e found =
      let (at, more) = consumer_at (Consumer.removing slot) e in
      (moved-Inv w.queue w.producer (Consumer.taken s) refl refl refl v.producer_ok (
        more,
        sym (v.cells (length w.removed) (omega arith) more)
            ∙ ap (get_elem? w.queue.buffer) (sym at)
            ∙ found,
      ))

  end_add-Inv :
      (s : TickSample)
      → w.producer ≡ Producer.filled s
      → Inv (record w {
        queue = complete_add w.queue;
        producer = Producer.idle;
        added = w.added ++ s ∷ [];
      })
  unfolding complete_add
  end_add-Inv s e =
      let (room, found) = producer_at (Producer.filled s) e in
      let l : length (w.added ++ s ∷ []) ≡ length w.added + 1 = length-append w.added (s ∷ []) in
      record {
        sized = v.sized;
        add_at = ap next v.add_at ∙ next-mod (length w.added) ∙ ap (λ n. n % 1024) (sym l);
        remove_at = v.remove_at;
        ordered = omega (arith, l, v.ordered);
        room = omega (arith, l, room);
        front = v.front ∙ sym (take-append_le (length w.removed) w.added (s ∷ []) v.ordered);
        cells = λ i h k. elim (Bool-cases (ltb i (length w.added))) [
          | inl e' ↦
              let j = ltb→lt i (length w.added) e' in
              v.cells i h j ∙ sym (get_elem?-append_left w.added (s ∷ []) i j)
          | inr e' ↦
              let last : i ≡ length w.added = ground (arith, l, k) in
              ap (λ n. get_elem? w.queue.buffer (n % 1024)) last
              ∙ found
              ∙ sym (
                  ap (get_elem? (w.added ++ s ∷ [])) {y = length w.added + 0} (omega (arith, last))
                  ∙ get_elem?-append_right w.added (s ∷ []) 0)
        ];
        producer_ok = tt;
        consumer_ok = longer w.consumer v.consumer_ok;
      }
    where
      longer :
          (c : Consumer)
          → ConsumerOk c (length w.removed) w.added
          → ConsumerOk c (length w.removed) (w.added ++ s ∷ [])
      longer Consumer.waiting h = tt
      longer (Consumer.seen a) (a', at, low, high) =
          (a', at, low, omega (arith, high, length-append w.added (s ∷ [])))
      longer (Consumer.removing slot) (at, more) =
          (at, omega (arith, more, length-append w.added (s ∷ [])))
      longer (Consumer.taken t) (more, at) = (
        omega (arith, more, length-append w.added (s ∷ [])),
        get_elem?-append_left w.added (s ∷ []) (length w.removed) more ∙ at,
      )

  end_remove-Inv :
      (s : TickSample)
      → w.consumer ≡ Consumer.taken s
      → Inv (record w {
        queue = complete_remove w.queue;
        consumer = Consumer.waiting;
        removed = w.removed ++ s ∷ [];
      })
  unfolding complete_remove
  end_remove-Inv s e =
      let (more, found) = consumer_at (Consumer.taken s) e in
      let l : length (w.removed ++ s ∷ []) ≡ length w.removed + 1 =
        length-append w.removed (s ∷ []) in
      record {
        sized = v.sized;
        add_at = v.add_at;
        remove_at = ap next v.remove_at ∙ next-mod (length w.removed) ∙ ap (λ n. n % 1024) (sym l);
        ordered = omega (arith, l, more);
        room = omega (arith, l, v.room);
        front =
            ap (λ xs. xs ++ s ∷ []) v.front
            ∙ sym (take_suc w.added (length w.removed) s found)
            ∙ ap (λ n. take n w.added) (sym l);
        cells = λ i h k. v.cells i (omega (arith, l, h)) k;
        producer_ok = further w.producer v.producer_ok;
        consumer_ok = tt;
      }
    where
      further :
          (p : Producer)
          → ProducerOk p (length w.added) (length w.removed) w.queue.buffer
          → ProducerOk p (length w.added) (length (w.removed ++ s ∷ [])) w.queue.buffer
      further Producer.idle h = tt
      further (Producer.loaded rp) (r, at, old, room) =
          (r, at, omega (arith, old, length-append w.removed (s ∷ [])), room)
      further (Producer.adding slot) (at, room) =
          (at, omega (arith, room, length-append w.removed (s ∷ [])))
      further (Producer.filled t) (room, at) =
          (omega (arith, room, length-append w.removed (s ∷ [])), at)

Step-Inv : (v w : World) → Step v w → Inv v → Inv w
Step-Inv _ _ (Step.load_remove v e) i = load_remove-Inv v i
Step-Inv _ _ (Step.begin_add v rp e) i = begin_add-Inv v i rp e
Step-Inv _ _ (Step.fill v slot s e) i = fill-Inv v i slot s e
Step-Inv _ _ (Step.end_add v s e) i = end_add-Inv v i s e
Step-Inv _ _ (Step.load_add v e) i = load_add-Inv v i
Step-Inv _ _ (Step.begin_remove v a e) i = begin_remove-Inv v i a e
Step-Inv _ _ (Step.take_sample v slot s e f) i = take_sample-Inv v i slot s e f
Step-Inv _ _ (Step.end_remove v s e) i = end_remove-Inv v i s e

pub Reach-Valid : (garbage : TickSample) (w : World) → Reach garbage w → Inv w
Reach-Valid garbage _ Reach.here = start-Inv garbage
Reach-Valid garbage _ (Reach.then_step v w r step) = Step-Inv v w step (Reach-Valid garbage v r)
