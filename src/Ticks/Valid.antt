-- ===== src/Ticks/Valid.antt =====
-- What holds between the steps: the positions are the numbers of samples added and removed, and the
-- samples between the two stand in the buffer.
use dartino_sdk.Base.{
  ℕ, ◌+◌, ◌%◌, ◌≤◌, ◌<◌, ◌≡◌, refl, some, List, arith, length, take, get_elem?, length-replicate,
}
use dartino_sdk.Ticks.{TickSample, Producer, Consumer, World, start, init}

abbrev pub ProducerOk : Producer → ℕ → ℕ → List TickSample → Type 0
ProducerOk Producer.idle a r buffer = Unit
ProducerOk (Producer.loaded rp) a r buffer =
    (r' : ℕ) × (rp ≡ r' % 1024) × (r' ≤ r) × (a < r' + 1024)
ProducerOk (Producer.adding slot) a r buffer = (slot ≡ a % 1024) × (a + 1 < r + 1024)
ProducerOk (Producer.filled s) a r buffer =
    (a + 1 < r + 1024) × (get_elem? buffer (a % 1024) ≡ some s)

abbrev pub ConsumerOk : Consumer → ℕ → List TickSample → Type 0
ConsumerOk Consumer.waiting r added = Unit
ConsumerOk (Consumer.seen ap) r added = (a' : ℕ) × (ap ≡ a' % 1024) × (r ≤ a') × (a' ≤ length added)
ConsumerOk (Consumer.removing slot) r added = (slot ≡ r % 1024) × (r < length added)
ConsumerOk (Consumer.taken s) r added = (r < length added) × (get_elem? added r ≡ some s)

pub record Inv (w : World) : Type 0 where
  pub sized : length w.queue.buffer ≡ 1024
  pub add_at : w.queue.add_pos ≡ length w.added % 1024
  pub remove_at : w.queue.remove_pos ≡ length w.removed % 1024
  pub ordered : length w.removed ≤ length w.added
  pub room : length w.added < length w.removed + 1024
  pub front : w.removed ≡ take (length w.removed) w.added
  pub cells :
      (i : ℕ)
      → length w.removed ≤ i
      → i < length w.added
      → get_elem? w.queue.buffer (i % 1024) ≡ get_elem? w.added i
  pub producer_ok : ProducerOk w.producer (length w.added) (length w.removed) w.queue.buffer
  pub consumer_ok : ConsumerOk w.consumer (length w.removed) w.added

pub start-Inv : (garbage : TickSample) → Inv (start garbage)
unfolding start init
start-Inv garbage = record {
  sized = length-replicate 1024 garbage;
  add_at = refl;
  remove_at = refl;
  ordered = omega arith;
  room = omega arith;
  front = refl;
  cells = λ i h k. absurd (omega arith);
  producer_ok = tt;
  consumer_ok = tt;
}
