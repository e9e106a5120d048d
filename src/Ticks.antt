-- ===== src/Ticks.antt =====
-- src/vm/tick_queue.h: the queue of profiler ticks between one producer, the signal handler, and one
-- consumer. A pointer into the buffer is an index. The two atomic positions are loaded in a step of
-- their own, so that the other side can move between the load and its use; `int` does not overflow.
pub mod Valid
pub mod Steps
pub mod Order
mod Tests
use dartino_sdk.Base.{
  ℕ, suc, ◌+◌, ◌≡◌, Option, none, some, List, [], ◌∷◌, ◌++◌, replicate, set, get_elem?, ◌==◌,
  if◌then◌else◌,
}

pub record TickSample : Type 0 where
  pub hashtag : ℕ
  pub bcp : ℕ
  pub pc : ℕ
  pub sp : ℕ
  pub fp : ℕ

abbrev pub queue_length : ℕ
queue_length = 1024

pub record TickQueue : Type 0 where
  pub discarded_ticks : ℕ
  pub buffer : List TickSample
  pub add_pos : ℕ
  pub remove_pos : ℕ

-- The constructor; the buffer holds `garbage`.
pub init : TickSample → TickQueue
init garbage = record {
  discarded_ticks = 0;
  buffer = replicate queue_length garbage;
  add_pos = 0;
  remove_pos = 0;
}

unfoldable pub next : ℕ → ℕ
next entry = if entry + 1 == queue_length then 0 else entry + 1

-- StartAdd, with the `remove_pos` that it loaded.
pub start_add : TickQueue → ℕ → Option ℕ × TickQueue
start_add q remove_pos =
    if next q.add_pos == remove_pos
    then (none, record q { discarded_ticks = q.discarded_ticks + 1 })
    else (some q.add_pos, q)

pub complete_add : TickQueue → TickQueue
complete_add q = record q { add_pos = next q.add_pos }

-- StartRemove, with the `ap` that it loaded.
pub start_remove : TickQueue → ℕ → Option ℕ
start_remove q ap = if q.remove_pos == ap then none else some q.remove_pos

pub complete_remove : TickQueue → TickQueue
complete_remove q = record q { remove_pos = next q.remove_pos }

-- Where each side stands: after its load, between Start and the access to the entry, and before
-- Complete.
pub data Producer : Type 0 where
  idle : Producer
  loaded : ℕ → Producer
  adding : ℕ → Producer
  filled : TickSample → Producer

pub data Consumer : Type 0 where
  waiting : Consumer
  seen : ℕ → Consumer
  removing : ℕ → Consumer
  taken : TickSample → Consumer

-- The queue, its two clients, and the samples added and removed so far.
pub record World : Type 0 where
  pub queue : TickQueue
  pub producer : Producer
  pub consumer : Consumer
  pub added : List TickSample
  pub removed : List TickSample

pub start : TickSample → World
start garbage = record {
  queue = init garbage;
  producer = Producer.idle;
  consumer = Consumer.waiting;
  added = [];
  removed = [];
}

abbrev pub after_start_add : Option ℕ → Producer
after_start_add none = Producer.idle
after_start_add (some slot) = Producer.adding slot

abbrev pub after_start_remove : Option ℕ → Consumer
after_start_remove none = Consumer.waiting
after_start_remove (some slot) = Consumer.removing slot

-- One step of either side.
pub data Step : World → World → Type 0 where
  load_remove :
      (w : World)
      → w.producer ≡ Producer.idle
      → Step w (record w { producer = Producer.loaded w.queue.remove_pos })
  begin_add :
      (w : World) (rp : ℕ)
      → w.producer ≡ Producer.loaded rp
      → Step w (record w {
        queue = (start_add w.queue rp).1;
        producer = after_start_add (start_add w.queue rp).0;
      })
  fill :
      (w : World) (slot : ℕ) (s : TickSample)
      → w.producer ≡ Producer.adding slot
      → Step w (record w {
        queue = record w.queue { buffer = set w.queue.buffer slot s };
        producer = Producer.filled s;
      })
  end_add :
      (w : World) (s : TickSample)
      → w.producer ≡ Producer.filled s
      → Step w (record w {
        queue = complete_add w.queue;
        producer = Producer.idle;
        added = w.added ++ s ∷ [];
      })
  load_add :
      (w : World)
      → w.consumer ≡ Consumer.waiting
      → Step w (record w { consumer = Consumer.seen w.queue.add_pos })
  begin_remove :
      (w : World) (ap : ℕ)
      → w.consumer ≡ Consumer.seen ap
      → Step w (record w { consumer = after_start_remove (start_remove w.queue ap) })
  take_sample :
      (w : World) (slot : ℕ) (s : TickSample)
      → w.consumer ≡ Consumer.removing slot
      → get_elem? w.queue.buffer slot ≡ some s
      → Step w (record w { consumer = Consumer.taken s })
  end_remove :
      (w : World) (s : TickSample)
      → w.consumer ≡ Consumer.taken s
      → Step w (record w {
        queue = complete_remove w.queue;
        consumer = Consumer.waiting;
        removed = w.removed ++ s ∷ [];
      })

-- What the two sides can reach in any order of their steps.
pub data Reach (garbage : TickSample) : World → Type 0 where
  here : Reach garbage (start garbage)
  then_step : (v w : World) → Reach garbage v → Step v w → Reach garbage w
