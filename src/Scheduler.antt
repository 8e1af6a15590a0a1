-- ===== src/Scheduler.antt =====
-- include/scheduler.h: the queue of timed events. An event is known by a number, and the scheduler's
-- view of the event objects is a function from it. The mutex makes each operation one step, and
-- `cancel`, which takes no mutex, is a step between the others; the condition variable, which only ends a
-- wait early, and the thread are left out.
pub mod Drain
pub mod Queue
pub mod Rounds
use undervest.Prelude.{
  ℕ, ◌+◌, Bool, true, false, Option, none, some, List, [], ◌∷◌, ltb, ◌==◌, if◌then◌else◌,
}

-- `_TimedEventData`: `queued` is whether `_qued` is the scheduler.
pub record Event : Type 0 where
  pub time : ℕ
  pub queued : Bool
  pub cancelled : Bool

-- `queue` is the content of the priority queue, in no order.
pub record Scheduler : Type 0 where
  pub events : ℕ → Event
  pub queue : List ℕ

abbrev pub put : (ℕ → Event) → ℕ → Event → ℕ → Event
put events i e j = if j == i then e else events j

abbrev time_or : ℕ → Option ℕ → ℕ
time_or own none = own
time_or own (some t) = t

-- `schedule`: the Boolean is its result, true if it fails.
unfoldable pub schedule : Scheduler → ℕ → Option ℕ → Bool × Scheduler
schedule s i t = if (s.events i).queued then (true, s) else (
  false,
  record {
    events =
        put s.events i
          (record { time = time_or (s.events i).time t; queued = true; cancelled = false });
    queue = i ∷ s.queue;
  },
)

-- `cancel`
unfoldable pub cancel : Scheduler → ℕ → Scheduler
cancel s i =
    if (s.events i).queued
    then record s { events = put s.events i (record (s.events i) { cancelled = true }) }
    else s

-- `_queue.top()`: an event of the least time.
unfoldable pub top : (ℕ → Event) → List ℕ → Option ℕ
top events [] = none
top events (i ∷ q) = elim (top events q) [
  | none ↦ some i
  | some j ↦ if ltb (events j).time (events i).time then some j else some i
]

unfoldable pub remove : ℕ → List ℕ → List ℕ
remove i [] = []
remove i (j ∷ q) = let rest = remove i q in if i == j then q else j ∷ rest

-- `_queue.pop()` and `event->_qued = 0`.
unfoldable pub pop : Scheduler → ℕ → Scheduler
pop s i = record {
  events = put s.events i (record (s.events i) { queued = false });
  queue = remove i s.queue;
}

-- What one round of the loop in `run` does: wait, until a time if there is one; drop a cancelled
-- event; or run an event.
pub data Round : Type 0 where
  wait : Option ℕ → Round
  drop_event : ℕ → Round
  run_event : ℕ → Round

unfoldable pub round_of : Scheduler → ℕ → Option ℕ → Round × Scheduler
round_of s curtime none = (wait none, s)
round_of s curtime (some i) =
    if ltb curtime (s.events i).time
    then (wait (some (s.events i).time), s)
    else (if (s.events i).cancelled then drop_event i else run_event i, pop s i)

-- One round at the time `curtime`.
unfoldable pub round : Scheduler → ℕ → Round × Scheduler
round s curtime = round_of s curtime (top s.events s.queue)

-- `clear`, over the content of the queue.
unfoldable pub unqueue : (ℕ → Event) → List ℕ → ℕ → Event
unqueue events [] = events
unqueue events (i ∷ q) = unqueue (put events i (record (events i) { queued = false })) q

unfoldable pub clear_queue : Scheduler → Scheduler
clear_queue s = record { events = unqueue s.events s.queue; queue = [] }
