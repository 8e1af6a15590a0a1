-- ===== src/Scheduler/Queue.antt =====
-- The queue and the flags of the events agree, and events run when they are due, the earliest first.
use undervest.Prelude.{
  ℕ, ◌+◌, ◌-◌, ◌≡◌, refl, ap, ◌∙◌, true, false, Option, none, some, List, [], ◌∷◌, ltb, ◌==◌,
  if◌then◌else◌, arith, inl, inr, Bool-cases, ==_iff,
}
use undervest.Scheduler.{
  Event, Scheduler, put, schedule, cancel, top, remove, pop, round_of, round, unqueue, clear_queue,
}

unfoldable pub occurrences : ℕ → List ℕ → ℕ
occurrences i [] = 0
occurrences i (j ∷ q) = (if i == j then 1 else 0) + occurrences i q

-- The queue holds each event that is flagged once, and no other.
abbrev pub Agrees : (ℕ → Event) → List ℕ → Type 0
Agrees events q = (i : ℕ) → occurrences i q ≡ (if (events i).queued then 1 else 0)

abbrev pub IsConsistent : Scheduler → Type 0
IsConsistent s = Agrees s.events s.queue

occurrences_same : (j i : ℕ) (q : List ℕ) → (j == i) ≡ true → occurrences j q ≡ occurrences i q
occurrences_same j i q e = ap (λ (k : ℕ). occurrences k q) ((==_iff j i).0 e)

schedule-IsConsistent :
    (s : Scheduler) (i : ℕ) (t : Option ℕ) → IsConsistent s → IsConsistent (schedule s i t).1
unfolding schedule occurrences
schedule-IsConsistent s i t h j = elim (Bool-cases (s.events i).queued) [
  | inl q ↦ rw (q, schedule) (h j)
  | inr q ↦ elim (Bool-cases (j == i)) [
    | inl e ↦ rw (q, schedule) (rw e (ground (arith, occurrences_same j i s.queue e, h i)))
    | inr e ↦ rw (q, schedule) (rw e (ground (arith, h j)))
  ]
]

cancel-IsConsistent : (s : Scheduler) (i : ℕ) → IsConsistent s → IsConsistent (cancel s i)
unfolding cancel
cancel-IsConsistent s i h j = elim (Bool-cases (s.events i).queued) [
  | inr q ↦ rw (q, cancel) (h j)
  | inl q ↦ elim (Bool-cases (j == i)) [
    | inl e ↦ rw (q, cancel) (rw e (occurrences_same j i s.queue e ∙ h i ∙ rw q refl))
    | inr e ↦ rw (q, cancel) (rw e (h j))
  ]
]

pub occurrences-remove :
    (i j : ℕ) (q : List ℕ)
    → occurrences j (remove i q) ≡ occurrences j q - (if j == i then 1 else 0)
unfolding occurrences remove
occurrences-remove i j [] = ground arith
occurrences-remove i j (k ∷ q) = ground (arith, occurrences-remove i j q)

pub pop-IsConsistent : (s : Scheduler) (i : ℕ) → IsConsistent s → IsConsistent (pop s i)
unfolding pop
pop-IsConsistent s i h j = elim (Bool-cases (j == i)) [
  | inl e ↦
      rw e (ground (arith, occurrences-remove i j s.queue, occurrences_same j i s.queue e, h i))
  | inr e ↦ rw e (ground (arith, occurrences-remove i j s.queue, h j))
]

-- The operations of other threads, and a round of the loop.
pub data Step : Type 0 where
  do_schedule : ℕ → Option ℕ → Step
  do_cancel : ℕ → Step
  do_round : ℕ → Step
  do_clear : Step

abbrev pub perform : Scheduler → Step → Scheduler
perform s (do_schedule i t) = (schedule s i t).1
perform s (do_cancel i) = cancel s i
perform s (do_round curtime) = (round s curtime).1
perform s do_clear = clear_queue s

abbrev pub perform_all : Scheduler → List Step → Scheduler
perform_all s [] = s
perform_all s (x ∷ xs) = perform_all (perform s x) xs

round_of-IsConsistent :
    (s : Scheduler) (curtime : ℕ) (o : Option ℕ)
    → IsConsistent s
    → IsConsistent (round_of s curtime o).1
unfolding round_of
round_of-IsConsistent s curtime none h = h
round_of-IsConsistent s curtime (some i) h = elim (Bool-cases (ltb curtime (s.events i).time)) [
  | inl e ↦ rw (e, round_of) h
  | inr e ↦ rw (e, round_of) (pop-IsConsistent s i h)
]

unqueue_queued :
    (events : ℕ → Event) (q : List ℕ) (j : ℕ)
    → (unqueue events q j).queued ≡ (if occurrences j q == 0 then (events j).queued else false)
unfolding unqueue occurrences
unqueue_queued events [] j = refl
unqueue_queued events (i ∷ q) j = elim (Bool-cases (j == i)) [
  | inl e ↦
      unqueue_queued (put events i (record (events i) { queued = false })) q j ∙ rw e (ground arith)
  | inr e ↦
      unqueue_queued (put events i (record (events i) { queued = false })) q j ∙ rw e (ground arith)
]

clear_queue-IsConsistent : (s : Scheduler) → IsConsistent s → IsConsistent (clear_queue s)
unfolding clear_queue
clear_queue-IsConsistent s h j =
    unfold occurrences in ground (arith, unqueue_queued s.events s.queue j, h j)

-- Whatever is scheduled, cancelled, run and cleared, in any order, from a consistent state on: an event is
-- flagged as queued exactly if it is in the queue, and it is there once.
pub perform_all-IsConsistent :
    (s : Scheduler) (xs : List Step) → IsConsistent s → IsConsistent (perform_all s xs)
perform_all-IsConsistent s [] h = h
perform_all-IsConsistent s (do_schedule i t ∷ xs) h =
    perform_all-IsConsistent (schedule s i t).1 xs (schedule-IsConsistent s i t h)
perform_all-IsConsistent s (do_cancel i ∷ xs) h =
    perform_all-IsConsistent (cancel s i) xs (cancel-IsConsistent s i h)
perform_all-IsConsistent s (do_clear ∷ xs) h =
    perform_all-IsConsistent (clear_queue s) xs (clear_queue-IsConsistent s h)
perform_all-IsConsistent s (do_round curtime ∷ xs) h =
    perform_all-IsConsistent (round s curtime).1 xs
      (unfold round in round_of-IsConsistent s curtime (top s.events s.queue) h)
