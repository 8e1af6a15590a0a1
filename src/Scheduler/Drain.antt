-- ===== src/Scheduler/Drain.antt =====
-- A due event is run in a bounded number of rounds.
use mathlib.Core.Path.{subst}
use undervest.Prelude.{
  ℕ, zero, suc, ◌≤◌, ◌<◌, ◌≡◌, refl, sym, ap, ◌∙◌, true, false, Option, none, some, List, [], ◌∷◌,
  ltb, ◌==◌, if◌then◌else◌, arith, inl, inr, Bool-cases, ==_iff, length,
}
use undervest.Scheduler.{Scheduler, top, remove, pop, Round, drop_event, run_event, round_of, round}
use undervest.Scheduler.Queue.{occurrences, IsConsistent, pop-IsConsistent}
use undervest.Scheduler.Rounds.{top-none, top_least}

-- The state after so many rounds at one time.
abbrev pub rounds : ℕ → Scheduler → ℕ → Scheduler
rounds zero s curtime = s
rounds (suc n) s curtime = rounds n (round s curtime).1 curtime

remove-length : (k : ℕ) (q : List ℕ) → 0 < occurrences k q → suc (length (remove k q)) ≡ length q
unfolding occurrences remove
remove-length k [] h = absurd (omega arith)
remove-length k (j ∷ q) h = ground (arith, remove-length k q)

-- An event that a round can run.
abbrev pub IsReady : Scheduler → ℕ → ℕ → Type 0
IsReady s curtime i =
    ((s.events i).queued ≡ true) × ((s.events i).cancelled ≡ false) × ((s.events i).time ≤ curtime)

-- the verdict on an event at the top that is due
abbrev verdict : Scheduler → ℕ → Round
verdict s k = if (s.events k).cancelled then drop_event k else run_event k

-- where an event is ready, a round takes one from the queue
round_takes :
    (s : Scheduler) (curtime i : ℕ)
    → IsConsistent s
    → IsReady s curtime i
    → (k : ℕ) × (round s curtime ≡ (verdict s k, pop s k)) × (0 < occurrences k s.queue)
unfolding round round_of
round_takes s curtime i h r = go (top s.events s.queue) refl
  where
    counted : 0 < occurrences i s.queue
    counted = let q = r.0 in ground (arith, h i)

    go :
        (o : Option ℕ)
        → top s.events s.queue ≡ o
        → (k : ℕ) × (round_of s curtime o ≡ (verdict s k, pop s k)) × (0 < occurrences k s.queue)
    go none p = absurd (omega (arith, counted, top-none s.events s.queue p i))
    go (some k) p =
        let least = top_least s.events s.queue k p in
        (k, rw (due (least.1 i counted), round_of) refl, least.0)
      where
        due : (s.events k).time ≤ (s.events i).time → ltb curtime (s.events k).time ≡ false
        due l = let t = r.2 in ground arith

pop_keeps :
    (s : Scheduler) (k curtime i : ℕ)
    → (i == k) ≡ false
    → IsReady s curtime i
    → IsReady (pop s k) curtime i
unfolding pop
pop_keeps s k curtime i e r = rw e r

pop-length :
    (s : Scheduler) (k : ℕ)
    → 0 < occurrences k s.queue
    → suc (length (pop s k).queue) ≡ length s.queue
unfolding pop
pop-length s k h = remove-length k s.queue h

Runs : Scheduler → ℕ → ℕ → Type 0
Runs s curtime i =
    (n : ℕ) × (n < length s.queue) × ((round (rounds n s curtime) curtime).0 ≡ run_event i)

-- the event itself is at the top
Runs-now :
    (s : Scheduler) (curtime i : ℕ)
    → (s.events i).cancelled ≡ false
    → round s curtime ≡ (verdict s i, pop s i)
    → 0 < length s.queue
    → Runs s curtime i
unfolding Runs
Runs-now s curtime i c e l = (zero, l, ap (λ (x : Round × Scheduler). x.0) e ∙ rw c refl)

-- another event is at the top, and this one's turn comes later
Runs-later :
    (s s' : Scheduler) (o : Round) (curtime i : ℕ)
    → round s curtime ≡ (o, s')
    → suc (length s'.queue) ≡ length s.queue
    → Runs s' curtime i
    → Runs s curtime i
unfolding Runs
Runs-later s s' o curtime i e l (n, b, g) = (
  suc n,
  omega (arith, b, l),
  ap (λ (x : Scheduler). (round (rounds n x curtime) curtime).0)
        (ap (λ (x : Round × Scheduler). x.1) e)
      ∙ g,
)

Runs-within :
    (m : ℕ) (s : Scheduler) (curtime i : ℕ)
    → length s.queue ≤ m
    → IsConsistent s
    → IsReady s curtime i
    → Runs s curtime i
Runs-within zero s curtime i l h r =
    let (k, e, o) = round_takes s curtime i h r in absurd (omega (arith, pop-length s k o))
Runs-within (suc m) s curtime i l h r =
    go (λ k. Runs-within m (pop s k) curtime i) (round_takes s curtime i h r)
  where
    go :
        ((k : ℕ)
          → length (pop s k).queue ≤ m
          → IsConsistent (pop s k)
          → IsReady (pop s k) curtime i
          → Runs (pop s k) curtime i)
        → (k : ℕ) × (round s curtime ≡ (verdict s k, pop s k)) × (0 < occurrences k s.queue)
        → Runs s curtime i
    go ih (k, e, o) = elim (Bool-cases (i == k)) [
      | inl q ↦
          Runs-now s curtime i r.1
            (subst (λ (x : ℕ). round s curtime ≡ (verdict s x, pop s x)) (sym ((==_iff i k).0 q)) e)
            (omega (arith, pop-length s k o))
      | inr q ↦ Runs-later s (pop s k) (verdict s k) curtime i e (pop-length s k o) (
          ih k (omega (arith, pop-length s k o)) (pop-IsConsistent s k h)
            (pop_keeps s k curtime i q r))
    ]

-- In a consistent state, an event that is queued, due and not cancelled is run in one of as many
-- rounds as there are events in the queue, with no other operation in between.
pub event_runs :
    (s : Scheduler) (curtime i : ℕ)
    → IsConsistent s
    → IsReady s curtime i
    → (n : ℕ) × (n < length s.queue) × ((round (rounds n s curtime) curtime).0 ≡ run_event i)
unfolding Runs
event_runs s curtime i h r = Runs-within (length s.queue) s curtime i (omega arith) h r
