-- ===== src/Scheduler/Rounds.antt =====
-- A round of the loop waits, drops or runs the right event.
use undervest.Prelude.{
  ℕ, ◌≤◌, ◌<◌, ◌≡◌, refl, ap, true, false, Option, none, some, List, [], ◌∷◌, ltb, ◌==◌,
  if◌then◌else◌, arith, inl, inr, Bool-cases, ==_iff,
}
use undervest.Scheduler.{Event, Scheduler, top, Round, wait, drop_event, run_event, round_of, round}
use undervest.Scheduler.Queue.{occurrences, IsConsistent}

less_than : (a b : ℕ) → ltb a b ≡ true → a < b
less_than a b h = ground arith

not_less : (a b : ℕ) → ltb a b ≡ false → b ≤ a
not_less a b h = ground arith

pub top-none :
    (events : ℕ → Event) (q : List ℕ) → top events q ≡ none → (j : ℕ) → occurrences j q ≡ 0
unfolding top occurrences
top-none events [] e j = refl
top-none events (k ∷ q) e j = absurd (go (top events q) e)
  where
    go :
        (o : Option ℕ)
        → (elim o [
          | none ↦ some k
          | some m ↦ if ltb (events m).time (events k).time then some m else some k
        ])
          ≡ none
        → ⊥
    go none f = cc
    go (some m) f = ground arith

abbrev Least : (ℕ → Event) → List ℕ → ℕ → Type 0
Least events q i =
    (0 < occurrences i q) × ((j : ℕ) → 0 < occurrences j q → (events i).time ≤ (events j).time)

Least-cons_here :
    (events : ℕ → Event) (q : List ℕ) (k : ℕ)
    → ((j : ℕ) → 0 < occurrences j q → (events k).time ≤ (events j).time)
    → Least events (k ∷ q) k
unfolding occurrences
Least-cons_here events q k h = (
  ground arith,
  λ j p. elim (Bool-cases (j == k)) [
    | inl e ↦ omega (arith, ap (λ (m : ℕ). (events m).time) ((==_iff j k).0 e))
    | inr e ↦ h j (ground arith)
  ],
)

Least-cons_later :
    (events : ℕ → Event) (q : List ℕ) (k m : ℕ)
    → Least events q m
    → (events m).time ≤ (events k).time
    → Least events (k ∷ q) m
unfolding occurrences
Least-cons_later events q k m h le = (
  ground arith,
  λ j p. elim (Bool-cases (j == k)) [
    | inl e ↦ omega (arith, ap (λ (m : ℕ). (events m).time) ((==_iff j k).0 e))
    | inr e ↦ h.1 j (ground arith)
  ],
)

-- an event at the top is queued, and none that is queued is earlier
pub top_least :
    (events : ℕ → Event) (q : List ℕ) (i : ℕ)
    → top events q ≡ some i
    → (0 < occurrences i q) × ((j : ℕ) → 0 < occurrences j q → (events i).time ≤ (events j).time)
unfolding top
top_least events [] i e = absurd cc
top_least events (k ∷ q) i e = go (λ m. top_least events q m) (top events q) refl e
  where
    go :
        ((m : ℕ) → top events q ≡ some m → Least events q m)
        → (o : Option ℕ) → top events q ≡ o
        → (elim o [
          | none ↦ some k
          | some m ↦ if ltb (events m).time (events k).time then some m else some k
        ])
          ≡ some i
        → Least events (k ∷ q) i
    go rest none p f =
        let same : k ≡ i = cc in
        rw (← same)
          (Least-cons_here events q k (λ j h. absurd (omega (arith, top-none events q p j))))
    go rest (some m) p f = elim (Bool-cases (ltb (events m).time (events k).time)) [
      | inl l ↦
          let same : m ≡ i = ground arith in
          rw (← same) (Least-cons_later events q k m (rest m p) (ground arith))
      | inr l ↦
          let same : k ≡ i = ground arith in
          rw (← same) (
            Least-cons_here events q k
              (λ j h. omega (arith, (rest m p).1 j h, not_less (events m).time (events k).time l)))
    ]

-- What must hold of each kind of round.
abbrev pub Outcome : Scheduler → ℕ → Round → Type 0
Outcome s curtime (wait t) = (j : ℕ) → (s.events j).queued ≡ true → curtime < (s.events j).time
Outcome s curtime (drop_event i) =
    ((s.events i).queued ≡ true) × ((s.events i).cancelled ≡ true) × ((s.events i).time ≤ curtime)
Outcome s curtime (run_event i) =
    ((s.events i).queued ≡ true)
    × ((s.events i).cancelled ≡ false)
    × ((s.events i).time ≤ curtime)
    × ((j : ℕ) → (s.events j).queued ≡ true → (s.events i).time ≤ (s.events j).time)

-- In a consistent state, a round waits only if every queued event is later than the current time; it
-- drops an event only if it is queued, due and cancelled; and it runs an event only if it is queued,
-- due and not cancelled, and no queued event is earlier.
pub round-Outcome :
    (s : Scheduler) (curtime : ℕ) → IsConsistent s → Outcome s curtime (round s curtime).0
unfolding round round_of
round-Outcome s curtime h = go (top s.events s.queue) refl
  where
    counted : (j : ℕ) → (s.events j).queued ≡ true → 0 < occurrences j s.queue
    counted j q = ground (arith, h j)

    flagged : (j : ℕ) → 0 < occurrences j s.queue → (s.events j).queued ≡ true
    flagged j q = ground (arith, h j)

    go : (o : Option ℕ) → top s.events s.queue ≡ o → Outcome s curtime (round_of s curtime o).0
    go none p =
        unfold round_of in λ j q. absurd (omega (arith, counted j q, top-none s.events s.queue p j))
    go (some i) p =
        let least = top_least s.events s.queue i p in
        elim (Bool-cases (ltb curtime (s.events i).time)) [
          | inl e ↦
              rw (e, round_of)
                (λ j q.
                  omega (arith, least.1 j (counted j q), less_than curtime (s.events i).time e))
          | inr e ↦ elim (Bool-cases (s.events i).cancelled) [
            | inl c ↦
                rw (e, round_of) (rw c (flagged i least.0, c, not_less curtime (s.events i).time e))
            | inr c ↦
                rw (e, round_of)
                  (rw c (
                    flagged i least.0,
                    c,
                    not_less curtime (s.events i).time e,
                    λ j q. least.1 j (counted j q),
                  ))
          ]
        ]
