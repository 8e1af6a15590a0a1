-- ===== src/Tests/Timers.antt =====
-- The scheduler at concrete inputs.
use undervest.Prelude.{ℕ, ◌<◌, ◌≡◌, arith, length, refl, false, some, List, [], ◌∷◌}
use undervest.Scheduler
use undervest.Scheduler.{Event, Scheduler, schedule, round, run_event, drop_event, wait}
use undervest.Scheduler.Queue.{
  occurrences, IsConsistent, Step, do_schedule, do_cancel, do_round, perform_all,
  perform_all-IsConsistent,
}
use undervest.Scheduler.Drain.{rounds, event_runs}
use undervest.Scheduler.Rounds.{Outcome, round-Outcome}

abbrev fresh : Scheduler
fresh = record { events = λ _. record { time = 0; queued = false; cancelled = false }; queue = [] }

fresh-IsConsistent : IsConsistent fresh
unfolding occurrences
fresh-IsConsistent i = refl

abbrev history : List Step
history =
    do_schedule 1 (some 30)
    ∷ do_schedule 2 (some 10)
    ∷ do_schedule 2 (some 50)
    ∷ do_cancel 1
    ∷ do_round 5
    ∷ []

perform_all-IsConsistent_example : IsConsistent (perform_all fresh history)
perform_all-IsConsistent_example = perform_all-IsConsistent fresh history fresh-IsConsistent

abbrev two_timers : Scheduler
two_timers = perform_all fresh history

-- the event of time 10 runs first
second_runs : (round two_timers 40).0 ≡ run_event 2
unfolding round Scheduler.round_of Scheduler.top schedule Scheduler.cancel
second_runs = refl

two_timers-IsConsistent : IsConsistent two_timers
two_timers-IsConsistent = perform_all-IsConsistent fresh history fresh-IsConsistent

round-Outcome_example : Outcome two_timers 40 (round two_timers 40).0
round-Outcome_example = round-Outcome two_timers 40 two_timers-IsConsistent

event_runs_example :
    (n : ℕ) × (n < length two_timers.queue) × ((round (rounds n two_timers 40) 40).0 ≡ run_event 2)
unfolding schedule Scheduler.cancel round Scheduler.round_of Scheduler.top
event_runs_example = event_runs two_timers 40 2 two_timers-IsConsistent (refl, refl, omega arith)
