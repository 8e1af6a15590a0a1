-- ===== src/Run.antt =====
-- src/milter/main.cpp: `Globals::run` behind the arguments. What each step gives is a parameter; the calls of
-- the standard signal functions, and what the log says of an exception, are left out.
pub mod Cleanup
use undervest.Prelude.{
  ℕ, Bool, true, false, Option, none, some, List, [], ◌∷◌, ◌++◌, if◌then◌else◌, Bytes, codes,
}

-- The steps, by the functions that they call. `configure` stands for the setters of the daemon.
pub data Action : Type 0 where
  configure block_signals detach close_all open_log unblock_signals lock write_pid : Action
  go_home initialize incarcerate change_identity start_scheduler reload start_signals : Action
  start_milter stop_scheduler delete_pid delete_lock close_log : Action
  log_message : Bytes → Action

-- `refused` is `false` of `lock`, a result of `initialize` that is not MI_SUCCESS, no configuration
-- behind `reload`, and MI_FAILURE of `start`.
pub data Outcome : Type 0 where
  fine refused : Outcome
  throws : Bytes → Outcome

-- How the steps of a block end.
pub data Stop : Type 0 where
  done already_running not_initialized no_configuration : Stop
  thrown : Bytes → Stop

-- What a refusal of a step comes to, for the steps whose result is looked at.
unfoldable pub refusal : Action → Option Stop
refusal lock = some already_running
refusal initialize = some not_initialized
refusal reload = some no_configuration
refusal start_milter = some (thrown (codes "Cannot run the milter"))
refusal _ = none

unfoldable pub step_of : Action → List Action × Stop → Outcome → List Action × Stop
step_of a rest fine = (a ∷ rest.0, rest.1)
step_of a rest (throws e) = (a ∷ [], thrown e)
step_of a rest refused = elim (refusal a) [ none ↦ (a ∷ rest.0, rest.1) | some s ↦ (a ∷ [], s) ]

-- The steps of a block, up to the one that ends it.
unfoldable pub run_steps : (Action → Outcome) → List Action → List Action × Stop
run_steps outcome [] = ([], done)
run_steps outcome (a ∷ steps) = step_of a (run_steps outcome steps) (outcome a)

abbrev pub unless : Bool → List Action → List Action
unless true steps = []
unless false steps = steps

-- The first `try` block.
unfoldable pub first_steps : Bool → List Action
first_steps nodaemon =
    configure
    ∷ block_signals
    ∷ (unless nodaemon (detach ∷ [])
        ++ (close_all ∷ open_log ∷ unblock_signals ∷ unless nodaemon (lock ∷ write_pid ∷ [])))

-- The second one.
abbrev pub second_steps : List Action
second_steps =
    go_home ∷ initialize ∷ incarcerate ∷ change_identity ∷ start_scheduler ∷ reload ∷ start_signals
    ∷ start_milter ∷ []

-- `daemon.delete_pid(); daemon.delete_lock();` and `closelog()`
unfoldable pub clean_up : Bool → List Action
clean_up nodaemon = unless nodaemon (delete_pid ∷ delete_lock ∷ []) ++ (close_log ∷ [])

-- What follows the second block, and the result of `run`. `already_running` does not occur here.
unfoldable pub after_second : Bool → Stop → List Action × ℕ
after_second nodaemon done = (stop_scheduler ∷ clean_up nodaemon, 0)
after_second nodaemon (thrown e) = (stop_scheduler ∷ log_message e ∷ clean_up nodaemon, 1)
after_second nodaemon not_initialized =
    (log_message (codes "Cannot initialize milter interface") ∷ close_log ∷ [], 1)
after_second nodaemon no_configuration = (stop_scheduler ∷ [], 1)
after_second nodaemon already_running = ([], 1)

unfoldable pub then_after : Bool → List Action × Stop → List Action × ℕ
then_after nodaemon r = let e = after_second nodaemon r.1 in (r.0 ++ e.0, e.1)

-- What follows the first block. `not_initialized` and `no_configuration` do not occur here.
unfoldable pub after_first : Bool → Bytes → (Action → Outcome) → Stop → List Action × ℕ
after_first nodaemon name outcome done = then_after nodaemon (run_steps outcome second_steps)
after_first nodaemon name outcome (thrown e) = (log_message e ∷ close_log ∷ [], 1)
after_first nodaemon name outcome already_running =
    (log_message (name ++ codes " already running: exit") ∷ close_log ∷ [], 1)
after_first nodaemon name outcome not_initialized = ([], 1)
after_first nodaemon name outcome no_configuration = ([], 1)

-- `run`, from the daemon on: what is done, and the result.
unfoldable pub run : Bool → Bytes → (Action → Outcome) → List Action × ℕ
run nodaemon name outcome =
    let r = run_steps outcome (first_steps nodaemon) in
    let e = after_first nodaemon name outcome r.1 in (r.0 ++ e.0, e.1)
