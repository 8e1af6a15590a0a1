-- ===== src/Run/Cleanup.antt =====
-- What `Globals::run` of src/milter/main.cpp leaves behind.
use undervest.Prelude.{
  ◌≡◌, ◌≢◌, refl, sym, ap, ◌∙◌, false, Option, none, some, List, [], ◌∷◌, ◌++◌, append_assoc, Bytes,
}
use undervest.Run.{
  Action, configure, block_signals, detach, close_all, open_log, unblock_signals, lock, write_pid,
  go_home, initialize, incarcerate, change_identity, start_scheduler, reload, start_signals,
  start_milter, stop_scheduler, delete_pid, delete_lock, close_log, log_message, Outcome, fine,
  refused, throws, Stop, done, already_running, not_initialized, no_configuration, thrown, refusal,
  step_of, run_steps, first_steps, second_steps, clean_up, after_second, then_after, after_first,
  run,
}

-- What must have refused for a block to end so.
abbrev Caused : (Action → Outcome) → Stop → Type 0
Caused outcome already_running = outcome lock ≡ refused
Caused outcome not_initialized = outcome initialize ≡ refused
Caused outcome no_configuration = outcome reload ≡ refused
Caused outcome _ = Unit {0}

refusal-Caused :
    (outcome : Action → Outcome) (a : Action) (s : Stop)
    → outcome a ≡ refused
    → refusal a ≡ some s
    → Caused outcome s
unfolding refusal
refusal-Caused outcome a done h q = tt
refusal-Caused outcome a (thrown e) h q = tt
refusal-Caused outcome lock already_running h q = h
refusal-Caused outcome initialize not_initialized h q = h
refusal-Caused outcome reload no_configuration h q = h
refusal-Caused outcome _ _ h q = absurd cc

never_done : (a : Action) → refusal a ≡ some done → ⊥
unfolding refusal
never_done configure h = cc
never_done block_signals h = cc
never_done detach h = cc
never_done close_all h = cc
never_done open_log h = cc
never_done unblock_signals h = cc
never_done lock h = cc
never_done write_pid h = cc
never_done go_home h = cc
never_done initialize h = cc
never_done incarcerate h = cc
never_done change_identity h = cc
never_done start_scheduler h = cc
never_done reload h = cc
never_done start_signals h = cc
never_done start_milter h = cc
never_done stop_scheduler h = cc
never_done delete_pid h = cc
never_done delete_lock h = cc
never_done close_log h = cc
never_done (log_message text) h = cc

step_of-Caused :
    (outcome : Action → Outcome) (a : Action) (rest : List Action × Stop) (o : Outcome)
    → outcome a ≡ o
    → Caused outcome rest.1
    → Caused outcome (step_of a rest o).1
unfolding step_of
step_of-Caused outcome a rest fine h c = c
step_of-Caused outcome a rest (throws e) h c = tt
step_of-Caused outcome a rest refused h c = go (refusal a) refl
  where
    go :
        (r : Option Stop)
        → refusal a ≡ r
        → Caused outcome
            (elim r as (λ _. List Action × Stop) [
              | none ↦ (a ∷ rest.0, rest.1)
              | some s ↦ (a ∷ [], s)
            ]).1
    go none q = c
    go (some s) q = refusal-Caused outcome a s h q

run_steps-Caused :
    (outcome : Action → Outcome) (steps : List Action) → Caused outcome (run_steps outcome steps).1
unfolding run_steps
run_steps-Caused outcome [] = tt
run_steps-Caused outcome (a ∷ steps) =
    step_of-Caused outcome a (run_steps outcome steps) (outcome a) refl
      (run_steps-Caused outcome steps)

-- a block that is done has done the steps behind its first one
step_of-done :
    (a : Action) (rest : List Action × Stop) (o : Outcome)
    → (step_of a rest o).1 ≡ done
    → (rest.1 ≡ done) × (o ≡ refused → refusal a ≡ none)
unfolding step_of
step_of-done a rest fine h = (h, λ e. absurd cc)
step_of-done a rest (throws e) h = absurd cc
step_of-done a rest refused h = go (refusal a) refl h
  where
    go :
        (r : Option Stop)
        → refusal a ≡ r
        → (elim r as (λ _. List Action × Stop) [
          | none ↦ (a ∷ rest.0, rest.1)
          | some s ↦ (a ∷ [], s)
        ]).1
          ≡ done
        → (rest.1 ≡ done) × (refused ≡ refused → refusal a ≡ none)
    go none q k = (k, λ e. q)
    go (some s) q k = absurd (never_done a (q ∙ ap some k))

steps_done :
    (outcome : Action → Outcome) (a : Action) (steps : List Action)
    → (run_steps outcome (a ∷ steps)).1 ≡ done
    → ((run_steps outcome steps).1 ≡ done) × (outcome a ≡ refused → refusal a ≡ none)
unfolding run_steps
steps_done outcome a steps h = step_of-done a (run_steps outcome steps) (outcome a) h

-- how a block ends behind which delete_pid and delete_lock are called
cleaned :
    (outcome : Action → Outcome) (acts : List Action) (s : Stop)
    → outcome lock ≢ refused
    → outcome initialize ≢ refused
    → outcome reload ≢ refused
    → Caused outcome s
    → (pre : List Action) × (acts ++ (after_second false s).0
        ≡ pre ++ (delete_pid ∷ delete_lock ∷ close_log ∷ []))
unfolding after_second clean_up
cleaned outcome acts done l i r c =
    (acts ++ (stop_scheduler ∷ []), sym (append_assoc acts (stop_scheduler ∷ []) _))
cleaned outcome acts (thrown e) l i r c = (
  acts ++ (stop_scheduler ∷ log_message e ∷ []),
  sym (append_assoc acts (stop_scheduler ∷ log_message e ∷ []) _),
)
cleaned outcome acts already_running l i r c = absurd (l c)
cleaned outcome acts not_initialized l i r c = absurd (i c)
cleaned outcome acts no_configuration l i r c = absurd (r c)

lock_done :
    (outcome : Action → Outcome)
    → (run_steps outcome (first_steps false)).1 ≡ done
    → outcome lock ≢ refused
unfolding first_steps refusal
lock_done outcome h e =
    let (h1, _) = steps_done outcome _ _ h in
    let (h2, _) = steps_done outcome _ _ h1 in
    let (h3, _) = steps_done outcome _ _ h2 in
    let (h4, _) = steps_done outcome _ _ h3 in
    let (h5, _) = steps_done outcome _ _ h4 in
    let (h6, _) = steps_done outcome _ _ h5 in
    let (h7, k) = steps_done outcome _ _ h6 in let q : refusal lock ≡ none = k e in cc

-- If all steps of the first block of a daemon are done, the lock and the writing of the process id among
-- them, then `run` calls delete_pid, delete_lock and closelog at its end, in this order, whatever the
-- steps of the second block give or throw: unless the milter interface is not initialized, or there is no
-- configuration. Whether these calls find the files, behind a chroot, is not said.
pub run-clean_up :
    (name : Bytes) (outcome : Action → Outcome)
    → (run_steps outcome (first_steps false)).1 ≡ done
    → outcome initialize ≢ refused
    → outcome reload ≢ refused
    → (pre : List Action) × ((run false name outcome).0
        ≡ pre ++ (delete_pid ∷ delete_lock ∷ close_log ∷ []))
unfolding run after_first then_after
run-clean_up name outcome h i r =
    let first = run_steps outcome (first_steps false) in
    let second = run_steps outcome second_steps in
    let (pre, e) =
      cleaned outcome second.0 second.1 (lock_done outcome h) i r
        (run_steps-Caused outcome second_steps) in
    (
      first.0 ++ pre,
      ap (λ (s : Stop). first.0 ++ (after_first false name outcome s).0) h
          ∙ ap (◌++◌ first.0) e
          ∙ sym (append_assoc first.0 pre (delete_pid ∷ delete_lock ∷ close_log ∷ [])),
    )
