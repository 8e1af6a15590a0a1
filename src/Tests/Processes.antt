-- ===== src/Tests/Processes.antt =====
-- The identity and the descriptors of the process at concrete inputs.
use undervest.Prelude.{
  ℕ, zero, suc, ◌+◌, ◌≤◌, ◌<◌, ◌≡◌, ◌≢◌, refl, sym, ap, ◌∙◌, inl, inr, Bool, true, false, not, ◌&&◌,
  ◌||◌, Option, none, some, List, [], ◌∷◌, ◌++◌, Bytes, codes, beq, ltb, ◌==◌, ==_iff,
  if◌then◌else◌, arith, Bool-cases,
}
use undervest.Slices
use undervest.FilePath
use undervest.Run
use undervest.Run.{Action, Outcome, fine, start_milter, run, run_steps, first_steps}
use undervest.Run.Cleanup.{run-clean_up}
use undervest.Daemon
use undervest.Daemon.Locks
use undervest.Daemon.Identity
use undervest.Daemon.{System, Daemon, Lookup, found, missing, GroupEntry, UserEntry}
use undervest.Daemon.Identity.{Call, IsDatabase, configure, change_identity}
use undervest.Daemon.Privileges.{Dropped, privileges_lem}
use undervest.Daemon.Descriptors.{Table, Allocated, IsTable, close_all}
use undervest.Daemon.Reopened.{close_all_exact}

abbrev process : Daemon
process = record {
  program = [];
  log_to_stderr = false;
  user = [];
  group = [];
  uid = 0;
  gid = 0;
  home = [];
  jail = [];
  lock_file = [];
  pid_file = [];
  lockfd = none;
}

abbrev only_group : ℕ → Lookup GroupEntry
only_group n = if n == 25 then found (record { gr_name = codes "smmsp"; gr_gid = n }) else missing

abbrev only_user : Bytes → Lookup UserEntry
only_user s =
    if beq s (codes "milter")
    then found (record { pw_name = codes "milter"; pw_uid = 7; pw_gid = 25 })
    else missing

-- A system with one user and one group, which has no entries under numbers for users.
abbrev host : System
host = record {
  geteuid = 0;
  getgrnam_r = λ s. missing;
  getgrgid_r = only_group;
  getpwnam_r = only_user;
  getpwuid_r = λ n. missing;
}

host-IsDatabase : IsDatabase host
host-IsDatabase = record { same_gid = λ n g e. same n (n == 25) g e; has_name = λ n p e. absurd cc }
  where
    same :
        (n : ℕ) (b : Bool) (g : GroupEntry)
        → (if b then found (record { gr_name = codes "smmsp"; gr_gid = n }) else missing) ≡ found g
        → g.gr_gid ≡ n
    same n true g e =
        let q : record { gr_name = codes "smmsp"; gr_gid = n } ≡ g = cc in
        ap (λ (x : GroupEntry). x.gr_gid) (sym q)
    same n false g e = absurd cc

abbrev works : Call → Option ℕ
works c = none

-- A table of a few places.
abbrev Places : Type 0
Places = ℕ → Bool

unfoldable first_free : ℕ → ℕ → Places → Option ℕ
first_free zero i k = none
first_free (suc f) i k = let rest = first_free f (suc i) k in if k i then rest else some i

abbrev place : Places → Option ℕ → Option ℕ × Places
place k none = (none, k)
place k (some n) = (some n, λ m. m == n || k m)

abbrev table : Table Places
table = record {
  is_open = λ k m. k m;
  close = λ n k m. not (m == n) && k m;
  open_null = λ k. place k (first_free 5 0 k);
  dup = λ n k. place k (first_free 5 0 k);
}

free_lem :
    (f i n : ℕ) (k : Places)
    → first_free f i k ≡ some n
    → (k n ≡ false) × ((m : ℕ) → i ≤ m → m < n → k m ≡ true)
unfolding first_free
free_lem zero i n k h = absurd cc
free_lem (suc f) i n k h = elim (Bool-cases (k i)) [
  | inl e ↦
      let g : first_free (suc f) i k ≡ first_free f (suc i) k = rw e refl in
      let (a, b) = free_lem f (suc i) n k (sym g ∙ h) in
      (
        a,
        λ m x y. elim (Bool-cases (m == i)) [
          | inl q ↦ ap k ((==_iff m i).0 q) ∙ e
          | inr q ↦ b m (ground arith) y
        ],
      )
  | inr e ↦
      let g : first_free (suc f) i k ≡ some i = rw e refl in
      let q : i ≡ n = (let z : some i ≡ some n = sym g ∙ h in cc) in
      (sym (ap k q) ∙ e, λ m x y. absurd (omega arith))
]

free_some : (f i n : ℕ) (k : Places) → k n ≡ false → i ≤ n → n < i + f → first_free f i k ≢ none
unfolding first_free
free_some zero i n k e a b h = absurd (omega arith)
free_some (suc f) i n k e a b h = elim (Bool-cases (k i)) [
  | inl q ↦
      let g : first_free (suc f) i k ≡ first_free f (suc i) k = rw q refl in
      free_some f (suc i) n k e (past q) (omega arith) (sym g ∙ h)
  | inr q ↦ let g : first_free (suc f) i k ≡ some i = rw q refl in cc
]
  where
    past : k i ≡ true → suc i ≤ n
    past q = elim (Bool-cases (i == n)) [
      | inl z ↦ absurd (let w = ap k ((==_iff i n).0 z) in cc)
      | inr z ↦ ground arith
    ]

allocated : (k : Places) (o : Option ℕ) → first_free 5 0 k ≡ o → Allocated table k (place k o)
allocated k none e = λ m. refl
allocated k (some n) e =
    let (a, b) = free_lem 5 0 n k e in (a, λ m h. b m (omega arith) h, λ m. refl)

place_some : (k : Places) (o : Option ℕ) → o ≢ none → (place k o).0 ≢ none
place_some k none h e = h e
place_some k (some n) h e = absurd cc

table-IsTable : IsTable table 4
table-IsTable = record {
  closes = λ n m k. refl;
  opens = λ k. allocated k (first_free 5 0 k) refl;
  dups = λ n k. allocated k (first_free 5 0 k) refl;
  open_some =
      λ n k b e. place_some k (first_free 5 0 k) (free_some 5 0 n k e (omega arith) (omega arith));
  dup_some = λ n m k b e o.
      place_some k (first_free 5 0 k) (free_some 5 0 n k e (omega arith) (omega arith));
}

abbrev busy : Places
busy n = n == 0 || n == 2 || n == 4

close_all_exact_example :
    (l : Places) × (close_all table process 4 true busy ≡ some l)
    × ((m : ℕ) → m ≤ 4 → table.is_open l m ≡ ltb m 3)
close_all_exact_example = close_all_exact table 4 table-IsTable process true busy (omega arith)

abbrev milter_at : Daemon
milter_at = record process {
  program = codes "undervest";
  log_to_stderr = true;
  user = codes "milter";
  group = codes "smmsp";
  uid = 7;
  gid = 25;
  lock_file = codes "/var/run/subsys/undervest";
  pid_file = codes "/var/run/undervest.pid";
}

configured :
    configure host process (codes "undervest") (codes "milter") (codes "25") true []
    ≡ Daemon.ok milter_at
unfolding configure Daemon.and_then Locks.set_lock_file Locks.with_lock_file Daemon.file_in
    FilePath.is_nil Daemon.placed FilePath.plus_text FilePath.plus FilePath.of_text FilePath.assign
    FilePath.normalize FilePath.starts_relative Locks.set_pid_file Locks.with_pid_file
    Daemon.set_user Daemon.with_old Daemon.user_of Daemon.all_digits Daemon.digits_value
    Daemon.group_named Daemon.group_numbered Daemon.group_of Daemon.group_of_id Daemon.group_stoi
    Daemon.set_group Daemon.set_jail Daemon.set_log_to_stderr Daemon.set_program Daemon.stoi
    Daemon.user_named Daemon.user_numbered Daemon.user_stoi Daemon.with_user FilePath.back_or
    FilePath.behind_component FilePath.component FilePath.delim_after FilePath.filename FilePath.get
    FilePath.get_from FilePath.skip_delims FilePath.split_from FilePath.step FilePath.up
    FilePath.walk beq Slices.is_digit
configured = refl

no_user :
    configure host process (codes "undervest") (codes "root") [] true []
    ≡ Daemon.throws (Daemon.runtime_error (codes "Daemon::user(): user `root' not found"))
unfolding configure Daemon.and_then Locks.set_lock_file Locks.with_lock_file Daemon.file_in
    FilePath.is_nil Daemon.placed FilePath.plus_text FilePath.plus FilePath.of_text FilePath.assign
    FilePath.normalize FilePath.starts_relative Locks.set_pid_file Locks.with_pid_file
    Daemon.set_user Daemon.with_old Daemon.user_of Daemon.all_digits Daemon.digits_value
    Daemon.group_named Daemon.group_numbered Daemon.group_of Daemon.group_of_id Daemon.group_stoi
    Daemon.set_group Daemon.set_jail Daemon.set_log_to_stderr Daemon.set_program Daemon.stoi
    Daemon.user_named Daemon.user_numbered Daemon.user_stoi Daemon.with_user FilePath.back_or
    FilePath.behind_component FilePath.component FilePath.delim_after FilePath.filename FilePath.get
    FilePath.get_from FilePath.skip_delims FilePath.split_from FilePath.step FilePath.up
    FilePath.walk beq Slices.is_digit
no_user = refl

milter_some : FilePath.is_nil (codes "milter") ≡ false
unfolding FilePath.is_nil
milter_some = refl

all_work : (change_identity works milter_at).1 ≡ none
unfolding change_identity Identity.behind_setgid Identity.change_user Identity.error_of
    FilePath.is_nil
all_work = refl

privileges_lem_example :
    Dropped host (codes "milter") (codes "25") (change_identity works milter_at).0
privileges_lem_example =
    privileges_lem host process milter_at (codes "undervest") (codes "milter") (codes "25") true []
      works host-IsDatabase milter_some configured all_work

-- A lock that another process has: the file is closed, and closed again by `unlock`.
abbrev refused : Locks.Step Bool
refused = Locks.lock milter_at (λ path. Locks.descriptor 5) (λ fd. some 11)

closed_twice :
    (refused.result ≡ Daemon.ok false)
    × (refused.calls
        ≡ Locks.open_file (codes "/var/run/subsys/undervest") ∷ Locks.lockf 5 ∷ Locks.close 5 ∷ [])
    × ((Locks.unlock refused.daemon).1 ≡ Locks.close 5 ∷ [])
unfolding Locks.lock Locks.lock_free Locks.lock_named Locks.named_lock Locks.opened_file
    Locks.locked_file Locks.unlock Locks.closing FilePath.is_nil
closed_twice = (refl, refl, refl)

-- All steps go well, but for the milter, which throws.
abbrev stopped : Action → Outcome
stopped start_milter = Run.throws (codes "out of memory")
stopped _ = fine

run-clean_up_example :
    (pre : List Action) × ((run false (codes "undervest") stopped).0
      ≡ pre ++ (Run.delete_pid ∷ Run.delete_lock ∷ Run.close_log ∷ []))
unfolding run_steps first_steps Run.step_of
run-clean_up_example =
    run-clean_up (codes "undervest") stopped refl (λ e. absurd cc) (λ e. absurd cc)

-- The milter interface is refused.
abbrev no_milter : Action → Outcome
no_milter Run.initialize = Run.refused
no_milter _ = fine

-- the files of a daemon stay then
files_stay :
    (run false (codes "undervest") no_milter).0
    ≡ Run.configure
      ∷ Run.block_signals
      ∷ Run.detach
      ∷ Run.close_all
      ∷ Run.open_log
      ∷ Run.unblock_signals
      ∷ Run.lock
      ∷ Run.write_pid
      ∷ Run.go_home
      ∷ Run.initialize
      ∷ Run.log_message (codes "Cannot initialize milter interface")
      ∷ Run.close_log
      ∷ []
unfolding run run_steps first_steps Run.step_of Run.refusal Run.after_first Run.then_after
    Run.after_second
files_stay = refl
