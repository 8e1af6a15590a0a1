-- ===== src/Daemon/Startup.antt =====
-- include/daemon.h: the rest of the actions at the start: the new session, the file of the process id,
-- the directories, the log and the signals. What a system call gives is an argument.
use undervest.Prelude.{
  ℕ, zero, suc, Bool, true, false, not, Option, none, some, List, [], ◌∷◌, ◌++◌, if◌then◌else◌,
  Bytes, codes,
}
use undervest.FilePath.{is_nil}
use undervest.Uri.Writer.{decimal}
use undervest.Daemon.{Failure, runtime_error, system_error, Result, ok, throws, Daemon}
use undervest.Daemon.Locks.{set_pid_file}
use undervest.Daemon.Identity.{error_of}

-- What `fork` gives: an error number, or in which of the processes it returns.
pub data Fork : Type 0 where
  fork_error : ℕ → Fork
  child : Fork
  parent : Fork

-- How `detach` ends: by an exception, by the exit of the process, or in the child of a child, which is
-- of a new session.
pub data Detached : Type 0 where
  fork_throws : Failure → Detached
  exits : Detached
  detached : Detached

-- The second `fork`, behind `setsid`.
unfoldable pub second_fork : Fork → Detached
second_fork (fork_error e) = fork_throws (system_error e)
second_fork child = detached
second_fork parent = exits

-- `detach`, for what the two calls of `fork` give.
unfoldable pub detach : Fork → Fork → Detached
detach (fork_error e) second = fork_throws (system_error e)
detach child second = second_fork second
detach parent second = exits

-- The name of the file of the process id, from that of the program if none is set.
unfoldable pub named_pid : Daemon → Result (Bytes × Daemon)
named_pid d =
    if not (is_nil d.pid_file)
    then ok (d.pid_file, d)
    else if is_nil d.program
    then throws (runtime_error (codes "Daemon:write_pid(): no pid file name"))
    else set_pid_file d (d.program ++ codes ".pid")

-- What is written to which file, and the state.
pub record Written : Type 0 where
  pub path : Bytes
  pub text : Bytes
  pub after : Daemon

unfoldable pub write_named : ℕ → (Bytes → Option Failure) → Daemon → Option Failure → Result Written
write_named pid fails d (some e) = throws e
write_named pid fails d none = ok (record { path = d.pid_file; text = decimal pid; after = d })

unfoldable pub write_to : ℕ → (Bytes → Option Failure) → Result (Bytes × Daemon) → Result Written
write_to pid fails (throws e) = throws e
write_to pid fails (ok r) = write_named pid fails r.1 (fails r.1.pid_file)

-- `write_pid`, for the number of the process and what the stream of the file throws.
unfoldable pub write_pid : Daemon → ℕ → (Bytes → Option Failure) → Result Written
write_pid d pid fails = write_to pid fails (named_pid d)

-- A call that changes to a directory, if one is set; `some` is an exception.
unfoldable pub change_to : Bytes → (Bytes → Option ℕ) → Option Failure
change_to dir fails = if is_nil dir then none else error_of (fails dir)

-- `go_home`
unfoldable pub go_home : Daemon → (Bytes → Option ℕ) → Option Failure
go_home d chdir = change_to d.home chdir

-- `incarcerate`
unfoldable pub incarcerate : Daemon → (Bytes → Option ℕ) → Option Failure
incarcerate d chroot = change_to d.jail chroot

-- The options of `openlog`, a bit each.
pub record LogOptions : Type 0 where
  pub log_pid : Bool
  pub log_cons : Bool
  pub log_odelay : Bool
  pub log_ndelay : Bool
  pub log_nowait : Bool
  pub log_perror : Bool

-- `(option & LOG_ODELAY) | LOG_NDELAY`
unfoldable pub jailed_options : LogOptions → LogOptions
jailed_options o = record {
  log_pid = false;
  log_cons = false;
  log_odelay = o.log_odelay;
  log_ndelay = true;
  log_nowait = false;
  log_perror = false;
}

-- `open_log`: the name and the options with which the log is opened.
unfoldable pub open_log : Daemon → LogOptions → Bytes × LogOptions
open_log d option =
    let o = if is_nil d.jail then option else jailed_options option in
    (d.program, if d.log_to_stderr then record o { log_perror = true } else o)

-- The signals from `n` on, of so many.
unfoldable pub signals_from : ℕ → ℕ → List ℕ
signals_from n zero = []
signals_from n (suc k) = n ∷ signals_from (suc n) k

-- `ignore_signals`: the signals that are ignored, where `_NSIG` is 65.
abbrev pub ignore_signals : List ℕ
ignore_signals = signals_from 1 64
