-- ===== src/Daemon/Locks.antt =====
-- include/daemon.h: the lock file and the file of the process id. The system calls stand in the order
-- in which they are made.
use undervest.Prelude.{
  ℕ, Bool, true, false, not, ◌||◌, Option, none, some, List, [], ◌∷◌, ◌++◌, ◌==◌, if◌then◌else◌,
  Bytes, codes,
}
use undervest.FilePath.{is_nil}
use undervest.Daemon.{Failure, runtime_error, system_error, Result, ok, throws, Daemon, file_in}

unfoldable pub with_lock_file : Daemon → Result Bytes → Result (Bytes × Daemon)
with_lock_file d (throws e) = throws e
with_lock_file d (ok path) = ok (d.lock_file, record d { lock_file = path })

-- `lock_file(lockfile)`
unfoldable pub set_lock_file : Daemon → Bytes → Result (Bytes × Daemon)
set_lock_file d lockfile = with_lock_file d (file_in (codes "/var/run/subsys") lockfile)

unfoldable pub with_pid_file : Daemon → Result Bytes → Result (Bytes × Daemon)
with_pid_file d (throws e) = throws e
with_pid_file d (ok path) = ok (d.pid_file, record d { pid_file = path })

-- `pid_file(pidfile)`
unfoldable pub set_pid_file : Daemon → Bytes → Result (Bytes × Daemon)
set_pid_file d pidfile = with_pid_file d (file_in (codes "/var/run") pidfile)

pub data FileCall : Type 0 where
  open_file : Bytes → FileCall
  lockf : ℕ → FileCall
  close : ℕ → FileCall
  unlink : Bytes → FileCall

-- What `open` gives: a file descriptor, or an error number.
pub data Opened : Type 0 where
  descriptor : ℕ → Opened
  open_error : ℕ → Opened

-- The state afterwards, the calls, and the result.
pub record Step (A : Type 0) : Type 0 where
  pub daemon : Daemon
  pub calls : List FileCall
  pub result : Result A

abbrev pub eacces : ℕ
eacces = 13

abbrev pub eagain : ℕ
eagain = 11

-- Behind `lockf`, with the value of `errno` once the file is closed if it failed. The member keeps the
-- number of the file in each case.
unfoldable pub locked_file : Daemon → ℕ → Option ℕ → Step Bool
locked_file d fd none = record {
  daemon = record d { lockfd = some fd };
  calls = open_file d.lock_file ∷ lockf fd ∷ [];
  result = ok true;
}
locked_file d fd (some e) = record {
  daemon = record d { lockfd = some fd };
  calls = open_file d.lock_file ∷ lockf fd ∷ close fd ∷ [];
  result = if e == eacces || e == eagain then ok false else throws (system_error e);
}

unfoldable pub opened_file : Daemon → (ℕ → Option ℕ) → Opened → Step Bool
opened_file d lockf_of (open_error e) = record {
  daemon = record d { lockfd = none };
  calls = open_file d.lock_file ∷ [];
  result = throws (system_error e);
}
opened_file d lockf_of (descriptor fd) = locked_file d fd (lockf_of fd)

-- A member function that ends without a system call.
abbrev pub stops : {A : Type 0} → Daemon → Failure → Step A
stops d f = record { daemon = d; calls = []; result = throws f }

-- The name of the lock file, from that of the program if none is set.
unfoldable pub named_lock : Daemon → Result (Bytes × Daemon)
named_lock d =
    if not (is_nil d.lock_file)
    then ok (d.lock_file, d)
    else if is_nil d.program
    then throws (runtime_error (codes "Daemon:lock(): no lock file name"))
    else set_lock_file d d.program

unfoldable pub lock_named :
    Daemon → (Bytes → Opened) → (ℕ → Option ℕ) → Result (Bytes × Daemon) → Step Bool
lock_named d open_of lockf_of (throws f) = stops d f
lock_named d open_of lockf_of (ok r) = opened_file r.1 lockf_of (open_of r.1.lock_file)

unfoldable pub lock_free : Daemon → (Bytes → Opened) → (ℕ → Option ℕ) → Option ℕ → Step Bool
lock_free d open_of lockf_of (some fd) =
    stops d (runtime_error (codes "Daemon:lock(): already locked"))
lock_free d open_of lockf_of none = lock_named d open_of lockf_of (named_lock d)

-- `lock`
unfoldable pub lock : Daemon → (Bytes → Opened) → (ℕ → Option ℕ) → Step Bool
lock d open_of lockf_of = lock_free d open_of lockf_of d.lockfd

unfoldable pub closing : Option ℕ → List FileCall
closing none = []
closing (some fd) = close fd ∷ []

-- `unlock`
unfoldable pub unlock : Daemon → Daemon × List FileCall
unlock d = (record d { lockfd = none }, closing d.lockfd)

-- `unlink` of a file that has a name.
unfoldable pub unlinking : Bytes → List FileCall
unlinking path = if is_nil path then [] else unlink path ∷ []

-- `delete_lock`
unfoldable pub delete_lock : Daemon → Daemon × List FileCall
delete_lock d = let r = unlock d in (r.0, r.1 ++ unlinking d.lock_file)

-- `delete_pid`
unfoldable pub delete_pid : Daemon → List FileCall
delete_pid d = unlinking d.pid_file
