-- ===== src/Daemon/Identity.antt =====
-- include/daemon.h, and the use that src/milter/main.cpp makes of it: who the process becomes. The calls
-- that change the identity stand in the order in which they are made.
use undervest.Prelude.{
  ℕ, ◌≡◌, ◌⊎◌, Bool, true, false, ◌&&◌, Option, none, some, List, [], ◌∷◌, ◌++◌, codes,
  if◌then◌else◌, Bytes,
}
use undervest.FilePath.{is_nil}
use undervest.Daemon.{
  missing, found, GroupEntry, UserEntry, System, Failure, system_error, Result, ok, Daemon,
  all_digits, stoi, set_user, set_group, and_then, set_program, set_log_to_stderr, set_jail,
}
use undervest.Daemon.Locks.{set_lock_file, set_pid_file}

pub data Call : Type 0 where
  setgid : ℕ → Call
  setgroups : List ℕ → Call
  setuid : ℕ → Call

unfoldable pub error_of : Option ℕ → Option Failure
error_of none = none
error_of (some e) = some (system_error e)

-- Behind `setgroups`, whose result is not looked at.
unfoldable pub change_user : (Call → Option ℕ) → Daemon → List Call × Option Failure
change_user fails d =
    if is_nil d.user then ([], none) else (setuid d.uid ∷ [], error_of (fails (setuid d.uid)))

unfoldable pub behind_setgid : (Call → Option ℕ) → Daemon → Option ℕ → List Call × Option Failure
behind_setgid fails d (some e) = (setgid d.gid ∷ [], some (system_error e))
behind_setgid fails d none =
    let r = change_user fails d in (setgid d.gid ∷ setgroups (d.gid ∷ []) ∷ r.0, r.1)

-- `change_identity`: the calls, and what is thrown. `fails` gives the error number of a call that fails.
unfoldable pub change_identity : (Call → Option ℕ) → Daemon → List Call × Option Failure
change_identity fails d =
    if is_nil d.user && is_nil d.group
    then ([], none)
    else behind_setgid fails d (fails (setgid d.gid))

-- The setters that `Globals::run` calls on the daemon before it detaches.
unfoldable pub configure : System → Daemon → Bytes → Bytes → Bytes → Bool → Bytes → Result Daemon
configure sys d name user group logstd jail =
    and_then (set_lock_file (set_program d name).1 name) λ a.
      and_then (set_pid_file a.1 (name ++ codes ".pid")) λ b. and_then (set_user sys b.1 user) λ e.
        and_then (set_group sys e.1 group)
          λ g. and_then (set_jail sys (set_log_to_stderr g.1 logstd).1 jail) λ j. ok j.1

-- The entry of a name, or of the number that it is if no entry has that name.
abbrev pub IsUser : System → Bytes → UserEntry → Type 0
IsUser sys s p =
    (sys.getpwnam_r s ≡ found p)
    ⊎ ((sys.getpwnam_r s ≡ missing)
        × (all_digits s ≡ true)
        × ((n : ℕ) × (stoi s ≡ some n) × (sys.getpwuid_r n ≡ found p)))

abbrev pub IsGroup : System → Bytes → GroupEntry → Type 0
IsGroup sys s g =
    (sys.getgrnam_r s ≡ found g)
    ⊎ ((sys.getgrnam_r s ≡ missing)
        × (all_digits s ≡ true)
        × ((n : ℕ) × (stoi s ≡ some n) × (sys.getgrgid_r n ≡ found g)))

-- The group of the process: the one that is asked for, or this one.
abbrev pub IsGid : System → Bytes → ℕ → ℕ → Type 0
IsGid sys [] before n = n ≡ before
IsGid sys (c ∷ s) before n = (g : GroupEntry) × IsGroup sys (c ∷ s) g × (n ≡ g.gr_gid)

-- What the databases promise: an entry that is asked for by its number has that number, and users
-- have names.
pub record IsDatabase (sys : System) : Type 0 where
  pub same_gid : (n : ℕ) (g : GroupEntry) → sys.getgrgid_r n ≡ found g → g.gr_gid ≡ n
  pub has_name : (n : ℕ) (p : UserEntry) → sys.getpwuid_r n ≡ found p → is_nil p.pw_name ≡ false
