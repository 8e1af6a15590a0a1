-- ===== src/Daemon.antt =====
-- include/daemon.h: the identity, the files and the lock of the process. What the system answers is a
-- parameter: the databases of users and groups, and the results of system calls.
pub mod Identity
pub mod Groups
pub mod Privileges
pub mod Locks
pub mod Startup
pub mod Descriptors
pub mod Reopened
use undervest.Prelude.{
  ℕ, zero, suc, ◌+◌, ◌-◌, ◌*◌, ◌^◌, Bool, true, false, not, ◌&&◌, ◌||◌, Option, none, some, List,
  [], ◌∷◌, ◌++◌, ltb, ◌==◌, if◌then◌else◌, Bytes, codes,
}
use undervest.Stringlib.{mem}
use undervest.Slices.{is_digit}
use undervest.FilePath.{FilePath, of_text, plus_text, filename, get, is_nil}
use undervest.Uri.Writer.{decimal}

-- What `getgrnam_r` and its like give: an error number, no entry, or an entry.
pub data Lookup (A : Type 0) : Type 0 where
  lookup_error : ℕ → Lookup A
  missing : Lookup A
  found : A → Lookup A

-- `struct group`
pub record GroupEntry : Type 0 where
  pub gr_name : Bytes
  pub gr_gid : ℕ

-- `struct passwd`
pub record UserEntry : Type 0 where
  pub pw_name : Bytes
  pub pw_uid : ℕ
  pub pw_gid : ℕ

-- The effective user, and the databases.
pub record System : Type 0 where
  pub geteuid : ℕ
  pub getgrnam_r : Bytes → Lookup GroupEntry
  pub getgrgid_r : ℕ → Lookup GroupEntry
  pub getpwnam_r : Bytes → Lookup UserEntry
  pub getpwuid_r : ℕ → Lookup UserEntry

-- The exceptions, with their text or their error number.
pub data Failure : Type 0 where
  runtime_error : Bytes → Failure
  system_error : ℕ → Failure
  out_of_range : Failure

pub data Result {ℓ} (A : Type ℓ) : Type ℓ where
  ok : A → Result A
  throws : Failure → Result A

-- `uid` and `gid` have no value before they are set; `lockfd` is `none` for -1.
pub record Daemon : Type 0 where
  pub program : Bytes
  pub log_to_stderr : Bool
  pub user : Bytes
  pub group : Bytes
  pub uid : ℕ
  pub gid : ℕ
  pub home : Bytes
  pub jail : Bytes
  pub lock_file : Bytes
  pub pid_file : Bytes
  pub lockfd : Option ℕ

unfoldable pub and_then {ℓ κ} : {A : Type ℓ} {B : Type κ} → Result A → (A → Result B) → Result B
and_then (ok a) f = f a
and_then (throws e) f = throws e

-- A setter gives the old value with the new state; where it throws, nothing has changed.
unfoldable pub with_old {ℓ} : {A : Type ℓ} → A → Result Daemon → Result (A × Daemon)
with_old old (ok d) = ok (old, d)
with_old old (throws f) = throws f

-- `program(path)`
unfoldable pub set_program : Daemon → Bytes → Bytes × Daemon
set_program d path = (d.program, record d { program = filename (of_text path (codes "/")) b'/' })

unfoldable pub set_log_to_stderr : Daemon → Bool → Bool × Daemon
set_log_to_stderr d yesorno = (d.log_to_stderr, record d { log_to_stderr = yesorno })

-- `find_first_not_of("0123456789") == npos`
unfoldable pub all_digits : Bytes → Bool
all_digits [] = true
all_digits (c ∷ s) = is_digit c && all_digits s

unfoldable pub digits_value : ℕ → Bytes → ℕ
digits_value n [] = n
digits_value n (c ∷ s) = digits_value (n * 10 + (c - b'0')) s

-- `std::stoi` of digits
unfoldable pub stoi : Bytes → Option ℕ
stoi s = let n = digits_value 0 s in if ltb n (2 ^ 31) then some n else none

abbrev pub not_super : Bytes → Failure
not_super what = runtime_error (codes "Daemon::" ++ (what ++ codes "(): must be super-user"))

-- The text of the exceptions for a name or a number that is not there.
abbrev pub not_found : Bytes → Bytes → Failure
not_found what name =
    runtime_error
      (codes "Daemon::" ++ (what ++ (codes "(): " ++ (what ++ (name ++ codes " not found")))))

abbrev pub quoted : Bytes → Bytes
quoted s = codes " `" ++ (s ++ codes "'")

abbrev pub with_group : Daemon → Bytes → ℕ → Daemon
with_group d name n = record d { group = name; gid = n }

-- The lookup of `group(...)` by a number, which ends in this exception if there is no entry.
unfoldable pub group_numbered : Daemon → Failure → Lookup GroupEntry → Result Daemon
group_numbered d absent (lookup_error e) = throws (system_error e)
group_numbered d absent missing = throws absent
group_numbered d absent (found g) = ok (with_group d g.gr_name g.gr_gid)

unfoldable pub group_stoi : System → Daemon → Bytes → Option ℕ → Result Daemon
group_stoi sys d s none = throws out_of_range
group_stoi sys d s (some n) =
    group_numbered d (not_found (codes "group") (quoted s)) (sys.getgrgid_r n)

unfoldable pub group_named : System → Daemon → Bytes → Lookup GroupEntry → Result Daemon
group_named sys d s (lookup_error e) = throws (system_error e)
group_named sys d s (found g) = ok (with_group d s g.gr_gid)
group_named sys d s missing =
    if not (all_digits s)
    then throws (not_found (codes "group") (quoted s))
    else group_stoi sys d s (stoi s)

unfoldable pub group_of : System → Daemon → Bytes → Result Daemon
group_of sys d s =
    if is_nil s
    then ok (record d { group = [] })
    else if not (sys.geteuid == 0)
    then throws (not_super (codes "group"))
    else group_named sys d s (sys.getgrnam_r s)

-- `group(gid_or_name)`
unfoldable pub set_group : System → Daemon → Bytes → Result (Bytes × Daemon)
set_group sys d s = with_old d.group (group_of sys d s)

unfoldable pub group_of_id : System → Daemon → ℕ → Result Daemon
group_of_id sys d n =
    if not (sys.geteuid == 0)
    then throws (not_super (codes "group"))
    else group_numbered d (not_found (codes "group") (codes " " ++ decimal n)) (sys.getgrgid_r n)

-- `group(groupid)`
unfoldable pub set_group_id : System → Daemon → ℕ → Result (ℕ × Daemon)
set_group_id sys d n = with_old d.gid (group_of_id sys d n)

-- `_user = ...; _uid = ...`, behind `group(pwd.pw_gid)`
unfoldable pub with_user : Bytes → ℕ → Result Daemon → Result Daemon
with_user name n (throws f) = throws f
with_user name n (ok d) = ok (record d { user = name; uid = n })

-- The lookup of `user(...)` by a number.
unfoldable pub user_numbered : System → Daemon → Failure → Lookup UserEntry → Result Daemon
user_numbered sys d absent (lookup_error e) = throws (system_error e)
user_numbered sys d absent missing = throws absent
user_numbered sys d absent (found p) = with_user p.pw_name p.pw_uid (group_of_id sys d p.pw_gid)

unfoldable pub user_stoi : System → Daemon → Bytes → Option ℕ → Result Daemon
user_stoi sys d s none = throws out_of_range
user_stoi sys d s (some n) =
    user_numbered sys d (not_found (codes "user") (quoted s)) (sys.getpwuid_r n)

unfoldable pub user_named : System → Daemon → Bytes → Lookup UserEntry → Result Daemon
user_named sys d s (lookup_error e) = throws (system_error e)
user_named sys d s (found p) = with_user s p.pw_uid (group_of_id sys d p.pw_gid)
user_named sys d s missing =
    if not (all_digits s)
    then throws (not_found (codes "user") (quoted s))
    else user_stoi sys d s (stoi s)

unfoldable pub user_of : System → Daemon → Bytes → Result Daemon
user_of sys d s =
    if is_nil s
    then ok (record d { user = [] })
    else if not (sys.geteuid == 0)
    then throws (not_super (codes "user"))
    else user_named sys d s (sys.getpwnam_r s)

-- `user(uid_or_name)`
unfoldable pub set_user : System → Daemon → Bytes → Result (Bytes × Daemon)
set_user sys d s = with_old d.user (user_of sys d s)

-- `_uid = userid` at the end of `user(userid)`
unfoldable pub user_id_found : System → Daemon → ℕ → Lookup UserEntry → Result Daemon
user_id_found sys d n (lookup_error e) = throws (system_error e)
user_id_found sys d n missing = throws (not_found (codes "user") (codes " " ++ decimal n))
user_id_found sys d n (found p) = with_user p.pw_name n (group_of_id sys d p.pw_gid)

-- `user(userid)`
unfoldable pub set_user_id : System → Daemon → ℕ → Result (ℕ × Daemon)
set_user_id sys d n = with_old d.uid (
    if not (sys.geteuid == 0)
    then throws (not_super (codes "user"))
    else user_id_found sys d n (sys.getpwuid_r n))

unfoldable pub set_home : Daemon → Bytes → Bytes × Daemon
set_home d homedir = (d.home, record d { home = homedir })

-- `jail(newfsroot)`
unfoldable pub set_jail : System → Daemon → Bytes → Result (Bytes × Daemon)
set_jail sys d newfsroot =
    if not (is_nil newfsroot) && not (sys.geteuid == 0)
    then throws (not_super (codes "jail"))
    else ok (d.jail, record d { jail = newfsroot })

-- A file name, put into a directory unless it is empty or has a directory.
unfoldable pub placed : Bytes → Option FilePath → Result Bytes
placed s none = throws (runtime_error (codes "FilePath::+: 2nd operand not relative"))
placed s (some p) = ok (get p false b'/')

unfoldable pub file_in : Bytes → Bytes → Result Bytes
file_in dir s =
    if is_nil s || mem b'/' s then ok s else placed s (plus_text (of_text dir (codes "/")) s)
