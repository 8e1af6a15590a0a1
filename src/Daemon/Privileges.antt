-- ===== src/Daemon/Privileges.antt =====
-- The calls that change the identity of the process.
use undervest.Prelude.{
  ℕ, ◌≡◌, inl, inr, refl, sym, ap, ◌∙◌, Bool, true, false, not, ◌&&◌, Option, none, some, List, [],
  ◌∷◌, ◌++◌, codes, ◌==◌, if◌then◌else◌, Bytes,
}
use undervest.FilePath.{is_nil}
use undervest.Daemon.{
  Lookup, lookup_error, missing, found, UserEntry, System, Failure, Result, ok, throws, Daemon,
  all_digits, stoi, group_of, group_of_id, with_user, user_numbered, user_stoi, user_named, user_of,
  set_user, set_group, not_found, quoted, set_program, set_log_to_stderr, set_jail, not_super,
}
use undervest.Daemon.Locks.{set_lock_file, set_pid_file}
use undervest.Daemon.Identity.{
  Call, setgid, setgroups, setuid, change_user, behind_setgid, change_identity, configure, IsUser,
  IsGid, IsDatabase,
}
use undervest.Daemon.Groups.{allowed, and_then-ok, with_old-ok, group_of-ok, group_of_id-ok}

-- What the setter of the user leaves in the daemon.
record UserSet (r : Daemon) (p : UserEntry) : Type 0 where
  user_some : is_nil r.user ≡ false
  uid_is : r.uid ≡ p.pw_uid
  gid_is : r.gid ≡ p.pw_gid

refused :
    {A : Type 0} (b : Bool) (f : Failure) (m : Result A) (r : A)
    → (if b then throws f else m) ≡ ok r
    → m ≡ ok r
refused true f m r h = absurd cc
refused false f m r h = h

with_user-parts :
    (name : Bytes) (n : ℕ) (m : Result Daemon) (r : Daemon)
    → with_user name n m ≡ ok r
    → (q : Daemon) × (m ≡ ok q) × (r ≡ record q { user = name; uid = n })
unfolding with_user
with_user-parts name n (ok q) r h = (q, refl, cc)
with_user-parts name n (throws f) r h = absurd cc

-- the entry of a user, once the group of that entry is set
with_user-ok :
    (sys : System) (d : Daemon) (name : Bytes) (p : UserEntry) (r : Daemon)
    → IsDatabase sys
    → is_nil name ≡ false
    → with_user name p.pw_uid (group_of_id sys d p.pw_gid) ≡ ok r
    → UserSet r p
with_user-ok sys d name p r v ne h =
    let (q, e, k) = with_user-parts name p.pw_uid (group_of_id sys d p.pw_gid) r h in
    let w = group_of_id-ok sys d p.pw_gid q v e in
    record {
      user_some = ap (λ (x : Daemon). is_nil x.user) k ∙ ne;
      uid_is = ap (λ (x : Daemon). x.uid) k;
      gid_is = ap (λ (x : Daemon). x.gid) k ∙ w.gid_is;
    }

user_numbered-ok :
    (sys : System) (d : Daemon) (absent : Failure) (n : ℕ) (l : Lookup UserEntry) (r : Daemon)
    → IsDatabase sys
    → sys.getpwuid_r n ≡ l
    → user_numbered sys d absent l ≡ ok r
    → (p : UserEntry) × (l ≡ found p) × UserSet r p
unfolding user_numbered
user_numbered-ok sys d absent n (lookup_error e) r v q h = absurd cc
user_numbered-ok sys d absent n missing r v q h = absurd cc
user_numbered-ok sys d absent n (found p) r v q h =
    (p, refl, with_user-ok sys d p.pw_name p r v (v.has_name n p q) h)

user_stoi-ok :
    (sys : System) (d : Daemon) (s : Bytes) (o : Option ℕ) (r : Daemon)
    → IsDatabase sys
    → user_stoi sys d s o ≡ ok r
    → (n : ℕ) × (o ≡ some n) × ((p : UserEntry) × (sys.getpwuid_r n ≡ found p) × UserSet r p)
unfolding user_stoi
user_stoi-ok sys d s none r v h = absurd cc
user_stoi-ok sys d s (some n) r v h = (
  n,
  refl,
  user_numbered-ok sys d (not_found (codes "user") (quoted s)) n (sys.getpwuid_r n) r v refl h,
)

user_named-ok :
    (sys : System) (d : Daemon) (s : Bytes) (l : Lookup UserEntry) (r : Daemon)
    → IsDatabase sys
    → is_nil s ≡ false
    → sys.getpwnam_r s ≡ l
    → user_named sys d s l ≡ ok r
    → (p : UserEntry) × IsUser sys s p × UserSet r p
unfolding user_named
user_named-ok sys d s (lookup_error e) r v ne q h = absurd cc
user_named-ok sys d s (found p) r v ne q h = (p, inl q, with_user-ok sys d s p r v ne h)
user_named-ok sys d s missing r v ne q h =
    let (a, k) =
      allowed (all_digits s) (not_found (codes "user") (quoted s)) (user_stoi sys d s (stoi s)) r
        h in
    let (n, e, (p, f, w)) = user_stoi-ok sys d s (stoi s) r v k in (p, inr (q, a, (n, e, f)), w)

user_of-ok :
    (sys : System) (d : Daemon) (s : Bytes) (r : Daemon)
    → IsDatabase sys
    → is_nil s ≡ false
    → user_of sys d s ≡ ok r
    → (p : UserEntry) × IsUser sys s p × UserSet r p
unfolding user_of is_nil
user_of-ok sys d [] r v ne h = absurd cc
user_of-ok sys d (c ∷ s) r v ne h =
    let (a, k) =
      allowed (sys.geteuid == 0) (not_super (codes "user"))
        (user_named sys d (c ∷ s) (sys.getpwnam_r (c ∷ s))) r h in
    user_named-ok sys d (c ∷ s) (sys.getpwnam_r (c ∷ s)) r v ne refl k

jail_keeps :
    (sys : System) (d : Daemon) (jail : Bytes) (r : Bytes × Daemon)
    → set_jail sys d jail ≡ ok r
    → r.1 ≡ record d { jail = jail }
unfolding set_jail
jail_keeps sys d jail r h =
    let k =
      refused (not (is_nil jail) && not (sys.geteuid == 0)) (not_super (codes "jail"))
        (ok (d.jail, record d { jail = jail })) r h in
    let q : (d.jail, record d { jail = jail }) ≡ r = cc in ap (λ (x : Bytes × Daemon). x.1) (sym q)

calls-exact :
    (fails : Call → Option ℕ) (d : Daemon) (o : Option ℕ)
    → is_nil d.user ≡ false
    → (behind_setgid fails d o).1 ≡ none
    → (behind_setgid fails d o).0 ≡ setgid d.gid ∷ setgroups (d.gid ∷ []) ∷ setuid d.uid ∷ []
unfolding behind_setgid change_user
calls-exact fails d none ne h = rw ne refl
calls-exact fails d (some e) ne h = absurd cc

-- what a daemon with a user does
identity-calls :
    (fails : Call → Option ℕ) (d : Daemon) (n u : ℕ)
    → is_nil d.user ≡ false
    → d.gid ≡ n
    → d.uid ≡ u
    → (change_identity fails d).1 ≡ none
    → (change_identity fails d).0 ≡ setgid n ∷ setgroups (n ∷ []) ∷ setuid u ∷ []
unfolding change_identity
identity-calls fails d n u ne g i h =
    ap (λ (x : List Call × Option Failure). x.0) opened
    ∙ calls-exact fails d (fails (setgid d.gid)) ne
        (sym (ap (λ (x : List Call × Option Failure). x.1) opened) ∙ h)
    ∙ (λ j. setgid (g j) ∷ setgroups (g j ∷ []) ∷ setuid (i j) ∷ [])
  where
    opened : change_identity fails d ≡ behind_setgid fails d (fails (setgid d.gid))
    opened = rw ne refl

IsGid-same :
    (sys : System) (group : Bytes) (a b n : ℕ) → a ≡ b → IsGid sys group a n → IsGid sys group b n
IsGid-same sys [] a b n e h = h ∙ e
IsGid-same sys (c ∷ s) a b n e h = h

-- The calls for a user and a group.
abbrev pub Dropped : System → Bytes → Bytes → List Call → Type 0
Dropped sys user group calls =
    (p : UserEntry) × (n : ℕ) × IsUser sys user p
    × IsGid sys group p.pw_gid n
    × (calls ≡ setgid n ∷ setgroups (n ∷ []) ∷ setuid p.pw_uid ∷ [])

-- the steps of `configure` behind the file names
stages :
    (sys : System) (b : Daemon) (r : Daemon) (user group : Bytes) (logstd : Bool) (jail : Bytes)
    (fails : Call → Option ℕ) (e g j : Bytes × Daemon)
    → IsDatabase sys
    → is_nil user ≡ false
    → user_of sys b user ≡ ok e.1
    → group_of sys e.1 group ≡ ok g.1
    → set_jail sys (set_log_to_stderr g.1 logstd).1 jail ≡ ok j
    → ok j.1 ≡ ok r
    → (change_identity fails r).1 ≡ none
    → Dropped sys user group (change_identity fails r).0
unfolding set_log_to_stderr
stages sys b r user group logstd jail fails e g j v ne ee eg ej hj t =
    let (p, is_user, w) = user_of-ok sys b user e.1 v ne ee in
    let (n, is_gid, k) = group_of-ok sys e.1 group g.1 eg in
    let kept = jail_keeps sys (set_log_to_stderr g.1 logstd).1 jail j ej in
    let last : j.1 ≡ r = cc in
    let q : r ≡ record g.1 { log_to_stderr = logstd; jail = jail } = sym last ∙ kept in
    (
      p,
      n,
      is_user,
      IsGid-same sys group e.1.gid p.pw_gid n w.gid_is is_gid,
      identity-calls fails r n p.pw_uid
          (ap (λ (x : Daemon). is_nil x.user) q ∙ ap is_nil k.user_same ∙ w.user_some)
          (ap (λ (x : Daemon). x.gid) q ∙ k.gid_is)
          (ap (λ (x : Daemon). x.uid) q ∙ k.uid_same ∙ w.uid_is) t,
    )

-- Once the daemon is configured with a user, and once `change_identity` does not throw, the process has
-- called `setgid`, `setgroups` and `setuid`, in that order: with the number of the user, and with the
-- group that is asked for, or with that of the user if none is. A user and a group are found by their
-- name, or by their number if nobody has that name.
pub privileges_lem :
    (sys : System) (d r : Daemon) (name user group : Bytes) (logstd : Bool) (jail : Bytes)
    (fails : Call → Option ℕ)
    → IsDatabase sys
    → is_nil user ≡ false
    → configure sys d name user group logstd jail ≡ ok r
    → (change_identity fails r).1 ≡ none
    → Dropped sys user group (change_identity fails r).0
unfolding configure set_user set_group
privileges_lem sys d r name user group logstd jail fails v ne h t =
    let (a, ea, ha) = and_then-ok (set_lock_file (set_program d name).1 name) _ r h in
    let (b, eb, hb) = and_then-ok (set_pid_file a.1 (name ++ codes ".pid")) _ r ha in
    let (e, ee, he) = and_then-ok (set_user sys b.1 user) _ r hb in
    let (g, eg, hg) = and_then-ok (set_group sys e.1 group) _ r he in
    let (j, ej, hj) = and_then-ok (set_jail sys (set_log_to_stderr g.1 logstd).1 jail) _ r hg in
    stages sys b.1 r user group logstd jail fails e g j v ne (with_old-ok _ _ e ee)
      (with_old-ok _ _ g eg) ej hj t
