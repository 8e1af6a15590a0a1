-- ===== src/Daemon/Groups.antt =====
-- include/daemon.h: the steps of the setters, and what those of the group leave.
use undervest.Prelude.{
  ℕ, ◌≡◌, inl, inr, refl, sym, ap, ◌∙◌, Bool, true, false, not, Option, none, some, [], ◌∷◌, ◌++◌,
  codes, ◌==◌, if◌then◌else◌, Bytes,
}
use undervest.FilePath.{is_nil}
use undervest.Daemon.{
  Lookup, lookup_error, missing, found, GroupEntry, System, Failure, Result, ok, throws, Daemon,
  all_digits, stoi, group_numbered, group_stoi, group_named, group_of, group_of_id, with_old,
  not_found, quoted, and_then, with_group, not_super,
}
use undervest.Uri.Writer.{decimal}
use undervest.Daemon.Identity.{IsGroup, IsGid, IsDatabase}

-- What the setters of the group leave in the daemon.
pub record Holds (d r : Daemon) (n : ℕ) : Type 0 where
  pub user_same : r.user ≡ d.user
  pub uid_same : r.uid ≡ d.uid
  pub gid_is : r.gid ≡ n

-- a step that is made on a condition only
pub allowed :
    {A : Type 0} (b : Bool) (f : Failure) (m : Result A) (r : A)
    → (if not b then throws f else m) ≡ ok r
    → (b ≡ true) × (m ≡ ok r)
allowed true f m r h = (refl, h)
allowed false f m r h = absurd cc

pub and_then-ok :
    {A B : Type 0} (m : Result A) (f : A → Result B) (b : B)
    → and_then m f ≡ ok b
    → (a : A) × (m ≡ ok a) × (f a ≡ ok b)
unfolding and_then
and_then-ok (ok a) f b h = (a, refl, h)
and_then-ok (throws e) f b h = absurd cc

pub with_old-ok :
    {A : Type 0} (old : A) (m : Result Daemon) (r : A × Daemon) → with_old old m ≡ ok r → m ≡ ok r.1
unfolding with_old
with_old-ok {A = A} old (ok d) r h = let q : (old, d) ≡ r = cc in ap (λ (x : A × Daemon). ok x.1) q
with_old-ok old (throws e) r h = absurd cc

group_numbered-ok :
    (d : Daemon) (absent : Failure) (l : Lookup GroupEntry) (r : Daemon)
    → group_numbered d absent l ≡ ok r
    → (g : GroupEntry) × (l ≡ found g) × (r ≡ with_group d g.gr_name g.gr_gid)
unfolding group_numbered
group_numbered-ok d absent (lookup_error e) r h = absurd cc
group_numbered-ok d absent missing r h = absurd cc
group_numbered-ok d absent (found g) r h = (g, refl, cc)

grouped : (d r : Daemon) (name : Bytes) (n : ℕ) → r ≡ with_group d name n → Holds d r n
grouped d r name n e = record {
  user_same = ap (λ (x : Daemon). x.user) e;
  uid_same = ap (λ (x : Daemon). x.uid) e;
  gid_is = ap (λ (x : Daemon). x.gid) e;
}

group_stoi-ok :
    (sys : System) (d : Daemon) (s : Bytes) (o : Option ℕ) (r : Daemon)
    → group_stoi sys d s o ≡ ok r
    → (n : ℕ) × (o ≡ some n)
      × ((g : GroupEntry) × (sys.getgrgid_r n ≡ found g) × Holds d r g.gr_gid)
unfolding group_stoi
group_stoi-ok sys d s none r h = absurd cc
group_stoi-ok sys d s (some n) r h =
    let (g, e, q) =
      group_numbered-ok d (not_found (codes "group") (quoted s)) (sys.getgrgid_r n) r h in
    (n, refl, (g, e, grouped d r g.gr_name g.gr_gid q))

group_named-ok :
    (sys : System) (d : Daemon) (s : Bytes) (l : Lookup GroupEntry) (r : Daemon)
    → sys.getgrnam_r s ≡ l
    → group_named sys d s l ≡ ok r
    → (g : GroupEntry) × IsGroup sys s g × Holds d r g.gr_gid
unfolding group_named
group_named-ok sys d s (lookup_error e) r q h = absurd cc
group_named-ok sys d s (found g) r q h = (g, inl q, grouped d r s g.gr_gid cc)
group_named-ok sys d s missing r q h =
    let (a, k) =
      allowed (all_digits s) (not_found (codes "group") (quoted s)) (group_stoi sys d s (stoi s)) r
        h in
    let (n, e, (g, f, w)) = group_stoi-ok sys d s (stoi s) r k in (g, inr (q, a, (n, e, f)), w)

pub group_of-ok :
    (sys : System) (d : Daemon) (s : Bytes) (r : Daemon)
    → group_of sys d s ≡ ok r
    → (n : ℕ) × IsGid sys s d.gid n × Holds d r n
unfolding group_of is_nil
group_of-ok sys d [] r h =
    let q : record d { group = [] } ≡ r = cc in (d.gid, refl, grouped d r [] d.gid (sym q))
group_of-ok sys d (c ∷ s) r h =
    let (a, k) =
      allowed (sys.geteuid == 0) (not_super (codes "group"))
        (group_named sys d (c ∷ s) (sys.getgrnam_r (c ∷ s))) r h in
    let (g, i, w) = group_named-ok sys d (c ∷ s) (sys.getgrnam_r (c ∷ s)) r refl k in
    (g.gr_gid, (g, i, refl), w)

pub group_of_id-ok :
    (sys : System) (d : Daemon) (n : ℕ) (r : Daemon)
    → IsDatabase sys
    → group_of_id sys d n ≡ ok r
    → Holds d r n
unfolding group_of_id
group_of_id-ok sys d n r v h =
    let (a, k) =
      allowed (sys.geteuid == 0) (not_super (codes "group"))
        (group_numbered d (not_found (codes "group") (codes " " ++ decimal n)) (sys.getgrgid_r n)) r
        h in
    let (g, e, q) =
      group_numbered-ok d (not_found (codes "group") (codes " " ++ decimal n)) (sys.getgrgid_r n) r
        k in
    grouped d r g.gr_name n (q ∙ ap (λ (m : ℕ). with_group d g.gr_name m) (v.same_gid n g e))
