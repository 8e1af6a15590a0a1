-- ===== src/Reload.antt =====
-- `domainRefresher` of src/milter/domain.cpp and `Globals::reload` of src/milter/main.cpp: the configuration in
-- use and its domains. A pointer to a configuration or to a domain is a number that no other has; what
-- the sources give, and what the configuration file is read to, are parameters.
pub mod Refresher
use undervest.Prelude.{
  ℕ, suc, Bool, true, false, ◌&&◌, Option, none, some, List, [], ◌∷◌, ◌++◌, ◌==◌, if◌then◌else◌,
  Bytes, codes, beq,
}
use undervest.Source.{Source, Reading, Failure, already_logged, exception}
use undervest.Domain.{Domain}
use undervest.Domain.Lifecycle.{Refreshed, renewed, failed, refresh}

-- What a `shared_ptr<Domain>` of the table holds.
pub record Entry : Type 0 where
  pub serial : ℕ
  pub domain : Domain

-- The event of a domain: the configuration and the domain that it was made for.
pub record TimedRefresh : Type 0 where
  pub generation : ℕ
  pub name : Bytes
  pub serial : ℕ

-- The configuration in use, the next number of a domain, the events scheduled with their seconds, and
-- what was logged for which domain.
pub record Globals : Type 0 where
  pub generation : ℕ
  pub domains : List (Bytes × Entry)
  pub fresh : ℕ
  pub scheduled : List (TimedRefresh × ℕ)
  pub logged : List (Bytes × Bytes)

unfoldable pub find_entry : Bytes → List (Bytes × Entry) → Option Entry
find_entry name [] = none
find_entry name ((n, x) ∷ ds) = let rest = find_entry name ds in if beq n name then some x else rest

-- `(*it).second = ...`
unfoldable pub replace_entry : Bytes → Entry → List (Bytes × Entry) → List (Bytes × Entry)
replace_entry name y [] = []
replace_entry name y ((n, x) ∷ ds) =
    let rest = replace_entry name y ds in if beq n name then (n, y) ∷ ds else (n, x) ∷ rest

abbrev pub timed : Option ℕ → TimedRefresh → List (TimedRefresh × ℕ)
timed none e = []
timed (some t) e = (e, t) ∷ []

-- The handlers of the exceptions.
abbrev pub failure_log : Bytes → Failure → List (Bytes × Bytes)
failure_log name already_logged = []
failure_log name (exception msg) = (name, msg) ∷ []

-- A new domain has the next number; a domain that fails stays, with what the failure changed in it.
unfoldable pub entry_after : ℕ → Entry → Refreshed → Entry
entry_after fresh x (renewed d t) = record { serial = fresh; domain = d }
entry_after fresh x (failed d f t) = record { serial = x.serial; domain = d }

unfoldable pub put_back : Globals → Bytes → Entry → Refreshed → Globals
put_back g name x r =
    let y = entry_after g.fresh x r in
    record g {
      domains = replace_entry name y g.domains;
      fresh = suc g.fresh;
      scheduled =
          g.scheduled
          ++ events r (record { generation = g.generation; name = name; serial = y.serial });
      logged = g.logged ++ failures_of name r;
    }
  where
    events : Refreshed → TimedRefresh → List (TimedRefresh × ℕ)
    events (renewed d t) e = timed t e
    events (failed d f t) e = timed t e

    failures_of : Bytes → Refreshed → List (Bytes × Bytes)
    failures_of n (renewed d t) = []
    failures_of n (failed d f t) = failure_log n f

module _ (read : Source → Reading) where
  unfoldable pub refresh_found : Globals → TimedRefresh → Option Entry → Globals
  refresh_found g e none = g
  refresh_found g e (some x) =
      if x.serial == e.serial then put_back g e.name x (refresh read x.domain) else g

  -- `domainRefresher`
  unfoldable pub domain_refresher : Globals → TimedRefresh → Globals
  domain_refresher g e =
      if e.generation == g.generation then refresh_found g e (find_entry e.name g.domains) else g

  -- The loop of `reload` over the domains of the new configuration, from a name on.
  unfoldable pub refresh_all : List (Bytes × Entry) → Globals → Globals
  refresh_all [] g = g
  refresh_all ((n, x) ∷ ds) g = refresh_all ds (put_back g n x (refresh read x.domain))

  -- `reload`: without a new configuration, which reading the file has thrown then, the old one stays.
  unfoldable pub reload : Option (List (Bytes × Entry)) → Globals → Globals
  reload none g = g
  reload (some ds) g = refresh_all ds (record g { generation = suc g.generation; domains = ds })
