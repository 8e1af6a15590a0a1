-- ===== src/Options.antt =====
-- src/milter/main.cpp: `Globals::run` up to the daemon: the arguments of the program. `none` is `usage`,
-- which exits.
pub mod Rendered
use undervest.Prelude.{
  ℕ, zero, suc, ◌+◌, Bool, true, false, not, ◌&&◌, Option, none, some, List, [], ◌∷◌, ◌==◌,
  if◌then◌else◌, Bytes, codes, ◌>>=◌,
}

-- The fields of `Globals` that the arguments set.
pub record Settings : Type 0 where
  pub config : Bytes
  pub user : Bytes
  pub group : Bytes
  pub jail : Bytes
  pub debuglvl : ℕ
  pub stderr_only : Bool
  pub logstd : Bool
  pub nodaemon : Bool

-- The settings in front of the loop, for the name of the program.
abbrev pub defaults : Bytes → Settings
defaults config = record {
  config = config;
  user = [];
  group = [];
  jail = [];
  debuglvl = 0;
  stderr_only = false;
  logstd = false;
  nodaemon = false;
}

-- A letter with an argument: `if (!--argc) usage(); x = *++argv`.
abbrev pub with_argument : (Bytes → Settings) → List Bytes → Option (Settings × List Bytes)
with_argument set [] = none
with_argument set (a ∷ args) = some (set a, args)

-- The `switch`, with the arguments that follow.
unfoldable pub option_of : Settings → ℕ → List Bytes → Option (Settings × List Bytes)
option_of o c args =
    if c == b'c'
    then with_argument (λ a. record o { config = a }) args
    else if c == b'd'
    then some (record o { debuglvl = suc o.debuglvl }, args)
    else if c == b'e'
    then some (record o { stderr_only = true }, args)
    else if c == b'g'
    then with_argument (λ a. record o { group = a }) args
    else if c == b'j'
    then with_argument (λ a. record o { jail = a }) args
    else if c == b'l'
    then some (record o { logstd = true }, args)
    else if c == b'n'
    then some (record o { nodaemon = true }, args)
    else if c == b'u'
    then with_argument (λ a. record o { user = a }) args
    else none

-- The loop over the letters of an argument.
unfoldable pub letters_of : Settings → Bytes → List Bytes → Option (Settings × List Bytes)
letters_of o [] args = some (o, args)
letters_of o (c ∷ cs) args = option_of o c args >>= λ r. letters_of r.0 cs r.1

-- The letters of an argument that has some: `*cp == '-' && cp[1]`.
unfoldable pub option_letters : Bytes → Option Bytes
option_letters [] = none
option_letters (c ∷ []) = none
option_letters (c ∷ d ∷ s) = if c == b'-' then some (d ∷ s) else none

-- Behind the loop: `cp` is the socket, and nothing follows.
unfoldable pub socket_of : Settings → Bytes → List Bytes → Option (Settings × Bytes)
socket_of o cp [] = some (o, cp)
socket_of o cp (_ ∷ _) = none

-- The loop over the arguments, on fuel: each round takes one or more.
unfoldable pub parse_from : ℕ → Settings → List Bytes → Option (Settings × Bytes)
parse_from zero o args = none
parse_from (suc f) o [] = none
parse_from (suc f) o (cp ∷ args) = elim (option_letters cp) [
  | none ↦ socket_of o cp args
  | some cs ↦ letters_of o cs args >>= λ r. parse_from f r.0 r.1
]

abbrev pub count_args : List Bytes → ℕ
count_args [] = 0
count_args (_ ∷ args) = suc (count_args args)

-- The settings and the socket.
unfoldable pub parse_arguments : Settings → List Bytes → Option (Settings × Bytes)
parse_arguments o args = parse_from (suc (count_args args)) o args
