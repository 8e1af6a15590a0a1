-- ===== src/Configuration.antt =====
-- src/milter/configuration.cpp, include/configuration.h: the configuration in use, how it answers
-- on an address, and how it filters log levels. Reading the file is libconfuse's and is left out.
pub mod Address
pub mod Decision
pub mod Levels
pub mod Literals
pub mod Retries
pub mod Total
use undervest.Prelude.{
  ℕ, zero, suc, ◌+◌, ◌-◌, Bool, true, false, ◌&&◌, ◌||◌, not, Option, none, some, List, [], ◌∷◌,
  ◌++◌, ltb, leb, ◌==◌, if◌then◌else◌, Bytes, codes, beq, length, get_elem?, take, drop,
}
use undervest.Stringlib.{blanks, find_char, trim}
use undervest.Domain
use undervest.Domain.{Domain}

-- `logged` stands for the calls of `up->log` so far, the last one first.
pub record Configuration : Type 0 where
  pub domains : List (Bytes × Domain)
  pub smtp_status : ℕ
  pub smtp_extended : Bytes
  pub smtp_message : Bytes
  pub minloglevel : ℕ
  pub maxloglevel : ℕ
  pub luser_warned : Bool
  pub logged : List (Bytes × ℕ)

abbrev pub log_err : ℕ
log_err = 3

abbrev pub log_warning : ℕ
log_warning = 4

-- The two tests of `log`: a level of higher severity is a lower number.
unfoldable pub clamp : Configuration → ℕ → ℕ
clamp c level =
    let raised = if ltb level c.maxloglevel then c.maxloglevel else level in
    if ltb c.minloglevel raised then c.minloglevel else raised

unfoldable pub log : Configuration → Bytes → ℕ → Configuration
log c msg level = record c { logged = (msg, clamp c level) ∷ c.logged }

-- `Domain::log`, whose parent is the configuration.
unfoldable pub domain_log : Configuration → Domain → Bytes → ℕ → Configuration
domain_log c d msg level =
    if length d.name == 0
    then log c msg level
    else log c (codes "domain: " ++ (d.name ++ (codes ", " ++ msg))) level

unfoldable pub find_domain : Bytes → List (Bytes × Domain) → Option Domain
find_domain name [] = none
find_domain name ((n, d) ∷ ds) =
    let rest = find_domain name ds in if beq n name then some d else rest

-- `addr[i] == c`
abbrev pub char_is : Bytes → ℕ → ℕ → Bool
char_is s i c = elim (get_elem? s i) [ none ↦ false | some x ↦ x == c ]

-- `hasltgt`
unfoldable pub has_lt_gt : Bytes → Bool
has_lt_gt addr = char_is addr 0 b'<' && char_is addr (length addr - 1) b'>'

-- The address between the angle brackets, if it has any.
unfoldable pub bare : Bytes → Bytes
bare addr = if has_lt_gt addr then trim (take (length addr - 2) (drop 1 addr)) blanks else addr

-- The recipient and the domain, unless there is no `@`, or nothing in front of or behind it.
unfoldable pub split : Bytes → Option (Bytes × Bytes)
split addr = elim (find_char addr b'@') [
  | none ↦ none
  | some atpos ↦
      if atpos == 0 || leb (length addr - 1) atpos
      then none
      else some (take atpos addr, drop (suc atpos) addr)
]

abbrev pub luser_warning : Bytes
luser_warning =
    codes
      "LUSER_RELAY should be configured in mailer to properly process a local domain. Will do what I can"

unfoldable pub warn_luser : Configuration → Domain → Bool → Configuration
warn_luser c d in_error =
    if in_error && not c.luser_warned
    then record (domain_log c d luser_warning log_warning) { luser_warned = true }
    else c

-- The address again, in brackets if it was.
unfoldable pub whole : Bool → Bytes → Bytes → Bytes
whole lt_gt rcpt domain =
    let addr = rcpt ++ (b'@' ∷ domain) in if lt_gt then b'<' ∷ (addr ++ b'>' ∷ []) else addr

-- The result of `recipient`; `fixit` is what it stores through the pointer, if it does.
pub record Answer : Type 0 where
  pub address : Bytes
  pub fixit : Option Bool
  pub config : Configuration

-- `Domain::recipient` and what follows it.
unfoldable pub ask : Configuration → Bool → Domain → Bytes → Bytes → Option Answer
ask c lt_gt d origrcpt domain = elim (Domain.recipient d origrcpt) [
  | none ↦ none
  | some none ↦ some (record { address = []; fixit = none; config = c })
  | some (some rcpt) ↦
      some (record { address = whole lt_gt rcpt domain; fixit = some d.fix_recipient; config = c })
]

-- The address as it was given.
abbrev pub unchanged : Configuration → Bytes → Option Answer
unchanged c emailaddr = some (record { address = emailaddr; fixit = none; config = c })

-- From the test of `domit` on.
unfoldable pub with_domain :
    Configuration → Bytes → Bool → Bool → Bytes → Bytes → Option Domain → Option Answer
with_domain c emailaddr in_error lt_gt origrcpt domain none = unchanged c emailaddr
with_domain c emailaddr in_error lt_gt origrcpt domain (some d) =
    ask (warn_luser c d in_error) lt_gt d origrcpt domain

-- From the test of `atpos` on.
unfoldable pub with_parts :
    Configuration → Bytes → Bool → Bool → Option (Bytes × Bytes) → Option Answer
with_parts c emailaddr in_error lt_gt none = unchanged c emailaddr
with_parts c emailaddr in_error lt_gt (some (origrcpt, domain)) =
    with_domain c emailaddr in_error lt_gt origrcpt domain (find_domain domain c.domains)

-- `none` is a read out of range in a matcher.
unfoldable pub recipient : Configuration → Bytes → Bool → Option Answer
recipient c emailaddr in_error =
    let addr = trim emailaddr blanks in
    with_parts c emailaddr in_error (has_lt_gt addr) (split (bare addr))
