-- ===== src/Configuration/Literals.antt =====
-- src/milter/configuration.cpp: the names of log levels in the configuration file. The terminating
-- entry of the table is the end of the list, and `cfg_error` and -1 are `none`.
use undervest.Prelude.{
  ℕ, suc, ◌-◌, ◌≤◌, ◌≡◌, refl, sym, ap, ◌∙◌, Bool, true, Option, none, some, List, [], ◌∷◌,
  if◌then◌else◌, Bytes, codes, beq, beq_iff, count, get_elem?, arith, inl, inr, Bool-cases,
}
use undervest.Stringlib.{strtolower}

-- `literal_t`
pub record Literal : Type 0 where
  pub token : Bytes
  pub value : ℕ

-- `log_levels`, with the numbers of syslog.
abbrev pub log_levels : List Literal
log_levels =
    record { token = codes "emergency"; value = 0 }
    ∷ record { token = codes "alert"; value = 1 }
    ∷ record { token = codes "critical"; value = 2 }
    ∷ record { token = codes "error"; value = 3 }
    ∷ record { token = codes "warning"; value = 4 }
    ∷ record { token = codes "notice"; value = 5 }
    ∷ record { token = codes "information"; value = 6 }
    ∷ record { token = codes "debug"; value = 7 }
    ∷ []

-- `!(*f)(value, token)`
unfoldable pub same_token : Bool → Bytes → Bytes → Bool
same_token ignorecase value token =
    if ignorecase then beq (strtolower value) (strtolower token) else beq value token

unfoldable pub get_literal : List Literal → Bytes → Bool → Option Literal
get_literal [] value ignorecase = none
get_literal (l ∷ table) value ignorecase =
    let rest = get_literal table value ignorecase in
    if same_token ignorecase value l.token then some l else rest

abbrev value_of : Option Literal → Option ℕ
value_of none = none
value_of (some l) = some l.value

-- Both options that have this callback ignore the case.
unfoldable pub get_log_level : Bytes → Option ℕ
get_log_level value = value_of (get_literal log_levels value true)

abbrev pub names : List Literal → List Bytes
names [] = []
names (l ∷ table) = strtolower l.token ∷ names table

-- The values of a table count its entries from `k` on.
abbrev Numbered : ℕ → List Literal → Type 0
Numbered k [] = Unit {0}
Numbered k (l ∷ table) = (l.value ≡ k) × Numbered (suc k) table

get_literal-none :
    (table : List Literal) (value : Bytes)
    → get_literal table value true ≡ none
    → count (strtolower value) (names table) ≡ 0
unfolding get_literal same_token count
get_literal-none [] value e = refl
get_literal-none (l ∷ table) value e = ground (arith, get_literal-none table value)

get_literal-some :
    (k : ℕ) (table : List Literal) (value : Bytes) (l : Literal)
    → Numbered k table
    → get_literal table value true ≡ some l
    → (k ≤ l.value) × (get_elem? (names table) (l.value - k) ≡ some (strtolower value))
unfolding get_literal same_token
get_literal-some k [] value l h e = absurd cc
get_literal-some k (m ∷ table) value l h e =
    elim (Bool-cases (beq (strtolower value) (strtolower m.token))) [
      | inl b ↦
          let same : m ≡ l = ground arith in
          found m h.0 (sym ((beq_iff (strtolower value) (strtolower m.token)).0 b)) same
      | inr b ↦
          let later : get_literal table value true ≡ some l = ground arith in
          behind (get_literal-some (suc k) table value l h.1 later)
    ]
  where
    found :
        (x : Literal)
        → x.value ≡ k
        → strtolower m.token ≡ strtolower value
        → x ≡ l
        → (k ≤ l.value) × (get_elem? (names (m ∷ table)) (l.value - k) ≡ some (strtolower value))
    found x v t q =
        let at : l.value ≡ k = ap (λ (y : Literal). y.value) (sym q) ∙ v in
        let first : l.value - k ≡ 0 = omega (arith, at) in
        (omega (arith, at), ap (λ (i : ℕ). get_elem? (names (m ∷ table)) i) first ∙ ap some t)

    behind :
        (suc k ≤ l.value) × (get_elem? (names table) (l.value - suc k) ≡ some (strtolower value))
        → (k ≤ l.value) × (get_elem? (names (m ∷ table)) (l.value - k) ≡ some (strtolower value))
    behind (le, g) =
        let next : l.value - k ≡ suc (l.value - suc k) = omega (arith, le) in
        (omega (arith, le), ap (λ (i : ℕ). get_elem? (names (m ∷ table)) i) next ∙ g)

-- The level of a name that is accepted is its place in the list of names, in upper or lower case; a
-- name that is not accepted is none of them.
get_log_level_exact :
    (value : Bytes) (n : ℕ)
    → (get_log_level value ≡ some n → get_elem? (names log_levels) n ≡ some (strtolower value))
      × (get_log_level value ≡ none → count (strtolower value) (names log_levels) ≡ 0)
unfolding get_log_level
get_log_level_exact value n = go (get_literal log_levels value true) refl
  where
    numbered : Numbered 0 log_levels
    numbered = (refl, (refl, (refl, (refl, (refl, (refl, (refl, (refl, tt))))))))

    go :
        (o : Option Literal)
        → get_literal log_levels value true ≡ o
        → (value_of o ≡ some n → get_elem? (names log_levels) n ≡ some (strtolower value))
          × (value_of o ≡ none → count (strtolower value) (names log_levels) ≡ 0)
    go none p = (λ e. absurd cc, λ e. get_literal-none log_levels value p)
    go (some l) p = (
      λ e.
          let at : l.value ≡ n = cc in
          let place : n ≡ l.value - 0 = omega (arith, at) in
          ap (λ (i : ℕ). get_elem? (names log_levels) i) place
          ∙ (get_literal-some 0 log_levels value l numbered p).1,
      λ e. absurd cc,
    )
