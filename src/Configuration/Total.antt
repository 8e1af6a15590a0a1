-- ===== src/Configuration/Total.antt =====
-- `Configuration::recipient` always answers.
use undervest.Prelude.{
  ℕ, zero, suc, ◌-◌, ◌≤◌, ◌<◌, ◌≡◌, ◌⊎◌, inl, inr, refl, Bool, false, ◌||◌, Option, none, some,
  List, [], ◌∷◌, ◌==◌, leb, if◌then◌else◌, Bytes, All, beq, arith, length, take, drop, Bool-cases,
  Option-cases,
}
use undervest.Stringlib.{blanks, find_first_not_of, find_last_not_of, find_char, ltrim, rtrim, trim}
use undervest.Domain
use undervest.Domain.{Domain, is_zero}
use undervest.Domain.Recipient.{IsLoaded, IsModest, expected}
use undervest.Domain.Answer.{recipient-expected}
use undervest.Domain.Refresh.{recipient-passes}
use undervest.Configuration
use undervest.Configuration.{
  Configuration, Answer, find_domain, has_lt_gt, bare, split, whole, warn_luser, ask, unchanged,
  with_domain, with_parts,
}

length-take-le : (n : ℕ) (s : Bytes) → length (take n s) ≤ length s
length-take-le zero s = omega arith
length-take-le (suc n) [] = omega arith
length-take-le (suc n) (c ∷ s) = omega (arith, length-take-le n s)

length-drop-le : (n : ℕ) (s : Bytes) → length (drop n s) ≤ length s
length-drop-le zero s = omega arith
length-drop-le (suc n) [] = omega arith
length-drop-le (suc n) (c ∷ s) = omega (arith, length-drop-le n s)

length-ltrim-le : (s set : Bytes) → length (ltrim s set) ≤ length s
unfolding ltrim
length-ltrim-le s set = elim (Option-cases (find_first_not_of s set)) [
  | inl e ↦ rw (e, ltrim) (omega arith)
  | inr (i, e) ↦ rw (e, ltrim) (length-drop-le i s)
]

length-rtrim-le : (s set : Bytes) → length (rtrim s set) ≤ length s
unfolding rtrim
length-rtrim-le s set = elim (Option-cases (find_last_not_of s set)) [
  | inl e ↦ rw (e, rtrim) (omega arith)
  | inr (i, e) ↦ rw (e, rtrim) (length-take-le (suc i) s)
]

length-trim-le : (s set : Bytes) → length (trim s set) ≤ length s
unfolding trim
length-trim-le s set = omega (arith, length-ltrim-le (rtrim s set) set, length-rtrim-le s set)

length-bare-le : (s : Bytes) → length (bare s) ≤ length s
unfolding bare
length-bare-le s = elim (Bool-cases (has_lt_gt s)) [
  | inr e ↦ rw (e, bare) (omega arith)
  | inl e ↦
      rw (e, bare)
        (omega (
          arith,
          length-trim-le (take (length s - 2) (drop 1 s)) blanks,
          length-take-le (length s - 2) (drop 1 s),
          length-drop-le 1 s,
        ))
]

-- A domain that is disabled or not loaded lets everything pass; another one is loaded.
abbrev pub IsReady : Domain → Type 0
IsReady d =
    (is_zero d.failure_count ≡ false)
    ⊎ (IsLoaded d × ((r : Bytes) → length r < 2147483647 → IsModest d r))

domain_answers :
    (d : Domain) (r : Bytes)
    → IsReady d
    → length r < 2147483647
    → (o : Option Bytes) × (Domain.recipient d r ≡ some o)
domain_answers d r (inl e) h = (some r, recipient-passes d r e)
domain_answers d r (inr (loaded, modest)) h =
    (expected d r, recipient-expected d r loaded (modest r h))

ask_answers :
    (c : Configuration) (lt_gt : Bool) (d : Domain) (r domain : Bytes) (o : Option Bytes)
    → Domain.recipient d r ≡ some o
    → (a : Answer) × (ask c lt_gt d r domain ≡ some a)
unfolding ask
ask_answers c lt_gt d r domain none e =
    (record { address = []; fixit = none; config = c }, rw (e, ask) refl)
ask_answers c lt_gt d r domain (some t) e = (
  record { address = whole lt_gt t domain; fixit = some d.fix_recipient; config = c },
  rw (e, ask) refl,
)

find_domain-All :
    (P : Domain → Type 0) (name : Bytes) (ds : List (Bytes × Domain)) (d : Domain)
    → All (λ e. P e.1) ds
    → find_domain name ds ≡ some d
    → P d
unfolding find_domain
find_domain-All P name [] d h e = absurd cc
find_domain-All P name ((n, x) ∷ ds) d h e = elim (Bool-cases (beq n name)) [
  | inl b ↦ let same : x ≡ d = ground arith in rw (← same) h.0
  | inr b ↦ find_domain-All P name ds d h.1 (ground arith)
]

split-le : (addr r domain : Bytes) → split addr ≡ some (r, domain) → length r ≤ length addr
unfolding split
split-le addr r domain e = go (find_char addr b'@') e
  where
    go :
        (o : Option ℕ)
        → ◌≡◌ {A = Option (Bytes × Bytes)}
            (elim o [
              | none ↦ none
              | some atpos ↦
                  if atpos == 0 || leb (length addr - 1) atpos
                  then none
                  else some (take atpos addr, drop (suc atpos) addr)
            ])
            (some (r, domain))
        → length r ≤ length addr
    go none p = absurd cc
    go (some i) p = elim (Bool-cases (i == 0 || leb (length addr - 1) i)) [
      | inl b ↦ absurd (ground arith)
      | inr b ↦ let same : take i addr ≡ r = ground arith in rw (← same) (length-take-le i addr)
    ]

module _ (c : Configuration) (s : Bytes) (in_error : Bool)
    (ready : All (λ e. IsReady e.1) c.domains) where
  with_domain_answers :
      (lt_gt : Bool) (r domain : Bytes) (o : Option Domain)
      → find_domain domain c.domains ≡ o
      → length r < 2147483647
      → (a : Answer) × (with_domain c s in_error lt_gt r domain o ≡ some a)
  unfolding with_domain
  with_domain_answers lt_gt r domain none e h =
      (record { address = s; fixit = none; config = c }, refl)
  with_domain_answers lt_gt r domain (some d) e h =
      let (o, p) = domain_answers d r (find_domain-All IsReady domain c.domains d ready e) h in
      ask_answers (warn_luser c d in_error) lt_gt d r domain o p

  with_parts_answers :
      (lt_gt : Bool) (addr : Bytes) (o : Option (Bytes × Bytes))
      → split addr ≡ o
      → length addr < 2147483647
      → (a : Answer) × (with_parts c s in_error lt_gt o ≡ some a)
  unfolding with_parts
  with_parts_answers lt_gt addr none e h = (record { address = s; fixit = none; config = c }, refl)
  with_parts_answers lt_gt addr (some (r, domain)) e h =
      with_domain_answers lt_gt r domain (find_domain domain c.domains) refl
        (omega (arith, split-le addr r domain e))

  -- If each domain is either loaded with recipients of modest size, or lets everything pass, then for
  -- every address shorter than 2 ^ 31 - 1 the configuration answers: no read is out of range, and no `int` overflows.
  pub recipient_answers :
      length s < 2147483647 → (a : Answer) × (Configuration.recipient c s in_error ≡ some a)
  unfolding Configuration.recipient
  recipient_answers h =
      with_parts_answers (has_lt_gt (trim s blanks)) (bare (trim s blanks))
        (split (bare (trim s blanks))) refl
        (omega (arith, length-bare-le (trim s blanks), length-trim-le s blanks))
