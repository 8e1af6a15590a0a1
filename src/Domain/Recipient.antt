-- ===== src/Domain/Recipient.antt =====
-- What `Domain::recipient` answers once the data are loaded.
use mathlib.Core.List.{Perm, Permᴰ, filter_map}
use mathlib.Core.List.Perm
use mathlib.Core.Logic.{∥∥₁_elim}
use undervest.Prelude.{
  ℕ, ◌≤◌, ◌<◌, ◌≡◌, inl, inr, refl, ◌∙◌, Bool, true, false, Option, none, some, List, [], ◌∷◌,
  Bool-cases, if◌then◌else◌, Bytes, All, arith, length,
}
use undervest.Prelude.Int.{pos}
use undervest.Scaled.{at_least}
use undervest.Matcher.{MatchResult, empty, match}
use undervest.Matcher.Exact.{candidates, add_all, AreShort, tested}
use undervest.Matcher.Results.{IsDescending, match_exact}
use undervest.Slices.{ngram_slice, word_slice}
use undervest.Domain.{Domain, choose}

abbrev keep : ℕ → MatchResult → Option MatchResult
keep threshold x = if at_least x.score threshold then some x else none

-- The results that reach the threshold.
unfoldable pub above : ℕ → List MatchResult → List MatchResult
above threshold [] = []
above threshold (x ∷ xs) =
    let rest = above threshold xs in if at_least x.score threshold then x ∷ rest else rest

above-filter_map :
    (threshold : ℕ) (xs : List MatchResult) → filter_map (keep threshold) xs ≡ above threshold xs
unfolding above filter_map
above-filter_map threshold [] = refl
above-filter_map threshold (x ∷ xs) = ground (arith, above-filter_map threshold xs)

above-perm :
    (threshold : ℕ) {xs ys : List MatchResult}
    → Perm xs ys
    → Perm (above threshold xs) (above threshold ys)
above-perm threshold {xs} {ys} p =
    rw (← above-filter_map threshold xs, ← above-filter_map threshold ys)
      (Perm.filter_map (keep threshold) p)

abbrev pub is_nil : List MatchResult → Bool
is_nil [] = true
is_nil (_ ∷ _) = false

-- One possible match is the answer; more than one leaves the address as given.
unfoldable pub verdict : List MatchResult → Bytes → Option Bytes
verdict [] s = none
verdict (x ∷ xs) s = if is_nil xs then some x.text else some s

-- What both matchers say together.
abbrev pub or_else : Option Bytes → Option Bytes → Option Bytes
or_else (some t) o = some t
or_else none o = o

at_least-le :
    (a b threshold : ℕ) → a ≤ b → at_least b threshold ≡ false → at_least a threshold ≡ false
unfolding at_least
at_least-le a b threshold h e = ground arith

above-nil :
    (b threshold : ℕ) (xs : List MatchResult)
    → at_least b threshold ≡ false
    → All (λ y. y.score ≤ b) xs
    → above threshold xs ≡ []
unfolding above
above-nil b threshold [] e h = refl
above-nil b threshold (x ∷ xs) e h =
    rw (at_least-le x.score b threshold h.0 e, above) (above-nil b threshold xs e h.1)

choose-verdict :
    (threshold : ℕ) (s : Bytes) (rs : List MatchResult)
    → IsDescending rs
    → choose rs threshold s ≡ verdict (above threshold rs) s
unfolding choose verdict above
choose-verdict threshold s [] h = refl
choose-verdict threshold s (x ∷ []) h = ground arith
choose-verdict threshold s (x ∷ y ∷ rs) h = elim (Bool-cases (at_least x.score threshold)) [
  | inl hit ↦ elim (Bool-cases (at_least y.score threshold)) [
    | inl both ↦ ground arith
    | inr one ↦ ground (arith, above-nil y.score threshold rs one h.1.0)
  ]
  | inr miss ↦ ground (
    arith,
    above-nil x.score threshold rs miss h.0.1,
    at_least-le y.score x.score threshold h.0.0 miss,
  )
]

verdict-permᴰ :
    (s : Bytes) {xs ys : List MatchResult}
    → Permᴰ xs ys
    → (is_nil xs ≡ is_nil ys) × (verdict xs s ≡ verdict ys s)
unfolding verdict
verdict-permᴰ s Permᴰ.nil = (refl, refl)
verdict-permᴰ s (Permᴰ.cons {a = a} {b = b} {l₁ = l₁} {l₂ = l₂} e p) =
    (refl, cc ((verdict-permᴰ s p).0, e))
verdict-permᴰ s (Permᴰ.swap e f) = (refl, refl)
verdict-permᴰ s (Permᴰ.trans p q) =
    let (n, v) = verdict-permᴰ s p in let (n', v') = verdict-permᴰ s q in (n ∙ n', v ∙ v')

-- The verdict does not depend on the order of the results.
verdict-perm : (s : Bytes) {xs ys : List MatchResult} → Perm xs ys → verdict xs s ≡ verdict ys s
verdict-perm s p = ∥∥₁_elim p (answer_set _ _) (λ q. (verdict-permᴰ s q).1)
  where
    answer_set : IsSet (Option Bytes)
    answer_set = hlevel

module _ (slice : Bytes → Bool → List Bytes) where
  pub chosen :
      (ts : List Bytes) (s : Bytes) (threshold : ℕ)
      → length ts < 4294967296
      → AreShort slice ts
      → length (tested slice s) < 4294967296
      → (rs : List MatchResult) × (match slice (add_all slice empty ts) s ≡ some rs)
        × (choose rs threshold s ≡ verdict (above threshold (candidates slice ts s)) s)
  chosen ts s threshold fits short small =
      let (rs, found, all, down) = match_exact slice ts s fits short small in
      (rs, found, choose-verdict threshold s rs down ∙ verdict-perm s (above-perm threshold all))

-- The data of the domain are loaded: both matchers hold the recipients.
pub record IsLoaded (d : Domain) : Type 0 where
  pub no_failure : d.failure_count ≡ pos 0
  pub ngrams : d.ngram_match ≡ add_all (ngram_slice d.matcher_ngram_size) empty d.recipients
  pub words : d.word_match ≡ add_all word_slice empty d.recipients

-- No recipient has 65535 characters or more, there are no 2 ^ 32 of them, and the tested text has less
-- than 2 ^ 31 - 1 characters.
pub record IsModest (d : Domain) (s : Bytes) : Type 0 where
  pub few : length d.recipients < 4294967296
  pub short : All (λ r. length r < 65535) d.recipients
  pub tested_short : length s < 2147483647

-- What both matchers should answer, from the recipients alone.
unfoldable pub expected : Domain → Bytes → Option Bytes
expected d s =
    or_else
      (verdict
        (above d.ngram_threshold (candidates (ngram_slice d.matcher_ngram_size) d.recipients s)) s)
      (verdict (above d.word_threshold (candidates word_slice d.recipients s)) s)
