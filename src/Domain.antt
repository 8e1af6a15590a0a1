-- ===== src/Domain.antt =====
-- src/milter/domain.cpp, include/domain.h: a mail domain and its recipients.
pub mod Recipient
pub mod Answer
pub mod Perfect
pub mod Load
pub mod Loaders
pub mod Lifecycle
pub mod Refresh
pub mod Renewed
use undervest.Prelude.{
  ℕ, zero, suc, ◌+◌, ◌-◌, ◌*◌, ◌/◌, ◌%◌, ◌^◌, Bool, true, false, Option, none, some, List, [], ◌∷◌,
  ◌++◌, ltb, ◌==◌, if◌then◌else◌, Bytes,
}
use undervest.Prelude.Int.{ℤ, pos, negsuc}
use undervest.Scaled.{at_least}
use undervest.Matcher.{Matcher, MatchResult, empty, add, match}
use undervest.Source.{Source}
use undervest.Slices.{ngram_slice, ngram_fits, word_slice}

-- The fields that hold a state. A threshold stands for the integer part of 65535 times the double
-- of the source; `recipients` is in the iteration order of the set,
-- and `matcher_ngram_size` is the size that the object `ngram_match` was made with.
pub record Domain : Type 0 where
  pub name : Bytes
  pub sources : List Source
  pub recipients : List Bytes
  pub ngram_match : Matcher
  pub word_match : Matcher
  pub ngram_threshold : ℕ
  pub word_threshold : ℕ
  pub refresh_sec : ℕ
  pub retry_sec : ℕ
  pub retries : List ℕ
  pub failure_count : ℤ
  pub ngram_size : ℕ
  pub matcher_ngram_size : ℕ
  pub fix_recipient : Bool

-- The test that follows each call of a matcher: `none` goes on to the next one.
unfoldable pub choose : List MatchResult → ℕ → Bytes → Option Bytes
unfolding at_least
choose [] threshold s = none
choose (x ∷ []) threshold s = if at_least x.score threshold then some x.text else none
choose (x ∷ y ∷ rs) threshold s =
    if at_least x.score threshold
    then if at_least y.score threshold then some s else some x.text
    else none

abbrev pub is_zero : ℤ → Bool
is_zero (pos zero) = true
is_zero _ = false

infixl 5 ◌>>=◌
abbrev pub ◌>>=◌ {ℓ κ} : {A : Type ℓ} {B : Type κ} → Option A → (A → Option B) → Option B
none >>= f = none
some a >>= f = f a

-- The second half of `recipient`.
unfoldable pub match_words : Domain → Bytes → Option (Option Bytes)
match_words d s = do
  results ← match word_slice d.word_match s
  some (choose results d.word_threshold s)

-- The outer `none` is a read out of range or an overflow of an `int`, the inner one is `NULL`.
unfoldable pub recipient : Domain → Bytes → Option (Option Bytes)
recipient d s =
    if is_zero d.failure_count
    then if ngram_fits d.matcher_ngram_size s
      then (do
        results ← match (ngram_slice d.matcher_ngram_size) d.ngram_match s
        elim (choose results d.ngram_threshold s) [
          | some t ↦ some (some t)
          | none ↦ match_words d s
        ])
      else none
    else some (some s)

-- The loop that adds each recipient to both matchers: of less than 2 ^ 31 - 1 characters, so that
-- `ngram_fits`.
unfoldable pub add_recipients : Domain → List Bytes → Domain
add_recipients d [] = d
add_recipients d (r ∷ rs) =
    add_recipients
      (record d {
        ngram_match = add (ngram_slice d.matcher_ngram_size) d.ngram_match r;
        word_match = add word_slice d.word_match r;
      })
      rs

-- New matchers over the recipients, as `load_data` and `assign` make them.
unfoldable pub rebuild : Domain → Domain
rebuild d =
    add_recipients
      (record d { ngram_match = empty; matcher_ngram_size = d.ngram_size; word_match = empty })
      d.recipients
