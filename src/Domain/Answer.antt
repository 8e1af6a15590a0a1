-- ===== src/Domain/Answer.antt =====
-- `Domain::recipient` answers from the recipients alone, as the manual describes it.
use undervest.Prelude.{
  ℕ, leb, if◌then◌else◌, ◌+◌, ◌≤◌, ◌<◌, ◌≡◌, refl, ap, ◌∙◌, Bool, true, false, Option, none, some,
  List, [], ◌∷◌, Bytes, All, arith, length,
}
use undervest.Matcher.{MatchResult, or_empty}
use undervest.Matcher.Exact.{candidates, AreShort, tested}
use undervest.Slices.{ngram_slice, word_slice}
use undervest.Slices.Ngram.{length-ngram_slice-le, ngram_fits-short}
use undervest.Slices.Word.{length-word_slice-le}
use undervest.Domain.{Domain, match_words, recipient}
use undervest.Domain.Recipient.{above, verdict, or_else, chosen, IsLoaded, IsModest, expected}

-- A slicer makes no more slices than there are characters, and one more.
abbrev IsThrifty : (Bytes → Bool → List Bytes) → Type 0
IsThrifty slice = (s : Bytes) (b : Bool) → length (slice s b) ≤ length s + 1

length-or_empty : (xs : List Bytes) → length (or_empty xs) ≤ length xs + 1
unfolding or_empty
length-or_empty [] = omega arith
length-or_empty (x ∷ xs) = omega arith

or_empty-le : (xs : List Bytes) (n : ℕ) → length xs ≤ n + 1 → length (or_empty xs) ≤ n + 1
unfolding or_empty
or_empty-le [] n h = omega arith
or_empty-le (x ∷ xs) n h = h

AreShort-of_lengths :
    (slice : Bytes → Bool → List Bytes) (ts : List Bytes)
    → IsThrifty slice
    → All (λ t. length t < 65535) ts
    → AreShort slice ts
AreShort-of_lengths slice [] thrifty h = tt
AreShort-of_lengths slice (t ∷ ts) thrifty h = (
  omega (arith, or_empty-le (slice t true) (length t) (thrifty t true)),
  AreShort-of_lengths slice ts thrifty h.1,
)

ngram-IsThrifty : (n : ℕ) → IsThrifty (ngram_slice n)
ngram-IsThrifty n s b = length-ngram_slice-le n s b

word-IsThrifty : IsThrifty word_slice
word-IsThrifty s b = omega (arith, length-word_slice-le s b)

tested_fits :
    (slice : Bytes → Bool → List Bytes) (s : Bytes)
    → IsThrifty slice
    → length s < 4294967295
    → length (tested slice s) < 4294967296
tested_fits slice s thrifty h =
    omega (arith, or_empty-le (slice s false) (length s) (thrifty s false))

module _ (d : Domain) (s : Bytes) (loaded : IsLoaded d) (modest : IsModest d s) where
  match_words-expected :
      match_words d s
      ≡ some (verdict (above d.word_threshold (candidates word_slice d.recipients s)) s)
  unfolding match_words
  match_words-expected =
      let (rs, found, picked) =
        chosen word_slice d.recipients s d.word_threshold modest.few
          (AreShort-of_lengths _ d.recipients word-IsThrifty modest.short)
          (tested_fits _ s word-IsThrifty (omega (arith, modest.tested_short))) in
      rw (loaded.words, found, picked)

  joined :
      (o w : Option Bytes)
      → match_words d s ≡ some w
      → (elim o [ some t ↦ some (some t) | none ↦ match_words d s ]) ≡ some (or_else o w)
  joined none w e = e
  joined (some t) w e = refl

  -- For every loaded domain and every text of modest size, `recipient` reads nothing out of range
  -- and answers as the exact scores say, whatever the thresholds: these are taken modulo 65536.
  pub recipient-expected : recipient d s ≡ some (expected d s)
  unfolding recipient expected
  recipient-expected =
      let (rs, found, picked) =
        chosen (ngram_slice d.matcher_ngram_size) d.recipients s d.ngram_threshold modest.few
          (AreShort-of_lengths _ d.recipients (ngram-IsThrifty d.matcher_ngram_size) modest.short)
          (tested_fits _ s (ngram-IsThrifty d.matcher_ngram_size)
            (omega (arith, modest.tested_short))) in
      rw
        (
          loaded.no_failure,
          ngram_fits-short d.matcher_ngram_size s modest.tested_short,
          loaded.ngrams,
          found,
        )
        (ap (λ o. elim o [ some t ↦ some (some t) | none ↦ match_words d s ]) picked
          ∙ joined _ _ match_words-expected)

-- The results whose score is the threshold or more.
abbrev pub reaching : ℕ → List MatchResult → List MatchResult
reaching threshold [] = []
reaching threshold (x ∷ xs) =
    let rest = reaching threshold xs in if leb threshold x.score then x ∷ rest else rest

-- The decision of the manual: the recipients whose n-gram score reaches the threshold are asked for,
-- then those whose word score does.
abbrev pub documented : Domain → Bytes → Option Bytes
documented d s =
    or_else
      (verdict
        (reaching d.ngram_threshold (candidates (ngram_slice d.matcher_ngram_size) d.recipients s))
        s)
      (verdict (reaching d.word_threshold (candidates word_slice d.recipients s)) s)
