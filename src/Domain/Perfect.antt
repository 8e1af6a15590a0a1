-- ===== src/Domain/Perfect.antt =====
-- A known recipient is accepted as it is, and no other recipient than a known one is answered.
use undervest.Prelude.{
  ℕ, zero, suc, ◌%◌, leb, ◌+◌, ◌<◌, ◌≡◌, ◌⊎◌, inl, inr, refl, sym, ap, ◌∙◌, Bool, true, false,
  Option, none, some, List, [], ◌∷◌, Option-cases, if◌then◌else◌, Bytes, All, arith, length, beq,
  beq_iff, Bool-cases, count,
}
use undervest.Scaled.{at_least}
use undervest.Matcher.{MatchResult, or_empty, match}
use undervest.Matcher.Overlap.{overlap, overlap_self}
use undervest.Matcher.Exact.{candidate, candidates, dice_bounds, tested, indexed}
use undervest.Slices.{ngram_slice, ngram_fits, word_slice}
use undervest.Domain.{Domain, recipient, choose, is_zero, match_words}
use undervest.Domain.Recipient.{above, verdict, or_else, IsLoaded, IsModest, expected}
use undervest.Domain.Answer.{recipient-expected}

-- Some result is the text `s` with a full score.
abbrev HasFull : Bytes → List MatchResult → Type 0
HasFull s [] = ⊥
HasFull s (x ∷ xs) = ((x.text ≡ s) × (x.score ≡ 65535)) ⊎ HasFull s xs

above-HasFull :
    (s : Bytes) (threshold : ℕ) (xs : List MatchResult)
    → HasFull s xs
    → HasFull s (above threshold xs)
unfolding above at_least
above-HasFull s threshold [] h = elim h [ ]
above-HasFull s threshold (x ∷ xs) (inl h) = ground arith
above-HasFull s threshold (x ∷ xs) (inr h) = elim (Bool-cases (at_least x.score threshold)) [
  | inl e ↦ rw (e, above) (inr (above-HasFull s threshold xs h))
  | inr e ↦ rw (e, above) (above-HasFull s threshold xs h)
]

verdict-HasFull : (s : Bytes) (xs : List MatchResult) → HasFull s xs → verdict xs s ≡ some s
unfolding verdict
verdict-HasFull s [] h = elim h [ ]
verdict-HasFull s (x ∷ []) (inr h) = elim h [ ]
verdict-HasFull s (x ∷ []) (inl h) = ap some h.0
verdict-HasFull s (x ∷ y ∷ xs) h = refl

candidate-HasFull :
    (s t : Bytes) (n c m : ℕ) (rest : List MatchResult)
    → HasFull s rest
    → HasFull s (candidate t n c m rest)
candidate-HasFull s t n zero m rest h = h
candidate-HasFull s t n (suc c) m rest h = inr h

candidate_full :
    (s t : Bytes) (n c m : ℕ) (rest : List MatchResult)
    → t ≡ s
    → c ≡ n
    → c ≡ m
    → 0 < c
    → HasFull s (candidate t n c m rest)
candidate_full s t n zero m rest e p q pos = elim pos [ ]
candidate_full s t n (suc c) m rest e p q pos =
    inl (e, (dice_bounds (suc c) n m (omega arith) (omega arith) (omega arith)).1.1 (p, q))

or_empty_pos : (xs : List Bytes) → 0 < length (or_empty xs)
unfolding or_empty
or_empty_pos [] = omega arith
or_empty_pos (x ∷ xs) = omega arith

module _ (slice : Bytes → Bool → List Bytes)
    (same : (s : Bytes) → slice s true ≡ slice s false) where
  full_candidate :
      (s t : Bytes) (rest : List MatchResult)
      → t ≡ s
      → HasFull s (
          candidate t
            (length (indexed slice t))
            (overlap (tested slice s) (indexed slice t))
            (length (tested slice s))
            rest)
  full_candidate s t rest e =
      let same_slices : indexed slice t ≡ tested slice s =
        ap or_empty (same t ∙ ap (λ u. slice u false) e) in
      let shared : overlap (tested slice s) (indexed slice t) ≡ length (tested slice s) =
        ap (overlap (tested slice s)) same_slices ∙ overlap_self (tested slice s) in
      candidate_full s t _ _ _ rest e (shared ∙ sym (ap length same_slices)) shared
        (omega (arith, shared, or_empty_pos (slice s false)))

  candidates-HasFull :
      (s : Bytes) (ts : List Bytes) → 0 < count s ts → HasFull s (candidates slice ts s)
  unfolding candidates count
  candidates-HasFull s [] h = absurd (omega arith)
  candidates-HasFull s (t ∷ ts) h = elim (Bool-cases (beq s t)) [
    | inl e ↦ full_candidate s t _ (sym ((beq_iff s t).0 e))
    | inr e ↦ candidate-HasFull s t _ _ _ _ (candidates-HasFull s ts (ground arith))
  ]

-- Every loaded domain accepts each of its recipients as given, whatever the thresholds.
pub recipient_known :
    (d : Domain) (s : Bytes)
    → IsLoaded d
    → IsModest d s
    → 0 < count s d.recipients
    → recipient d s ≡ some (some s)
unfolding expected
recipient_known d s loaded modest known =
    recipient-expected d s loaded modest
    ∙ ap
        (λ (o : Option Bytes).
          some
            (or_else o (verdict (above d.word_threshold (candidates word_slice d.recipients s)) s)))
        (verdict-HasFull s _ (
          above-HasFull s d.ngram_threshold _
            (candidates-HasFull (ngram_slice d.matcher_ngram_size) same s d.recipients known)))
  where
    same :
        (u : Bytes)
        → ngram_slice d.matcher_ngram_size u true ≡ ngram_slice d.matcher_ngram_size u false
    same u = unfold ngram_slice in refl

-- All texts of the results are among the given ones.
abbrev TextsIn : List Bytes → List MatchResult → Type 0
TextsIn ts = All (λ x. 0 < count x.text ts)

above-TextsIn :
    (ts : List Bytes) (threshold : ℕ) (xs : List MatchResult)
    → TextsIn ts xs
    → TextsIn ts (above threshold xs)
unfolding above
above-TextsIn ts threshold [] h = tt
above-TextsIn ts threshold (x ∷ xs) h = elim (Bool-cases (at_least x.score threshold)) [
  | inl e ↦ rw (e, above) (h.0, above-TextsIn ts threshold xs h.1)
  | inr e ↦ rw (e, above) (above-TextsIn ts threshold xs h.1)
]

verdict-TextsIn :
    (ts : List Bytes) (s t : Bytes) (xs : List MatchResult)
    → TextsIn ts xs
    → verdict xs s ≡ some t
    → (t ≡ s) ⊎ (0 < count t ts)
unfolding verdict
verdict-TextsIn ts s t [] h e = absurd (cc)
verdict-TextsIn ts s t (x ∷ []) h e = inr (let p : x.text ≡ t = cc in rw (← p) h.0)
verdict-TextsIn ts s t (x ∷ y ∷ xs) h e = inl cc

candidate-TextsIn :
    (ts : List Bytes) (t : Bytes) (n c m : ℕ) (rest : List MatchResult)
    → 0 < count t ts
    → TextsIn ts rest
    → TextsIn ts (candidate t n c m rest)
candidate-TextsIn ts t n zero m rest p h = h
candidate-TextsIn ts t n (suc c) m rest p h = (p, h)

TextsIn-grow :
    (t : Bytes) (ts : List Bytes) (xs : List MatchResult) → TextsIn ts xs → TextsIn (t ∷ ts) xs
unfolding count
TextsIn-grow t ts [] h = tt
TextsIn-grow t ts (x ∷ xs) h = (omega (arith, h.0), TextsIn-grow t ts xs h.1)

candidates-TextsIn :
    (slice : Bytes → Bool → List Bytes) (ts : List Bytes) (s : Bytes)
    → TextsIn ts (candidates slice ts s)
unfolding candidates
candidates-TextsIn slice [] s = tt
candidates-TextsIn slice (t ∷ ts) s =
    candidate-TextsIn (t ∷ ts) t _ _ _ _ (unfold count in ground (arith, beq_iff t t))
      (TextsIn-grow t ts _ (candidates-TextsIn slice ts s))

or_else-cases :
    (o w : Option Bytes) (t : Bytes) → or_else o w ≡ some t → (o ≡ some t) ⊎ (w ≡ some t)
or_else-cases none w t e = inr e
or_else-cases (some u) w t e = inl e

some_inj : (a b : Option Bytes) → some a ≡ some b → a ≡ b
some_inj a b e = cc

-- Every answer of a loaded domain is the given text itself or one of its recipients.
pub recipient_sound :
    (d : Domain) (s t : Bytes)
    → IsLoaded d
    → IsModest d s
    → recipient d s ≡ some (some t)
    → (t ≡ s) ⊎ (0 < count t d.recipients)
unfolding expected
recipient_sound d s t loaded modest e =
    elim (or_else-cases
      (verdict
        (above d.ngram_threshold (candidates (ngram_slice d.matcher_ngram_size) d.recipients s)) s)
      (verdict (above d.word_threshold (candidates word_slice d.recipients s)) s) t answer) [
        | inl p ↦
            verdict-TextsIn d.recipients s t _
              (above-TextsIn d.recipients d.ngram_threshold _
                (candidates-TextsIn (ngram_slice d.matcher_ngram_size) d.recipients s))
              p
        | inr p ↦
            verdict-TextsIn d.recipients s t _
              (above-TextsIn d.recipients d.word_threshold _
                (candidates-TextsIn word_slice d.recipients s))
              p
      ]
  where
    answer : expected d s ≡ some t
    answer = some_inj _ _ (sym (recipient-expected d s loaded modest) ∙ e)

shut_mod : (threshold : ℕ) → (threshold + 65536) % 65536 ≡ threshold % 65536
shut_mod threshold = omega arith

choose_wraps :
    (rs : List MatchResult) (threshold : ℕ) (s : Bytes)
    → choose rs (threshold + 65536) s ≡ choose rs threshold s
unfolding choose at_least
choose_wraps [] threshold s = refl
choose_wraps (x ∷ []) threshold s =
    ap (λ (t : ℕ). if leb t x.score then some x.text else none) (shut_mod threshold)
choose_wraps (x ∷ y ∷ rs) threshold s =
    ap (λ (t : ℕ). if leb t x.score then if leb t y.score then some s else some x.text else none)
      (shut_mod threshold)

-- Adding 65536 to the scaled n-gram threshold changes no answer.
threshold_wraps :
    (d : Domain) (s : Bytes)
    → recipient (record d { ngram_threshold = d.ngram_threshold + 65536 }) s ≡ recipient d s
unfolding recipient match_words
threshold_wraps d s = elim (Bool-cases (is_zero d.failure_count)) [
  | inr e ↦ rw e refl
  | inl e ↦ elim (Option-cases (match (ngram_slice d.matcher_ngram_size) d.ngram_match s)) [
    | inl f ↦ rw (e, f) refl
    | inr (rs, f) ↦
        rw (e, f)
          (ap
            (λ (o : Option Bytes).
              if ngram_fits d.matcher_ngram_size s
              then elim o as (λ _. Option (Option Bytes)) [
                | some t ↦ some (some t)
                | none ↦ match_words d s
              ]
              else none)
            (choose_wraps rs d.ngram_threshold s))
  ]
]
