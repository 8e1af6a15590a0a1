-- ===== src/Matcher/Ordered.antt =====
-- The tally of `match` in target order: an entry for each target with a slice in common.
use mathlib.Core.List.{Perm}
use undervest.Prelude.{
  ℕ, zero, suc, ◌+◌, ◌<◌, ◌≡◌, refl, inl, inr, sym, ap, ◌∙◌, none, some, List, [], ◌∷◌, ◌==◌,
  if◌then◌else◌, Bytes, arith, Bool-cases, length, count,
}
use undervest.Matcher.{Index, Tally, u32, sort, tally}
use undervest.Matcher.Overlap.{overlap, overlap-nil, overlap-sort, sort-IsSorted, length-sort}
use undervest.Matcher.Postings.{Indexes}
use undervest.Matcher.Tallies.{lookup, tallied, at_count, tally-overlap}
use undervest.Matcher.Bags.{IsMap, tally-IsMap, lookup-perm}

abbrev pub entry_of : ℕ → ℕ → Tally → Tally
entry_of b zero rest = rest
entry_of b (suc c) rest = (b, u32 (suc c)) ∷ rest

-- the tally in target order
unfoldable pub ordered : ℕ → List Bytes → List (List Bytes) → Tally
ordered b q [] = []
ordered b q (s ∷ ss) = entry_of b (overlap q s) (ordered (b + 1) q ss)

nth_overlap : ℕ → List Bytes → List (List Bytes) → ℕ
nth_overlap i q [] = 0
nth_overlap zero q (s ∷ ss) = overlap q s
nth_overlap (suc i) q (s ∷ ss) = nth_overlap i q ss

lookup-entry_of :
    (b c i : ℕ) (r : Tally)
    → lookup (entry_of b c r) i
      ≡ (if b == i then (if c == 0 then lookup r i else tallied c) else lookup r i)
unfolding lookup tallied
lookup-entry_of b zero i r = ground arith
lookup-entry_of b (suc c) i r = ground arith

lookup-ordered_below :
    (b i : ℕ) (q : List Bytes) (ss : List (List Bytes)) → i < b → lookup (ordered b q ss) i ≡ none
unfolding ordered
lookup-ordered_below b i q [] h = unfold lookup in refl
lookup-ordered_below b i q (s ∷ ss) h = ground (
  arith,
  lookup-entry_of b (overlap q s) i (ordered (b + 1) q ss),
  lookup-ordered_below (b + 1) i q ss,
)

shift : (b i : ℕ) → b + suc i ≡ b + 1 + i
shift b i = omega arith

tallied-zero : (c : ℕ) → c ≡ 0 → tallied c ≡ none
unfolding tallied
tallied-zero zero e = refl
tallied-zero (suc c) e = absurd (omega arith)

lookup-ordered :
    (b i : ℕ) (q : List Bytes) (ss : List (List Bytes))
    → lookup (ordered b q ss) (b + i) ≡ tallied (nth_overlap i q ss)
unfolding ordered nth_overlap
lookup-ordered b i q [] = unfold lookup tallied in refl
lookup-ordered b zero q (s ∷ ss) = ground (
  arith,
  lookup-entry_of b (overlap q s) (b + 0) (ordered (b + 1) q ss),
  lookup-ordered_below (b + 1) (b + 0) q ss,
  tallied-zero (overlap q s),
)
lookup-ordered b (suc i) q (s ∷ ss) = ground (
  arith,
  lookup-entry_of b (overlap q s) (b + suc i) (ordered (b + 1) q ss),
  lookup-ordered (b + 1) i q ss,
  ap (λ (j : ℕ). lookup (ordered (b + 1) q ss) j) (shift b i),
)

entry_of-IsMap : (b c : ℕ) (r : Tally) → lookup r b ≡ none → IsMap r → IsMap (entry_of b c r)
entry_of-IsMap b zero r e h = h
entry_of-IsMap b (suc c) r e h = (e, h)

ordered-IsMap : (b : ℕ) (q : List Bytes) (ss : List (List Bytes)) → IsMap (ordered b q ss)
unfolding ordered
ordered-IsMap b q [] = tt
ordered-IsMap b q (s ∷ ss) =
    entry_of-IsMap b (overlap q s) (ordered (b + 1) q ss)
      (lookup-ordered_below (b + 1) b q ss (omega arith)) (ordered-IsMap (b + 1) q ss)

nth : ℕ → List (List Bytes) → List Bytes
nth i [] = []
nth zero (s ∷ ss) = s
nth (suc i) (s ∷ ss) = nth i ss

at_count-nth : (i : ℕ) (ss : List (List Bytes)) (x : Bytes) → at_count ss i x ≡ count x (nth i ss)
unfolding at_count nth
at_count-nth i [] x = unfold count in refl
at_count-nth zero (s ∷ ss) x = refl
at_count-nth (suc i) (s ∷ ss) x = at_count-nth i ss x

nth_overlap-nth :
    (i : ℕ) (q : List Bytes) (ss : List (List Bytes)) → nth_overlap i q ss ≡ overlap q (nth i ss)
unfolding nth_overlap nth
nth_overlap-nth i q [] = sym (overlap-nil q)
nth_overlap-nth zero q (s ∷ ss) = refl
nth_overlap-nth (suc i) q (s ∷ ss) = nth_overlap-nth i q ss

-- the tally of the loop has the entries of the ordered one
pub lookup-tally :
    (idx : Index) (ss : List (List Bytes)) (q : List Bytes) (i : ℕ)
    → Indexes idx ss
    → length q < 4294967296
    → lookup (tally idx (sort q)) i ≡ lookup (ordered 0 q ss) i
lookup-tally idx ss q i h small =
    tally-overlap idx ss i (sort q) (nth i ss) h (omega (arith, length-sort q)) (sort-IsSorted q)
      (at_count-nth i ss)
    ∙ ap tallied (overlap-sort q (nth i ss) ∙ sym (nth_overlap-nth i q ss))
    ∙ sym (lookup-ordered 0 i q ss)
    ∙ ap (λ (j : ℕ). lookup (ordered 0 q ss) j) (omega arith)

pub tally-perm :
    (idx : Index) (ss : List (List Bytes)) (q : List Bytes)
    → Indexes idx ss
    → length q < 4294967296
    → Perm (tally idx (sort q)) (ordered 0 q ss)
tally-perm idx ss q h small =
    lookup-perm _ _ (tally-IsMap idx (sort q)) (ordered-IsMap 0 q ss)
      (λ i. lookup-tally idx ss q i h small)

pub lookup-ordered_range :
    (b i v : ℕ) (q : List Bytes) (ss : List (List Bytes))
    → lookup (ordered b q ss) i ≡ some v
    → i < b + length ss
unfolding ordered
lookup-ordered_range b i v q [] e = absurd (unfold lookup in cc)
lookup-ordered_range b i v q (s ∷ ss) e = elim (Bool-cases (b == i)) [
  | inl here ↦ ground arith
  | inr later ↦ omega (
    arith,
    lookup-ordered_range (b + 1) i v q ss
        (ground (arith, lookup-entry_of b (overlap q s) i (ordered (b + 1) q ss))),
  )
]
