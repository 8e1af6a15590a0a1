-- ===== src/Matcher/Postings.antt =====
-- What the slice index of the matcher holds: for each slice, the targets that have it, in the order
-- in which they were added, each with the number of times it has it.
use undervest.Prelude.{
  ℕ, zero, suc, ◌+◌, ◌≤◌, ◌<◌, ◌≡◌, refl, inl, inr, sym, ap, ◌∙◌, none, some, List, [], ◌∷◌, ◌++◌,
  if◌then◌else◌, Bytes, beq, beq_iff, count, length, All, arith, Bool-cases,
}
use undervest.Substring.Order.{less_order}
use undervest.Matcher.{TargetSlice, Index, u32, bump, add_slice, add_slices, find}

-- The vector stored for a slice; none is as good as an empty one.
unfoldable pub postings : Index → Bytes → List TargetSlice
postings idx x = elim (find x idx) [ none ↦ [] | some p ↦ p ]

abbrev pub entry : ℕ → ℕ → List TargetSlice → List TargetSlice
entry b zero rest = rest
entry b (suc n) rest = record { index = b; count = suc n } ∷ rest

-- The entries that targets with these slices should have for `x`, numbered from `b`.
unfoldable pub posted : ℕ → List (List Bytes) → Bytes → List TargetSlice
posted b [] x = []
posted b (s ∷ ss) x = entry b (count x s) (posted (b + 1) ss x)

abbrev with_count : ℕ → List TargetSlice → ℕ → List TargetSlice
with_count m p zero = p
with_count m p (suc k) = p ++ record { index = m; count = suc k } ∷ []

abbrev IsBelow : ℕ → List TargetSlice → Type 0
IsBelow m = All (λ e. e.index < m)

bump_new :
    (m : ℕ) (p : List TargetSlice)
    → m < 4294967296
    → IsBelow m p
    → bump m p ≡ p ++ record { index = m; count = 1 } ∷ []
unfolding bump
bump_new m [] fits h = ground arith
bump_new m (e ∷ []) fits h = ground arith
bump_new m (e ∷ e' ∷ p) fits h = ap (◌∷◌ e) (bump_new m (e' ∷ p) fits h.1)

bump_last :
    (m k : ℕ) (p : List TargetSlice)
    → bump m (p ++ record { index = m; count = k } ∷ [])
      ≡ p ++ record { index = m; count = u32 (k + 1) } ∷ []
unfolding bump
bump_last m k [] = ground arith
bump_last m k (e ∷ []) = ap (◌∷◌ e) (bump_last m k [])
bump_last m k (e ∷ e' ∷ p) = ap (◌∷◌ e) (bump_last m k (e' ∷ p))

bump-with_count :
    (m k : ℕ) (p : List TargetSlice)
    → m < 4294967296
    → k + 1 < 4294967296
    → IsBelow m p
    → bump m (with_count m p k) ≡ with_count m p (suc k)
bump-with_count m zero p fits small h = bump_new m p fits h
bump-with_count m (suc k) p fits small h =
    bump_last m (suc k) p ∙ ap (λ (n : ℕ). p ++ record { index = m; count = n } ∷ []) (omega arith)

postings-add_slice :
    (m : ℕ) (x z : Bytes) (idx : Index)
    → postings (add_slice m x idx) z ≡ (if beq z x then bump m (postings idx z) else postings idx z)
unfolding postings add_slice find bump
postings-add_slice m x z [] =
    ground (arith, (less_order x z z).2, (less_order x z z).3, beq_iff z x)
postings-add_slice m x z ((y, p) ∷ idx) = ground (
  arith,
  (less_order x z z).3,
  (less_order y z z).3,
  (less_order y x x).3,
  beq_iff z x,
  postings-add_slice m x z idx,
)

count-le-length : (x : Bytes) (xs : List Bytes) → count x xs ≤ length xs
unfolding count
count-le-length x [] = omega arith
count-le-length x (y ∷ ys) = ground (arith, count-le-length x ys)

-- Adding the slices `xs` of target `m` counts each of them.
pub postings-add_slices :
    (m k : ℕ) (z : Bytes) (p : List TargetSlice) (xs : List Bytes) (idx : Index)
    → m < 4294967296
    → k + count z xs < 4294967296
    → IsBelow m p
    → postings idx z ≡ with_count m p k
    → postings (add_slices m xs idx) z ≡ with_count m p (k + count z xs)
unfolding add_slices count
postings-add_slices m k z p [] idx fits small h e = e ∙ ap (with_count m p) (omega arith)
postings-add_slices m k z p (x ∷ xs) idx fits small h e = elim (Bool-cases (beq z x)) [
  | inl same ↦
      postings-add_slices m (suc k) z p xs (add_slice m x idx) fits (ground arith) h
        (rw (postings-add_slice m x z idx, same, e) (bump-with_count m k p fits (ground arith) h))
      ∙ ap (with_count m p) (ground arith)
  | inr other ↦
      postings-add_slices m k z p xs (add_slice m x idx) fits (ground arith) h
        (rw (postings-add_slice m x z idx, other) e)
      ∙ ap (with_count m p) (ground arith)
]

entry-with_count :
    (b n m k : ℕ) (p : List TargetSlice)
    → entry b n (with_count m p k) ≡ with_count m (entry b n p) k
entry-with_count b zero m k p = refl
entry-with_count b (suc n) m zero p = refl
entry-with_count b (suc n) m (suc k) p = refl

-- One more target is one more entry at the end, if it has the slice.
pub posted-append :
    (b : ℕ) (ss : List (List Bytes)) (s : List Bytes) (x : Bytes)
    → posted b (ss ++ s ∷ []) x ≡ with_count (b + length ss) (posted b ss x) (count x s)
unfolding posted
posted-append b [] s x = first (count x s)
  where
    first : (k : ℕ) → entry b k [] ≡ with_count (b + 0) [] k
    first zero = refl
    first (suc k) = ap (λ (i : ℕ). record { index = i; count = suc k } ∷ []) (omega arith)
posted-append b (t ∷ ss) s x =
    ap (entry b (count x t)) (posted-append (b + 1) ss s x)
    ∙ entry-with_count b (count x t) (b + 1 + length ss) (count x s) (posted (b + 1) ss x)
    ∙ ap (λ (m : ℕ). with_count m (entry b (count x t) (posted (b + 1) ss x)) (count x s))
        (omega arith)

entry-IsBelow : (b n m : ℕ) (p : List TargetSlice) → b < m → IsBelow m p → IsBelow m (entry b n p)
entry-IsBelow b zero m p lt h = h
entry-IsBelow b (suc n) m p lt h = (lt, h)

posted-IsBelow :
    (b : ℕ) (ss : List (List Bytes)) (x : Bytes) (m : ℕ)
    → b + length ss ≤ m
    → IsBelow m (posted b ss x)
unfolding posted
posted-IsBelow b [] x m le = tt
posted-IsBelow b (t ∷ ss) x m le =
    entry-IsBelow b (count x t) m (posted (b + 1) ss x) (omega arith)
      (posted-IsBelow (b + 1) ss x m (omega arith))

-- The index holds the entries of these targets.
abbrev pub Indexes : Index → List (List Bytes) → Type 0
Indexes idx ss = (x : Bytes) → postings idx x ≡ posted 0 ss x

pub add_slices-Indexes :
    (idx : Index) (ss : List (List Bytes)) (s : List Bytes)
    → length ss < 4294967296
    → length s < 4294967296
    → Indexes idx ss
    → Indexes (add_slices (length ss) s idx) (ss ++ s ∷ [])
add_slices-Indexes idx ss s fits small h x =
    postings-add_slices (length ss) 0 x (posted 0 ss x) s idx fits
      (omega (arith, count-le-length x s)) (posted-IsBelow 0 ss x (length ss) (omega arith)) (h x)
    ∙ ap (with_count (length ss) (posted 0 ss x)) (omega arith)
    ∙ sym (
        posted-append 0 ss s x
        ∙ ap (λ (m : ℕ). with_count m (posted 0 ss x) (count x s)) (omega arith))
