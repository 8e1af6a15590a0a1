-- ===== src/Matcher/Tallies.antt =====
-- The loop of `match` over the runs of equal slices adds up, for each target, its overlap with the
-- slices of the tested text.
use undervest.Prelude.{
  ℕ, zero, suc, ◌+◌, ◌<◌, min, ◌≡◌, refl, inl, inr, sym, ap, ◌∙◌, true, false, Option, none, some,
  List, [], ◌∷◌, ◌++◌, ltb, ◌==◌, if◌then◌else◌, Bytes, beq, beq_iff, count, length, All, arith,
  Bool-cases, replicate, replicate-append-cons,
}
use mathlib.Core.Path.{subst, fun_ext}
use native.Mathlib.Numerals.{add-one}
use native.Mathlib.Nat.{mod-eq_of_lt}
use undervest.Substring.{less}
use undervest.Substring.Order.{less_order}
use undervest.Matcher.{TargetSlice, Index, Tally, u32, add_at, add_common, flush, runs, tally}
use undervest.Matcher.Overlap.{overlap, IsSorted}
use undervest.Matcher.Postings.{postings, posted, entry, Indexes}

unfoldable pub lookup : Tally → ℕ → Option ℕ
lookup [] i = none
lookup ((j, v) ∷ r) i = if j == i then some v else lookup r i

-- What the tally holds for a target that has `g` slices in common: nothing if there is none.
unfoldable pub tallied : ℕ → Option ℕ
tallied zero = none
tallied (suc g) = some (u32 (suc g))

-- The number of times that the `i`-th target has the slice.
unfoldable pub at_count : List (List Bytes) → ℕ → Bytes → ℕ
at_count [] i x = 0
at_count (s ∷ ss) zero x = count x s
at_count (s ∷ ss) (suc i) x = at_count ss i x

abbrev pub value : Option ℕ → ℕ
value none = 0
value (some v) = v

pub lookup-add_at :
    (i j c : ℕ) (r : Tally)
    → lookup (add_at j c r) i ≡ (if j == i then some (u32 (value (lookup r i) + c)) else lookup r i)
unfolding lookup add_at
lookup-add_at i j c [] = ground arith
lookup-add_at i j c ((k, v) ∷ r) = ground (arith, lookup-add_at i j c r)

tallied_add : (g c : ℕ) → 0 < c → some (u32 (value (tallied g) + c)) ≡ tallied (g + c)
unfolding tallied
tallied_add g zero h = elim h [ ]
tallied_add zero (suc c) h = ground arith
tallied_add (suc g) (suc c) h = ground arith

add_at-tallied :
    (i j c g : ℕ) (r : Tally)
    → 0 < c
    → lookup r i ≡ tallied g
    → lookup (add_at j c r) i ≡ tallied (if j == i then g + c else g)
add_at-tallied i j c g r h e = elim (Bool-cases (j == i)) [
  | inl same ↦ rw (lookup-add_at i j c r, same, e) (tallied_add g c h)
  | inr other ↦ rw (lookup-add_at i j c r, other) e
]

-- What a posting list adds for target `i` to a run of `n` slices.
gain : ℕ → List TargetSlice → ℕ → ℕ
gain n [] i = 0
gain n (k ∷ ks) i =
    (if k.index == i then (if ltb n k.count then n else k.count) else 0) + gain n ks i

abbrev ArePositive : List TargetSlice → Type 0
ArePositive = All (λ k. 0 < k.count)

add_common-tallied :
    (i n g : ℕ) (ks : List TargetSlice) (r : Tally)
    → 0 < n
    → ArePositive ks
    → lookup r i ≡ tallied g
    → lookup (add_common n ks r) i ≡ tallied (g + gain n ks i)
unfolding add_common gain
add_common-tallied i n g [] r h p e = e ∙ ap tallied (omega arith)
add_common-tallied i n g (k ∷ ks) r h p e =
    let c : ℕ = if ltb n k.count then n else k.count in
    let g' : ℕ = if k.index == i then g + c else g in
    add_common-tallied i n g' ks (add_at k.index c r) h p.1
      (add_at-tallied i k.index c g r (ground arith) e)
    ∙ ap tallied (ground arith)

entry-ArePositive : (b n : ℕ) (p : List TargetSlice) → ArePositive p → ArePositive (entry b n p)
entry-ArePositive b zero p h = h
entry-ArePositive b (suc n) p h = (omega arith, h)

posted-ArePositive : (b : ℕ) (ss : List (List Bytes)) (x : Bytes) → ArePositive (posted b ss x)
unfolding posted
posted-ArePositive b [] x = tt
posted-ArePositive b (s ∷ ss) x =
    entry-ArePositive b (count x s) _ (posted-ArePositive (b + 1) ss x)

gain-entry :
    (n b c i : ℕ) (p : List TargetSlice)
    → gain n (entry b c p) i ≡ (if b == i then min n c else 0) + gain n p i
unfolding gain
gain-entry n b zero i p = ground arith
gain-entry n b (suc c) i p = ground arith

gain-posted_below :
    (n b i : ℕ) (ss : List (List Bytes)) (x : Bytes) → i < b → gain n (posted b ss x) i ≡ 0
unfolding posted
gain-posted_below n b i [] x h = unfold gain in refl
gain-posted_below n b i (s ∷ ss) x h =
    ground (
      arith,
      gain-entry n b (count x s) i (posted (b + 1) ss x),
      gain-posted_below n (b + 1) i ss x,
    )

shift : (b i : ℕ) → b + suc i ≡ b + 1 + i
shift b i = omega arith

gain-posted :
    (n b i : ℕ) (ss : List (List Bytes)) (x : Bytes)
    → gain n (posted b ss x) (b + i) ≡ min n (at_count ss i x)
unfolding posted at_count
gain-posted n b i [] x = zero_min
  where
    zero_min : gain n [] (b + i) ≡ min n 0
    zero_min = unfold gain in omega arith
gain-posted n b zero (s ∷ ss) x = ground (
  arith,
  gain-entry n b (count x s) (b + 0) (posted (b + 1) ss x),
  gain-posted_below n (b + 1) (b + 0) ss x,
)
gain-posted n b (suc i) (s ∷ ss) x = ground (
  arith,
  gain-entry n b (count x s) (b + suc i) (posted (b + 1) ss x),
  gain-posted n (b + 1) i ss x,
  ap (λ (j : ℕ). gain n (posted (b + 1) ss x) j) (shift b i),
)

flush-add_common :
    (idx : Index) (x : Bytes) (n : ℕ) (r : Tally)
    → flush idx x n r ≡ add_common (u32 n) (postings idx x) r
unfolding flush postings add_common
flush-add_common idx x n r = ground arith

-- A run of `n` slices `x` adds, for each target, as many as the target has, at most `n`.
flush-tallied :
    (idx : Index) (ss : List (List Bytes)) (x : Bytes) (i n g : ℕ) (r : Tally)
    → Indexes idx ss
    → 0 < n
    → n < 4294967296
    → lookup r i ≡ tallied g
    → lookup (flush idx x n r) i ≡ tallied (g + min n (at_count ss i x))
unfolding flush
flush-tallied idx ss x i n g r h pos small e =
    rw (flush-add_common idx x n r, h x, mod-eq_of_lt small)
      (add_common-tallied i n g (posted 0 ss x) r pos (posted-ArePositive 0 ss x) e
        ∙ ap tallied (omega (arith, gain-posted n 0 i ss x, at_zero)))
  where
    at_zero : gain n (posted 0 ss x) (0 + i) ≡ gain n (posted 0 ss x) i
    at_zero = ap (λ (j : ℕ). gain n (posted 0 ss x) j) (omega arith)

-- The same loop over numbers, for one target with slices `s`: each run counts once for each
-- partner it has.
grouped : Bytes → ℕ → List Bytes → (Bytes → ℕ) → ℕ
grouped x n [] s = min n (s x)
grouped x n (y ∷ ys) s = elim (less x y) [
  | true ↦ min n (s x) + grouped y 1 ys s
  | false ↦ grouped x (n + 1) ys s
]

runs-tallied :
    (idx : Index) (ss : List (List Bytes)) (i n g : ℕ) (x : Bytes) (ys : List Bytes) (r : Tally)
    → Indexes idx ss
    → 0 < n
    → n + length ys < 4294967296
    → lookup r i ≡ tallied g
    → lookup (runs idx x n ys r) i ≡ tallied (g + grouped x n ys (at_count ss i))
unfolding runs grouped
runs-tallied idx ss i n g x [] r h pos small e =
    flush-tallied idx ss x i n g r h pos (omega arith) e
runs-tallied idx ss i n g x (y ∷ ys) r h pos small e = elim (Bool-cases (less x y)) [
  | inl new ↦
      rw (new, runs, grouped)
        (runs-tallied idx ss i 1 (g + min n (at_count ss i x)) y ys (flush idx x n r) h
            (omega arith) (omega arith) (flush-tallied idx ss x i n g r h pos (omega arith) e)
          ∙ ap tallied (omega arith))
  | inr same ↦
      rw (same, runs, grouped)
        (runs-tallied idx ss i (n + 1) g x ys r h (omega arith) (omega arith) e)
]

-- A slice smaller than the first of a sorted list is not in it.
count_smaller :
    (x y : Bytes) (ys : List Bytes)
    → less x y ≡ true
    → All (λ z. less z y ≡ false) ys
    → count x ys ≡ 0
unfolding count
count_smaller x y [] lt h = refl
count_smaller x y (z ∷ zs) lt h = ground (arith, beq_iff x z, count_smaller x y zs lt h.1, smaller)
  where
    smaller : beq x z ≡ true → ⊥
    smaller e = absurd (clash (sym (subst (λ t. less t y ≡ true) ((beq_iff x z).0 e) lt) ∙ h.0))
      where
        clash : true ≡ false → ⊥
        clash p = cc

count-replicate :
    (x : Bytes) (n : ℕ) (ys : List Bytes) → count x (replicate n x ++ ys) ≡ n + count x ys
unfolding count
count-replicate x zero ys = omega arith
count-replicate x (suc n) ys = ground (arith, count-replicate x n ys, beq_iff x x)

overlap-replicate :
    (x : Bytes) (n : ℕ) (ys s : List Bytes)
    → count x ys ≡ 0
    → overlap (replicate n x ++ ys) s ≡ min n (count x s) + overlap ys s
unfolding overlap
overlap-replicate x zero ys s h = omega arith
overlap-replicate x (suc n) ys s h =
    ground (arith, count-replicate x n ys, overlap-replicate x n ys s h)

grouped-overlap :
    (x : Bytes) (n : ℕ) (ys s : List Bytes)
    → IsSorted (x ∷ ys)
    → grouped x n ys (λ z. count z s) ≡ overlap (replicate n x ++ ys) s
unfolding grouped
grouped-overlap x n [] s h =
    omega (arith, overlap-replicate x n [] s (unfold count in refl), no_overlap)
  where
    no_overlap : overlap [] s ≡ 0
    no_overlap = unfold overlap in refl
grouped-overlap x n (y ∷ ys) s h = elim (Bool-cases (less x y)) [
  | inl new ↦
      let none_left = count_smaller x y (y ∷ ys) new ((less_order y y y).0, h.1.0) in
      rw (new, grouped)
        (omega (arith, grouped-overlap y 1 ys s h.1, overlap-replicate x n (y ∷ ys) s none_left))
  | inr same ↦
      let e : x ≡ y = (less_order x y y).2 same h.0.0 in
      rw (same, grouped)
        (grouped-overlap x (n + 1) ys s (h.0.1, h.1.1)
          ∙ ap (λ (k : ℕ). overlap (replicate k x ++ ys) s) (add-one n)
          ∙ ap (λ us. overlap us s) (sym (replicate-append-cons n x ys))
          ∙ ap (λ z. overlap (replicate n x ++ z ∷ ys) s) e)
]

-- For each target, the tally of sorted slices holds its overlap with them.
pub tally-overlap :
    (idx : Index) (ss : List (List Bytes)) (i : ℕ) (xs s : List Bytes)
    → Indexes idx ss
    → length xs < 4294967296
    → IsSorted xs
    → ((x : Bytes) → at_count ss i x ≡ count x s)
    → lookup (tally idx xs) i ≡ tallied (overlap xs s)
unfolding tally
tally-overlap idx ss i [] s h small sorted same = unfold lookup overlap tallied in refl
tally-overlap idx ss i (x ∷ xs) s h small sorted same =
    runs-tallied idx ss i 1 0 x xs [] h (omega arith) (omega arith) (unfold lookup tallied in refl)
    ∙ ap tallied
        (omega (arith, grouped-overlap x 1 xs s sorted, ap (λ f. grouped x 1 xs f) (fun_ext same)))
