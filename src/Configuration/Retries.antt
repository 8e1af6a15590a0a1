-- ===== src/Configuration/Retries.antt =====
-- The retry periods of a domain in src/milter/configuration.cpp: from times since the failure to times
-- from one retry to the next. `std::sort` is insertion sort.
use mathlib.Core.List.{reverse, reverse_aux}
use mathlib.Core.Path.{subst}
use undervest.Prelude.{
  ℕ, zero, suc, ◌+◌, ◌-◌, ◌≤◌, ◌≡◌, refl, ap, ◌∙◌, true, false, Option, none, some, List, [], ◌∷◌,
  ltb, leb, ◌==◌, if◌then◌else◌, arith, inl, inr, Bool-cases, length, ==_iff, sym, ◌<◌, ◌⊎◌,
}
use undervest.Prelude.Int.{ℤ, pos, negsuc}

-- The periods that are kept: a period that is not positive is ignored.
unfoldable pub positives : List ℤ → List ℕ
positives [] = []
positives (pos (suc k) ∷ ks) = suc k ∷ positives ks
positives (pos zero ∷ ks) = positives ks
positives (negsuc _ ∷ ks) = positives ks

unfoldable pub insert_period : ℕ → List ℕ → List ℕ
insert_period x [] = x ∷ []
insert_period x (y ∷ ys) = let rest = insert_period x ys in if leb x y then x ∷ y ∷ ys else y ∷ rest

unfoldable pub sort_periods : List ℕ → List ℕ
sort_periods [] = []
sort_periods (x ∷ xs) = insert_period x (sort_periods xs)

-- A difference, if it is not 0.
abbrev pub keep_period : ℕ → List ℕ → List ℕ
keep_period zero ds = ds
keep_period (suc d) ds = suc d ∷ ds

-- The loop, over the elements from `f` down to the first one, with those behind `t`. What lies
-- between `f` and `t` is not read again, and `erase` takes it away.
unfoldable pub relative_periods : List ℕ → List ℕ → List ℕ
relative_periods [] done = done
relative_periods (f ∷ []) done = f ∷ done
relative_periods (f ∷ e ∷ rest) done = relative_periods (e ∷ rest) (keep_period (f - e) done)

-- The retries of a domain. `none` is `retries.end() - 1` of no elements.
unfoldable pub retries_of : List ℤ → Option (List ℕ)
retries_of ks =
    let ts = sort_periods (positives ks) in
    if ltb 1 (length ks)
    then (if length ts == 0 then none else some (relative_periods (reverse ts) []))
    else some ts

-- The times since the failure at which the retries take place.
abbrev pub running : ℕ → List ℕ → List ℕ
running t [] = []
running t (d ∷ ds) = (t + d) ∷ running (t + d) ds

abbrev pub distinct_after : ℕ → List ℕ → List ℕ
distinct_after x [] = []
distinct_after x (y ∷ ys) = if x == y then distinct_after x ys else y ∷ distinct_after y ys

-- Each element of an ascending list once.
abbrev pub distinct : List ℕ → List ℕ
distinct [] = []
distinct (x ∷ xs) = x ∷ distinct_after x xs

abbrev IsAscending : ℕ → List ℕ → Type 0
IsAscending x [] = Unit {0}
IsAscending x (y ∷ ys) = (x ≤ y) × IsAscending y ys

insert-IsAscending :
    (z x : ℕ) (ys : List ℕ) → z ≤ x → IsAscending z ys → IsAscending z (insert_period x ys)
unfolding insert_period
insert-IsAscending z x [] l h = (l, tt)
insert-IsAscending z x (y ∷ ys) l h = elim (Bool-cases (leb x y)) [
  | inl e ↦ rw e (l, (ground arith, h.1))
  | inr e ↦ rw e (h.0, insert-IsAscending y x ys (ground arith) h.1)
]

sort-IsAscending : (xs : List ℕ) → IsAscending 0 (sort_periods xs)
unfolding sort_periods
sort-IsAscending [] = tt
sort-IsAscending (x ∷ xs) =
    insert-IsAscending 0 x (sort_periods xs) (omega arith) (sort-IsAscending xs)

-- the differences from front to back
abbrev differences : ℕ → List ℕ → List ℕ → List ℕ
differences x [] done = done
differences x (y ∷ ys) done = keep_period (y - x) (differences y ys done)

relative_periods-reverse :
    (x : ℕ) (before ys done : List ℕ)
    → relative_periods (reverse_aux ys (x ∷ before)) done
      ≡ relative_periods (x ∷ before) (differences x ys done)
unfolding relative_periods
relative_periods-reverse x before [] done = refl
relative_periods-reverse x before (y ∷ ys) done = relative_periods-reverse y (x ∷ before) ys done

kept :
    (x d : ℕ) (ds ts : List ℕ)
    → running (x + d) ds ≡ ts
    → running x (keep_period d ds) ≡ (if x == x + d then ts else (x + d) ∷ ts)
kept x zero ds ts h = rw same (ap (λ (z : ℕ). running z ds) {y = x + 0} (omega arith) ∙ h)
  where
    same : (x == x + 0) ≡ true
    same = ground arith
kept x (suc d) ds ts h = rw other (ap (◌∷◌ (x + suc d)) h)
  where
    other : (x == x + suc d) ≡ false
    other = ground arith

running-keep :
    (x y : ℕ) (ds ts : List ℕ)
    → x ≤ y
    → running y ds ≡ ts
    → running x (keep_period (y - x) ds) ≡ (if x == y then ts else y ∷ ts)
running-keep x y ds ts l h =
    subst (λ (z : ℕ). running x (keep_period (y - x) ds) ≡ (if x == z then ts else z ∷ ts)) e
      (kept x (y - x) ds ts (ap (λ (z : ℕ). running z ds) e ∙ h))
  where
    e : x + (y - x) ≡ y
    e = omega arith

running-differences :
    (x : ℕ) (ys : List ℕ) → IsAscending x ys → running x (differences x ys []) ≡ distinct_after x ys
running-differences x [] h = refl
running-differences x (y ∷ ys) h =
    running-keep x y (differences y ys []) (distinct_after y ys) h.0 (running-differences y ys h.1)
    ∙ elim (Bool-cases (x == y)) [
      | inl e ↦ rw e (ap (λ (z : ℕ). distinct_after z ys) (sym ((==_iff x y).0 e)))
      | inr e ↦ rw e refl
    ]

running-relative :
    (ts : List ℕ) → IsAscending 0 ts → running 0 (relative_periods (reverse ts) []) ≡ distinct ts
unfolding relative_periods
running-relative [] h = refl
running-relative (x ∷ xs) h =
    ap (running 0) (relative_periods-reverse x [] xs [])
    ∙ (λ i. zero_plus i ∷ running (zero_plus i) (differences x xs []))
    ∙ ap (◌∷◌ x) (running-differences x xs h.1)
  where
    zero_plus : 0 + x ≡ x
    zero_plus = omega arith

running-short : (ts : List ℕ) → length ts ≤ 1 → running 0 ts ≡ distinct ts
running-short [] l = refl
running-short (x ∷ []) l = ap (λ (z : ℕ). z ∷ []) {x = 0 + x} (omega arith)
running-short (x ∷ y ∷ ts) l = absurd (omega arith)

insert-length : (x : ℕ) (ys : List ℕ) → length (insert_period x ys) ≡ suc (length ys)
unfolding insert_period
insert-length x [] = refl
insert-length x (y ∷ ys) = elim (Bool-cases (leb x y)) [
  | inl e ↦ rw e refl
  | inr e ↦ rw e (ap suc (insert-length x ys))
]

sort-length : (xs : List ℕ) → length (sort_periods xs) ≡ length xs
unfolding sort_periods
sort-length [] = refl
sort-length (x ∷ xs) = insert-length x (sort_periods xs) ∙ ap suc (sort-length xs)

positives-length : (ks : List ℤ) → length (positives ks) ≤ length ks
unfolding positives
positives-length [] = omega arith
positives-length (pos (suc k) ∷ ks) = omega (arith, positives-length ks)
positives-length (pos zero ∷ ks) = omega (arith, positives-length ks)
positives-length (negsuc k ∷ ks) = omega (arith, positives-length ks)

-- If a configured retry period is positive, the retries of a domain take place at the positive
-- periods after the failure, each once and in ascending order, and with two or more periods of
-- which none is positive, the conversion goes out of range.
pub retries_exact :
    (ks : List ℤ)
    → (0 < length (positives ks)
        → (ds : List ℕ) × (retries_of ks ≡ some ds)
          × (running 0 ds ≡ distinct (sort_periods (positives ks))))
      × (length (positives ks) ≡ 0 → 1 < length ks → retries_of ks ≡ none)
unfolding retries_of
retries_exact ks = (some_positive (Bool-cases (ltb 1 (length ks))), none_positive)
  where
    ts : List ℕ
    ts = sort_periods (positives ks)

    some_positive :
        (ltb 1 (length ks) ≡ true) ⊎ (ltb 1 (length ks) ≡ false)
        → 0 < length (positives ks)
        → (ds : List ℕ) × (retries_of ks ≡ some ds) × (running 0 ds ≡ distinct ts)
    some_positive (inl e) l = (
      relative_periods (reverse ts) [],
      rw e (rw present refl),
      running-relative ts (sort-IsAscending (positives ks)),
    )
      where
        present : (length ts == 0) ≡ false
        present = let s = sort-length (positives ks) in ground arith
    some_positive (inr e) l = (
      ts,
      rw e refl,
      running-short ts
          (let s = sort-length (positives ks) in let m = positives-length ks in ground arith),
    )

    none_positive : length (positives ks) ≡ 0 → 1 < length ks → retries_of ks ≡ none
    none_positive z l = rw many (rw absent refl)
      where
        many : ltb 1 (length ks) ≡ true
        many = ground arith

        absent : (length ts == 0) ≡ true
        absent = let s = sort-length (positives ks) in ground arith
