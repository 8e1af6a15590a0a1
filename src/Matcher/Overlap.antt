-- ===== src/Matcher/Overlap.antt =====
-- The number of slices that two texts share, as the matcher's documentation describes it: a slice
-- that stands n times in one and m times in the other counts min n m times.
use mathlib.Core.Path.{subst}
use undervest.Prelude.{
  ℕ, suc, ◌+◌, ◌≤◌, ◌≡◌, inl, inr, refl, ap, ◌∙◌, true, false, List, [], ◌∷◌, leb, if◌then◌else◌,
  Bytes, beq, beq_iff, count, length, All, arith, Bool-cases,
}
use undervest.Substring.{less}
use undervest.Substring.Order.{less_order}
use undervest.Matcher.{insert, sort}

-- Each slice of `xs` that still has a partner: a slice counts if no more of it are left, itself
-- included, than stand in `ys`.
unfoldable pub overlap : List Bytes → List Bytes → ℕ
overlap [] ys = 0
overlap (x ∷ xs) ys = (if leb (count x xs + 1) (count x ys) then 1 else 0) + overlap xs ys

pub overlap-le-length : (xs ys : List Bytes) → overlap xs ys ≤ length xs
unfolding overlap
overlap-le-length [] ys = omega arith
overlap-le-length (x ∷ xs) ys = ground (arith, overlap-le-length xs ys)

-- Each slice is smaller than none behind it.
abbrev pub IsSorted : List Bytes → Type 0
IsSorted [] = Unit {0}
IsSorted (x ∷ xs) = All (λ y. less y x ≡ false) xs × IsSorted xs

insert-All :
    (P : Bytes → Type 0) (x : Bytes) (xs : List Bytes) → P x → All P xs → All P (insert x xs)
unfolding insert
insert-All P x [] p h = (p, tt)
insert-All P x (y ∷ ys) p h = elim (Bool-cases (less y x)) [
  | inl e ↦ rw e (h.0, insert-All P x ys p h.1)
  | inr e ↦ rw e (p, h)
]

not-less_trans : (x y z : Bytes) → less y x ≡ false → less z y ≡ false → less z x ≡ false
not-less_trans x y z p q = elim (Bool-cases (less z x)) [
  | inl e ↦ elim (Bool-cases (less x y)) [
    | inl f ↦ ground (arith, (less_order z x y).1 e f)
    | inr f ↦ ground (arith, (less_order x y x).2 f p)
  ]
  | inr e ↦ e
]

less-asymm : (x y : Bytes) → less y x ≡ true → less x y ≡ false
less-asymm x y e = elim (Bool-cases (less x y)) [
  | inl f ↦ ground (arith, (less_order x y x).1 f e, (less_order x x x).0)
  | inr f ↦ f
]

All-not-less_trans :
    (x y : Bytes) (ys : List Bytes)
    → less y x ≡ false
    → All (λ z. less z y ≡ false) ys
    → All (λ z. less z x ≡ false) ys
All-not-less_trans x y [] p h = tt
All-not-less_trans x y (z ∷ zs) p h = (not-less_trans x y z p h.0, All-not-less_trans x y zs p h.1)

insert-IsSorted : (x : Bytes) (xs : List Bytes) → IsSorted xs → IsSorted (insert x xs)
unfolding insert
insert-IsSorted x [] h = (tt, tt)
insert-IsSorted x (y ∷ ys) h = elim (Bool-cases (less y x)) [
  | inl e ↦ rw e (insert-All _ x ys (less-asymm x y e) h.0, insert-IsSorted x ys h.1)
  | inr e ↦ rw e ((e, All-not-less_trans x y ys e h.0), h)
]

-- `std::sort` as modelled sorts.
pub sort-IsSorted : (xs : List Bytes) → IsSorted (sort xs)
unfolding sort
sort-IsSorted [] = tt
sort-IsSorted (x ∷ xs) = insert-IsSorted x (sort xs) (sort-IsSorted xs)

count-insert : (z x : Bytes) (xs : List Bytes) → count z (insert x xs) ≡ count z (x ∷ xs)
unfolding count insert
count-insert z x [] = refl
count-insert z x (y ∷ ys) = ground (arith, count-insert z x ys)

length-insert : (x : Bytes) (xs : List Bytes) → length (insert x xs) ≡ suc (length xs)
unfolding insert
length-insert x [] = refl
length-insert x (y ∷ ys) = ground (arith, length-insert x ys)

pub length-sort : (xs : List Bytes) → length (sort xs) ≡ length xs
unfolding sort
length-sort [] = refl
length-sort (x ∷ xs) = length-insert x (sort xs) ∙ ap suc (length-sort xs)

overlap-swap :
    (x y : Bytes) (xs ys : List Bytes) → overlap (x ∷ y ∷ xs) ys ≡ overlap (y ∷ x ∷ xs) ys
overlap-swap x y xs ys = elim (Bool-cases (beq x y)) [
  | inl e ↦ subst (λ z. overlap (x ∷ z ∷ xs) ys ≡ overlap (z ∷ x ∷ xs) ys) ((beq_iff x y).0 e) refl
  | inr e ↦ unfold overlap count in ground (arith, beq_iff x y, beq_iff y x)
]

overlap-cons :
    (y : Bytes) (us vs ys : List Bytes)
    → count y us ≡ count y vs
    → overlap us ys ≡ overlap vs ys
    → overlap (y ∷ us) ys ≡ overlap (y ∷ vs) ys
unfolding overlap
overlap-cons y us vs ys p q = rw (p, q)

overlap-insert : (x : Bytes) (xs ys : List Bytes) → overlap (insert x xs) ys ≡ overlap (x ∷ xs) ys
unfolding insert
overlap-insert x [] ys = refl
overlap-insert x (y ∷ xs) ys = elim (Bool-cases (less y x)) [
  | inl e ↦ rw e (
      overlap-cons y (insert x xs) (x ∷ xs) ys (count-insert y x xs) (overlap-insert x xs ys)
      ∙ overlap-swap y x xs ys)
  | inr e ↦ rw e
]

count-cons :
    (z x : Bytes) (us vs : List Bytes)
    → count z us ≡ count z vs
    → count z (x ∷ us) ≡ count z (x ∷ vs)
unfolding count
count-cons z x us vs p = rw p

count-sort : (z : Bytes) (xs : List Bytes) → count z (sort xs) ≡ count z xs
unfolding sort
count-sort z [] = refl
count-sort z (x ∷ xs) = count-insert z x (sort xs) ∙ count-cons z x (sort xs) xs (count-sort z xs)

-- The overlap does not depend on the order of the slices.
pub overlap-sort : (xs ys : List Bytes) → overlap (sort xs) ys ≡ overlap xs ys
unfolding sort
overlap-sort [] ys = refl
overlap-sort (x ∷ xs) ys =
    overlap-insert x (sort xs) ys
    ∙ overlap-cons x (sort xs) xs ys (count-sort x xs) (overlap-sort xs ys)

overlap_one_more :
    (y : Bytes) (xs ys : List Bytes)
    → overlap xs (y ∷ ys) ≡ overlap xs ys + (if leb (count y ys + 1) (count y xs) then 1 else 0)
unfolding overlap count
overlap_one_more y [] ys = ground arith
overlap_one_more y (x ∷ xs) ys = elim (Bool-cases (beq x y)) [
  | inl e ↦
      let same : x ≡ y = (beq_iff x y).0 e in
      ground (
        arith,
        overlap_one_more y xs ys,
        ap (λ z. count z xs) same,
        ap (λ z. count z ys) same,
        beq_iff y x,
      )
  | inr e ↦ ground (arith, overlap_one_more y xs ys, beq_iff y x, beq_iff x y)
]

pub overlap-nil : (xs : List Bytes) → overlap xs [] ≡ 0
unfolding overlap count
overlap-nil [] = refl
overlap-nil (x ∷ xs) = ground (arith, overlap-nil xs)

-- Sharing is symmetric.
pub overlap_comm : (xs ys : List Bytes) → overlap xs ys ≡ overlap ys xs
overlap_comm xs [] = overlap-nil xs ∙ unfold overlap in refl
overlap_comm xs (y ∷ ys) = overlap_one_more y xs ys ∙ overlap-step (overlap_comm xs ys)
  where
    overlap-step :
        overlap xs ys ≡ overlap ys xs
        → overlap xs ys + (if leb (count y ys + 1) (count y xs) then 1 else 0) ≡ overlap (y ∷ ys) xs
    overlap-step e = unfold overlap in omega (arith, e)

-- A list of slices shares all of them with itself.
pub overlap_self : (xs : List Bytes) → overlap xs xs ≡ length xs
overlap_self [] = unfold overlap in refl
overlap_self (x ∷ xs) = grown (overlap_self xs)
  where
    grown : overlap xs xs ≡ length xs → overlap (x ∷ xs) (x ∷ xs) ≡ suc (length xs)
    grown e = unfold overlap count in ground (arith, e, overlap_one_more x xs xs, beq_iff x x)
