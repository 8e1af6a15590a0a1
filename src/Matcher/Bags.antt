-- ===== src/Matcher/Bags.antt =====
-- A tally is a map: two tallies with the same entries are permutations of each other.
use mathlib.Core.List.{Perm}
use mathlib.Core.List.Perm
use undervest.Prelude.{
  ℕ, ◌+◌, ◌≡◌, refl, inl, inr, sym, ap, ◌∙◌, Option, none, some, List, [], ◌∷◌, ◌==◌, if◌then◌else◌,
  Bytes, arith, Bool-cases,
}
use undervest.Matcher.{TargetSlice, Index, Tally, u32, find, add_at, add_common, flush, runs, tally}
use undervest.Substring.{less}
use undervest.Matcher.Tallies.{lookup, lookup-add_at}

-- No target has two entries.
abbrev pub IsMap : Tally → Type 0
IsMap [] = Unit {0}
IsMap ((i, v) ∷ r) = (lookup r i ≡ none) × IsMap r

add_at-IsMap : (i c : ℕ) (r : Tally) → IsMap r → IsMap (add_at i c r)
unfolding add_at
add_at-IsMap i c [] h = (unfold lookup in refl, tt)
add_at-IsMap i c ((j, v) ∷ r) h = elim (Bool-cases (j == i)) [
  | inl same ↦ rw same h
  | inr other ↦ rw other (ground (arith, lookup-add_at j i c r), add_at-IsMap i c r h.1)
]

add_common-IsMap : (n : ℕ) (ks : List TargetSlice) (r : Tally) → IsMap r → IsMap (add_common n ks r)
unfolding add_common
add_common-IsMap n [] r h = h
add_common-IsMap n (k ∷ ks) r h = add_common-IsMap n ks _ (add_at-IsMap k.index _ r h)

flush-IsMap : (idx : Index) (x : Bytes) (n : ℕ) (r : Tally) → IsMap r → IsMap (flush idx x n r)
unfolding flush
flush-IsMap idx x n r h = go (find x idx)
  where
    go :
        (o : Option (List TargetSlice))
        → IsMap (elim o [ none ↦ r | some ks ↦ add_common (u32 n) ks r ])
    go none = h
    go (some ks) = add_common-IsMap (u32 n) ks r h

runs-IsMap :
    (idx : Index) (x : Bytes) (n : ℕ) (ys : List Bytes) (r : Tally)
    → IsMap r
    → IsMap (runs idx x n ys r)
unfolding runs
runs-IsMap idx x n [] r h = flush-IsMap idx x n r h
runs-IsMap idx x n (y ∷ ys) r h = elim (Bool-cases (less x y)) [
  | inl new ↦ rw (new, runs) (runs-IsMap idx y 1 ys _ (flush-IsMap idx x n r h))
  | inr same ↦ rw (same, runs) (runs-IsMap idx x (n + 1) ys r h)
]

pub tally-IsMap : (idx : Index) (xs : List Bytes) → IsMap (tally idx xs)
unfolding tally
tally-IsMap idx [] = tt
tally-IsMap idx (x ∷ xs) = runs-IsMap idx x 1 xs [] tt

without : ℕ → Tally → Tally
without i [] = []
without i ((j, v) ∷ r) = if j == i then r else (j, v) ∷ without i r

lookup-without :
    (i j : ℕ) (r : Tally) → IsMap r → lookup (without i r) j ≡ (if i == j then none else lookup r j)
unfolding lookup without
lookup-without i j [] h = ground arith
lookup-without i j ((k, v) ∷ r) h = ground (arith, lookup-without i j r h.1, clash)
  where
    clash : k ≡ j → lookup r j ≡ none
    clash e = ap (lookup r) (sym e) ∙ h.0

without-IsMap : (i : ℕ) (r : Tally) → IsMap r → IsMap (without i r)
unfolding without
without-IsMap i [] h = tt
without-IsMap i ((k, v) ∷ r) h = elim (Bool-cases (k == i)) [
  | inl same ↦ rw same h.1
  | inr other ↦ rw other (ground (arith, lookup-without i k r h.1), without-IsMap i r h.1)
]

pull : (i v : ℕ) (r : Tally) → lookup r i ≡ some v → Perm r ((i, v) ∷ without i r)
unfolding without
pull i v [] e = absurd (unfold lookup in cc)
pull i v ((k, w) ∷ r) e = elim (Bool-cases (k == i)) [
  | inl same ↦ rw same (Perm.cons' (unfold lookup in ground arith) (Perm.refl r))
  | inr other ↦ rw other (
      Perm.trans (Perm.cons (k, w) (pull i v r (unfold lookup in ground arith)))
        (Perm.swap (i, v) (k, w) (without i r)))
]

none-eq-nil : (s : Tally) → ((i : ℕ) → none ≡ lookup s i) → s ≡ []
unfolding lookup
none-eq-nil [] h = refl
none-eq-nil ((i, v) ∷ s) h = absurd (ground (arith, h i))

-- Two tallies with the same entries hold the same pairs, in some order.
pub lookup-perm : (r s : Tally) → IsMap r → IsMap s → ((i : ℕ) → lookup r i ≡ lookup s i) → Perm r s
lookup-perm [] s hr hs same = rw (none-eq-nil s (unfold lookup in same)) (Perm.refl [])
lookup-perm ((i, v) ∷ r) s hr hs same =
    Perm.trans (Perm.cons (i, v) (lookup-perm r (without i s) hr.1 (without-IsMap i s hs) rest))
      (Perm.symm (pull i v s (sym (same i) ∙ unfold lookup in ground arith)))
  where
    rest : (j : ℕ) → lookup r j ≡ lookup (without i s) j
    rest j =
        unfold lookup in
        ground (arith, lookup-without i j s hs, same j, hr.0, λ (e : i ≡ j). ap (lookup r) e)
