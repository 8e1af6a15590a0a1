-- ===== src/Matcher.antt =====
-- src/milter/matcher.cpp, include/matcher.h: the fuzzy matcher. The virtual method `slice` is the
-- parameter of the section. `std::unordered_map` is an association list; its iteration order and
-- the order of equal scores in `std::sort` are not specified by the language, and no theorem below
-- rests on them. `text` pointers are contents.
pub mod Bags
pub mod Exact
pub mod Ordered
pub mod Overlap
pub mod Postings
pub mod Results
pub mod Tallies
use undervest.Prelude.{
  ℕ, ◌+◌, ◌*◌, ◌%◌, Bool, true, false, Option, none, some, List, [], ◌∷◌, ◌++◌, ltb, ◌==◌,
  if◌then◌else◌, Bytes, length, get_elem?,
}
use undervest.Substring.{less, equal}
use undervest.Scaled.{of_ulong, div_assign, narrow}

-- `unsigned int` and `unsigned short`.
abbrev pub u32 : ℕ → ℕ
u32 x = x % 4294967296

abbrev pub u16 : ℕ → ℕ
u16 x = x % 65536

pub record TargetSlice : Type 0 where
  pub index : ℕ
  pub count : ℕ

pub record Target : Type 0 where
  pub text : Bytes
  pub count : ℕ

pub record MatchResult : Type 0 where
  pub text : Bytes
  pub score : ℕ

abbrev pub Index : Type 0
Index = List (Bytes × List TargetSlice)

pub record Matcher : Type 0 where
  pub index : Index
  pub targets : List Target

abbrev pub empty : Matcher
empty = record { index = []; targets = [] }

-- `if (!s.size()) s.emplace_back(str.data(), 0)`
unfoldable pub or_empty : List Bytes → List Bytes
or_empty [] = [] ∷ []
or_empty (x ∷ xs) = x ∷ xs

-- One more occurrence for target `n`: a new last entry, or one more on the last one.
unfoldable pub bump : ℕ → List TargetSlice → List TargetSlice
bump n [] = record { index = u32 n; count = 1 } ∷ []
bump n (e ∷ []) =
    if e.index == n
    then record e { count = u32 (e.count + 1) } ∷ []
    else e ∷ record { index = u32 n; count = 1 } ∷ []
bump n (e ∷ e' ∷ p) = e ∷ bump n (e' ∷ p)

-- `um_emplace(index, *i, {})` and the update behind it.
unfoldable pub add_slice : ℕ → Bytes → Index → Index
add_slice n x [] = (x, bump n []) ∷ []
add_slice n x ((y, p) ∷ idx) = if equal y x then (y, bump n p) ∷ idx else (y, p) ∷ add_slice n x idx

unfoldable pub add_slices : ℕ → List Bytes → Index → Index
add_slices n [] idx = idx
add_slices n (x ∷ xs) idx = add_slices n xs (add_slice n x idx)

unfoldable pub find : Bytes → Index → Option (List TargetSlice)
find x [] = none
find x ((y, p) ∷ idx) = if equal y x then some p else find x idx

-- `std::sort(s.begin(), s.end())`
unfoldable pub insert : Bytes → List Bytes → List Bytes
insert x [] = x ∷ []
insert x (y ∷ ys) = if less y x then y ∷ insert x ys else x ∷ y ∷ ys

unfoldable pub sort : List Bytes → List Bytes
sort [] = []
sort (x ∷ xs) = insert x (sort xs)

-- The map `r` from target indices to common slice counts.
abbrev pub Tally : Type 0
Tally = List (ℕ × ℕ)

-- `um_emplace(r, i, 0)` and `*l += c`
unfoldable pub add_at : ℕ → ℕ → Tally → Tally
add_at i c [] = (i, u32 c) ∷ []
add_at i c ((j, v) ∷ r) = if j == i then (j, u32 (v + c)) ∷ r else (j, v) ∷ add_at i c r

unfoldable pub add_common : ℕ → List TargetSlice → Tally → Tally
add_common n [] r = r
add_common n (k ∷ ks) r = add_common n ks (add_at k.index (if ltb n k.count then n else k.count) r)

-- A run of `n` slices `x` ends.
unfoldable pub flush : Index → Bytes → ℕ → Tally → Tally
flush idx x n r = elim (find x idx) [ none ↦ r | some ks ↦ add_common (u32 n) ks r ]

-- The loop over the sorted slices and the flush behind it: `x` is `*j` and `n` is `i - j`.
unfoldable pub runs : Index → Bytes → ℕ → List Bytes → Tally → Tally
runs idx x n [] r = flush idx x n r
runs idx x n (y ∷ ys) r = elim (less x y) [
  | true ↦ runs idx y 1 ys (flush idx x n r)
  | false ↦ runs idx x (n + 1) ys r
]

-- The first slice is `*j`; the list is never empty there.
unfoldable pub tally : Index → List Bytes → Tally
tally idx [] = []
tally idx (x ∷ xs) = runs idx x 1 xs []

-- The score of `c` common slices among `n` and `m`, as a `scaled<unsigned short, 65535>`.
unfoldable pub score : ℕ → ℕ → ℕ → ℕ
score c n m = narrow (div_assign (of_ulong (u32 (2 * c))) (n + m))

-- `none` is a read of `targets` out of range.
unfoldable pub collect : List Target → ℕ → Tally → Option (List MatchResult)
collect targets m [] = some []
collect targets m ((i, c) ∷ r) = elim (get_elem? targets i) [
  | none ↦ none
  | some t ↦ elim (collect targets m r) [
    | none ↦ none
    | some rs ↦ some (record { text = t.text; score = score c t.count m } ∷ rs)
  ]
]

-- `sort(results.rbegin(), results.rend())`: descending scores.
unfoldable pub insert_result : MatchResult → List MatchResult → List MatchResult
insert_result x [] = x ∷ []
insert_result x (y ∷ ys) = if ltb x.score y.score then y ∷ insert_result x ys else x ∷ y ∷ ys

unfoldable pub sort_results : List MatchResult → List MatchResult
sort_results [] = []
sort_results (x ∷ xs) = insert_result x (sort_results xs)

module _ (slice : Bytes → Bool → List Bytes) where
  unfoldable pub add : Matcher → Bytes → Matcher
  add m str =
      let s = or_empty (slice str true) in
      record {
        index = add_slices (length m.targets) s m.index;
        targets = m.targets ++ record { text = str; count = u16 (length s) } ∷ [];
      }

  unfoldable pub match : Matcher → Bytes → Option (List MatchResult)
  match m str =
      let s = sort (or_empty (slice str false)) in
      elim (collect m.targets (length s) (tally m.index s)) [
        | none ↦ none
        | some rs ↦ some (sort_results rs)
      ]
