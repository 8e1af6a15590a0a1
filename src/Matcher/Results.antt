-- ===== src/Matcher/Results.antt =====
-- The results of `match`: all candidates, best scores first.
use mathlib.Core.List.{Perm, filter_map}
use mathlib.Core.List.Perm
use undervest.Prelude.{
  ℕ, suc, ◌+◌, ◌≤◌, ◌<◌, ◌≡◌, refl, inl, inr, sym, ap, ◌∙◌, Bool, some, List, [], ◌∷◌, ◌++◌, map,
  ltb, Bytes, arith, Bool-cases, length, All, append_assoc, append-nil, length-append,
}
use undervest.Matcher.{
  Matcher, MatchResult, empty, sort, tally, Tally, find, collect, add_slices, insert_result,
  sort_results, add, match,
}
use undervest.Matcher.Overlap.{length-sort}
use undervest.Matcher.Postings.{postings, posted, Indexes, add_slices-Indexes}
use undervest.Matcher.Tallies.{lookup}
use undervest.Matcher.Bags.{tally-IsMap}
use undervest.Matcher.Ordered.{ordered, tally-perm, lookup-tally, lookup-ordered_range}
use undervest.Matcher.Exact.{
  indexed, tested, candidates, add_all, target_of, AreShort, pick, collect-filter_map,
  filter_map-ordered,
}

-- Scores do not rise along the list.
abbrev pub IsDescending : List MatchResult → Type 0
IsDescending [] = Unit {0}
IsDescending (x ∷ xs) = All (λ y. y.score ≤ x.score) xs × IsDescending xs

insert_result-All :
    (P : MatchResult → Type 0) (x : MatchResult) (xs : List MatchResult)
    → P x
    → All P xs
    → All P (insert_result x xs)
unfolding insert_result
insert_result-All P x [] p h = (p, tt)
insert_result-All P x (y ∷ ys) p h = elim (Bool-cases (ltb x.score y.score)) [
  | inl e ↦ rw e (h.0, insert_result-All P x ys p h.1)
  | inr e ↦ rw e (p, h)
]

All-le_trans :
    (a b : ℕ) (xs : List MatchResult)
    → b ≤ a
    → All (λ y. y.score ≤ b) xs
    → All (λ y. y.score ≤ a) xs
All-le_trans a b [] h p = tt
All-le_trans a b (x ∷ xs) h p = (omega arith, All-le_trans a b xs h p.1)

insert_result-IsDescending :
    (x : MatchResult) (xs : List MatchResult) → IsDescending xs → IsDescending (insert_result x xs)
unfolding insert_result
insert_result-IsDescending x [] h = (tt, tt)
insert_result-IsDescending x (y ∷ ys) h = elim (Bool-cases (ltb x.score y.score)) [
  | inl e ↦ rw e (
    insert_result-All (λ z. z.score ≤ y.score) x ys (ground arith) h.0,
    insert_result-IsDescending x ys h.1,
  )
  | inr e ↦ rw e ((ground arith, All-le_trans x.score y.score ys (ground arith) h.0), h)
]

pub sort_results-IsDescending : (xs : List MatchResult) → IsDescending (sort_results xs)
unfolding sort_results
sort_results-IsDescending [] = tt
sort_results-IsDescending (x ∷ xs) =
    insert_result-IsDescending x (sort_results xs) (sort_results-IsDescending xs)

insert_result-perm : (x : MatchResult) (xs : List MatchResult) → Perm (insert_result x xs) (x ∷ xs)
unfolding insert_result
insert_result-perm x [] = Perm.refl (x ∷ [])
insert_result-perm x (y ∷ ys) = elim (Bool-cases (ltb x.score y.score)) [
  | inl e ↦ rw e (Perm.trans (Perm.cons y (insert_result-perm x ys)) (Perm.swap x y ys))
  | inr e ↦ rw e (Perm.refl (x ∷ y ∷ ys))
]

pub sort_results-perm : (xs : List MatchResult) → Perm (sort_results xs) xs
unfolding sort_results
sort_results-perm [] = Perm.refl []
sort_results-perm (x ∷ xs) =
    Perm.trans (insert_result-perm x (sort_results xs)) (Perm.cons x (sort_results-perm xs))

module _ (slice : Bytes → Bool → List Bytes) where
  -- What a matcher holds after the texts `ts` were added.
  record Holds (m : Matcher) (ts : List Bytes) : Type 0 where
    targets : m.targets ≡ map (target_of slice) ts
    index : Indexes m.index (map (indexed slice) ts)

  length-map : {A : Type 0} (f : Bytes → A) (xs : List Bytes) → length (map f xs) ≡ length xs
  length-map f [] = refl
  length-map f (x ∷ xs) = ap suc (length-map f xs)

  map-snoc :
      {A : Type 0} (f : Bytes → A) (xs : List Bytes) (x : Bytes)
      → map f (xs ++ x ∷ []) ≡ map f xs ++ f x ∷ []
  map-snoc f [] x = refl
  map-snoc f (y ∷ xs) x = ap (◌∷◌ (f y)) (map-snoc f xs x)

  add-Holds :
      (m : Matcher) (ts : List Bytes) (t : Bytes)
      → length ts < 4294967296
      → length (indexed slice t) < 65536
      → Holds m ts
      → Holds (add slice m t) (ts ++ t ∷ [])
  unfolding add
  add-Holds m ts t fits short h = record {
    targets =
        ap (λ us. us ++ target_of slice t ∷ []) h.targets ∙ sym (map-snoc (target_of slice) ts t);
    index = λ x.
        ap (λ (n : ℕ). postings (add_slices n (indexed slice t) m.index) x) same_length
        ∙ add_slices-Indexes m.index (map (indexed slice) ts) (indexed slice t)
            (omega (arith, length-map (indexed slice) ts)) (omega arith) h.index x
        ∙ ap (λ ss. posted 0 ss x) (sym (map-snoc (indexed slice) ts t));
  }
    where
      same_length : length m.targets ≡ length (map (indexed slice) ts)
      same_length =
          ap length h.targets
          ∙ length-map (target_of slice) ts
          ∙ sym (length-map (indexed slice) ts)

  add_all-Holds :
      (m : Matcher) (us ts : List Bytes)
      → length us + length ts < 4294967296
      → AreShort slice ts
      → Holds m us
      → Holds (add_all slice m ts) (us ++ ts)
  unfolding add_all
  add_all-Holds m us [] fits short h = rw append-nil h
  add_all-Holds m us (t ∷ ts) fits short h = rw (append_assoc us (t ∷ []) ts) at (
      add_all-Holds (add slice m t) (us ++ t ∷ []) ts (omega (arith, length-append us (t ∷ [])))
        short.1 (add-Holds m us t (omega arith) short.0 h))

  empty-Holds : Holds empty []
  empty-Holds = record { targets = refl; index = λ x. unfold postings posted find in refl }

  -- For every list of short texts, fewer than 2 ^ 32, and every text with fewer than 2 ^ 32
  -- slices, matching ends without a read out of range, and its results are the candidates in some
  -- order, scores descending.
  pub match_exact :
      (ts : List Bytes) (q : Bytes)
      → length ts < 4294967296
      → AreShort slice ts
      → length (tested slice q) < 4294967296
      → (rs : List MatchResult) × (match slice (add_all slice empty ts) q ≡ some rs)
        × Perm rs (candidates slice ts q)
        × IsDescending rs
  unfolding match
  match_exact ts q fits short small = (
    sort_results rs,
    rw (collected, match),
    Perm.trans (sort_results-perm rs) (rw (← all) (Perm.filter_map (pick m.targets k) same_map)),
    sort_results-IsDescending rs,
  )
    where
      m : Matcher
      m = add_all slice empty ts

      held : Holds m ts
      held = add_all-Holds empty [] ts (omega arith) short empty-Holds

      k : ℕ
      k = length (tested slice q)

      r : Tally
      r = tally m.index (sort (tested slice q))

      rs : List MatchResult
      rs = filter_map (pick m.targets k) r

      same_map : Perm r (ordered 0 (tested slice q) (map (indexed slice) ts))
      same_map = tally-perm m.index (map (indexed slice) ts) (tested slice q) held.index small

      all :
          filter_map (pick m.targets k) (ordered 0 (tested slice q) (map (indexed slice) ts))
          ≡ candidates slice ts q
      all = filter_map-ordered slice [] ts q m.targets 0 held.targets refl short

      in_range : (i v : ℕ) → lookup r i ≡ some v → i < length m.targets
      in_range i v e = omega (
        arith,
        lookup-ordered_range 0 i v (tested slice q) (map (indexed slice) ts) (
            sym (lookup-tally m.index (map (indexed slice) ts) (tested slice q) i held.index small)
            ∙ e),
        ap length held.targets,
        length-map (indexed slice) ts,
        length-map (target_of slice) ts,
      )

      collected : collect m.targets (length (sort (tested slice q))) r ≡ some rs
      collected =
          rw (length-sort (tested slice q)) (
            collect-filter_map m.targets k r (tally-IsMap m.index (sort (tested slice q))) in_range)
