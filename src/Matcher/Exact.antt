-- ===== src/Matcher/Exact.antt =====
-- `match` finds exactly the targets that share a slice with the tested text, with the documented
-- score: twice the common slices over the sum of both slice counts, scaled by 65535.
use mathlib.Core.List.{filter_map, filter_map-cons-some}
use undervest.Prelude.{
  ℕ, zero, suc, ◌+◌, ◌*◌, ◌/◌, ◌≤◌, ◌<◌, ◌≡◌, ◌↔◌, refl, sym, ap, ◌∙◌, Bool, true, false, Option,
  none, some, List, [], ◌∷◌, ◌++◌, map, Bytes, arith, length, All, get_elem?, append_assoc,
  length-append,
}
use undervest.Scaled.{of_ulong, div_assign, narrow}
use undervest.Matcher.{Matcher, Target, MatchResult, Tally, u32, u16, or_empty, score, collect, add}
use undervest.Matcher.Overlap.{overlap, overlap_comm, overlap-le-length}
use undervest.Matcher.Tallies.{lookup}
use undervest.Matcher.Ordered.{entry_of, ordered}
use undervest.Matcher.Bags.{IsMap}

-- The documented score, with no machine arithmetic.
unfoldable pub dice : ℕ → ℕ → ℕ → ℕ
dice c n m = 2 * c * 65535 / (n + m)

-- A text is a candidate if it has a slice in common.
abbrev pub candidate : Bytes → ℕ → ℕ → ℕ → List MatchResult → List MatchResult
candidate t n zero m rest = rest
candidate t n (suc c) m rest = record { text = t; score = dice (suc c) n m } ∷ rest

pub pick : List Target → ℕ → ℕ × ℕ → Option MatchResult
pick targets m e = elim (get_elem? targets e.0) [
  | none ↦ none
  | some t ↦ some (record { text = t.text; score = score e.1 t.count m })
]

get_elem?-below :
    (i : ℕ) (targets : List Target)
    → i < length targets
    → (t : Target) × (get_elem? targets i ≡ some t)
get_elem?-below i [] h = absurd (omega arith)
get_elem?-below zero (t ∷ targets) h = (t, refl)
get_elem?-below (suc i) (t ∷ targets) h = get_elem?-below i targets (omega arith)

-- no read of `targets` is out of range
pub collect-filter_map :
    (targets : List Target) (m : ℕ) (r : Tally)
    → IsMap r
    → ((i v : ℕ) → lookup r i ≡ some v → i < length targets)
    → collect targets m r ≡ some (filter_map (pick targets m) r)
unfolding collect
collect-filter_map targets m [] h below = unfold filter_map in refl
collect-filter_map targets m ((i, c) ∷ r) h below =
    let (t, found) = get_elem?-below i targets (below i c (unfold lookup in ground arith)) in
    rw (found, collect)
      (rw (
        collect-filter_map targets m r h.1 later,
        filter_map-cons-some (pick targets m) (i, c) r (picked t found),
      ))
  where
    later : (j v : ℕ) → lookup r j ≡ some v → j < length targets
    later j v e = below j v (unfold lookup in ground (arith, h.0, λ (p : i ≡ j). ap (lookup r) p))

    picked :
        (t : Target)
        → get_elem? targets i ≡ some t
        → pick targets m (i, c) ≡ some (record { text = t.text; score = score c t.count m })
    picked t found = unfold pick in rw (found, pick)

quotient-le : (a d : ℕ) → a ≤ d → 0 < d → a * 65535 / d ≤ 65535
quotient-le a d h pos = grind arith

le_of_quotient : (a d : ℕ) → 0 < d → a * 65535 / d ≡ 65535 → d ≤ a
le_of_quotient a d pos e = grind arith

quotient_self : (a d : ℕ) → a ≡ d → 0 < d → a * 65535 / d ≡ 65535
quotient_self a d e pos = rw e (grind arith)

score-dice : (c n m : ℕ) → c ≤ n → c ≤ m → 0 < m → n < 65536 → score c (u16 n) m ≡ dice c n m
unfolding score dice of_ulong div_assign narrow
score-dice c n m hn hm pos small =
    ground (arith, quotient-le (2 * c) (n + m) (omega arith) (omega arith))

-- The score is at most 65535, and 65535 only if all slices are common.
pub dice_bounds :
    (c n m : ℕ)
    → c ≤ n
    → c ≤ m
    → 0 < m
    → (dice c n m ≤ 65535) × ((dice c n m ≡ 65535) ↔ ((c ≡ n) × (c ≡ m)))
unfolding dice
dice_bounds c n m hn hm pos = (
  quotient-le (2 * c) (n + m) (omega arith) (omega arith),
  (
    λ e. let le = le_of_quotient (2 * c) (n + m) (omega arith) e in (omega arith, omega arith),
    λ h. quotient_self (2 * c) (n + m) (omega (arith, h.0, h.1)) (omega arith),
  ),
)

-- For c common slices, at most as many as the target has (less than 65536 of them) and as the tested
-- text has (at least one), the score computed in machine integers is 2 * c * 65535 / (n + m), at most
-- 65535, and 65535 only if all slices of both are common.
pub score_exact :
    (c n m : ℕ)
    → c ≤ n
    → c ≤ m
    → 0 < m
    → n < 65536
    → (score c (u16 n) m ≡ 2 * c * 65535 / (n + m))
      × (score c (u16 n) m ≤ 65535)
      × ((score c (u16 n) m ≡ 65535) ↔ ((c ≡ n) × (c ≡ m)))
unfolding dice
score_exact c n m hn hm pos small =
    let e : score c (u16 n) m ≡ dice c n m = score-dice c n m hn hm pos small in
    let b = dice_bounds c n m hn hm pos in
    (e, omega (arith, e, b.0), ((λ h. b.1.0 (sym e ∙ h)), (λ h. e ∙ b.1.1 h)))

get_elem?-append :
    (pre : List Target) (t : Target) (post : List Target)
    → get_elem? (pre ++ t ∷ post) (length pre) ≡ some t
get_elem?-append [] t post = refl
get_elem?-append (u ∷ pre) t post = get_elem?-append pre t post

module _ (slice : Bytes → Bool → List Bytes) where
  -- The slices of a target, and of a tested text.
  abbrev pub indexed : Bytes → List Bytes
  indexed t = or_empty (slice t true)

  abbrev pub tested : Bytes → List Bytes
  tested t = or_empty (slice t false)

  -- The targets that share a slice with `q`, each with its documented score.
  unfoldable pub candidates : List Bytes → Bytes → List MatchResult
  candidates [] q = []
  candidates (t ∷ ts) q =
      candidate t (length (indexed t)) (overlap (tested q) (indexed t)) (length (tested q))
        (candidates ts q)

  -- `add` for each text of a list.
  unfoldable pub add_all : Matcher → List Bytes → Matcher
  add_all m [] = m
  add_all m (t ∷ ts) = add_all (add slice m t) ts

  abbrev pub target_of : Bytes → Target
  target_of t = record { text = t; count = u16 (length (indexed t)) }

  -- Every text has less than 65536 slices, so its count fits an `unsigned short`.
  abbrev pub AreShort : List Bytes → Type 0
  AreShort = All (λ t. length (indexed t) < 65536)

  pick_entry :
      (targets : List Target) (t q : Bytes) (b m c : ℕ) (rest : Tally)
      → get_elem? targets b ≡ some (target_of t)
      → c ≤ length (indexed t)
      → c ≤ m
      → length (indexed t) < 65536
      → filter_map (pick targets m) (entry_of b c rest)
        ≡ candidate t (length (indexed t)) c m (filter_map (pick targets m) rest)
  pick_entry targets t q b m zero rest found hn hm small = refl
  pick_entry targets t q b m (suc c) rest found hn hm small =
      filter_map-cons-some (pick targets m) (b, u32 (suc c)) rest picked
    where
      fits : u32 (suc c) ≡ suc c
      fits = omega arith

      picked :
          pick targets m (b, u32 (suc c))
          ≡ some (record { text = t; score = dice (suc c) (length (indexed t)) m })
      picked =
          unfold pick in
          rw (found, pick)
            (rw (fits, score-dice (suc c) (length (indexed t)) m hn hm (omega arith) small))

  pub filter_map-ordered :
      (pre : List Target) (ts : List Bytes) (q : Bytes) (targets : List Target) (b : ℕ)
      → targets ≡ pre ++ map target_of ts
      → b ≡ length pre
      → AreShort ts
      → filter_map (pick targets (length (tested q))) (ordered b (tested q) (map indexed ts))
        ≡ candidates ts q
  unfolding ordered candidates
  filter_map-ordered pre [] q targets b split e short = unfold filter_map in refl
  filter_map-ordered pre (t ∷ ts) q targets b split e short =
      pick_entry targets t q b (length (tested q)) (overlap (tested q) (indexed t)) _
        (rw (split, e) (get_elem?-append pre (target_of t) (map target_of ts)))
        (omega
          (arith, overlap_comm (tested q) (indexed t), overlap-le-length (indexed t) (tested q)))
        (overlap-le-length (tested q) (indexed t)) short.0
      ∙ ap (candidate t (length (indexed t)) (overlap (tested q) (indexed t)) (length (tested q))) (
          filter_map-ordered (pre ++ target_of t ∷ []) ts q targets (b + 1)
            (split ∙ sym (append_assoc pre (target_of t ∷ []) (map target_of ts)))
            (omega (arith, length-append pre (target_of t ∷ []))) short.1)
