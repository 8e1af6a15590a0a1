-- ===== src/Daemon/Reopened.antt =====
-- Which descriptors `close_all` leaves open.
use undervest.Prelude.{
  ℕ, zero, suc, ◌≤◌, ◌<◌, ◌≡◌, ◌≢◌, refl, ap, ◌∙◌, Bool, true, false, not, ◌&&◌, ◌||◌, Option, none,
  some, ltb, leb, ◌==◌, if◌then◌else◌, arith, min, inl, inr, Bool-cases, ==_iff,
}
use undervest.Daemon.{Daemon}
use undervest.Daemon.Descriptors.{
  Table, close_high, close_low, open_nulls, close_all, Allocated, IsTable,
}

module _ {K : Type 0} (t : Table K) (last : ℕ) (v : IsTable t last) where
  open_high :
      (n m : ℕ) (k : K)
      → t.is_open (close_high t n k) m ≡ (not (ltb 2 m && leb m n) && t.is_open k m)
  unfolding close_high
  open_high zero m k = ground arith
  open_high (suc n) m k = ground (arith, open_high n m (t.close (suc n) k), v.closes (suc n) m k)

  open_low : (n m : ℕ) (k : K) → t.is_open (close_low t n k) m ≡ (leb n m && t.is_open k m)
  unfolding close_low
  open_low zero m k = ground arith
  open_low (suc n) m k = ground (arith, open_low n m (t.close n k), v.closes n m k)

  -- the descriptor that a call gives
  lowest :
      (k : K) (r : Option ℕ × K) (j : ℕ)
      → Allocated t k r
      → r.0 ≢ none
      → t.is_open k j ≡ false
      → ((m : ℕ) → m < j → t.is_open k m ≡ true)
      → (r.0 ≡ some j) × ((m : ℕ) → t.is_open r.1 m ≡ (m == j || t.is_open k m))
  lowest k (none, l) j a s f b = absurd (s refl)
  lowest k (some n, l) j a s f b =
      (ap some same, λ m. a.2 m ∙ ap (λ (i : ℕ). m == i || t.is_open k m) same)
    where
      below : n < j → ⊥
      below h = let e = b n h in let g = a.0 in cc

      above : j < n → ⊥
      above h = let e = a.1 j h in cc

      same : n ≡ j
      same = elim (Bool-cases (ltb n j)) [
        | inl e ↦ absurd (below (ground arith))
        | inr e ↦ elim (Bool-cases (ltb j n)) [
          | inl g ↦ absurd (above (ground arith))
          | inr g ↦ ground arith
        ]
      ]

  -- a round of the loop that opens the next descriptor, of those up to the standard error
  next_null :
      (r : Option ℕ × K) (f j : ℕ)
      → j < 2
      → r.0 ≡ some j
      → open_nulls t (suc f) r ≡ open_nulls t f (t.dup j r.1)
  unfolding open_nulls
  next_null (none, l) f j b e = absurd cc
  next_null (some n, l) f j b e =
      let q : n ≡ j = cc in
      let g : leb 2 n ≡ false = ground arith in rw g (ap (λ (i : ℕ). open_nulls t f (t.dup i l)) q)

  -- the last round
  last_null :
      (r : Option ℕ × K) (f j : ℕ)
      → 2 ≤ j
      → r.0 ≡ some j
      → open_nulls t (suc f) r ≡ some (if ltb 2 j then t.close j r.1 else r.1)
  unfolding open_nulls
  last_null (none, l) f j b e = absurd cc
  last_null (some n, l) f j b e =
      let q : n ≡ j = cc in
      let g : leb 2 n ≡ true = ground arith in
      rw g (ap (λ (i : ℕ). some (if ltb 2 i then t.close i l else l)) q)

  -- the last round, with the standard error open or not
  third_null :
      (k : K) (r : Option ℕ × K) (j : ℕ) (b : Bool)
      → 3 ≤ last
      → (r.0 ≡ some j) × ((m : ℕ) → t.is_open r.1 m ≡ (m == j || t.is_open k m))
      → j ≡ (if b then 3 else 2)
      → ((m : ℕ) → m ≤ last → t.is_open k m ≡ (ltb m 2 || (m == 2 && b)))
      → (l : K) × (open_nulls t 1 r ≡ some l) × ((m : ℕ) → m ≤ last → t.is_open l m ≡ ltb m 3)
  third_null k r j b big a e s = (
    if ltb 2 j then t.close j r.1 else r.1,
    last_null r 0 j (ground arith) a.0,
    λ m h. ground (arith, a.1 m, s m h, v.closes j m r.1),
  )

  -- which descriptor the third round gives
  third_fd :
      (l : K) (b : Bool)
      → 3 ≤ last
      → ((m : ℕ) → m ≤ last → t.is_open l m ≡ (ltb m 2 || (m == 2 && b)))
      → ((t.dup 1 l).0 ≡ some (if b then 3 else 2))
        × ((m : ℕ) → t.is_open (t.dup 1 l).1 m ≡ (m == (if b then 3 else 2) || t.is_open l m))
  third_fd l true big e =
      lowest l (t.dup 1 l) 3 (v.dups 1 l) (v.dup_some 3 1 l big (e 3 big) (e 1 (omega arith)))
        (e 3 big) (λ m h. ground (arith, e m (omega arith)))
  third_fd l false big e =
      lowest l (t.dup 1 l) 2 (v.dups 1 l)
        (v.dup_some 2 1 l (omega arith) (e 2 (omega arith)) (e 1 (omega arith))) (e 2 (omega arith))
        (λ m h. ground (arith, e m (omega arith)))

  reopened :
      (k : K)
      → 3 ≤ last
      → ((m : ℕ) → m ≤ last → t.is_open k m ≡ (m == 2 && t.is_open k 2))
      → (l : K) × (open_nulls t 3 (t.open_null k) ≡ some l)
        × ((m : ℕ) → m ≤ last → t.is_open l m ≡ ltb m 3)
  reopened k big s =
      let e0 : t.is_open k 0 ≡ false = s 0 (omega arith) in
      let first =
        lowest k (t.open_null k) 0 (v.opens k) (v.open_some 0 k (omega arith) e0) e0
          (λ m h. absurd (omega arith)) in
      let e1 : t.is_open (t.open_null k).1 1 ≡ false = first.1 1 ∙ s 1 (omega arith) in
      let second =
        lowest (t.open_null k).1 (t.dup 0 (t.open_null k).1) 1 (v.dups 0 (t.open_null k).1)
          (v.dup_some 1 0 (t.open_null k).1 (omega arith) e1 (first.1 0)) e1
          (λ m h. ground (arith, first.1 m)) in
      let two : (m : ℕ)
          → m ≤ last
          → t.is_open (t.dup 0 (t.open_null k).1).1 m ≡ (ltb m 2 || (m == 2 && t.is_open k 2)) =
        λ m h. ground (arith, second.1 m, first.1 m, s m h) in
      let third = third_fd (t.dup 0 (t.open_null k).1).1 (t.is_open k 2) big two in
      let (l, e, w) =
        third_null (t.dup 0 (t.open_null k).1).1 (t.dup 1 (t.dup 0 (t.open_null k).1).1)
          (if t.is_open k 2 then 3 else 2) (t.is_open k 2) big third refl two in
      (
        l,
        next_null (t.open_null k) 2 0 (omega arith) first.0
            ∙ next_null (t.dup 0 (t.open_null k).1) 1 1 (omega arith) second.0
            ∙ e,
        w,
      )

  only_two :
      (k : K)
      → ((m : ℕ) → m ≤ last → (m == 2) ≡ false → t.is_open k m ≡ false)
      → (m : ℕ) → m ≤ last
      → t.is_open k m ≡ (m == 2 && t.is_open k 2)
  only_two k s m h = elim (Bool-cases (m == 2)) [
    | inl e ↦ rw e (ap (t.is_open k) ((==_iff m 2).0 e))
    | inr e ↦ rw e (s m h e)
  ]

  -- behind the loops that close
  all_closed :
      (k : K) (fd m : ℕ)
      → fd ≡ 2
      → ((i : ℕ) → i ≤ last → 2 < i → t.is_open k i ≡ false)
      → m ≤ last
      → (m == 2) ≡ false
      → t.is_open (close_low t fd k) m ≡ false
  all_closed k fd m e s h n = elim (Bool-cases (ltb 2 m)) [
    | inl g ↦ ground (arith, open_low fd m k, s m h (ground arith))
    | inr g ↦ ground (arith, open_low fd m k)
  ]

  high_closed : (k : K) (i : ℕ) → i ≤ last → 2 < i → t.is_open (close_high t last k) i ≡ false
  high_closed k i h b = ground (arith, open_high last i k)

  error_closed :
      (k : K) (fd i : ℕ) → i ≤ last → 2 < i → t.is_open (t.close fd (close_high t last k)) i ≡ false
  error_closed k fd i h b = ground (arith, high_closed k i h b, v.closes fd i (close_high t last k))

  keep_error :
      (b : Bool) (k : K) (fd : ℕ) (i : ℕ)
      → i ≤ last
      → 2 < i
      → t.is_open (if b then t.close fd (close_high t last k) else close_high t last k) i ≡ false
  keep_error true k fd i h b = error_closed k fd i h b
  keep_error false k fd i h b = high_closed k i h b

  -- Whatever is open before, and whether or not the standard error is kept, `close_all` ends with the
  -- descriptors 0, 1 and 2 open, and no other one of the table, where the table has four places or more
  -- and the calls of the system do what POSIX says.
  pub close_all_exact :
      (d : Daemon) (close_stderr : Bool) (k : K)
      → 3 ≤ last
      → (l : K) × (close_all t d last close_stderr k ≡ some l)
        × ((m : ℕ) → m ≤ last → t.is_open l m ≡ ltb m 3)
  unfolding close_all
  close_all_exact d close_stderr k big =
      let b = close_stderr && not d.log_to_stderr in
      let k2 = if b then t.close (min last 2) (close_high t last k) else close_high t last k in
      reopened (close_low t (min last 2) k2) big (
        only_two (close_low t (min last 2) k2) (λ m h n.
          all_closed k2 (min last 2) m (omega arith) (λ i g c. keep_error b k (min last 2) i g c) h
            n))
