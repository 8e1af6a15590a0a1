-- ===== src/Substring/Places.antt =====
-- The searches of include/substring.h find the first and the last place of a text.
use mathlib.Core.Path.{subst}
use undervest.Prelude.{
  ℕ, zero, suc, ◌+◌, ◌-◌, ◌≤◌, ◌<◌, ◌≡◌, inl, inr, refl, sym, ◌∙◌, Bool, true, false, ◌&&◌, ◌||◌,
  Option, none, some, [], ◌∷◌, ltb, ◌==◌, if◌then◌else◌, Bytes, length, drop, arith, Bool-cases,
  ==_iff,
}
use undervest.Stringlib.{next, mem}
use undervest.Substring.{traits_compare}
use undervest.Substring.Search.{
  char_at, same, search, find, search_back, rfind, returned, running, first_loop, find_first_of,
  find_first_not_of, last_loop, find_last_of, find_last_not_of,
}

-- The text `t` stands at the place `i` of `s`.
abbrev pub Occurs : Bytes → Bytes → ℕ → Type 0
Occurs [] s i = i ≤ length s
Occurs (x ∷ t) [] i = ⊥
Occurs (x ∷ t) (c ∷ s) zero = (x ≡ c) × Occurs t s 0
Occurs (x ∷ t) (c ∷ s) (suc i) = Occurs (x ∷ t) s i

same-true : (t s : Bytes) → length t ≤ length s → same t s ≡ true → Occurs t s 0
unfolding same traits_compare
same-true [] s l h = omega arith
same-true (x ∷ t) [] l h = absurd (omega arith)
same-true (x ∷ t) (c ∷ s) l h = ground (arith, same-true t s)

same-Occurs : (t s : Bytes) → Occurs t s 0 → same t s ≡ true
unfolding same traits_compare
same-Occurs [] s h = refl
same-Occurs (x ∷ t) [] h = absurd h
same-Occurs (x ∷ t) (c ∷ s) h = ground (arith, same-Occurs t s)

Occurs-length : (t s : Bytes) (i : ℕ) → Occurs t s i → i + length t ≤ length s
Occurs-length [] s i h = omega arith
Occurs-length (x ∷ t) [] i h = absurd h
Occurs-length (x ∷ t) (c ∷ s) zero h = omega (arith, Occurs-length t s 0 h.1)
Occurs-length (x ∷ t) (c ∷ s) (suc i) h = omega (arith, Occurs-length (x ∷ t) s i h)

-- What a search over the places below `k` may give.
abbrev pub IsFirst : ℕ → Bytes → Bytes → Option ℕ → Type 0
IsFirst k t s none = (j : ℕ) → j < k → Occurs t s j → ⊥
IsFirst k t s (some i) = Occurs t s i × ((j : ℕ) → j < i → Occurs t s j → ⊥)

abbrev pub IsLast : Bytes → Bytes → Option ℕ → Type 0
IsLast t s none = (j : ℕ) → Occurs t s j → ⊥
IsLast t s (some i) = Occurs t s i × ((j : ℕ) → i < j → Occurs t s j → ⊥)

IsFirst-next :
    (k x : ℕ) (t : Bytes) (c : ℕ) (s : Bytes) (o : Option ℕ)
    → (Occurs (x ∷ t) (c ∷ s) 0 → ⊥)
    → IsFirst k (x ∷ t) s o
    → IsFirst (suc k) (x ∷ t) (c ∷ s) (next o)
IsFirst-next k x t c s none n h = go
  where
    go : (j : ℕ) → j < suc k → Occurs (x ∷ t) (c ∷ s) j → ⊥
    go zero l o = n o
    go (suc j) l o = h j (omega arith) o
IsFirst-next k x t c s (some i) n h = (h.0, go)
  where
    go : (j : ℕ) → j < suc i → Occurs (x ∷ t) (c ∷ s) j → ⊥
    go zero l o = n o
    go (suc j) l o = h.1 j (omega arith) o

right_true : (a b : Bool) → a && b ≡ true → b ≡ true
right_true true b h = h
right_true false b h = absurd cc

not_here :
    (x : ℕ) (t : Bytes) (c : ℕ) (s : Bytes)
    → (c == x) && same (x ∷ t) (c ∷ s) ≡ false
    → Occurs (x ∷ t) (c ∷ s) 0
    → ⊥
not_here x t c s e o =
    let a : (c == x) ≡ true = (==_iff c x).1 (sym o.0) in
    let b : same (x ∷ t) (c ∷ s) ≡ true = same-Occurs (x ∷ t) (c ∷ s) o in
    go (c == x) (same (x ∷ t) (c ∷ s)) a b e
  where
    go : (p q : Bool) → p ≡ true → q ≡ true → p && q ≡ false → ⊥
    go true true a b e = absurd cc
    go false q a b e = absurd cc
    go true false a b e = absurd cc

search-IsFirst :
    (k x : ℕ) (t s : Bytes)
    → k + length (x ∷ t) ≤ suc (length s)
    → IsFirst k (x ∷ t) s (search k (x ∷ t) s)
unfolding search char_at
search-IsFirst zero x t s l = λ j p o. absurd (omega arith)
search-IsFirst (suc k) x t [] l = absurd (omega arith)
search-IsFirst (suc k) x t (c ∷ s) l = elim (Bool-cases ((c == x) && same (x ∷ t) (c ∷ s))) [
  | inl e ↦ rw e (
    same-true (x ∷ t) (c ∷ s) (omega arith) (right_true (c == x) (same (x ∷ t) (c ∷ s)) e),
    λ j p o. absurd (omega arith),
  )
  | inr e ↦ rw e (
      IsFirst-next k x t c s (search k (x ∷ t) s) (not_here x t c s e)
        (search-IsFirst k x t s (omega arith)))
]

Occurs-drop :
    (t s : Bytes) (k : ℕ)
    → k ≤ length s
    → (Occurs t (drop k s) 0 → Occurs t s k) × (Occurs t s k → Occurs t (drop k s) 0)
Occurs-drop t s zero l = (λ o. o, λ o. o)
Occurs-drop [] s (suc k) l = (λ o. l, λ o. omega arith)
Occurs-drop (x ∷ t) [] (suc k) l = absurd (omega arith)
Occurs-drop (x ∷ t) (c ∷ s) (suc k) l = Occurs-drop (x ∷ t) s k (omega arith)

length-drop : (k : ℕ) (s : Bytes) → length (drop k s) ≡ length s - k
length-drop zero s = omega arith
length-drop (suc k) [] = omega arith
length-drop (suc k) (c ∷ s) = omega (arith, length-drop k s)

-- What a search from the place `k` down may give.
abbrev IsLastTo : ℕ → Bytes → Bytes → Option ℕ → Type 0
IsLastTo k t s none = (j : ℕ) → j ≤ k → Occurs t s j → ⊥
IsLastTo k t s (some i) = Occurs t s i × ((j : ℕ) → i < j → j ≤ k → Occurs t s j → ⊥)

-- a place up to `suc k` is `suc k` or a place up to `k`
split_to :
    (k : ℕ) (t s : Bytes)
    → (Occurs t s (suc k) → ⊥)
    → (j : ℕ) → j ≤ suc k
    → Occurs t s j
    → (j ≤ k → ⊥)
    → ⊥
split_to k t s n j l o m = n (subst (Occurs t s) e o)
  where
    e : j ≡ suc k
    e = ground arith

IsLastTo-more :
    (k : ℕ) (t s : Bytes) (o : Option ℕ)
    → (Occurs t s (suc k) → ⊥)
    → IsLastTo k t s o
    → IsLastTo (suc k) t s o
IsLastTo-more k t s none n h = λ j l o. split_to k t s n j l o (λ m. h j m o)
IsLastTo-more k t s (some i) n h = (h.0, λ j q l o. split_to k t s n j l o (λ m. h.1 j q m o))

not_first : (t s : Bytes) → same t s ≡ false → Occurs t s 0 → ⊥
not_first t s e o = let b : same t s ≡ true = same-Occurs t s o in absurd cc

search_back-IsLast :
    (k : ℕ) (t s : Bytes) → k + length t ≤ length s → IsLastTo k t s (search_back k t s)
unfolding search_back
search_back-IsLast zero t s l = elim (Bool-cases (same t s)) [
  | inl e ↦ rw e (same-true t s (omega arith) e, λ j p q o. absurd (omega arith))
  | inr e ↦ rw e (λ j q o. not_first t s e (subst (Occurs t s) {y = 0} (omega arith) o))
]
search_back-IsLast (suc k) t s l = elim (Bool-cases (same t (drop (suc k) s))) [
  | inl e ↦ rw e (
    (Occurs-drop t s (suc k) (omega arith)).0
        (same-true t (drop (suc k) s) (omega (arith, length-drop (suc k) s)) e),
    λ j p q o. absurd (omega arith),
  )
  | inr e ↦ rw e (
      IsLastTo-more k t s (search_back k t s)
        (λ o.
          let b : same t (drop (suc k) s) ≡ true =
            same-Occurs t (drop (suc k) s) ((Occurs-drop t s (suc k) (omega arith)).1 o) in
          absurd cc)
        (search_back-IsLast k t s (omega arith)))
]

IsFirst-every :
    (t s : Bytes) (o : Option ℕ)
    → length t ≤ length s
    → IsFirst (suc (length s - length t)) t s o
    → IsFirst (suc (length s)) t s o
IsFirst-every t s none l h = λ j q o. h j (omega (arith, Occurs-length t s j o)) o
IsFirst-every t s (some i) l h = h

IsLastTo-every :
    (t s : Bytes) (o : Option ℕ)
    → length t ≤ length s
    → IsLastTo (length s - length t) t s o
    → IsLast t s o
IsLastTo-every t s none l h = λ j o. h j (omega (arith, Occurs-length t s j o)) o
IsLastTo-every t s (some i) l h = (h.0, λ j q o. h.1 j q (omega (arith, Occurs-length t s j o)) o)

guarded : (n : ℕ) (b : Bool) → (suc n == 0) || b ≡ b
guarded n b = ground arith

-- Of a text that is not empty, `find` gives the first place and `rfind` the last place where it
-- stands, and each of them gives `npos` only if it stands nowhere.
pub find_exact :
    (s : Bytes) (x : ℕ) (t : Bytes)
    → IsFirst (suc (length s)) (x ∷ t) s (find s (x ∷ t)) × IsLast (x ∷ t) s (rfind s (x ∷ t))
unfolding find rfind
find_exact s x t = elim (Bool-cases (ltb (length s) (suc (length t)))) [
  | inl e ↦
      rw (guarded (length t) (ltb (length s) (suc (length t))) ∙ e) (too_short e, too_short_last e)
  | inr e ↦ rw (guarded (length t) (ltb (length s) (suc (length t))) ∙ e) (
    IsFirst-every (x ∷ t) s (search (suc (length s - suc (length t))) (x ∷ t) s) (fits e)
        (search-IsFirst (suc (length s - suc (length t))) x t s (let l = fits e in omega arith)),
    IsLastTo-every (x ∷ t) s (search_back (length s - suc (length t)) (x ∷ t) s) (fits e)
        (search_back-IsLast (length s - suc (length t)) (x ∷ t) s (let l = fits e in omega arith)),
  )
]
  where
    fits : ltb (length s) (suc (length t)) ≡ false → suc (length t) ≤ length s
    fits e = ground arith

    too_short_last : ltb (length s) (suc (length t)) ≡ true → (j : ℕ) → Occurs (x ∷ t) s j → ⊥
    too_short_last e j o = let l = Occurs-length (x ∷ t) s j o in ground arith

    too_short :
        ltb (length s) (suc (length t)) ≡ true
        → (j : ℕ) → j < suc (length s)
        → Occurs (x ∷ t) s j
        → ⊥
    too_short e j q o = too_short_last e j o

-- `find_first_of` and `find_first_not_of` do not move from their place: within the text, they
-- return it if its character is of the kind looked for, and run forever if it is not.
pub stays :
    (s set : Bytes) (place : ℕ)
    → place < length s
    → ((mem (char_at s place) set ≡ true
          → ((f : ℕ) → find_first_of (suc f) s set place ≡ returned (some place))
            × ((f : ℕ) → find_first_not_of f s set place ≡ running))
        × (mem (char_at s place) set ≡ false
            → ((f : ℕ) → find_first_of f s set place ≡ running)
              × ((f : ℕ) → find_first_not_of (suc f) s set place ≡ returned (some place))))
unfolding find_first_of find_first_not_of first_loop
stays s set place l = (
  λ h. (λ f. rw inside (rw h refl), λ f. runs_not h f),
  λ h. (λ f. runs h f, λ f. rw inside (rw h refl)),
)
  where
    inside : ltb place (length s) ≡ true
    inside = ground arith

    runs : mem (char_at s place) set ≡ false → (f : ℕ) → first_loop f true s set place ≡ running
    runs h zero = refl
    runs h (suc f) = rw inside (rw h (runs h f))

    runs_not : mem (char_at s place) set ≡ true → (f : ℕ) → first_loop f false s set place ≡ running
    runs_not h zero = refl
    runs_not h (suc f) = rw inside (rw h (runs_not h f))

last_below :
    (p : ℕ) (wanted : Bool) (s set : Bytes) (place : ℕ)
    → p ≤ place
    → last_loop p wanted s set place ≡ none
unfolding last_loop
last_below zero wanted s set place l = refl
last_below (suc p) wanted s set place l = rw outside refl
  where
    outside : ltb place (suc p) ≡ false
    outside = ground arith

-- `find_last_of` and `find_last_not_of` find nothing.
last_none :
    (s set : Bytes) (place : ℕ)
    → (find_last_of s set place ≡ none) × (find_last_not_of s set place ≡ none)
unfolding find_last_of find_last_not_of
last_none s set place =
    (last_below (start) true s set place below, last_below start false s set place below)
  where
    start : ℕ
    start = if ltb (length s) place then length s else place

    below : start ≤ place
    below = ground arith
