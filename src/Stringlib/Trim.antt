-- ===== src/Stringlib/Trim.antt =====
-- What `trim` removes, and what it leaves alone.
use undervest.Prelude.{
  ℕ, ◌≡◌, inl, inr, refl, sym, ap, ◌∙◌, Bool, true, not, [], ◌∷◌, ◌++◌, append_assoc, if◌then◌else◌,
  Bytes, All, arith, Bool-cases,
}
use undervest.Stringlib.{mem, find_first_not_of, find_last_not_of, ltrim, rtrim, trim}

-- The first character, if there is one, is not in the set.
abbrev pub starts : Bytes → Bytes → Bool
starts set [] = true
starts set (c ∷ s) = not (mem c set)

-- The last character, if there is one, is not in the set.
abbrev pub ends : Bytes → Bytes → Bool
ends set [] = true
ends set (c ∷ []) = not (mem c set)
ends set (c ∷ d ∷ s) = ends set (d ∷ s)

abbrev pub AllIn : Bytes → Bytes → Type 0
AllIn set = All (λ c. mem c set ≡ true)

ltrim-cons :
    (c : ℕ) (s set : Bytes) → ltrim (c ∷ s) set ≡ (if mem c set then ltrim s set else c ∷ s)
unfolding ltrim find_first_not_of
ltrim-cons c s set = ground arith

abbrev keep_last : Bytes → ℕ → Bytes → Bytes
keep_last set c [] = if mem c set then [] else c ∷ []
keep_last set c (d ∷ r) = c ∷ d ∷ r

rtrim-cons : (c : ℕ) (s set : Bytes) → rtrim (c ∷ s) set ≡ keep_last set c (rtrim s set)
unfolding rtrim find_last_not_of
rtrim-cons c [] set = ground arith
rtrim-cons c (d ∷ s) set = ground arith

ltrim-split_cons :
    (c : ℕ) (s set : Bytes)
    → (a : Bytes) × (s ≡ a ++ ltrim s set) × AllIn set a × (starts set (ltrim s set) ≡ true)
    → (a : Bytes) × (c ∷ s ≡ a ++ ltrim (c ∷ s) set)
      × AllIn set a
      × (starts set (ltrim (c ∷ s) set) ≡ true)
ltrim-split_cons c s set (a, e, blank, start) = elim (Bool-cases (mem c set)) [
  | inl m ↦ (
    c ∷ a,
    rw (ltrim-cons c s set, m) (ap (◌∷◌ c) e),
    (m, blank),
    rw (ltrim-cons c s set, m) start,
  )
  | inr m ↦ ([], rw (ltrim-cons c s set, m) refl, tt, rw (ltrim-cons c s set, m) (rw m refl))
]

ltrim-split :
    (s set : Bytes)
    → (a : Bytes) × (s ≡ a ++ ltrim s set) × AllIn set a × (starts set (ltrim s set) ≡ true)
unfolding ltrim find_first_not_of
ltrim-split [] set = ([], refl, tt, refl)
ltrim-split (c ∷ s) set = ltrim-split_cons c s set (ltrim-split s set)

rtrim-split_cons :
    (c : ℕ) (s set r : Bytes)
    → r ≡ rtrim s set
    → (b : Bytes) × (s ≡ r ++ b) × AllIn set b × (ends set r ≡ true)
    → (b : Bytes) × (c ∷ s ≡ keep_last set c r ++ b)
      × AllIn set b
      × (ends set (keep_last set c r) ≡ true)
rtrim-split_cons c s set [] q (b, e, blank, end) = elim (Bool-cases (mem c set)) [
  | inl m ↦ (c ∷ b, rw m (ap (◌∷◌ c) e), (m, blank), rw m refl)
  | inr m ↦ (b, rw m (ap (◌∷◌ c) e), blank, rw m (rw m refl))
]
rtrim-split_cons c s set (d ∷ r) q (b, e, blank, end) = (b, ap (◌∷◌ c) e, blank, end)

rtrim-split :
    (s set : Bytes)
    → (b : Bytes) × (s ≡ rtrim s set ++ b) × AllIn set b × (ends set (rtrim s set) ≡ true)
unfolding rtrim find_last_not_of
rtrim-split [] set = ([], refl, tt, refl)
rtrim-split (c ∷ s) set =
    rw (rtrim-cons c s set) (rtrim-split_cons c s set (rtrim s set) refl (rtrim-split s set))

ends-suffix : (a t set : Bytes) → ends set (a ++ t) ≡ true → ends set t ≡ true
ends-suffix [] t set h = h
ends-suffix (c ∷ []) [] set h = refl
ends-suffix (c ∷ []) (d ∷ t) set h = h
ends-suffix (c ∷ c' ∷ a) t set h = ends-suffix (c' ∷ a) t set h

-- Every text is what `trim` leaves of it between two runs of characters of the set, and what is
-- left neither starts nor ends with one.
trim-split :
    (s set : Bytes)
    → (a b : Bytes) × (s ≡ a ++ (trim s set ++ b))
      × AllIn set a
      × AllIn set b
      × (starts set (trim s set) ≡ true)
      × (ends set (trim s set) ≡ true)
unfolding trim
trim-split s set =
    let (b, e, blank_b, end) = rtrim-split s set in
    let (a, f, blank_a, start) = ltrim-split (rtrim s set) set in
    (
      a,
      b,
      e ∙ ap (λ (t : Bytes). t ++ b) f ∙ append_assoc a (ltrim (rtrim s set) set) b,
      blank_a,
      blank_b,
      start,
      ends-suffix a (ltrim (rtrim s set) set) set (ap (ends set) (sym f) ∙ end),
    )

rtrim_fixed : (s set : Bytes) → ends set s ≡ true → rtrim s set ≡ s
unfolding rtrim find_last_not_of
rtrim_fixed [] set h = refl
rtrim_fixed (c ∷ []) set h = ground arith
rtrim_fixed (c ∷ d ∷ s) set h =
    rtrim-cons c (d ∷ s) set ∙ ap (keep_last set c) (rtrim_fixed (d ∷ s) set h)

ltrim_fixed : (s set : Bytes) → starts set s ≡ true → ltrim s set ≡ s
unfolding ltrim find_first_not_of
ltrim_fixed [] set h = refl
ltrim_fixed (c ∷ s) set h = ground arith

-- A text that neither starts nor ends with a character of the set stays.
pub trim_fixed : (s set : Bytes) → starts set s ≡ true → ends set s ≡ true → trim s set ≡ s
unfolding trim
trim_fixed s set h k = ap (λ (t : Bytes). ltrim t set) (rtrim_fixed s set k) ∙ ltrim_fixed s set h

-- Trimming twice is trimming once.
pub trim_idem : (s set : Bytes) → trim (trim s set) set ≡ trim s set
trim_idem s set =
    let (a, b, e, blank_a, blank_b, start, end) = trim-split s set in
    trim_fixed (trim s set) set start end
