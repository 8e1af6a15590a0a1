-- ===== src/Uri/Skip.antt =====
-- A text that a set holds is passed to its end, whatever follows.
use undervest.Prelude.{
  ℕ, zero, suc, ◌≤◌, ◌≡◌, ◌⊎◌, inl, inr, refl, sym, ap, ◌∙◌, Bool, true, false, Option, none, some,
  [], ◌∷◌, ◌++◌, append-nil, ltb, ◌==◌, Bytes, ◌>>=◌, arith, length, length-append, take,
}
use undervest.Uri.{
  CharSet, is_in_set, hex, at, and_then, is_escaped, pass, round_of, skip_from, skip_char_set,
  check_char_set, is_end, text_between,
}

pub and_then_both :
    (x y : Option Bool) → and_then x y ≡ some true → (x ≡ some true) × (y ≡ some true)
and_then_both (some true) y h = (refl, h)
and_then_both (some false) y h = absurd cc
and_then_both none y h = absurd cc

hex_end : is_in_set hex 0 ≡ some false
unfolding is_in_set
hex_end = refl

escaped_append :
    (c : ℕ) (s r : Bytes)
    → is_escaped (c ∷ s) ≡ some true
    → (is_escaped (c ∷ (s ++ r)) ≡ some true) × (2 ≤ length s)
unfolding is_escaped at
escaped_append c [] r h =
    let k : is_in_set hex 0 ≡ some true =
      (and_then_both (is_in_set hex 0) (is_in_set hex 0)
        (and_then_both (some (c == b'%')) (and_then (is_in_set hex 0) (is_in_set hex 0)) h).1).0 in
    let e = hex_end in absurd cc
escaped_append c (a ∷ []) r h =
    let k : is_in_set hex 0 ≡ some true =
      (and_then_both (is_in_set hex a) (is_in_set hex 0)
        (and_then_both (some (c == b'%')) (and_then (is_in_set hex a) (is_in_set hex 0)) h).1).1 in
    let e = hex_end in absurd cc
escaped_append c (a ∷ b ∷ s) r h = (h, omega arith)

-- when a round passes characters
round_cases :
    (inside : Option Bool) (percent : Bool) (escaped : Option Bool) (k : ℕ)
    → (inside >>= λ i. pass i percent escaped) ≡ some (some k)
    → (inside ≡ some true)
      × (((percent ≡ false) × (k ≡ 0)) ⊎ ((percent ≡ true) × (escaped ≡ some true) × (k ≡ 2)))
round_cases (some true) false e k h = (refl, inl (refl, cc))
round_cases (some true) true (some true) k h = (refl, inr (refl, refl, cc))
round_cases none b e k h = absurd cc
round_cases (some false) b e k h = absurd cc
round_cases (some true) true none k h = absurd cc
round_cases (some true) true (some false) k h = absurd cc

round_append :
    (cs : CharSet) (c : ℕ) (s r : Bytes) (k : ℕ)
    → round_of cs (c ∷ s) ≡ some (some k)
    → (round_of cs (c ∷ (s ++ r)) ≡ some (some k)) × (k ≤ length s)
unfolding round_of at
round_append cs c s r k h = go (round_cases (is_in_set cs c) (c == b'%') (is_escaped (c ∷ s)) k h)
  where
    go :
        (is_in_set cs c ≡ some true)
          × (((c == b'%') ≡ false) × (k ≡ 0)
              ⊎ ((c == b'%') ≡ true) × (is_escaped (c ∷ s) ≡ some true) × (k ≡ 2))
        → (round_of cs (c ∷ (s ++ r)) ≡ some (some k)) × (k ≤ length s)
    go (i, inl (p, z)) = (rw i (rw p (rw z refl)), omega (arith, z))
    go (i, inr (p, e, z)) =
        let (f, l) = escaped_append c s r e in (rw i (rw p (rw f (rw z refl))), omega (arith, z, l))

-- A text that is passed to its end is passed before a text that is not passed.
skip_from-append :
    (cs : CharSet) (k : ℕ) (s r : Bytes)
    → skip_from cs k s ≡ some []
    → k ≤ length s
    → skip_from cs 0 r ≡ some r
    → skip_from cs k (s ++ r) ≡ some r
unfolding skip_from
skip_from-append cs zero [] r h l e = e
skip_from-append cs (suc k) [] r h l e = absurd (omega arith)
skip_from-append cs (suc k) (c ∷ s) r h l e = skip_from-append cs k s r h (omega arith) e
skip_from-append cs zero (c ∷ s) r h l e =
    go (λ k g b. skip_from-append cs k s r g b e) (round_of cs (c ∷ s)) refl h
  where
    go :
        ((k : ℕ) → skip_from cs k s ≡ some [] → k ≤ length s → skip_from cs k (s ++ r) ≡ some r)
        → (o : Option (Option ℕ)) → round_of cs (c ∷ s) ≡ o
        → (elim o [ none ↦ none | some none ↦ some (c ∷ s) | some (some k) ↦ skip_from cs k s ])
          ≡ some []
        → skip_from cs zero (c ∷ (s ++ r)) ≡ some r
    go ih none f g = absurd cc
    go ih (some none) f g = absurd cc
    go ih (some (some k)) f g =
        let (a, b) = round_append cs c s r k f in rw (a, skip_from) (ih k g b)

check-skip :
    (cs : CharSet) (s : Bytes) → check_char_set s cs ≡ some true → skip_from cs 0 s ≡ some []
unfolding check_char_set skip_char_set is_end
check-skip cs s h = go (skip_from cs 0 s) h
  where
    go : (o : Option Bytes) → (o >>= λ q. some (is_end q)) ≡ some true → o ≡ some []
    go none h = absurd cc
    go (some []) h = refl
    go (some (c ∷ q)) h = absurd cc

-- A text that a set holds is passed, where what follows is not.
pub skip_char_set-append :
    (cs : CharSet) (s r : Bytes)
    → check_char_set s cs ≡ some true
    → skip_char_set r cs ≡ some r
    → skip_char_set (s ++ r) cs ≡ some r
unfolding skip_char_set
skip_char_set-append cs s r h e = skip_from-append cs 0 s r (check-skip cs s h) (omega arith) e

take-append : (s r : Bytes) → take (length s) (s ++ r) ≡ s
take-append [] r = refl
take-append (c ∷ s) r = ap (◌∷◌ c) (take-append s r)

pub text_between-append : (s r : Bytes) → text_between (s ++ r) r ≡ some s
unfolding text_between
text_between-append s r = rw longer (
    ap some (
      ap (λ (n : ℕ). take n (s ++ r)) {y = length s} (omega (arith, length-append s r))
      ∙ take-append s r))
  where
    longer : ltb (length (s ++ r)) (length r) ≡ false
    longer = let e = length-append s r in ground arith

-- A text that a set holds is passed and read to its end.
pub check-whole :
    (cs : CharSet) (s : Bytes)
    → check_char_set s cs ≡ some true
    → (skip_char_set s cs ≡ some []) × (text_between s [] ≡ some s)
unfolding skip_char_set
check-whole cs s h = (
  check-skip cs s h,
  ap (λ (t : Bytes). text_between t []) (sym (append-nil s)) ∙ text_between-append s [],
)
