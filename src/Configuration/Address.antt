-- ===== src/Configuration/Address.antt =====
-- An address is taken apart and put together again without a change.
use undervest.Prelude.{
  ==_iff, ℕ, suc, ◌-◌, ◌<◌, ◌≡◌, refl, ap, ◌∙◌, Bool, true, false, ◌||◌, some, [], ◌∷◌, ◌++◌, leb,
  ◌==◌, Bytes, arith, length, get_elem?, take, drop, length-append,
}
use undervest.Stringlib.{blanks, mem, find_char, trim}
use undervest.Stringlib.Trim.{starts, ends, trim_fixed}
use undervest.Configuration.{char_is, has_lt_gt, bare, split, whole}

find_char-append :
    (x : ℕ) (u r : Bytes) → mem x u ≡ false → find_char (u ++ (x ∷ r)) x ≡ some (length u)
unfolding find_char
find_char-append x [] r h = ground arith
find_char-append x (c ∷ u) r h = ground (arith, find_char-append x u r)

take-append : (u r : Bytes) → take (length u) (u ++ r) ≡ u
take-append [] r = refl
take-append (c ∷ u) r = ap (◌∷◌ c) (take-append u r)

drop-append : (u : Bytes) (x : ℕ) (r : Bytes) → drop (suc (length u)) (u ++ (x ∷ r)) ≡ r
drop-append [] x r = refl
drop-append (c ∷ u) x r = drop-append u x r

get_elem?-append_last : (a : Bytes) (x : ℕ) → get_elem? (a ++ (x ∷ [])) (length a) ≡ some x
get_elem?-append_last [] x = refl
get_elem?-append_last (c ∷ a) x = get_elem?-append_last a x

ends-append : (a : Bytes) (c : ℕ) (t set : Bytes) → ends set (a ++ (c ∷ t)) ≡ ends set (c ∷ t)
ends-append [] c t set = refl
ends-append (d ∷ []) c t set = refl
ends-append (d ∷ d' ∷ a) c t set = ends-append (d' ∷ a) c t set

-- A recipient and a domain that an address is made of.
pub record IsPlain (u domain : Bytes) : Type 0 where
  pub some_recipient : 0 < length u
  pub some_domain : 0 < length domain
  pub no_at : mem b'@' u ≡ false
  pub no_blank : starts blanks u ≡ true
  pub no_bracket : starts (b'<' ∷ []) u ≡ true
  pub no_blank_end : ends blanks domain ≡ true

starts-append : (u r set : Bytes) → 0 < length u → starts set u ≡ true → starts set (u ++ r) ≡ true
starts-append [] r set h k = absurd (omega arith)
starts-append (c ∷ u) r set h k = k

ends-cons : (c : ℕ) (t set : Bytes) → 0 < length t → ends set (c ∷ t) ≡ ends set t
ends-cons c [] set h = absurd (omega arith)
ends-cons c (d ∷ t) set h = refl

first_not :
    (u r : Bytes) (x : ℕ) → 0 < length u → starts (x ∷ []) u ≡ true → char_is (u ++ r) 0 x ≡ false
first_not [] r x h k = absurd (omega arith)
first_not (c ∷ u) r x h k = ground arith

last_is : (a : Bytes) (x : ℕ) → char_is (b'<' ∷ (a ++ (x ∷ []))) (suc (length a)) x ≡ true
last_is a x = rw (get_elem?-append_last a x, char_is) ((==_iff x x).1 refl)

module _ (u domain : Bytes) (plain : IsPlain u domain) where
  abbrev joined : Bytes
  joined = u ++ (b'@' ∷ domain)

  -- Splitting an address of a recipient and a domain gives these two.
  pub split-joined : split joined ≡ some (u, domain)
  unfolding split
  split-joined =
      rw (find_char-append b'@' u domain plain.no_at, split)
        (rw (guard, take-append u (b'@' ∷ domain), drop-append u b'@' domain) refl)
    where
      guard : (length u == 0 || leb (length joined - 1) (length u)) ≡ false
      guard =
          ground (arith, length-append u (b'@' ∷ domain), plain.some_recipient, plain.some_domain)

  trim-joined : trim joined blanks ≡ joined
  trim-joined =
      trim_fixed joined blanks
        (starts-append u (b'@' ∷ domain) blanks plain.some_recipient plain.no_blank)
        (ends-append u b'@' domain blanks
          ∙ ends-cons b'@' domain blanks plain.some_domain
          ∙ plain.no_blank_end)

  pub trim-whole : (lt_gt : Bool) → trim (whole lt_gt u domain) blanks ≡ whole lt_gt u domain
  unfolding whole
  trim-whole false = trim-joined
  trim-whole true =
      trim_fixed (b'<' ∷ (joined ++ (b'>' ∷ []))) blanks refl
        (ends-append (b'<' ∷ joined) b'>' [] blanks)

  pub has_lt_gt-whole : (lt_gt : Bool) → has_lt_gt (whole lt_gt u domain) ≡ lt_gt
  unfolding whole has_lt_gt
  has_lt_gt-whole false =
      rw (first_not u (b'@' ∷ domain) b'<' plain.some_recipient plain.no_bracket) refl
  has_lt_gt-whole true =
      ap (λ (i : ℕ). char_is (b'<' ∷ (joined ++ (b'>' ∷ []))) i b'>') at_end ∙ last_is joined b'>'
    where
      at_end : length (b'<' ∷ (joined ++ (b'>' ∷ []))) - 1 ≡ suc (length joined)
      at_end = omega (arith, length-append joined (b'>' ∷ []))

  pub bare-whole : (lt_gt : Bool) → bare (whole lt_gt u domain) ≡ joined
  unfolding bare whole
  bare-whole false = rw (has_lt_gt-whole false) (unfold whole in refl)
  bare-whole true = rw (has_lt_gt-whole true) (
      ap (λ (n : ℕ). trim (take n (joined ++ (b'>' ∷ []))) blanks) inner
      ∙ ap (λ (t : Bytes). trim t blanks) (take-append joined (b'>' ∷ []))
      ∙ trim-joined)
    where
      inner : length (b'<' ∷ (joined ++ (b'>' ∷ []))) - 2 ≡ length joined
      inner = omega (arith, length-append joined (b'>' ∷ []))
