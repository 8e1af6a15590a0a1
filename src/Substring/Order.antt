-- ===== src/Substring/Order.antt =====
-- `compare` of include/substring.h is the lexicographic order, so sorting by `<` is sorting.
use undervest.Prelude.{
  ℕ, zero, suc, min, ◌≡◌, refl, Bool, true, false, [], ◌∷◌, ltb, if◌then◌else◌, Bytes, length,
  arith, ◌↔◌, ◌∙◌, sym,
}
use undervest.Prelude.Int.{ℤ, pos, negsuc, ltb_ℤ}
use undervest.Substring.{traits_compare, compare_size, is_zero, compare, less, equal}

-- Lexicographic order of byte strings, a proper prefix being smaller.
unfoldable pub lex : Bytes → Bytes → Bool
lex _ [] = false
lex [] (y ∷ ys) = true
lex (x ∷ xs) (y ∷ ys) = if ltb x y then true else if ltb y x then false else lex xs ys

-- the verdict on the characters compared, then on the lengths
abbrev below : ℤ → ℕ → ℕ → Bool
below (pos zero) m n = ltb m n
below (pos (suc _)) m n = false
below (negsuc _) m n = true

lex-traits_compare :
    (k : ℕ) (a b : Bytes)
    → k ≡ min (length a) (length b)
    → lex a b ≡ below (traits_compare k a b) (length a) (length b)
unfolding lex traits_compare
lex-traits_compare zero [] [] e = refl
lex-traits_compare zero [] (y ∷ b) e = ground arith
lex-traits_compare zero (x ∷ a) [] e = ground arith
lex-traits_compare zero (x ∷ a) (y ∷ b) e = absurd (omega arith)
lex-traits_compare (suc k) [] b e = absurd (omega arith)
lex-traits_compare (suc k) (x ∷ a) [] e = absurd (omega arith)
lex-traits_compare (suc k) (x ∷ a) (y ∷ b) e =
    ground (arith, lex-traits_compare k a b (omega arith))

below-ltb_ℤ :
    (r : ℤ) (m n : ℕ) → ltb_ℤ (if is_zero r then compare_size m n else r) (pos 0) ≡ below r m n
unfolding compare_size
below-ltb_ℤ (pos zero) m n = ground arith
below-ltb_ℤ (pos (suc k)) m n = ground arith
below-ltb_ℤ (negsuc k) m n = ground arith

-- `operator<` is the lexicographic order.
pub less-eq-lex : (a b : Bytes) → less a b ≡ lex a b
unfolding less compare
less-eq-lex a b =
    below-ltb_ℤ (traits_compare (min (length a) (length b)) a b) (length a) (length b)
    ∙ sym (lex-traits_compare (min (length a) (length b)) a b refl)

lex-total : (a b : Bytes) → lex a b ≡ false → lex b a ≡ false → a ≡ b
unfolding lex
lex-total [] [] p q = refl
lex-total [] (y ∷ b) p q = ground arith
lex-total (x ∷ a) [] p q = ground arith
lex-total (x ∷ a) (y ∷ b) p q = ground (arith, lex-total a b)

lex_trans : (a b c : Bytes) → lex a b ≡ true → lex b c ≡ true → lex a c ≡ true
unfolding lex
lex_trans a b [] p q = ground arith
lex_trans [] b (z ∷ c) p q = refl
lex_trans (x ∷ a) [] (z ∷ c) p q = ground arith
lex_trans (x ∷ a) (y ∷ b) (z ∷ c) p q = ground (arith, lex_trans a b c)

lex_irrefl : (a : Bytes) → lex a a ≡ false
unfolding lex
lex_irrefl [] = refl
lex_irrefl (x ∷ a) = ground (arith, lex_irrefl a)

traits-zero :
    (k : ℕ) (a b : Bytes)
    → k ≡ min (length a) (length b)
    → is_zero (traits_compare k a b) ≡ true
    → length a ≡ length b
    → a ≡ b
unfolding traits_compare
traits-zero k [] [] e z l = refl
traits-zero k [] (y ∷ b) e z l = absurd (omega arith)
traits-zero k (x ∷ a) [] e z l = absurd (omega arith)
traits-zero zero (x ∷ a) (y ∷ b) e z l = absurd (omega arith)
traits-zero (suc k) (x ∷ a) (y ∷ b) e z l = ground (arith, traits-zero k a b (omega arith))

traits_compare_self : (k : ℕ) (a : Bytes) → traits_compare k a a ≡ pos 0
unfolding traits_compare
traits_compare_self zero a = refl
traits_compare_self (suc k) [] = refl
traits_compare_self (suc k) (x ∷ a) = ground (arith, traits_compare_self k a)

equal_sound : (a b : Bytes) → equal a b ≡ true → a ≡ b
unfolding equal compare compare_size
equal_sound a b h = ground (arith, traits-zero (min (length a) (length b)) a b refl)

equal_refl : (a : Bytes) → equal a a ≡ true
unfolding equal compare compare_size
equal_refl a = ground (arith, traits_compare_self (min (length a) (length a)) a)

-- `less` is a strict total order on contents (irreflexive, transitive, and any two texts that
-- neither precedes are the same), and `equal` holds exactly of texts with the same contents.
pub less_order :
    (a b c : Bytes)
    → (less a a ≡ false)
      × (less a b ≡ true → less b c ≡ true → less a c ≡ true)
      × (less a b ≡ false → less b a ≡ false → a ≡ b)
      × ((equal a b ≡ true) ↔ (a ≡ b))
less_order a b c = (
  less-eq-lex a a ∙ lex_irrefl a,
  (λ p q.
      less-eq-lex a c ∙ lex_trans a b c (sym (less-eq-lex a b) ∙ p) (sym (less-eq-lex b c) ∙ q)),
  (λ p q. lex-total a b (sym (less-eq-lex a b) ∙ p) (sym (less-eq-lex b a) ∙ q)),
  (equal_sound a b, λ e. rw e (equal_refl b)),
)
