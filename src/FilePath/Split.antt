-- ===== src/FilePath/Split.antt =====
-- The common front of two lists of components: what `common_length` finds.

use undervest.Prelude.{
  ℕ, zero, suc, ◌≡◌, ◌⊎◌, inl, inr, refl, sym, ap, ◌∙◌, true, false, List, [], ◌∷◌, ◌++◌, Bytes,
  beq, beq_iff, arith, Bool-cases, min, length,
}
use undervest.FilePath.{common_length}

-- The common front of two lists, and what is behind it in each.
pub record Splits (n : ℕ) (ps qs : List Bytes) : Type 0 where
  pub front : List Bytes
  pub left : List Bytes
  pub right : List Bytes
  pub left_is : ps ≡ front ++ left
  pub right_is : qs ≡ front ++ right
  pub as_long : length front ≡ n
  pub differ : (x : Bytes) (l r : List Bytes) → left ≡ x ∷ l → right ≡ x ∷ r → ⊥

no_common :
    (ps qs : List Bytes)
    → 0 ≡ min (length ps) (length qs)
    → (x : Bytes) (l r : List Bytes) → ps ≡ x ∷ l
    → qs ≡ x ∷ r
    → ⊥
no_common ps qs e x l r f g = omega (arith, ap length f, ap length g)

pub common_length-Splits :
    (n : ℕ) (ps qs : List Bytes)
    → n ≡ min (length ps) (length qs)
    → Splits (common_length n ps qs) ps qs
unfolding common_length
common_length-Splits zero ps qs e = record {
  front = [];
  left = ps;
  right = qs;
  left_is = refl;
  right_is = refl;
  as_long = refl;
  differ = no_common ps qs e;
}
common_length-Splits (suc n) [] qs e = absurd (omega arith)
common_length-Splits (suc n) (p ∷ ps) [] e = absurd (omega arith)
common_length-Splits (suc n) (p ∷ ps) (q ∷ qs) e =
    go (common_length-Splits n ps qs (omega arith)) (Bool-cases (beq p q))
  where
    go :
        Splits (common_length n ps qs) ps qs
        → (beq p q ≡ true) ⊎ (beq p q ≡ false)
        → Splits (common_length (suc n) (p ∷ ps) (q ∷ qs)) (p ∷ ps) (q ∷ qs)
    go s (inl b) = rw b (record {
      front = p ∷ s.front;
      left = s.left;
      right = s.right;
      left_is = ap (◌∷◌ p) s.left_is;
      right_is = rw ((beq_iff p q).0 b) (ap (◌∷◌ q) s.right_is);
      as_long = ap suc s.as_long;
      differ = s.differ;
    })
    go s (inr b) = rw b (record {
      front = [];
      left = p ∷ ps;
      right = q ∷ qs;
      left_is = refl;
      right_is = refl;
      as_long = refl;
      differ = λ x l r f g.
          let u : p ≡ x = cc in
          let v : q ≡ x = cc in let w : beq p q ≡ true = (beq_iff p q).1 (u ∙ sym v) in cc;
    })
