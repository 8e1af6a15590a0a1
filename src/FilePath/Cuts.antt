-- ===== src/FilePath/Cuts.antt =====
-- Fronts and ends of paths: the common ones, and what the shifts leave.

use undervest.Prelude.{
  ℕ, zero, suc, ◌+◌, ◌≡◌, refl, sym, ap, ◌∙◌, true, false, some, List, [], ◌∷◌, ◌++◌, Bytes, arith,
  length, take, drop, min, leb,
}
use undervest.Prelude.Int.{pos, negsuc}
use undervest.FilePath.{
  FilePath, normalize, common_length, common_prefix_length, common_prefix, plus, shift,
}
use undervest.FilePath.Normal.{IsNormal, normalize_normal}
use undervest.FilePath.Split.{Splits, common_length-Splits}
use undervest.FilePath.Relative.{same_flags}

take-append : (xs ys : List Bytes) → take (length xs) (xs ++ ys) ≡ xs
take-append [] ys = refl
take-append (x ∷ xs) ys = ap (◌∷◌ x) (take-append xs ys)

take-drop : (n : ℕ) (xs : List Bytes) → take n xs ++ drop n xs ≡ xs
take-drop zero xs = refl
take-drop (suc n) [] = refl
take-drop (suc n) (x ∷ xs) = ap (◌∷◌ x) (take-drop n xs)

-- Of two paths that are both relative or both absolute, the common prefix holds the components at
-- the front that both have, and behind these the two go on differently, or one of them ends.
pub common_prefix_lem :
    (p path : FilePath)
    → p.relative ≡ path.relative
    → (s : Splits (common_prefix_length p path) p.components path.components) × (common_prefix p
          path
        ≡ record p { components = s.front })
unfolding common_prefix_length common_prefix
common_prefix_lem p path r =
    rw (same_flags p.relative path.relative r)
      (go (common_length-Splits k p.components path.components refl))
  where
    k : ℕ
    k = min (length p.components) (length path.components)

    go :
        Splits (common_length k p.components path.components) p.components path.components
        → (s : Splits (common_length k p.components path.components) p.components path.components)
          × (record p {
            components = take (common_length k p.components path.components) p.components;
          }
              ≡ record p { components = s.front })
    go s = (
      s,
      ap (λ (t : List Bytes). record p { components = t })
          (ap (λ (n : ℕ). take n p.components) (sym s.as_long)
            ∙ ap (take (length s.front)) s.left_is
            ∙ take-append s.front s.left),
    )

-- What `>>=` leaves of a normal path, with the components that `<<=` leaves behind it, is the path,
-- where the two numbers are positive and together as many as the components are.
pub shift-plus :
    (p : FilePath) (j k : ℕ)
    → IsNormal p
    → length p.components ≡ suc j + suc k
    → plus (shift p (negsuc j)) (shift p (pos (suc k))) ≡ some p
unfolding plus shift
shift-plus p j k n e =
    ap (λ (x : FilePath). plus x (shift p (pos (suc k)))) left
    ∙ ap (plus (record p { components = take (suc k) p.components })) right
    ∙ ap some (
        ap (λ (t : List Bytes). normalize (record p { components = t }))
          (take-drop (suc k) p.components)
        ∙ normalize_normal p n)
  where
    shorter_j : leb (length p.components) (suc j) ≡ false
    shorter_j = ground arith

    shorter_k : leb (length p.components) (suc k) ≡ false
    shorter_k = ground arith

    left : shift p (negsuc j) ≡ record p { components = take (suc k) p.components }
    left =
        rw shorter_j
          (ap (λ (m : ℕ). record p { components = take m p.components }) {y = suc k} (omega arith))

    right :
        shift p (pos (suc k)) ≡ record { relative = true; components = drop (suc k) p.components }
    right = rw shorter_k refl
