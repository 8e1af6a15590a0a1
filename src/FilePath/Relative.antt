-- ===== src/FilePath/Relative.antt =====
-- A path relative to a base, put behind the base, is the path again.
use mathlib.Core.List.{reverse, reverse-reverse, reverse_aux-append, reverse_aux-eq}
use mathlib.Core.Path.{subst}
use undervest.Prelude.{
  ℕ, ◌-◌, ◌≤◌, ◌≡◌, refl, sym, ap, ◌∙◌, Bool, true, false, some, List, [], ◌∷◌, ◌++◌, Bytes, All,
  arith, min, length, drop, replicate, ltb, length-append,
}
use undervest.FilePath.{
  FilePath, dotdot, walk, normalize, parent_count, common_length, common_prefix_length, same_flag,
  plus, relative_from,
}
use undervest.FilePath.Normal.{
  IsName, Stacked, IsNormal, walk_pushes, walk-append, normalize_normal,
}
use undervest.FilePath.Split.{common_length-Splits, Splits}
use undervest.FilePath.Parents.{
  above_parents, replicate_parents, pops, length-reverse_aux, All-reverse_aux, base_names,
}

drop-append : (xs ys : List Bytes) → drop (length xs) (xs ++ ys) ≡ ys
drop-append [] ys = refl
drop-append (x ∷ xs) ys = drop-append xs ys

-- up from a base, whose last components are names
climb :
    (relative : Bool) (front right : List Bytes)
    → All IsName right
    → walk relative (reverse (front ++ right)) (replicate (length right) dotdot) ≡ reverse front
climb relative front right n =
    ap (λ (t : List Bytes). walk relative t (replicate (length right) dotdot))
      (reverse_aux-append front right [] ∙ reverse_aux-eq right (reverse front))
    ∙ ap (λ (k : ℕ). walk relative (reverse right ++ reverse front) (replicate k dotdot))
        (omega (arith, length-reverse_aux right []))
    ∙ pops relative (reverse right) (reverse front) (All-reverse_aux IsName right [] n tt)

-- the walk over a base, up again and down to the path
walk_over :
    (relative : Bool) (front left right : List Bytes)
    → Stacked relative (reverse (front ++ left))
    → Stacked relative (reverse (front ++ right))
    → All IsName right
    → walk relative [] ((front ++ right) ++ (replicate (length right) dotdot ++ left))
      ≡ reverse (front ++ left)
walk_over relative front left right hl hr n =
    walk-append relative [] (front ++ right) (ups ++ left)
    ∙ ap (λ (t : List Bytes). walk relative t (ups ++ left))
        (walk_pushes relative (front ++ right) [] hr)
    ∙ walk-append relative (reverse (front ++ right)) ups left
    ∙ ap (λ (t : List Bytes). walk relative t left) (climb relative front right n)
    ∙ walk_pushes relative left (reverse front)
        (subst (Stacked relative) (reverse_aux-append front left []) hl)
    ∙ sym (reverse_aux-append front left [])
  where
    ups : List Bytes
    ups = replicate (length right) dotdot

-- the path that leads from a base to a path is normal
between-Stacked :
    (relative : Bool) (front left : List Bytes) (k : ℕ)
    → Stacked relative (reverse (front ++ left))
    → Stacked true (reverse (replicate k dotdot ++ left))
between-Stacked relative front left k h =
    subst (Stacked true) (sym (reverse_aux-append (replicate k dotdot) left [])) (
      above_parents relative left (reverse front) (reverse (replicate k dotdot))
        (All-reverse_aux (λ x. x ≡ dotdot) (replicate k dotdot) [] (replicate_parents k) tt)
        (subst (Stacked relative) (reverse_aux-append front left []) h))

abbrev between : ℕ → List Bytes → FilePath
between k left = record { relative = true; components = replicate k dotdot ++ left }

pub same_flags : (a b : Bool) → a ≡ b → same_flag a b ≡ true
same_flags true b e = sym e
same_flags false b e = rw (sym e) refl

relative_from_common :
    (p base : FilePath)
    → p.relative ≡ base.relative
    → parent_count base.components ≤ parent_count p.components
    → relative_from p base
      ≡ some (
          normalize (
            between
              (length base.components - common_prefix_length p base)
              (drop (common_prefix_length p base) p.components)))
unfolding relative_from plus
relative_from_common p base r le = rw (same_flags p.relative base.relative r) (rw ltb-false refl)
  where
    ltb-false : ltb (parent_count p.components) (parent_count base.components) ≡ false
    ltb-false = ground arith

-- at the place where the lists split
relative_from_at :
    (p base : FilePath) (front left right : List Bytes)
    → p.components ≡ front ++ left
    → base.components ≡ front ++ right
    → common_prefix_length p base ≡ length front
    → IsNormal p
    → p.relative ≡ base.relative
    → parent_count base.components ≤ parent_count p.components
    → relative_from p base ≡ some (between (length right) left)
relative_from_at p base front left right e f n hp r le =
    relative_from_common p base r le
    ∙ ap some (
        ap (λ (k : ℕ). normalize (between (length base.components - k) (drop k p.components))) n
        ∙ ap normalize
            (λ i. between (longer i) ((ap (drop (length front)) e ∙ drop-append front left) i))
        ∙ normalize_normal (between (length right) left) (
            between-Stacked p.relative front left (length right)
              (subst (λ (t : List Bytes). Stacked p.relative (reverse t)) e hp)))
  where
    longer : length base.components - length front ≡ length right
    longer = omega (arith, ap length f, length-append front right)

plus_at :
    (p base : FilePath) (front left right : List Bytes)
    → p.components ≡ front ++ left
    → base.components ≡ front ++ right
    → Stacked base.relative (reverse (front ++ left))
    → Stacked base.relative (reverse (front ++ right))
    → p.relative ≡ base.relative
    → All IsName right
    → plus base (between (length right) left) ≡ some p
unfolding plus normalize
plus_at p base front left right e f hl hr r n =
    ap some (λ i. record { relative = sym r i; components = same i })
  where
    same :
        reverse
          (walk base.relative [] (base.components ++ (replicate (length right) dotdot ++ left)))
        ≡ p.components
    same =
        ap
          (λ (t : List Bytes).
            reverse (walk base.relative [] (t ++ (replicate (length right) dotdot ++ left))))
          f
        ∙ ap reverse (walk_over base.relative front left right hl hr n)
        ∙ reverse-reverse (front ++ left)
        ∙ sym e

-- A normal path relative to a normal base, both relative or both absolute, where the base does not
-- start with more `..` than the path, exists, and added to the base it is the path.
pub relative_from-plus :
    (p base : FilePath)
    → IsNormal p
    → IsNormal base
    → p.relative ≡ base.relative
    → parent_count base.components ≤ parent_count p.components
    → (q : FilePath) × (relative_from p base ≡ some q) × (plus base q ≡ some p)
unfolding plus common_prefix_length normalize
relative_from-plus p base hp hb r le = go (
    common_length-Splits (min (length p.components) (length base.components)) p.components
      base.components refl)
  where
    go :
        Splits
          (common_length
            (min (length p.components) (length base.components))
            p.components
            base.components)
          p.components
          base.components
        → (q : FilePath) × (relative_from p base ≡ some q) × (plus base q ≡ some p)
    go s = (
      between (length s.right) s.left,
      relative_from_at p base s.front s.left s.right s.left_is s.right_is
          (rw (same_flags p.relative base.relative r) (sym s.as_long)) hp r le,
      plus_at p base s.front s.left s.right s.left_is s.right_is hl hr r (
          base_names base.relative s.front s.left s.right
            (subst (Stacked base.relative) (reverse_aux-append s.front s.right []) hr) s.differ
            (subst (λ (t : List Bytes). parent_count t ≤ parent_count (s.front ++ s.left))
              s.right_is
              (subst (λ (t : List Bytes). parent_count base.components ≤ parent_count t) s.left_is
                le))),
    )
      where
        hl : Stacked base.relative (reverse (s.front ++ s.left))
        hl =
            subst (λ (b : Bool). Stacked b (reverse (s.front ++ s.left))) r
              (subst (λ (t : List Bytes). Stacked p.relative (reverse t)) s.left_is hp)

        hr : Stacked base.relative (reverse (s.front ++ s.right))
        hr = subst (λ (t : List Bytes). Stacked base.relative (reverse t)) s.right_is hb
