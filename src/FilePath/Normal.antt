-- ===== src/FilePath/Normal.antt =====
-- Normal paths: no `.`, and `..` only at the front of a relative path.
use mathlib.Core.List.{reverse, reverse_aux, reverse-reverse}
use undervest.Prelude.{
  ◌≡◌, ◌⊎◌, inl, inr, refl, sym, ap, ◌∙◌, Bool, true, false, List, [], ◌∷◌, ◌++◌, Bytes, beq,
  beq_iff, All, Bool-cases,
}
use undervest.FilePath.{FilePath, dot, dotdot, up, step, walk, normalize}

abbrev pub IsName : Bytes → Type 0
IsName x = (beq x dot ≡ false) × (beq x dotdot ≡ false)

-- The components, the last one first: names, and behind them `..`, which only a relative path has.
abbrev pub Stacked : Bool → List Bytes → Type 0
Stacked relative [] = Unit {0}
Stacked relative (d ∷ done) =
    (IsName d × Stacked relative done)
    ⊎ ((d ≡ dotdot) × (relative ≡ true) × All (λ x. x ≡ dotdot) done)

abbrev pub IsNormal : FilePath → Type 0
IsNormal p = Stacked p.relative (reverse p.components)

pub Stacked-ups : (done : List Bytes) → All (λ x. x ≡ dotdot) done → Stacked true done
Stacked-ups [] h = tt
Stacked-ups (d ∷ done) h = inr (h.0, refl, h.1)

pub Stacked-tail :
    (relative : Bool) (d : Bytes) (done : List Bytes)
    → Stacked relative (d ∷ done)
    → Stacked relative done
Stacked-tail relative d done (inl h) = h.1
Stacked-tail relative d done (inr (e, r, h)) = rw r (Stacked-ups done h)

up-Stacked :
    (relative : Bool) (done : List Bytes)
    → Stacked relative done
    → Stacked relative (up relative done)
unfolding up
up-Stacked true [] h = inr (refl, refl, tt)
up-Stacked false [] h = tt
up-Stacked relative (d ∷ done) (inl h) = rw (h.0.1) h.1
up-Stacked relative (d ∷ done) (inr (e, r, h)) = rw ((beq_iff d dotdot).1 e) (inr (refl, r, (e, h)))

step-Stacked :
    (relative : Bool) (done : List Bytes) (x : Bytes)
    → Stacked relative done
    → Stacked relative (step relative done x)
unfolding step
step-Stacked relative done x h = elim (Bool-cases (beq x dot)) [
  | inl e ↦ rw e h
  | inr e ↦ elim (Bool-cases (beq x dotdot)) [
    | inl f ↦ rw e (rw f (up-Stacked relative done h))
    | inr f ↦ rw e (rw f (inl ((e, f), h)))
  ]
]

pub walk-Stacked :
    (relative : Bool) (xs done : List Bytes)
    → Stacked relative done
    → Stacked relative (walk relative done xs)
unfolding walk
walk-Stacked relative [] done h = h
walk-Stacked relative (x ∷ xs) done h =
    walk-Stacked relative xs (step relative done x) (step-Stacked relative done x h)

-- on a stacked list, a step pushes
step_pushes :
    (relative : Bool) (x : Bytes) (done : List Bytes)
    → Stacked relative (x ∷ done)
    → step relative done x ≡ x ∷ done
unfolding step up beq
step_pushes relative x done (inl h) = rw (h.0.0) (rw (h.0.1) refl)
step_pushes relative x [] (inr (e, r, h)) = rw (e, r) refl
step_pushes relative x (d ∷ done) (inr (e, r, h)) = rw (e, h.0) refl

reverse_aux-Stacked :
    (relative : Bool) (xs ys : List Bytes)
    → Stacked relative (reverse_aux xs ys)
    → Stacked relative ys
reverse_aux-Stacked relative [] ys h = h
reverse_aux-Stacked relative (x ∷ xs) ys h =
    Stacked-tail relative x ys (reverse_aux-Stacked relative xs (x ∷ ys) h)

pub walk_pushes :
    (relative : Bool) (xs done : List Bytes)
    → Stacked relative (reverse_aux xs done)
    → walk relative done xs ≡ reverse_aux xs done
unfolding walk
walk_pushes relative [] done h = refl
walk_pushes relative (x ∷ xs) done h =
    ap (λ (t : List Bytes). walk relative t xs)
      (step_pushes relative x done (reverse_aux-Stacked relative xs (x ∷ done) h))
    ∙ walk_pushes relative xs (x ∷ done) h

pub walk-append :
    (relative : Bool) (done xs ys : List Bytes)
    → walk relative done (xs ++ ys) ≡ walk relative (walk relative done xs) ys
unfolding walk
walk-append relative done [] ys = refl
walk-append relative done (x ∷ xs) ys = walk-append relative (step relative done x) xs ys

normalize-IsNormal : (p : FilePath) → IsNormal (normalize p)
unfolding normalize
normalize-IsNormal p = rw reverse-reverse (walk-Stacked p.relative p.components [] tt)

pub normalize_normal : (p : FilePath) → IsNormal p → normalize p ≡ p
unfolding normalize
normalize_normal p h =
    ap (λ (t : List Bytes). record p { components = t })
      (ap reverse (walk_pushes p.relative p.components [] h) ∙ reverse-reverse p.components)

pub normalize-append :
    (p : FilePath) (ys : List Bytes)
    → normalize (record p { components = (normalize p).components ++ ys })
      ≡ normalize (record p { components = p.components ++ ys })
unfolding normalize
normalize-append p ys =
    ap (λ (t : List Bytes). record p { components = reverse t })
      (walk-append p.relative [] (reverse done) ys
        ∙ ap (λ (t : List Bytes). walk p.relative t ys)
            (walk_pushes p.relative (reverse done) []
                (rw reverse-reverse (walk-Stacked p.relative p.components [] tt))
              ∙ reverse-reverse done)
        ∙ sym (walk-append p.relative [] p.components ys))
  where
    done : List Bytes
    done = walk p.relative [] p.components

-- Normalizing gives a normal path, a normal path stays as it is, and normalizing a first part
-- beforehand makes no difference.
pub normalize_lem :
    (p : FilePath) (ys : List Bytes)
    → IsNormal (normalize p)
      × (IsNormal p → normalize p ≡ p)
      × (normalize (record p { components = (normalize p).components ++ ys })
          ≡ normalize (record p { components = p.components ++ ys }))
normalize_lem p ys = (normalize-IsNormal p, normalize_normal p, normalize-append p ys)
