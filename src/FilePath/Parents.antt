-- ===== src/FilePath/Parents.antt =====
-- Lists of components with `..` at the front, and walks that go up.
use mathlib.Core.List.{reverse, reverse_aux, reverse-reverse}
use mathlib.Core.Path.{subst}
use undervest.Prelude.{
  ℕ, zero, suc, ◌+◌, ◌≤◌, ◌≡◌, inl, inr, refl, sym, ap, ◌∙◌, Bool, true, false, List, [], ◌∷◌, ◌++◌,
  Bytes, beq, beq_iff, All, arith, Bool-cases, length, replicate, replicate-append-cons,
}
use undervest.FilePath.{dot, dotdot, up, step, walk, parent_count}
use undervest.FilePath.Normal.{IsName, Stacked, Stacked-tail, Stacked-ups}

not_name : (x : Bytes) → IsName x → x ≡ dotdot → ⊥
not_name x h e = let w : beq x dotdot ≡ true = (beq_iff x dotdot).1 e in let n = h.1 in cc

reverse_aux-Stacked :
    (relative : Bool) (xs ys : List Bytes)
    → Stacked relative (reverse_aux xs ys)
    → Stacked relative ys
reverse_aux-Stacked relative [] ys h = h
reverse_aux-Stacked relative (x ∷ xs) ys h =
    Stacked-tail relative x ys (reverse_aux-Stacked relative xs (x ∷ ys) h)

-- behind a name there are names
names_after :
    (relative : Bool) (x : Bytes) (done t : List Bytes)
    → IsName x
    → Stacked relative (reverse_aux t (x ∷ done))
    → All IsName t
names_after relative x done [] n h = tt
names_after relative x done (y ∷ t) n h = elim (reverse_aux-Stacked relative t (y ∷ x ∷ done) h) [
  | inl k ↦ (k.0, names_after relative y (x ∷ done) t k.0 h)
  | inr k ↦ absurd (not_name x n k.2.0)
]

push_names :
    (relative : Bool) (t done : List Bytes)
    → All IsName t
    → Stacked relative done
    → Stacked relative (reverse_aux t done)
push_names relative [] done n h = h
push_names relative (x ∷ t) done n h = push_names relative t (x ∷ done) n.1 (inl (n.0, h))

-- what is behind any path may stand behind `..`
pub above_parents :
    (relative : Bool) (t done ups : List Bytes)
    → All (λ x. x ≡ dotdot) ups
    → Stacked relative (reverse_aux t done)
    → Stacked true (reverse_aux t ups)
above_parents relative [] done ups u h = Stacked-ups ups u
above_parents relative (x ∷ t) done ups u h = elim (reverse_aux-Stacked relative t (x ∷ done) h) [
  | inl k ↦
      push_names true (x ∷ t) ups (k.0, names_after relative x done t k.0 h) (Stacked-ups ups u)
  | inr k ↦ above_parents relative t (x ∷ done) (x ∷ ups) (k.0, u) h
]

pub replicate_parents : (k : ℕ) → All (λ x. x ≡ dotdot) (replicate k dotdot)
replicate_parents zero = tt
replicate_parents (suc k) = (refl, replicate_parents k)

reverse_aux-replicate :
    (k : ℕ) (ys : List Bytes) → reverse_aux (replicate k dotdot) ys ≡ replicate k dotdot ++ ys
reverse_aux-replicate zero ys = refl
reverse_aux-replicate (suc k) ys =
    reverse_aux-replicate k (dotdot ∷ ys) ∙ replicate-append-cons k dotdot ys

dotdot-dot : beq dotdot dot ≡ false
unfolding beq
dotdot-dot = refl

dotdot_itself : beq dotdot dotdot ≡ true
unfolding beq
dotdot_itself = refl

pop_name :
    (relative : Bool) (x : Bytes) (done : List Bytes)
    → IsName x
    → step relative (x ∷ done) dotdot ≡ done
unfolding step up
pop_name relative x done h = rw dotdot-dot (rw dotdot_itself (rw h.1 refl))

-- each `..` takes a name away
pub pops :
    (relative : Bool) (names rest : List Bytes)
    → All IsName names
    → walk relative (names ++ rest) (replicate (length names) dotdot) ≡ rest
unfolding walk
pops relative [] rest h = refl
pops relative (x ∷ names) rest h =
    ap (λ (t : List Bytes). walk relative t (replicate (length names) dotdot))
      (pop_name relative x (names ++ rest) h.0)
    ∙ pops relative names rest h.1

pub length-reverse_aux : (xs ys : List Bytes) → length (reverse_aux xs ys) ≡ length xs + length ys
length-reverse_aux [] ys = omega arith
length-reverse_aux (x ∷ xs) ys = omega (arith, length-reverse_aux xs (x ∷ ys))

pub All-reverse_aux :
    (P : Bytes → Type 0) (xs ys : List Bytes) → All P xs → All P ys → All P (reverse_aux xs ys)
All-reverse_aux P [] ys h k = k
All-reverse_aux P (x ∷ xs) ys h k = All-reverse_aux P xs (x ∷ ys) h.1 (h.0, k)

reverse_aux-All :
    (P : Bytes → Type 0) (xs ys : List Bytes) → All P (reverse_aux xs ys) → All P xs × All P ys
reverse_aux-All P [] ys h = (tt, h)
reverse_aux-All P (x ∷ xs) ys h = let (a, b) = reverse_aux-All P xs (x ∷ ys) h in ((b.0, a), b.1)

parent_count-append :
    (ups xs : List Bytes)
    → All (λ x. x ≡ dotdot) ups
    → parent_count (ups ++ xs) ≡ length ups + parent_count xs
unfolding parent_count
parent_count-append [] xs h = omega arith
parent_count-append (u ∷ ups) xs h =
    rw ((beq_iff u dotdot).1 h.0) (omega (arith, parent_count-append ups xs h.1))

parent_count-name : (x : Bytes) (xs : List Bytes) → (x ≡ dotdot → ⊥) → parent_count (x ∷ xs) ≡ 0
unfolding parent_count
parent_count-name x xs n = elim (Bool-cases (beq x dotdot)) [
  | inl e ↦ absurd (n ((beq_iff x dotdot).0 e))
  | inr e ↦ rw e refl
]

no_more_parents :
    (left : List Bytes) (right : List Bytes)
    → ((x : Bytes) (l r : List Bytes) → left ≡ x ∷ l → dotdot ∷ right ≡ x ∷ r → ⊥)
    → parent_count left ≡ 0
unfolding parent_count
no_more_parents [] right differ = refl
no_more_parents (x ∷ left) right differ =
    parent_count-name x left (λ e. differ x left right refl (ap (λ t. t ∷ right) (sym e)))

parent_count-up :
    (x : Bytes) (xs : List Bytes) → x ≡ dotdot → parent_count (x ∷ xs) ≡ suc (parent_count xs)
unfolding parent_count
parent_count-up x xs e = rw ((beq_iff x dotdot).1 e) refl

-- the part of the base behind the common front holds names only
pub base_names :
    (relative : Bool) (front left right : List Bytes)
    → Stacked relative (reverse_aux right (reverse front))
    → ((x : Bytes) (l r : List Bytes) → left ≡ x ∷ l → right ≡ x ∷ r → ⊥)
    → parent_count (front ++ right) ≤ parent_count (front ++ left)
    → All IsName right
base_names relative front left [] h differ le = tt
base_names relative front left (x ∷ right) h differ le =
    elim (reverse_aux-Stacked relative right (x ∷ reverse front) h) [
      | inl k ↦ (k.0, names_after relative x (reverse front) right k.0 h)
      | inr k ↦ absurd (omega (arith, le, up_right k.0 k.2, up_left k.0 k.2))
    ]
  where
    up_front : All (λ x. x ≡ dotdot) (reverse front) → All (λ x. x ≡ dotdot) front
    up_front a =
        subst (All (λ x. x ≡ dotdot)) (reverse-reverse front)
          (All-reverse_aux (λ x. x ≡ dotdot) (reverse front) [] a tt)

    up_right :
        x ≡ dotdot
        → All (λ x. x ≡ dotdot) (reverse front)
        → parent_count (front ++ x ∷ right) ≡ length front + suc (parent_count right)
    up_right e a =
        parent_count-append front (x ∷ right) (up_front a)
        ∙ ap (◌+◌ (length front)) (parent_count-up x right e)

    up_left :
        x ≡ dotdot
        → All (λ x. x ≡ dotdot) (reverse front)
        → parent_count (front ++ left) ≡ length front + 0
    up_left e a =
        parent_count-append front left (up_front a)
        ∙ ap (◌+◌ (length front))
            (no_more_parents left right (λ y l r f g. differ y l r f (ap (λ t. t ∷ right) e ∙ g)))
