-- ===== src/FilePath/Pieces.antt =====
-- The components of a text with delimiters between them, apart and together.
use mathlib.Core.List.{reverse, reverse_aux}
use mathlib.Core.Path.{subst}
use undervest.Prelude.{
  ℕ, zero, suc, ◌≤◌, ◌≡◌, refl, ap, ◌∙◌, true, false, List, [], ◌∷◌, ◌++◌, Bytes, All, arith,
  length, length-append,
}
use undervest.Stringlib.{mem}
use undervest.FilePath.{skip_delims, component, behind_component, split_from, get_from}

-- A component that a text can hold: it has a character, and none that delimits.
abbrev pub IsClean : Bytes → Bytes → Type 0
IsClean delims [] = ⊥
IsClean delims (c ∷ s) = All (λ x. mem x delims ≡ false) (c ∷ s)

-- The components with the delimiter between them.
abbrev pub joined : ℕ → List Bytes → Bytes
joined delim [] = []
joined delim (x ∷ []) = x
joined delim (x ∷ y ∷ ys) = x ++ (delim ∷ joined delim (y ∷ ys))

append_nil : (s : Bytes) → s ++ [] ≡ s
append_nil [] = refl
append_nil (c ∷ s) = ap (◌∷◌ c) (append_nil s)

get_from-joined :
    (delim : ℕ) (xs : List Bytes) (y : Bytes) (ys : List Bytes)
    → get_from delim xs (delim ∷ []) (joined delim (y ∷ ys))
      ≡ joined delim (reverse_aux xs (y ∷ ys))
unfolding get_from
get_from-joined delim [] y ys = refl
get_from-joined delim (x ∷ xs) y ys = get_from-joined delim xs x (y ∷ ys)

pub get_from-reverse :
    (delim : ℕ) (xs : List Bytes) → get_from delim xs [] [] ≡ joined delim (reverse xs)
unfolding get_from
get_from-reverse delim [] = refl
get_from-reverse delim (x ∷ xs) =
    ap (get_from delim xs (delim ∷ [])) (append_nil x) ∙ get_from-joined delim xs x []

component-clean :
    (delims x s : Bytes)
    → All (λ c. mem c delims ≡ false) x
    → component delims (x ++ s) ≡ x ++ component delims s
unfolding component
component-clean delims [] s h = refl
component-clean delims (c ∷ x) s h = rw h.0 (ap (◌∷◌ c) (component-clean delims x s h.1))

behind_component-clean :
    (delims x s : Bytes)
    → All (λ c. mem c delims ≡ false) x
    → behind_component delims (x ++ s) ≡ behind_component delims s
unfolding behind_component
behind_component-clean delims [] s h = refl
behind_component-clean delims (c ∷ x) s h = rw h.0 (behind_component-clean delims x s h.1)

skip_delims-clean : (delims x s : Bytes) → IsClean delims x → skip_delims delims (x ++ s) ≡ x ++ s
unfolding skip_delims
skip_delims-clean delims [] s h = elim h [ ]
skip_delims-clean delims (c ∷ x) s h = rw h.0 refl

skip_nil : (delims : Bytes) → skip_delims delims [] ≡ []
unfolding skip_delims
skip_nil delims = refl

pub skip_delims-joined :
    (delim : ℕ) (delims : Bytes) (xs : List Bytes)
    → All (IsClean delims) xs
    → skip_delims delims (joined delim xs) ≡ joined delim xs
skip_delims-joined delim delims [] h = skip_nil delims
skip_delims-joined delim delims (x ∷ []) h =
    subst (λ (t : Bytes). skip_delims delims t ≡ t) (append_nil x)
      (skip_delims-clean delims x [] h.0)
skip_delims-joined delim delims (x ∷ y ∷ ys) h =
    skip_delims-clean delims x (delim ∷ joined delim (y ∷ ys)) h.0

component_first :
    (delim : ℕ) (delims x t : Bytes)
    → mem delim delims ≡ true
    → All (λ c. mem c delims ≡ false) x
    → component delims (x ++ (delim ∷ t)) ≡ x
unfolding component
component_first delim delims x t d h = component-clean delims x (delim ∷ t) h ∙ rw d (append_nil x)

component_last : (delims x : Bytes) → All (λ c. mem c delims ≡ false) x → component delims x ≡ x
unfolding component
component_last delims [] h = refl
component_last delims (c ∷ x) h = rw h.0 (ap (◌∷◌ c) (component_last delims x h.1))

behind_first :
    (delim : ℕ) (delims x t : Bytes)
    → mem delim delims ≡ true
    → All (λ c. mem c delims ≡ false) x
    → skip_delims delims (behind_component delims (x ++ (delim ∷ t))) ≡ skip_delims delims t
unfolding behind_component skip_delims
behind_first delim delims x t d h =
    ap (skip_delims delims) (behind_component-clean delims x (delim ∷ t) h) ∙ rw d (rw d refl)

behind_last :
    (delims x : Bytes)
    → All (λ c. mem c delims ≡ false) x
    → skip_delims delims (behind_component delims x) ≡ []
unfolding behind_component skip_delims
behind_last delims [] h = refl
behind_last delims (c ∷ x) h = rw h.0 (behind_last delims x h.1)

split_from_nil : (f : ℕ) (delims : Bytes) → split_from f delims [] ≡ []
unfolding split_from
split_from_nil zero delims = refl
split_from_nil (suc f) delims = refl

pub split_from-joined :
    (delim : ℕ) (delims : Bytes) (f : ℕ) (xs : List Bytes)
    → mem delim delims ≡ true
    → All (IsClean delims) xs
    → length (joined delim xs) ≤ f
    → split_from f delims (joined delim xs) ≡ xs
unfolding split_from
split_from-joined delim delims f [] d h le = split_from_nil f delims
split_from-joined delim delims f ([] ∷ []) d h le = absurd h.0
split_from-joined delim delims f ([] ∷ y ∷ ys) d h le = absurd h.0
split_from-joined delim delims zero ((c ∷ x) ∷ []) d h le = absurd (omega arith)
split_from-joined delim delims zero ((c ∷ x) ∷ y ∷ ys) d h le = absurd (omega arith)
split_from-joined delim delims (suc f) ((c ∷ x) ∷ []) d h le = λ i.
    component_last delims (c ∷ x) h.0 i
    ∷ (ap (split_from f delims) (behind_last delims (c ∷ x) h.0) ∙ split_from_nil f delims) i
split_from-joined delim delims (suc f) ((c ∷ x) ∷ y ∷ ys) d h le = λ i.
    component_first delim delims (c ∷ x) (joined delim (y ∷ ys)) d h.0 i
    ∷ (ap (split_from f delims) (
            behind_first delim delims (c ∷ x) (joined delim (y ∷ ys)) d h.0
            ∙ skip_delims-joined delim delims (y ∷ ys) h.1)
          ∙ split_from-joined delim delims f (y ∷ ys) d h.1
              (omega (arith, le, length-append x (delim ∷ joined delim (y ∷ ys)))))
        i

pub split_behind :
    (delim : ℕ) (delims : Bytes) (xs : List Bytes)
    → mem delim delims ≡ true
    → All (IsClean delims) xs
    → split_from
        (length (delim ∷ joined delim xs))
        delims
        (skip_delims delims (delim ∷ joined delim xs))
      ≡ xs
unfolding skip_delims
split_behind delim delims xs d h = rw d (
    ap (split_from (length (delim ∷ joined delim xs)) delims) (skip_delims-joined delim delims xs h)
    ∙ split_from-joined delim delims (length (delim ∷ joined delim xs)) xs d h (omega arith))
