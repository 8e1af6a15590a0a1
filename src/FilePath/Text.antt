-- ===== src/FilePath/Text.antt =====
-- The text of a path, read again.
use mathlib.Core.List.{reverse, reverse-reverse}
use undervest.Prelude.{
  ℕ, ◌≡◌, refl, sym, ap, ◌∙◌, Bool, true, false, List, [], ◌∷◌, ◌++◌, if◌then◌else◌, Bytes, All,
  arith, beq, length,
}
use undervest.Stringlib.{mem}
use undervest.FilePath.{
  FilePath, dot, walk, step, normalize, skip_delims, component, behind_component, split_from,
  starts_relative, assign, of_text, empty_path, get_from, is_nil, get, delim_after,
}
use undervest.FilePath.Normal.{IsNormal, normalize_normal, walk-append}
use undervest.FilePath.Pieces.{
  IsClean, joined, get_from-reverse, skip_delims-joined, split_from-joined, split_behind,
}

get_text : (cs : List Bytes) (delim : ℕ) → get_from delim (reverse cs) [] [] ≡ joined delim cs
get_text cs delim = get_from-reverse delim (reverse cs) ∙ ap (joined delim) (reverse-reverse cs)

-- a path and components behind it, normalized
abbrev behind : Bool → FilePath → List Bytes → FilePath
behind b p cs = normalize (record { relative = b; components = p.components ++ cs })

-- how the text is read: flag and components, and then normalized
assign_parts :
    (p : FilePath) (s delims : Bytes) (b : Bool) (cs : List Bytes)
    → starts_relative s delims ≡ b
    → split_from (length s) delims (skip_delims delims s) ≡ cs
    → assign p s delims ≡ behind b p cs
unfolding assign
assign_parts p s delims b cs e f = λ i. behind (e i) p (f i)

starts_delim :
    (c : ℕ) (s delims : Bytes) → mem c delims ≡ true → starts_relative (c ∷ s) delims ≡ false
unfolding starts_relative
starts_delim c s delims d = rw d refl

starts_joined :
    (delim : ℕ) (delims : Bytes) (x : Bytes) (xs : List Bytes)
    → IsClean delims x
    → starts_relative (joined delim (x ∷ xs)) delims ≡ true
unfolding starts_relative
starts_joined delim delims [] xs h = absurd h
starts_joined delim delims (c ∷ x) [] h = rw h.0 refl
starts_joined delim delims (c ∷ x) (y ∷ ys) h = rw h.0 refl

joined_some :
    (delim : ℕ) (delims : Bytes) (x : Bytes) (xs : List Bytes) (d : Bytes)
    → IsClean delims x
    → (if is_nil (joined delim (x ∷ xs)) then d else joined delim (x ∷ xs)) ≡ joined delim (x ∷ xs)
unfolding is_nil
joined_some delim delims [] xs d h = absurd h
joined_some delim delims (c ∷ x) [] d h = refl
joined_some delim delims (c ∷ x) (y ∷ ys) d h = refl

step-dot : (relative : Bool) (done : List Bytes) → step relative done dot ≡ done
unfolding step beq
step-dot relative done = refl

behind-dot : (p : FilePath) → behind true p (dot ∷ []) ≡ behind true p []
unfolding normalize walk
behind-dot p =
    ap (λ (t : List Bytes). record { relative = true; components = reverse t })
      (walk-append true [] p.components (dot ∷ [])
        ∙ step-dot true (walk true [] p.components)
        ∙ sym (walk-append true [] p.components []))

dot_parts :
    (delims : Bytes)
    → mem b'.' delims ≡ false
    → (starts_relative dot delims ≡ true)
      × (split_from 1 delims (skip_delims delims dot) ≡ dot ∷ [])
unfolding starts_relative skip_delims split_from component behind_component
dot_parts delims nd = (rw nd refl, rw nd (rw nd refl))

dot_text : (delim : ℕ) → get empty_path false delim ≡ dot
unfolding get get_from is_nil delim_after
dot_text delim = refl

text_assigned :
    (p : FilePath) (b : Bool) (cs : List Bytes) (delim : ℕ) (delims : Bytes)
    → All (IsClean delims) cs
    → mem delim delims ≡ true
    → mem b'.' delims ≡ false
    → assign p (get (record { relative = b; components = cs }) false delim) delims ≡ behind b p cs
unfolding get delim_after
text_assigned p false cs delim delims h d nd =
    ap (λ (t : Bytes). assign p (delim ∷ t) delims) (get_text cs delim)
    ∙ assign_parts p (delim ∷ joined delim cs) delims false cs
        (starts_delim delim (joined delim cs) delims d) (split_behind delim delims cs d h)
text_assigned p true [] delim delims h d nd =
    ap (λ (t : Bytes). assign p t delims) (dot_text delim)
    ∙ assign_parts p dot delims true (dot ∷ []) (dot_parts delims nd).0 (dot_parts delims nd).1
    ∙ behind-dot p
text_assigned p true (x ∷ xs) delim delims h d nd =
    ap (λ (t : Bytes). assign p (if is_nil t then b'.' ∷ delim ∷ [] else t) delims)
      (get_text (x ∷ xs) delim)
    ∙ ap (λ (t : Bytes). assign p t delims) (joined_some delim delims x xs (b'.' ∷ delim ∷ []) h.0)
    ∙ assign_parts p (joined delim (x ∷ xs)) delims true (x ∷ xs)
        (starts_joined delim delims x xs h.0)
        (ap (split_from (length (joined delim (x ∷ xs))) delims)
            (skip_delims-joined delim delims (x ∷ xs) h)
          ∙ split_from-joined delim delims (length (joined delim (x ∷ xs))) (x ∷ xs) d h
              (omega arith))

pub get-relative :
    (delim : ℕ) (delims : Bytes) (x : Bytes) (xs : List Bytes)
    → IsClean delims x
    → get (record { relative = true; components = x ∷ xs }) false delim ≡ joined delim (x ∷ xs)
unfolding get delim_after
get-relative delim delims x xs h =
    ap (λ (t : Bytes). if is_nil t then b'.' ∷ delim ∷ [] else t) (get_text (x ∷ xs) delim)
    ∙ joined_some delim delims x xs (b'.' ∷ delim ∷ []) h

pub get-absolute :
    (delim : ℕ) (cs : List Bytes)
    → get (record { relative = false; components = cs }) false delim ≡ delim ∷ joined delim cs
unfolding get delim_after
get-absolute delim cs = ap (◌∷◌ delim) (get_text cs delim)

-- Assigning the text of a path `q` to a path `p` gives the flag of `q`, and the components of `q`
-- behind those that `p` had, normalized, where each component of `q` has a character and none of
-- the delimiters, and `.` is not one of them.
pub assign-get :
    (p q : FilePath) (delim : ℕ) (delims : Bytes)
    → All (IsClean delims) q.components
    → mem delim delims ≡ true
    → mem b'.' delims ≡ false
    → assign p (get q false delim) delims
      ≡ normalize (record { relative = q.relative; components = p.components ++ q.components })
assign-get p q delim delims h d nd = text_assigned p q.relative q.components delim delims h d nd

-- The text of a normal path, with the components between delimiters, is read as the path, where
-- each component has a character and none of the delimiters, and `.` is not one of them.
pub get-of_text :
    (p : FilePath) (delim : ℕ) (delims : Bytes)
    → IsNormal p
    → All (IsClean delims) p.components
    → mem delim delims ≡ true
    → mem b'.' delims ≡ false
    → of_text (get p false delim) delims ≡ p
unfolding of_text
get-of_text p delim delims n h d nd =
    assign-get empty_path p delim delims h d nd ∙ normalize_normal p n
