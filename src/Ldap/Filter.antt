-- ===== src/Ldap/Filter.antt =====
-- The parentheses of the filter that src/loaders/ldap.cpp searches with.
use undervest.Prelude.{
  ℕ, zero, suc, ◌+◌, ◌≡◌, refl, ap, ◌∙◌, Option, none, some, List, [], ◌∷◌, ◌++◌, ◌==◌,
  if◌then◌else◌, Bytes, codes, All, arith, append_assoc, ◌>>=◌, Bool-cases, inl, inr,
}
use undervest.Ldap.{in_parentheses, filter_start, any_of, filter_attrs, search_filter}

abbrev pub pred_of : ℕ → Option ℕ
pred_of zero = none
pred_of (suc n) = some n

-- How many parentheses are open behind a character; `none` if one is closed that is not open.
abbrev pub depth_step : ℕ → ℕ → Option ℕ
depth_step n c = if c == b'(' then some (suc n) else if c == b')' then pred_of n else some n

unfoldable pub depth : ℕ → Bytes → Option ℕ
depth n [] = some n
depth n (c ∷ s) = depth_step n c >>= λ m. depth m s

abbrev pub IsBalanced : Bytes → Type 0
IsBalanced s = depth 0 s ≡ some 0

bind_step :
    (o : Option ℕ) (a b : Bytes)
    → ((m : ℕ) → depth m (a ++ b) ≡ (depth m a >>= λ i. depth i b))
    → (o >>= λ m. depth m (a ++ b)) ≡ ((o >>= λ m. depth m a) >>= λ m. depth m b)
bind_step none a b h = refl
bind_step (some m) a b h = h m

depth-append : (n : ℕ) (a b : Bytes) → depth n (a ++ b) ≡ (depth n a >>= λ m. depth m b)
unfolding depth
depth-append n [] b = refl
depth-append n (c ∷ a) b = bind_step (depth_step n c) a b (λ m. depth-append m a b)

step_up : (k n m j c : ℕ) → depth_step n c ≡ some m → j ≡ n + k → depth_step j c ≡ some (m + k)
step_up k zero m j c h e = ground arith
step_up k (suc n) m j c h e = ground arith

bind-some :
    (o : Option ℕ) (f : ℕ → Option ℕ) (m : ℕ)
    → (o >>= f) ≡ some m
    → (x : ℕ) × (o ≡ some x) × (f x ≡ some m)
bind-some none f m h = absurd cc
bind-some (some x) f m h = (x, refl, h)

depth_up : (k n m j : ℕ) (a : Bytes) → depth n a ≡ some m → j ≡ n + k → depth j a ≡ some (m + k)
unfolding depth
depth_up k n m j [] h e = let q : n ≡ m = cc in ap some (e ∙ ap (λ (x : ℕ). x + k) q)
depth_up k n m j (c ∷ a) h e =
    let (x, p, q) = bind-some (depth_step n c) (λ i. depth i a) m h in
    ap (λ (o : Option ℕ). o >>= λ i. depth i a) (step_up k n x j c p e)
    ∙ depth_up k x m (x + k) a q refl

-- a balanced text in front of another
behind_balanced : (n : ℕ) (a b : Bytes) → IsBalanced a → depth n (a ++ b) ≡ depth n b
behind_balanced n a b h =
    depth-append n a b
    ∙ ap (λ (o : Option ℕ). o >>= λ m. depth m b)
        (depth_up n 0 0 n a h (omega arith) ∙ ap some (omega arith))

-- a text in parentheses
wrapped : (n : ℕ) (a b : Bytes) → IsBalanced a → depth n (b'(' ∷ (a ++ (b')' ∷ b))) ≡ depth n b
unfolding depth
wrapped n a b h = behind_balanced (suc n) a (b')' ∷ b) h

opens :
    (n : ℕ) (c : ℕ) (t : Bytes)
    → depth_step (suc n) c ≡ some (suc n)
    → depth n (b'(' ∷ c ∷ t) ≡ depth (suc n) t
unfolding depth
opens n c t h = ap (λ (o : Option ℕ). o >>= λ m. depth m t) h

closes : (n : ℕ) (t : Bytes) → depth (suc n) (b')' ∷ t) ≡ depth n t
unfolding depth
closes n t = refl

-- the test of an attribute
attribute :
    (n : ℕ) (a b : Bytes) → IsBalanced a → depth n (b'(' ∷ (a ++ (codes "=*)" ++ b))) ≡ depth n b
unfolding depth
attribute n a b h = behind_balanced (suc n) a (codes "=*)" ++ b) h

in_parentheses-some :
    (n : ℕ) (f b : Bytes) → IsBalanced f → depth n (in_parentheses f ++ b) ≡ depth n b
unfolding in_parentheses
in_parentheses-some n [] b h = refl
in_parentheses-some n (c ∷ s) b h = elim (Bool-cases (c == b'(')) [
  | inl e ↦ rw e (behind_balanced n (c ∷ s) b h)
  | inr e ↦ rw e (
      ap (λ (t : Bytes). depth n (b'(' ∷ t)) (append_assoc (c ∷ s) (codes ")") b)
      ∙ wrapped n (c ∷ s) b h)
]

any_of-some :
    (n : ℕ) (attrs : List Bytes) (b : Bytes)
    → All IsBalanced attrs
    → depth n (any_of attrs ++ b) ≡ depth n b
unfolding any_of
any_of-some n [] b h = refl
any_of-some n (a ∷ attrs) b h =
    ap (λ (t : Bytes). depth n (b'(' ∷ t))
      (append_assoc (a ++ codes "=*)") (any_of attrs) b
        ∙ append_assoc a (codes "=*)") (any_of attrs ++ b))
    ∙ attribute n a (any_of attrs ++ b) h.0
    ∙ any_of-some n attrs b h.1

filter_attrs-some :
    (n : ℕ) (attrs : List Bytes) (b : Bytes)
    → All IsBalanced attrs
    → depth n (filter_attrs attrs ++ b) ≡ depth n b
unfolding filter_attrs
filter_attrs-some n [] b h = any_of-some n [] b h
filter_attrs-some n (a ∷ []) b h = any_of-some n (a ∷ []) b h
filter_attrs-some n (a ∷ c ∷ attrs) b h =
    opens n b'|' ((any_of (a ∷ c ∷ attrs) ++ codes ")") ++ b) refl
    ∙ ap (depth (suc n)) (append_assoc (any_of (a ∷ c ∷ attrs)) (codes ")") b)
    ∙ any_of-some (suc n) (a ∷ c ∷ attrs) (codes ")" ++ b) h
    ∙ closes n b

-- The filter is one in balanced parentheses: if that of the URI is not empty and has balanced
-- parentheses, and the names of the attributes too.
pub search_filter-IsBalanced :
    (c : ℕ) (filter : Bytes) (attrs : List Bytes)
    → IsBalanced (c ∷ filter)
    → All IsBalanced attrs
    → (s : Bytes) × (search_filter (some (c ∷ filter)) attrs ≡ some s) × IsBalanced s
unfolding search_filter filter_start depth
search_filter-IsBalanced c filter attrs h k =
    (filter_start (c ∷ filter) ++ (filter_attrs attrs ++ codes ")"), refl, balanced)
  where
    balanced : IsBalanced (filter_start (c ∷ filter) ++ (filter_attrs attrs ++ codes ")"))
    balanced =
        opens 0 b'&' (in_parentheses (c ∷ filter) ++ (filter_attrs attrs ++ codes ")")) refl
        ∙ in_parentheses-some 1 (c ∷ filter) (filter_attrs attrs ++ codes ")") h
        ∙ filter_attrs-some 1 attrs (codes ")") k
        ∙ closes 0 []
