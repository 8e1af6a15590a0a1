-- ===== src/Source/Entries.antt =====
-- Which recipients a source adds.
use undervest.Prelude.{
  ℕ, suc, ◌<◌, ◌≡◌, ◌≢◌, ◌↔◌, ◌⊎◌, inl, inr, refl, sym, ap, ◌∙◌, true, Option, none, some, List, [],
  ◌∷◌, ◌++◌, ◌==◌, Bytes, beq, beq_iff, count, length, take, drop, arith, Bool-cases,
}
use undervest.Stringlib.{find_char, strtolower}
use undervest.Source.{Failure, c_str, same_name, local_part, emplace, load_entries}

-- A text without the character `@`.
abbrev pub NoAt : Bytes → Type 0
NoAt [] = Unit {0}
NoAt (c ∷ s) = (c ≢ b'@') × NoAt s

-- The string `e` is `l`, or `l@d` where `d` is the domain in any case, and `r` is `l` in lower case.
abbrev pub IsFor : Bytes → Bytes → Bytes → Type 0
IsFor domname r e =
    (l : Bytes) × NoAt l
    × (r ≡ strtolower l)
    × ((e ≡ l)
        ⊎ ((d : Bytes) × (e ≡ l ++ (b'@' ∷ d))
            × (strtolower (c_str domname) ≡ strtolower (c_str d))))

-- A string of the list in front of the first empty one is for the domain, with the local part `r`.
abbrev pub Offers : Bytes → Bytes → List Bytes → Type 0
Offers domname r [] = ⊥
Offers domname r ([] ∷ es) = ⊥
Offers domname r ((c ∷ e) ∷ es) = IsFor domname r (c ∷ e) ⊎ Offers domname r es

-- What `find` of `@` says: the text has none, or it is cut at the first one.
at_cut :
    (s : Bytes)
    → ((find_char s b'@' ≡ none) × NoAt s)
      ⊎ ((i : ℕ) × (find_char s b'@' ≡ some i)
          × NoAt (take i s)
          × (s ≡ take i s ++ (b'@' ∷ drop (suc i) s)))
unfolding find_char
at_cut [] = inl (refl, tt)
at_cut (c ∷ s) = elim (Bool-cases (c == b'@')) [
  | inl e ↦ let q : c ≡ b'@' = ground arith in inr (0, ground arith, tt, λ i. q i ∷ s)
  | inr e ↦
      let ne : c ≢ b'@' = λ p. ground arith in
      elim (at_cut s) [
        | inl (f, n) ↦ inl (ground arith, (ne, n))
        | inr (i, f, n, q) ↦ inr (suc i, ground arith, (ne, n), ap (◌∷◌ c) q)
      ]
]

-- The first `@` of `l@d` ends `l`.
find_at :
    (l d : Bytes)
    → NoAt l
    → (find_char (l ++ (b'@' ∷ d)) b'@' ≡ some (length l))
      × (take (length l) (l ++ (b'@' ∷ d)) ≡ l)
      × (drop (suc (length l)) (l ++ (b'@' ∷ d)) ≡ d)
unfolding find_char
find_at [] d n = (refl, refl, refl)
find_at (c ∷ l) d (ne, n) = let (f, t, q) = find_at l d n in (ground arith, ap (◌∷◌ c) t, q)

no_at : (l : Bytes) → NoAt l → find_char l b'@' ≡ none
unfolding find_char
no_at [] n = refl
no_at (c ∷ l) (ne, n) = ground (arith, no_at l n)

cut_IsFor :
    (domname r e : Bytes) (i : ℕ)
    → find_char e b'@' ≡ some i
    → (local_part domname e ≡ some r)
      ↔ ((same_name domname (drop (suc i) e) ≡ true) × (strtolower (take i e) ≡ r))
unfolding local_part
cut_IsFor domname r e i f =
    rw (f, local_part)
      (elim (Bool-cases (same_name domname (drop (suc i) e))) [
        | inl b ↦ rw b (λ h. (refl, cc), λ h. ap some h.1)
        | inr b ↦ rw b (λ h. absurd cc, λ h. absurd (let k = h.0 in cc))
      ])

whole_IsFor :
    (domname r e : Bytes)
    → find_char e b'@' ≡ none
    → (local_part domname e ≡ some r) ↔ (strtolower e ≡ r)
unfolding local_part
whole_IsFor domname r e f = rw (f, local_part) (λ h. cc, λ h. ap some h)

-- What is kept of a string is what the string is for.
local_part-IsFor : (domname r e : Bytes) → (local_part domname e ≡ some r) ↔ IsFor domname r e
unfolding same_name
local_part-IsFor domname r e = (there, back)
  where
    there : local_part domname e ≡ some r → IsFor domname r e
    there h = elim (at_cut e) [
      | inl (f, n) ↦ (e, n, sym ((whole_IsFor domname r e f).0 h), inl refl)
      | inr (i, f, n, q) ↦
          let (k, m) = (cut_IsFor domname r e i f).0 h in
          (take i e, n, sym m, inr (drop (suc i) e, q, (beq_iff _ _).0 k))
    ]

    back : IsFor domname r e → local_part domname e ≡ some r
    back (l, n, m, inl q) =
        let f : find_char e b'@' ≡ none = rw q (no_at l n) in
        (whole_IsFor domname r e f).1 (ap strtolower q ∙ sym m)
    back (l, n, m, inr (d, q, k)) =
        let (f, t, b) = find_at l d n in
        let found : find_char e b'@' ≡ some (length l) = rw q f in
        (cut_IsFor domname r e (length l) found).1 (
          (beq_iff _ _).1 (k ∙ ap (λ (x : Bytes). strtolower (c_str x)) (rw q (sym b))),
          ap strtolower (rw q t) ∙ sym m,
        )

emplace-count :
    (rs : List Bytes) (o : Option Bytes) (r : Bytes)
    → (0 < count r (emplace rs o)) ↔ ((o ≡ some r) ⊎ (0 < count r rs))
unfolding emplace count
emplace-count rs none r = (inr, λ h. elim h [ inl e ↦ absurd cc | inr k ↦ k ])
emplace-count rs (some t) r = elim (Bool-cases (beq r t)) [
  | inl e ↦
      let q : r ≡ t = (beq_iff r t).0 e in
      let same : count r rs ≡ count t rs = ap (λ (x : Bytes). count x rs) q in
      (λ h. inl (ap some (sym q)), λ h. ground arith)
  | inr e ↦ (
    λ h. inr (ground arith),
    λ h. elim h [
      | inl p ↦ let q : r ≡ t = cc in absurd (let b : beq r t ≡ true = (beq_iff r t).1 q in cc)
      | inr k ↦ ground arith
    ],
  )
]

or_step : {A B C D E F : Type 0} → A ↔ (B ⊎ C) → C ↔ (D ⊎ E) → D ↔ F → A ↔ ((F ⊎ B) ⊎ E)
or_step h k m = (
  λ a. elim (h.0 a) [
    | inl b ↦ inl (inr b)
    | inr c ↦ elim (k.0 c) [ inl d ↦ inl (inl (m.0 d)) | inr e ↦ inr e ]
  ],
  λ x. elim x [
    | inl y ↦ elim y [ inl d ↦ h.1 (inr (k.1 (inl (m.1 d)))) | inr b ↦ h.1 (inl b) ]
    | inr e ↦ h.1 (inr (k.1 (inr e)))
  ],
)

-- After a source is read, a recipient is known exactly if it was known before, or if the loader gave,
-- in front of the first empty string, a string without `@`, or one whose text behind its first `@` is
-- the name of the domain, both up to a zero character and without regard to case, and the recipient
-- is that string up to its first `@`, in lower case.
pub load_entries-count :
    (domname r : Bytes) (rs entries : List Bytes) (f : Option Failure)
    → (0 < count r (load_entries domname rs entries f).0)
      ↔ (Offers domname r entries ⊎ (0 < count r rs))
unfolding load_entries
load_entries-count domname r rs [] f = (inr, λ h. elim h [ inl k ↦ elim k [ ] | inr k ↦ k ])
load_entries-count domname r rs ([] ∷ es) f = (inr, λ h. elim h [ inl k ↦ elim k [ ] | inr k ↦ k ])
load_entries-count domname r rs ((c ∷ e) ∷ es) f =
    or_step (load_entries-count domname r (emplace rs (local_part domname (c ∷ e))) es f)
      (emplace-count rs (local_part domname (c ∷ e)) r) (local_part-IsFor domname r (c ∷ e))
