-- ===== src/Slices/Word.antt =====
-- The words of a text.
use mathlib.Core.List.{cons-ne-nil}
use undervest.Prelude.{
  ℕ, zero, suc, ◌≤◌, ◌≡◌, ◌≢◌, ◌⊎◌, refl, ap, inl, inr, Bool, true, false, ◌&&◌, leb, List, [], ◌∷◌,
  ◌++◌, if◌then◌else◌, Bytes, codes, arith, length, count, beq, Bool-cases, All,
}
use undervest.Slices.{letters, behind_letters, is_alpha, is_digit, mark, words, word_slice}

-- An ASCII letter, and an ASCII digit.
abbrev pub IsLetter : ℕ → Type 0
IsLetter c = ((b'a' ≤ c) × (c ≤ b'z')) ⊎ ((b'A' ≤ c) × (c ≤ b'Z'))

abbrev pub IsFigure : ℕ → Type 0
IsFigure c = (b'0' ≤ c) × (c ≤ b'9')

abbrev pub NoLetterFirst : Bytes → Type 0
NoLetterFirst [] = Unit {0}
NoLetterFirst (c ∷ s) = IsLetter c → ⊥

-- The slices of a text: each longest run of letters, `1` or `0` for each digit, nothing for the rest.
pub data Words (indexing : Bool) : Bytes → List Bytes → Type 0 where
  ends : Words indexing [] []
  run :
      (t w s : Bytes) (ws : List Bytes)
      → t ≡ w ++ s
      → w ≢ []
      → All IsLetter w
      → NoLetterFirst s
      → Words indexing s ws
      → Words indexing t (w ∷ ws)
  figure :
      (c : ℕ) (s : Bytes) (ws : List Bytes)
      → IsFigure c
      → Words indexing s ws
      → Words indexing (c ∷ s) ((if indexing then codes "1" else codes "0") ∷ ws)
  dropped :
      (c : ℕ) (s : Bytes) (ws : List Bytes)
      → (IsLetter c → ⊥)
      → (IsFigure c → ⊥)
      → Words indexing s ws
      → Words indexing (c ∷ s) ws

is_alpha-IsLetter : (c : ℕ) → is_alpha c ≡ true → IsLetter c
unfolding is_alpha
is_alpha-IsLetter c e = elim (Bool-cases (leb b'a' c && leb c b'z')) [
  | inl a ↦ inl (ground arith, ground arith)
  | inr a ↦ inr (ground arith, ground arith)
]

is_alpha-other : (c : ℕ) → is_alpha c ≡ false → IsLetter c → ⊥
unfolding is_alpha
is_alpha-other c e (inl (h, k)) = ground arith
is_alpha-other c e (inr (h, k)) = ground arith

is_digit-IsFigure : (c : ℕ) → is_digit c ≡ true → IsFigure c
unfolding is_digit
is_digit-IsFigure c e = (ground arith, ground arith)

is_digit-other : (c : ℕ) → is_digit c ≡ false → IsFigure c → ⊥
unfolding is_digit
is_digit-other c e (h, k) = ground arith

behind_letters-le-length : (s : Bytes) → length (behind_letters s) ≤ length s
unfolding behind_letters
behind_letters-le-length [] = omega arith
behind_letters-le-length (c ∷ s) = ground (arith, behind_letters-le-length s)

letters-behind : (s : Bytes) → s ≡ letters s ++ behind_letters s
unfolding letters behind_letters
letters-behind [] = refl
letters-behind (c ∷ s) = ground (arith, letters-behind s)

letters-IsLetter : (s : Bytes) → All IsLetter (letters s)
unfolding letters
letters-IsLetter [] = tt
letters-IsLetter (c ∷ s) = elim (Bool-cases (is_alpha c)) [
  | inl e ↦ rw e (is_alpha-IsLetter c e, letters-IsLetter s)
  | inr e ↦ rw e tt
]

behind_letters-NoLetterFirst : (s : Bytes) → NoLetterFirst (behind_letters s)
unfolding behind_letters
behind_letters-NoLetterFirst [] = tt
behind_letters-NoLetterFirst (c ∷ s) = elim (Bool-cases (is_alpha c)) [
  | inl e ↦ rw e (behind_letters-NoLetterFirst s)
  | inr e ↦ rw e (is_alpha-other c e)
]

mark_text : (indexing : Bool) → mark indexing ∷ [] ≡ (if indexing then codes "1" else codes "0")
mark_text true = refl
mark_text false = refl

words-Words :
    (f : ℕ) (indexing : Bool) (s : Bytes) → length s ≤ f → Words indexing s (words f indexing s)
unfolding words
words-Words zero indexing [] h = ends
words-Words zero indexing (c ∷ s) h = absurd (omega arith)
words-Words (suc f) indexing [] h = ends
words-Words (suc f) indexing (c ∷ s) h = elim (Bool-cases (is_alpha c)) [
  | inl e ↦
      rw (e, words)
        (run (c ∷ s) (c ∷ letters s) (behind_letters s) _ (ap (◌∷◌ c) (letters-behind s))
          (cons-ne-nil c (letters s)) (is_alpha-IsLetter c e, letters-IsLetter s)
          (behind_letters-NoLetterFirst s)
          (words-Words f indexing (behind_letters s) (omega (arith, behind_letters-le-length s))))
  | inr e ↦ elim (Bool-cases (is_digit c)) [
    | inl d ↦
        rw (e, words)
          (rw (d, mark_text indexing)
            (figure c s _ (is_digit-IsFigure c d) (words-Words f indexing s (omega arith))))
    | inr d ↦
        rw (e, words)
          (rw d (
            dropped c s _ (is_alpha-other c e) (is_digit-other c d)
              (words-Words f indexing s (omega arith))))
  ]
]

-- For every text, the slices are, in the order of the text: each run of ASCII letters that has no
-- letter in front of it or behind it, 1 (when indexing) or 0 (when matching) for each digit, and
-- nothing for any other character.
pub word_slice-Words : (s : Bytes) (indexing : Bool) → Words indexing s (word_slice s indexing)
unfolding word_slice
word_slice-Words s indexing = words-Words (length s) indexing s (omega arith)

abbrev pub IsAlpha : ℕ → Type 0
IsAlpha c = is_alpha c ≡ true

abbrev pub IsWord : Bool → Bytes → Type 0
IsWord indexing w = ((w ≢ []) × All IsAlpha w) ⊎ (w ≡ mark indexing ∷ [])

letters-All : (s : Bytes) → All IsAlpha (letters s)
unfolding letters
letters-All [] = tt
letters-All (c ∷ s) = elim (Bool-cases (is_alpha c)) [
  | inl e ↦ rw e (e, letters-All s)
  | inr e ↦ rw e tt
]

words-All : (f : ℕ) (indexing : Bool) (s : Bytes) → All (IsWord indexing) (words f indexing s)
unfolding words
words-All zero indexing s = tt
words-All (suc f) indexing [] = tt
words-All (suc f) indexing (c ∷ s) = elim (Bool-cases (is_alpha c)) [
  | inl e ↦
      rw (e, words)
        (
          inl (cons-ne-nil c (letters s), (e, letters-All s)),
          words-All f indexing (behind_letters s),
        )
  | inr e ↦ elim (Bool-cases (is_digit c)) [
    | inl d ↦ rw (e, words) (rw d (inr refl, words-All f indexing s))
    | inr d ↦ rw (e, words) (rw d (words-All f indexing s))
  ]
]

beq-IsWord :
    (d : ℕ) (indexing : Bool) (w : Bytes)
    → is_alpha d ≡ false
    → d ≢ mark indexing
    → IsWord indexing w
    → beq (d ∷ []) w ≡ false
unfolding beq
beq-IsWord d indexing [] a ne h = refl
beq-IsWord d indexing (c ∷ []) a ne (inl (_, (e, _))) = ground (arith, λ (p : d ≡ c). ap is_alpha p)
beq-IsWord d indexing (c ∷ []) a ne (inr q) = ground arith
beq-IsWord d indexing (c ∷ c' ∷ w) a ne h = ground arith

count-IsWord :
    (d : ℕ) (indexing : Bool) (ws : List Bytes)
    → is_alpha d ≡ false
    → d ≢ mark indexing
    → All (IsWord indexing) ws
    → count (d ∷ []) ws ≡ 0
unfolding count
count-IsWord d indexing [] a ne h = refl
count-IsWord d indexing (w ∷ ws) a ne h =
    ground (arith, beq-IsWord d indexing w a ne h.0, count-IsWord d indexing ws a ne h.1)

-- Each slice is a non-empty run of letters or the mark, and no digit of an indexed text matches a
-- digit of a tested one: the mark of one side is no slice of the other, for all texts.
digits_match_nothing :
    (s t : Bytes)
    → All (IsWord true) (word_slice s true)
      × All (IsWord false) (word_slice t false)
      × (count (mark false ∷ []) (word_slice s true) ≡ 0)
      × (count (mark true ∷ []) (word_slice t false) ≡ 0)
unfolding word_slice is_alpha
digits_match_nothing s t = (
  words-All (length s) true s,
  words-All (length t) false t,
  count-IsWord b'0' true (words (length s) true s) refl (omega arith) (words-All (length s) true s),
  count-IsWord b'1' false (words (length t) false t) refl (omega arith)
      (words-All (length t) false t),
)

length-words-le : (f : ℕ) (indexing : Bool) (s : Bytes) → length (words f indexing s) ≤ f
unfolding words
length-words-le zero indexing s = omega arith
length-words-le (suc f) indexing [] = omega arith
length-words-le (suc f) indexing (c ∷ s) =
    ground (arith, length-words-le f indexing (behind_letters s), length-words-le f indexing s)

pub length-word_slice-le : (s : Bytes) (indexing : Bool) → length (word_slice s indexing) ≤ length s
unfolding word_slice
length-word_slice-le s indexing = length-words-le (length s) indexing s
