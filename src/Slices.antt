-- ===== src/Slices.antt =====
-- src/milter/domain.cpp, include/domain.h: the two `slice` methods, of `NgramMatcher` and
-- `WordMatcher`. Characters are tested as in the "C" locale, which the program never changes.
pub mod Ngram
pub mod Word
use undervest.Prelude.{
  ℕ, zero, suc, ◌+◌, ◌-◌, ◌%◌, Bool, true, false, ◌&&◌, ◌||◌, List, [], ◌∷◌, ltb, leb,
  if◌then◌else◌, Bytes, length, take, drop,
}

-- The loop `for (i = 0; i < j; i++)`: `str` is the text from `i` on.
unfoldable pub windows : ℕ → Bytes → ℕ → List Bytes
windows zero str n = []
windows (suc j) str n = take n str ∷ windows j (drop 1 str) n

-- `sz`, `n` and `j` are an `int`: a text has its length, as far as it fits, without the sign. A negative
-- `sz` makes one slice, of the length that `n` is as a `size_t`, 2 ^ 64 - 2 ^ 32 more.
unfoldable pub ngram_slice : ℕ → Bytes → Bool → List Bytes
unfolding windows
ngram_slice ngram_size str indexing =
    let sz = length str % 4294967296 in
    let n = if ltb ngram_size sz then ngram_size else sz in
    if ltb sz 2147483648
    then windows (sz - n + 1) str n
    else windows 1 str (18446744069414584320 + sz)

-- Whether `slice` is defined: no `int` overflows, and no slice ends behind the text.
unfoldable pub ngram_fits : ℕ → Bytes → Bool
ngram_fits ngram_size str =
    let sz = length str % 4294967296 in
    let n = if ltb ngram_size sz then ngram_size else sz in
    ltb sz 2147483648 && ltb (sz - n) 2147483647

unfoldable pub is_alpha : ℕ → Bool
is_alpha c = (leb b'a' c && leb c b'z') || (leb b'A' c && leb c b'Z')

unfoldable pub is_digit : ℕ → Bool
is_digit c = leb b'0' c && leb c b'9'

-- The inner loop: the letters at the front, and what is left behind them.
unfoldable pub letters : Bytes → Bytes
letters [] = []
letters (c ∷ s) = let rest = letters s in if is_alpha c then c ∷ rest else []

unfoldable pub behind_letters : Bytes → Bytes
behind_letters [] = []
behind_letters (c ∷ s) = let rest = behind_letters s in if is_alpha c then rest else c ∷ s

-- `&one` or `&zero`, one character long.
abbrev pub mark : Bool → ℕ
mark indexing = if indexing then b'1' else b'0'

-- The outer loop, on fuel: each round reads a character or more.
unfoldable pub words : ℕ → Bool → Bytes → List Bytes
words zero indexing str = []
words (suc f) indexing [] = []
words (suc f) indexing (c ∷ s) = elim (is_alpha c) [
  | true ↦ (c ∷ letters s) ∷ words f indexing (behind_letters s)
  | false ↦
      let rest = words f indexing s in if is_digit c then (mark indexing ∷ []) ∷ rest else rest
]

unfoldable pub word_slice : Bytes → Bool → List Bytes
word_slice str indexing = words (length str) indexing str
