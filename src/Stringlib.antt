-- ===== src/Stringlib.antt =====
-- include/stringlib.h: trimming, joining and case of strings, with the searches of `std::string`
-- that these use: a position is `none` where the library returns `npos`.
pub mod Trim
use undervest.Prelude.{
  ℕ, suc, ◌+◌, Bool, true, false, ◌&&◌, ◌||◌, Option, none, some, List, [], ◌∷◌, ◌++◌, map, leb,
  ltb, ◌==◌, if◌then◌else◌, Bytes, length, take, drop,
}

abbrev pub mem : ℕ → Bytes → Bool
mem c [] = false
mem c (x ∷ xs) = c == x || mem c xs

-- " \t\r\n"
abbrev pub blanks : Bytes
blanks = 32 ∷ 9 ∷ 13 ∷ 10 ∷ []

abbrev pub next : Option ℕ → Option ℕ
next none = none
next (some i) = some (suc i)

unfoldable pub find_first_not_of : Bytes → Bytes → Option ℕ
find_first_not_of [] set = none
find_first_not_of (c ∷ s) set =
    let rest = find_first_not_of s set in if mem c set then next rest else some 0

unfoldable pub find_last_not_of : Bytes → Bytes → Option ℕ
find_last_not_of [] set = none
find_last_not_of (c ∷ s) set = elim (find_last_not_of s set) [
  | some i ↦ some (suc i)
  | none ↦ if mem c set then none else some 0
]

-- `std::string::find` of a character
unfoldable pub find_char : Bytes → ℕ → Option ℕ
find_char [] x = none
find_char (c ∷ s) x = let rest = find_char s x in if c == x then some 0 else next rest

unfoldable pub ltrim : Bytes → Bytes → Bytes
ltrim s trimc = elim (find_first_not_of s trimc) [ none ↦ [] | some pos ↦ drop pos s ]

unfoldable pub rtrim : Bytes → Bytes → Bytes
rtrim s trimc = elim (find_last_not_of s trimc) [ none ↦ [] | some pos ↦ take (suc pos) s ]

unfoldable pub trim : Bytes → Bytes → Bytes
trim s trimc = ltrim (rtrim s trimc) trimc

-- The loop `for (s = *first; ++first != last;)`, from the second item on.
unfoldable pub implode_rest : Bytes → Bytes → List Bytes → Bytes
implode_rest separator s [] = s
implode_rest separator s (x ∷ xs) = implode_rest separator (s ++ (separator ++ x)) xs

unfoldable pub implode : Bytes → List Bytes → Bytes
implode separator [] = []
implode separator (x ∷ xs) = implode_rest separator x xs

-- A `char` of 128 or more is negative, so `c & ~0xFF` is not zero and it stays; `tolower` is that of
-- the "C" locale.
unfoldable pub lower : ℕ → ℕ
lower c = if ltb c 128 && (leb b'A' c && leb c b'Z') then c + 32 else c

unfoldable pub strtolower : Bytes → Bytes
strtolower s = map lower s
