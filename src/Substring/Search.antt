-- ===== src/Substring/Search.antt =====
-- include/substring.h: slices, element access and the searches of `basic_substring`. `none` is `npos`, and
-- where it says so an exception.
use undervest.Prelude.{
  ℕ, zero, suc, ◌+◌, ◌-◌, min, Bool, true, false, not, ◌&&◌, ◌||◌, Option, none, some, [], ◌∷◌, ltb,
  leb, ◌==◌, if◌then◌else◌, Bytes, length, take, drop,
}
use undervest.Prelude.Int.{ℤ}
use undervest.Stringlib.{mem, next}
use undervest.Substring.{traits_compare, compare, is_zero}

-- `__assign_helper`, for a text of which the size is known; `none` is a length of `npos`.
unfoldable pub slice : Bytes → ℕ → Option ℕ → Bytes
slice s pos none = drop (min pos (length s)) s
slice s pos (some len) =
    let p = min pos (length s) in
    take (if ltb (length s - p) len then length s - p else len) (drop p s)

-- `compare` of a part of the text.
unfoldable pub compare_part : Bytes → ℕ → Option ℕ → Bytes → ℤ
compare_part s pos len str = compare (slice s pos len) str

unfoldable pub compare_parts : Bytes → ℕ → Option ℕ → Bytes → ℕ → Option ℕ → ℤ
compare_parts s pos1 len1 str pos2 len2 = compare (slice s pos1 len1) (slice str pos2 len2)

-- `operator[]`: the character 0 out of range.
unfoldable pub char_at : Bytes → ℕ → ℕ
char_at [] pos = 0
char_at (c ∷ s) zero = c
char_at (c ∷ s) (suc pos) = char_at s pos

-- `at`: `none` is the exception.
unfoldable pub at : Bytes → ℕ → Option ℕ
at s pos = if leb (length s) pos then none else some (char_at s pos)

unfoldable pub pop_back : Bytes → Bytes
pop_back s = take (length s - 1) s

-- `!traits_type::compare(p, s.data(), s.length())`
unfoldable pub same : Bytes → Bytes → Bool
same t p = is_zero (traits_compare (length t) p t)

-- The loop of `find` over `k` places, where `traits_type::find` looks for the first character of `t`.
unfoldable pub search : ℕ → Bytes → Bytes → Option ℕ
search zero t s = none
search (suc k) t [] = none
search (suc k) t (c ∷ s) =
    let rest = next (search k t s) in if (c == char_at t 0) && same t (c ∷ s) then some 0 else rest

unfoldable pub find : Bytes → Bytes → Option ℕ
find s t =
    if (length t == 0) || ltb (length s) (length t)
    then none
    else search (suc (length s - length t)) t s

-- What the overloads with `pos` add to a place.
unfoldable pub behind : ℕ → Option ℕ → Option ℕ
behind pos none = none
behind pos (some p) = some (p + pos)

unfoldable pub find_at : Bytes → Bytes → ℕ → Option ℕ
find_at s t pos = behind pos (find (slice s pos none) t)

-- `traits_type::find`
unfoldable pub find_char : Bytes → ℕ → Option ℕ
find_char [] c = none
find_char (x ∷ s) c = let rest = next (find_char s c) in if x == c then some 0 else rest

-- `find` of a character, which does not add `pos` to the place.
unfoldable pub find_char_at : Bytes → ℕ → ℕ → Option ℕ
find_char_at s c pos = find_char (slice s pos none) c

-- The loop of `rfind`, from the place `k` down.
unfoldable pub search_back : ℕ → Bytes → Bytes → Option ℕ
search_back zero t s = if same t s then some 0 else none
search_back (suc k) t s =
    let rest = search_back k t s in if same t (drop (suc k) s) then some (suc k) else rest

unfoldable pub rfind : Bytes → Bytes → Option ℕ
rfind s t =
    if (length t == 0) || ltb (length s) (length t)
    then none
    else search_back (length s - length t) t s

unfoldable pub rfind_at : Bytes → Bytes → ℕ → Option ℕ
rfind_at s t pos = behind pos (rfind (slice s pos none) t)

-- How a loop on fuel ends, or that it is still running.
pub data Loop : Type 0 where
  returned : Option ℕ → Loop
  running : Loop

-- The loop of `find_first_of`, which does not move `pos`, with what the test asks for.
unfoldable pub first_loop : ℕ → Bool → Bytes → Bytes → ℕ → Loop
first_loop zero wanted s set pos = running
first_loop (suc f) wanted s set pos =
    let rest = first_loop f wanted s set pos in
    if not (ltb pos (length s))
    then returned none
    else if mem (char_at s pos) set
    then (if wanted then returned (some pos) else rest)
    else (if wanted then rest else returned (some pos))

unfoldable pub find_first_of : ℕ → Bytes → Bytes → ℕ → Loop
find_first_of f s set pos = first_loop f true s set pos

unfoldable pub find_first_not_of : ℕ → Bytes → Bytes → ℕ → Loop
find_first_not_of f s set pos = first_loop f false s set pos

-- The loop of `find_last_of` from `p` down to `pos`.
unfoldable pub last_loop : ℕ → Bool → Bytes → Bytes → ℕ → Option ℕ
last_loop zero wanted s set pos = none
last_loop (suc p) wanted s set pos =
    let rest = last_loop p wanted s set pos in
    if not (ltb pos (suc p))
    then none
    else if mem (char_at s p) set
    then (if wanted then some p else rest)
    else (if wanted then rest else some p)

unfoldable pub find_last_of : Bytes → Bytes → ℕ → Option ℕ
find_last_of s set pos = last_loop (if ltb (length s) pos then length s else pos) true s set pos

unfoldable pub find_last_not_of : Bytes → Bytes → ℕ → Option ℕ
find_last_not_of s set pos =
    last_loop (if ltb (length s) pos then length s else pos) false s set pos
