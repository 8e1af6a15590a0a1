-- ===== src/Uri.antt =====
-- src/milter/uri.cpp: sets of characters, and the reading of a text as long as a set holds. An
-- iterator is the text from its place on, whose end reads as the character 0.
pub mod Authority
pub mod Host
pub mod Parts
pub mod Port
pub mod Reader
pub mod Round
pub mod Skip
pub mod Writer
use undervest.Prelude.{
  ℕ, zero, suc, ◌+◌, ◌*◌, ◌-◌, Bool, true, false, not, ◌&&◌, ◌||◌, Option, none, some, List, [],
  ◌∷◌, codes, ltb, ◌==◌, if◌then◌else◌, Bytes, ◌>>=◌, length, take, drop,
}
use undervest.Stringlib.{mem}

abbrev pub CharSet : Type 0
CharSet = ℕ → Bool

abbrev pub make_char_set : Bytes → CharSet
make_char_set s c = mem c s

infixl 30 ◌or_in◌
abbrev pub ◌or_in◌ : CharSet → CharSet → CharSet
(cs or_in ds) c = cs c || ds c

abbrev pub upalpha : CharSet
upalpha = make_char_set (codes "ABCDEFGHIJKLMNOPQRSTUVWXYZ")

abbrev pub alpha : CharSet
alpha = upalpha or_in make_char_set (codes "abcdefghijklmnopqrstuvwxyz")

abbrev pub digit : CharSet
digit = make_char_set (codes "0123456789")

abbrev pub hex : CharSet
hex = digit or_in make_char_set (codes "ABCDEFabcdef")

abbrev pub unreserved : CharSet
unreserved = alpha or_in digit or_in make_char_set (codes "-._~")

abbrev pub sub_delims : CharSet
sub_delims = make_char_set (codes "!$&'()*+,;=")

abbrev pub pchar : CharSet
pchar = unreserved or_in sub_delims or_in make_char_set (codes "%:@")

abbrev pub pchar_slash : CharSet
pchar_slash = pchar or_in make_char_set (codes "/")

abbrev pub query_char : CharSet
query_char = pchar or_in make_char_set (codes "/?")

abbrev pub scheme_char : CharSet
scheme_char = alpha or_in digit or_in make_char_set (codes "+-.")

abbrev pub userinfo_char : CharSet
userinfo_char = unreserved or_in sub_delims or_in make_char_set (codes "%:")

abbrev pub regname_char : CharSet
regname_char = unreserved or_in sub_delims or_in make_char_set (codes "%")

abbrev pub future_char : CharSet
future_char = unreserved or_in sub_delims or_in make_char_set (codes ":")

-- `is_in_set`. A `char` is signed, so from 128 on the index is out of range, and `none` is the
-- exception of `test`.
unfoldable pub is_in_set : CharSet → ℕ → Option Bool
is_in_set cs c = if ltb c 128 then some (cs c) else none

-- `p[n]`
unfoldable pub at : Bytes → ℕ → ℕ
at [] n = 0
at (c ∷ s) zero = c
at (c ∷ s) (suc n) = at s n

-- `&&` and `||`, whose second operand is not evaluated if the first one decides
abbrev pub and_then : Option Bool → Option Bool → Option Bool
and_then none y = none
and_then (some false) y = some false
and_then (some true) y = y

abbrev pub or_else : Option Bool → Option Bool → Option Bool
or_else none y = none
or_else (some true) y = some true
or_else (some false) y = y

unfoldable pub is_escaped : Bytes → Option Bool
is_escaped p =
    and_then (some (at p 0 == b'%')) (and_then (is_in_set hex (at p 1)) (is_in_set hex (at p 2)))

-- What a round of `skip_charSet` does: it stops, or it passes a character and so many more. The
-- three tests are those of the character, of `%`, and of what follows it.
abbrev pub pass : Bool → Bool → Option Bool → Option (Option ℕ)
pass false percent escaped = some none
pass true false escaped = some (some 0)
pass true true none = none
pass true true (some true) = some (some 2)
pass true true (some false) = some none

unfoldable pub round_of : CharSet → Bytes → Option (Option ℕ)
round_of cs p = is_in_set cs (at p 0) >>= λ inside. pass inside (at p 0 == b'%') (is_escaped p)

-- `skip_charSet`, which has `k` characters still to pass.
unfoldable pub skip_from : CharSet → ℕ → Bytes → Option Bytes
skip_from cs k [] = some []
skip_from cs (suc k) (c ∷ s) = skip_from cs k s
skip_from cs zero (c ∷ s) = elim (round_of cs (c ∷ s)) [
  | none ↦ none
  | some none ↦ some (c ∷ s)
  | some (some k) ↦ skip_from cs k s
]

unfoldable pub skip_char_set : Bytes → CharSet → Option Bytes
skip_char_set p cs = skip_from cs 0 p

unfoldable pub is_end : Bytes → Bool
is_end [] = true
is_end (_ ∷ _) = false

unfoldable pub check_char_set : Bytes → CharSet → Option Bool
check_char_set s cs = do q ← skip_char_set s cs; some (is_end q)

unfoldable pub hexdigit : ℕ → Option ℕ
hexdigit c = do
  decimal ← is_in_set digit c
  if decimal
      then some (c - b'0')
      else (do upper ← is_in_set upalpha c; some (if upper then c - b'A' + 10 else c - b'a' + 10))

-- `assign(p, q)`: the text between two iterators, and `none` for the exception if `q` is first.
unfoldable pub text_between : Bytes → Bytes → Option Bytes
text_between p q = if ltb (length p) (length q) then none else some (take (length p - length q) p)
