-- ===== src/Sendmail/Aliases.antt =====
-- The loader gives the names of the lines of an alias file.
use undervest.Prelude.{
  ℕ, ◌<◌, ◌≡◌, ◌⊎◌, true, false, Option, none, some, List, [], ◌∷◌, ◌==◌, if◌then◌else◌, Bytes,
  length,
}
use undervest.Uri.{is_end}
use undervest.Sendmail.{alias}

abbrev push : ℕ → List Bytes → List Bytes
push c [] = (c ∷ []) ∷ []
push c (l ∷ ls) = (c ∷ l) ∷ ls

-- The lines of a text; behind the last line end there is a line only if there are characters.
abbrev pub lines : Bytes → List Bytes
lines [] = []
lines (c ∷ s) = if c == b'\n' then [] ∷ lines s else push c (lines s)

abbrev keep : Option Bytes → List Bytes → List Bytes
keep none names = names
keep (some name) names = name ∷ names

-- The names that lines define, in their order.
abbrev pub names_of : List Bytes → List Bytes
names_of [] = []
names_of (l ∷ ls) = keep (alias l) (names_of ls)

-- What a call of `getRecipient` may give, of a stream that holds these names and `n` characters.
abbrev Gives : List Bytes → ℕ → Bytes × Bytes → Type 0
Gives names n (name, rest) =
    ((is_end name ≡ true) × (names ≡ []))
    ⊎ ((is_end name ≡ false) × (names ≡ name ∷ names_of (lines rest)) × (length rest < n))
