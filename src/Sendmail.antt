-- ===== src/Sendmail.antt =====
-- src/loaders/sendmail.cpp: the loader that reads the names of an alias file. A stream is the text that
-- is still to be read.
pub mod Aliases
use undervest.Prelude.{
  ℕ, zero, suc, Bool, true, false, not, ◌&&◌, Option, none, some, List, [], ◌∷◌, ◌==◌,
  if◌then◌else◌, Bytes, codes, beq, length, take, ◌>>=◌,
}
use undervest.Stringlib.{mem, next, strtolower}
use undervest.FilePath.{get}
use undervest.Uri.{is_end}
use undervest.Uri.Reader.{Uri, parse}
use undervest.Source.{Failure, exception, Reading, gives, open_throws}

-- `openSource`: the name of the file, or what is thrown. The URI's constructor drops what `parse`
-- returns, and lets its exception through.
pub data Opened : Type 0 where
  file : Bytes → Opened
  throws : Failure → Opened

unfoldable pub open_parsed : Uri → Opened
open_parsed u =
    let s = get u.path false b'/' in
    if (length s == 0)
    then throws (exception (codes "Sendmail loader requires a file URI"))
    else if not (is_end u.scheme) && not (beq (strtolower u.scheme) (codes "file"))
    then throws (exception (codes "Sendmail loader requires a file URI"))
    else file s

unfoldable pub open_source : Bytes → Bytes → Opened
open_source thrown uri = elim (parse uri) [
  | none ↦ throws (exception thrown)
  | some r ↦ open_parsed r.0
]

-- `getline` of a text that is not empty: the line, and what is behind it.
unfoldable pub line_of : Bytes → Bytes
line_of [] = []
line_of (c ∷ s) = let rest = line_of s in if c == b'\n' then [] else c ∷ rest

unfoldable pub behind_line : Bytes → Bytes
behind_line [] = []
behind_line (c ∷ s) = let rest = behind_line s in if c == b'\n' then s else rest

-- `":# \t\r\n"`
abbrev pub marks : Bytes
marks = b':' ∷ b'#' ∷ b' ' ∷ 9 ∷ 13 ∷ 10 ∷ []

-- `std::string::find_first_of`, with the character there.
unfoldable pub first_mark : Bytes → Option (ℕ × ℕ)
first_mark [] = none
first_mark (c ∷ s) = elim (mem c marks) [
  | true ↦ some (0, c)
  | false ↦ elim (first_mark s) [ none ↦ none | some r ↦ some (suc r.0, r.1) ]
]

-- The name that a line defines.
unfoldable pub alias : Bytes → Option Bytes
alias line = elim (first_mark line) [
  | none ↦ none
  | some r ↦ if not (r.0 == 0) && (r.1 == b':') then some (take r.0 line) else none
]

-- A line's name, with the stream behind the line, or what is found later.
abbrev pub deliver : Option Bytes → Bytes × Bytes → Bytes → Bytes × Bytes
deliver none later rest = later
deliver (some name) later rest = (name, rest)

-- `getRecipient`, on fuel: the name, and the stream behind its line.
unfoldable pub get_recipient : ℕ → Bytes → Bytes × Bytes
get_recipient zero s = ([], s)
get_recipient (suc f) [] = ([], [])
get_recipient (suc f) (c ∷ s) =
    deliver (alias (line_of (c ∷ s))) (get_recipient f (behind_line (c ∷ s))) (behind_line (c ∷ s))

-- A string of `getRecipient`, and those of the later calls, which are made if it is not empty.
abbrev pub gather : Bytes → List Bytes → List Bytes
gather [] more = []
gather (c ∷ name) more = (c ∷ name) ∷ more

-- The calls of `getRecipient` up to the empty string, on fuel.
unfoldable pub recipients_from : ℕ → Bytes → List Bytes
recipients_from zero s = []
recipients_from (suc f) s = let r = get_recipient (length s) s in gather r.0 (recipients_from f r.1)
