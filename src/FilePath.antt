-- ===== src/FilePath.antt =====
-- include/filepath.h: file paths as a list of components and a flag.
pub mod Normal
pub mod Cuts
pub mod Parents
pub mod Pieces
pub mod Relative
pub mod Split
pub mod Text
use mathlib.Core.List.{reverse}
use undervest.Prelude.{
  ℕ, zero, suc, ◌+◌, ◌-◌, Bool, true, false, not, ◌&&◌, ◌||◌, Option, none, some, List, [], ◌∷◌,
  ◌++◌, leb, ltb, ◌==◌, if◌then◌else◌, Bytes, codes, beq, min, length, take, drop, replicate,
}
use undervest.Prelude.Int.{ℤ, pos, negsuc}
use undervest.Stringlib.{mem}

pub record FilePath : Type 0 where
  pub relative : Bool
  pub components : List Bytes

abbrev pub dot : Bytes
dot = b'.' ∷ []

abbrev pub dotdot : Bytes
dotdot = b'.' ∷ b'.' ∷ []

-- `operator==` of the flags
abbrev pub same_flag : Bool → Bool → Bool
same_flag true b = b
same_flag false b = not b

-- `..` in `normalize`, behind the components `done`, the last one first.
unfoldable pub up : Bool → List Bytes → List Bytes
up relative [] = if relative then dotdot ∷ [] else []
up relative (d ∷ done) = if beq d dotdot then dotdot ∷ d ∷ done else done

unfoldable pub step : Bool → List Bytes → Bytes → List Bytes
step relative done x =
    if beq x dot then done else if beq x dotdot then up relative done else x ∷ done

-- `erase(p--)` and `p -= 2` may leave `p` one place before the first; it is then moved to the first.
-- The loop of `normalize`, at the position between `done`, the last one first, and the rest.
unfoldable pub walk : Bool → List Bytes → List Bytes → List Bytes
walk relative done [] = done
walk relative done (x ∷ xs) = walk relative (step relative done x) xs

unfoldable pub normalize : FilePath → FilePath
normalize p = record p { components = reverse (walk p.relative [] p.components) }

-- `parentCount`, over the components.
unfoldable pub parent_count : List Bytes → ℕ
parent_count [] = 0
parent_count (x ∷ xs) = let rest = parent_count xs in if beq x dotdot then suc rest else 0

-- The loop of `commonPrefixLength` and `commonSuffixLength`.
unfoldable pub common_length : ℕ → List Bytes → List Bytes → ℕ
common_length zero ps qs = 0
common_length (suc n) (p ∷ ps) (q ∷ qs) =
    let rest = common_length n ps qs in if beq p q then suc rest else 0
common_length (suc n) _ _ = 0

unfoldable pub common_prefix_length : FilePath → FilePath → ℕ
common_prefix_length p path =
    if not (same_flag p.relative path.relative)
    then 0
    else common_length (min (length p.components) (length path.components)) p.components
        path.components

unfoldable pub common_suffix_length : FilePath → FilePath → ℕ
common_suffix_length p path =
    common_length (min (length p.components) (length path.components)) (reverse p.components)
      (reverse path.components)

-- `clear`, and the constructor without arguments.
abbrev pub empty_path : FilePath
empty_path = record { relative = true; components = [] }

-- `find_first_not_of(delims, n)` and `find_first_of(delims, n)`: the text from there on.
unfoldable pub skip_delims : Bytes → Bytes → Bytes
skip_delims delims [] = []
skip_delims delims (c ∷ s) = let rest = skip_delims delims s in if mem c delims then rest else c ∷ s

unfoldable pub component : Bytes → Bytes → Bytes
component delims [] = []
component delims (c ∷ s) = let rest = component delims s in if mem c delims then [] else c ∷ rest

unfoldable pub behind_component : Bytes → Bytes → Bytes
behind_component delims [] = []
behind_component delims (c ∷ s) =
    let rest = behind_component delims s in if mem c delims then c ∷ s else rest

-- The loop of `assign`, on fuel: each round reads a character or more. The text starts at `n`.
unfoldable pub split_from : ℕ → Bytes → Bytes → List Bytes
split_from zero delims s = []
split_from (suc f) delims [] = []
split_from (suc f) delims (c ∷ s) =
    component delims (c ∷ s)
    ∷ split_from f delims (skip_delims delims (behind_component delims (c ∷ s)))

unfoldable pub starts_relative : Bytes → Bytes → Bool
starts_relative [] delims = true
starts_relative (c ∷ s) delims = not (mem c delims)

-- `assign` of a text. The components are added behind those that the path has.
unfoldable pub assign : FilePath → Bytes → Bytes → FilePath
assign p path delims = normalize (record {
  relative = starts_relative path delims;
  components = p.components ++ split_from (length path) delims (skip_delims delims path);
})

-- The constructor from a text.
unfoldable pub of_text : Bytes → Bytes → FilePath
of_text path delims = assign empty_path path delims

-- `operator+=`; `none` is the exception.
unfoldable pub plus : FilePath → FilePath → Option FilePath
plus p y =
    if not y.relative
    then none
    else some (normalize (record p { components = p.components ++ y.components }))

unfoldable pub resolve_relative : FilePath → FilePath → Option FilePath
resolve_relative p base = if not p.relative then some p else plus base p

-- `relativeFrom`; `none` is the exception.
unfoldable pub relative_from : FilePath → FilePath → Option FilePath
relative_from p base =
    if not (same_flag p.relative base.relative)
      || ltb (parent_count p.components) (parent_count base.components)
    then none
    else let n = common_prefix_length p base in
      plus (record { relative = true; components = replicate (length base.components - n) dotdot })
        (record { relative = true; components = drop n p.components })

-- How `operator/=` ends: with a path, by the exception, or behind its last statement with no
-- `return`, which the language leaves undefined.
pub data Division : Type 0 where
  quotient : FilePath → Division
  unrelated : Division
  no_return : FilePath → Division

-- `operator/=` and `baseOf`; `no_return` has the path as it was changed.
unfoldable pub base_of : FilePath → FilePath → Division
base_of p y =
    if not y.relative
    then if p.relative then unrelated else quotient (record p { components = [] })
    else (let n = common_suffix_length p y in
        if not (n == length y.components)
        then unrelated
        else no_return (record p { components = take (length p.components - n) p.components }))

unfoldable pub common_prefix : FilePath → FilePath → FilePath
common_prefix p path =
    if not (same_flag p.relative path.relative)
    then empty_path
    else record p { components = take (common_prefix_length p path) p.components }

unfoldable pub common_suffix : FilePath → FilePath → FilePath
common_suffix p path =
    let n = common_suffix_length p path in
    record {
      relative =
          not (n == length p.components)
          || not (n == length path.components)
          || (p.relative && path.relative);
      components = drop (length p.components - n) p.components;
    }

-- `operator<<=`; `operator>>=` has the opposite number.
unfoldable pub shift : FilePath → ℤ → FilePath
shift p (pos zero) = p
shift p (pos (suc k)) =
    if leb (length p.components) (suc k)
    then record p { components = [] }
    else record { relative = true; components = drop (suc k) p.components }
shift p (negsuc k) =
    if leb (length p.components) (suc k)
    then record p { components = [] }
    else record p { components = take (length p.components - suc k) p.components }

unfoldable pub dirname : FilePath → FilePath
dirname p = normalize (record p { components = p.components ++ (dotdot ∷ []) })

-- `back()` of the components, and `dflt` if there is none.
unfoldable pub back_or : Bytes → List Bytes → Bytes
back_or dflt [] = dflt
back_or dflt (x ∷ []) = x
back_or dflt (x ∷ y ∷ xs) = back_or dflt (y ∷ xs)

-- `filename`. `std::string(c, 1)` is the character 1, as often as the code of `c` says.
unfoldable pub filename : FilePath → ℕ → Bytes
filename p delim =
    let name = back_or (replicate (if p.relative then b'.' else delim) 1) p.components in
    if beq name dotdot then [] else name

-- The loop of `get`, over the components from the last one on.
unfoldable pub get_from : ℕ → List Bytes → Bytes → Bytes → Bytes
get_from delim [] d path = path
get_from delim (x ∷ xs) d path = get_from delim xs (delim ∷ []) (x ++ (d ++ path))

unfoldable pub is_nil : Bytes → Bool
is_nil [] = true
is_nil (_ ∷ _) = false

-- The delimiter behind the loop of `get`.
unfoldable pub delim_after : ℕ → Bytes → List Bytes → Bytes
delim_after delim d [] = d
delim_after delim d (_ ∷ _) = delim ∷ []

unfoldable pub get : FilePath → Bool → ℕ → Bytes
get p as_dir delim =
    let d = if as_dir then delim ∷ [] else [] in
    let path = get_from delim (reverse p.components) d [] in
    if not p.relative
    then delim ∷ path
    else if is_nil path
    then b'.' ∷ delim_after delim d p.components
    else path

-- `to_string`, which passes its delimiter where `get` takes its first argument.
unfoldable pub to_string : FilePath → ℕ → Bytes
to_string path delim = get path (not (delim == 0)) b'/'

-- The overloads that take a text: `operator+=` and `operator+`.
unfoldable pub plus_text : FilePath → Bytes → Option FilePath
plus_text p y = plus p (of_text y (b'/' ∷ []))

unfoldable pub resolve_relative_text : FilePath → Bytes → Bytes → Option FilePath
resolve_relative_text p base delims = resolve_relative p (of_text base delims)

-- `relativeFrom` of a `std::string`, which makes no use of `delims`.
unfoldable pub relative_from_text : FilePath → Bytes → Bytes → Option FilePath
relative_from_text p base delims = relative_from p (of_text base (b'/' ∷ []))

-- `relativeFrom` of a `const char *`.
unfoldable pub relative_from_chars : FilePath → Bytes → Bytes → Option FilePath
relative_from_chars p base delims = relative_from p (of_text base delims)

-- `operator-=` and `operator-`
unfoldable pub minus : FilePath → FilePath → Option FilePath
minus p y = relative_from p y

unfoldable pub minus_text : FilePath → Bytes → Option FilePath
minus_text p y = minus p (of_text y (b'/' ∷ []))

unfoldable pub base_of_text : FilePath → Bytes → Bytes → Division
base_of_text p path delims = base_of p (of_text path delims)

unfoldable pub common_prefix_text : FilePath → Bytes → Bytes → FilePath
common_prefix_text p suffix delims = common_prefix p (of_text suffix delims)

unfoldable pub common_suffix_text : FilePath → Bytes → Bytes → FilePath
common_suffix_text p suffix delims = common_suffix p (of_text suffix delims)

-- `operator+` and `operator-` of a text and a path.
unfoldable pub text_plus : Bytes → FilePath → Option FilePath
text_plus x y = plus (of_text x (b'/' ∷ [])) y

unfoldable pub text_minus : Bytes → FilePath → Option FilePath
text_minus x y = minus (of_text x (b'/' ∷ [])) y
