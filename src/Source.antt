-- ===== src/Source.antt =====
-- src/milter/source.cpp, include/source.h: reading the addresses of a source. The three functions
-- of a loader, from a shared library, are a parameter: what they give for a source.
pub mod Entries
pub mod Log
pub mod Loader
use undervest.Prelude.{
  ℕ, suc, Bool, true, false, not, Option, none, some, List, [], ◌∷◌, ◌==◌, if◌then◌else◌, Bytes,
  beq, count, take, drop,
}
use undervest.Stringlib.{find_char, strtolower}

pub record Source : Type 0 where
  pub uri : Bytes
  pub loader : Bytes

-- What is thrown: `AlreadyLogged`, or another exception with its text.
pub data Failure : Type 0 where
  already_logged : Failure
  exception : Bytes → Failure

-- `openSource` throws; or `getRecipient` returns these strings, and then the empty string or an
-- exception.
pub data Reading : Type 0 where
  open_throws : Failure → Reading
  gives : List Bytes → Option Failure → Reading

-- `c_str` ends at the first zero.
unfoldable pub c_str : Bytes → Bytes
c_str [] = []
c_str (c ∷ s) = let rest = c_str s in if c == 0 then [] else c ∷ rest

-- `!strcasecmp(a, b)` in the "C" locale.
unfoldable pub same_name : Bytes → Bytes → Bool
same_name a b = beq (strtolower (c_str a)) (strtolower (c_str b))

-- The local part to keep of a string of the loader, if it is kept.
unfoldable pub local_part : Bytes → Bytes → Option Bytes
local_part domname recipient = elim (find_char recipient b'@') [
  | none ↦ some (strtolower recipient)
  | some i ↦
      if same_name domname (drop (suc i) recipient)
      then some (strtolower (take i recipient))
      else none
]

-- `us_emplace(domain->recipients, ...)`
unfoldable pub emplace : List Bytes → Option Bytes → List Bytes
emplace rs none = rs
emplace rs (some r) = if count r rs == 0 then r ∷ rs else rs

-- The loop over the strings, up to the empty one or the exception.
unfoldable pub load_entries :
    Bytes → List Bytes → List Bytes → Option Failure → List Bytes × Option Failure
load_entries domname rs [] f = (rs, f)
load_entries domname rs ([] ∷ es) f = (rs, none)
load_entries domname rs ((c ∷ e) ∷ es) f =
    load_entries domname (emplace rs (local_part domname (c ∷ e))) es f

-- What `log_throw` makes of an exception.
abbrev pub rethrow : Option Failure → Option Failure
rethrow none = none
rethrow (some already_logged) = some already_logged
rethrow (some (exception msg)) = some already_logged

abbrev rethrown : List Bytes × Option Failure → List Bytes × Option Failure
rethrown (rs, f) = (rs, rethrow f)

-- The recipients of the domain afterwards, and what is thrown. `closeSource` runs on every path
-- behind `openSource`.
unfoldable pub load_data : Bytes → List Bytes → Reading → List Bytes × Option Failure
load_data domname rs (open_throws f) = (rs, rethrow (some f))
load_data domname rs (gives entries f) = rethrown (load_entries domname rs entries f)
