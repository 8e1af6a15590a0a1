-- ===== src/Uri/Reader.antt =====
-- `URI` of include/uri.h, with `clear`, `unescape` and `parse` of src/milter/uri.cpp. `none` is an
-- exception.
use undervest.Prelude.{
  ℕ, zero, suc, ◌+◌, ◌*◌, ◌-◌, ◌%◌, ◌^◌, Bool, true, false, not, ◌&&◌, Option, none, some, [], ◌∷◌,
  ltb, ◌==◌, if◌then◌else◌, Bytes, codes, ◌>>=◌, length, take, drop,
}
use undervest.Stringlib.{mem, find_char}
use undervest.FilePath.{FilePath, empty_path, assign}
use undervest.Uri.{
  is_in_set, alpha, digit, scheme_char, userinfo_char, regname_char, pchar_slash, query_char,
  hexdigit, at, is_escaped, and_then, skip_char_set, is_end, text_between,
}
use undervest.Uri.Host.{valid_host}

pub record Uri : Type 0 where
  pub scheme : Bytes
  pub userinfo : Bytes
  pub user : Bytes
  pub password : Bytes
  pub host : Bytes
  pub port : ℕ
  pub path : FilePath
  pub query : Bytes
  pub fragment : Bytes

-- What `clear` leaves.
abbrev pub clear : Uri
clear = record {
  scheme = [];
  userinfo = [];
  user = [];
  password = [];
  host = [];
  port = 0;
  path = empty_path;
  query = [];
  fragment = [];
}

-- The next character of `unescape`, and how many more characters it takes.
unfoldable pub unescape_one : Bytes → Option (ℕ × ℕ)
unescape_one p = do
  escaped ← is_escaped p
  if not escaped
      then some (at p 0, 0)
      else (do h ← hexdigit (at p 1); l ← hexdigit (at p 2); some (h * 16 + l, 2))

unfoldable pub unescape_from : ℕ → Bytes → Option Bytes
unescape_from k [] = some []
unescape_from (suc k) (c ∷ s) = unescape_from k s
unescape_from zero (c ∷ s) = elim (unescape_one (c ∷ s)) [
  | none ↦ none
  | some r ↦ unescape_from r.1 s >>= λ t. some (r.0 ∷ t)
]

unfoldable pub unescape : Bytes → Option Bytes
unescape s = unescape_from 0 s

-- The user and the password in a text of user information.
unfoldable pub split_userinfo : Uri → Option Uri
split_userinfo u = elim (find_char u.userinfo b':') [
  | none ↦ some u
  | some i ↦ do
    name ← unescape (take i u.userinfo)
    secret ← unescape (drop (suc i) u.userinfo)
    some (record u { user = name; password = secret })
]

-- How a part of `parse` ends: with `return false`, or at a place of the text.
pub data Stage : Type 0 where
  give_up : Uri → Stage
  at_place : Uri → Bytes → Stage

-- A round of the loop over the port's digits, which adds `*q`.
unfoldable pub add_digit : ℕ → ℕ → ℕ
add_digit q prt = if ltb prt 65536 then (prt * 10 + q + (2 ^ 32 - b'0')) % 2 ^ 32 else prt

unfoldable pub read_port : ℕ → ℕ → Bytes → Option (ℕ × Bytes)
read_port q prt [] = some (prt, [])
read_port q prt (c ∷ s) = elim (is_in_set digit c) [
  | none ↦ none
  | some false ↦ some (prt, c ∷ s)
  | some true ↦ read_port q (add_digit q prt) s
]

-- The port, at the place `p` behind the host, which is `q` too.
unfoldable pub parse_port : Uri → Bytes → Option Stage
parse_port u p = if not (at p 0 == b':') then some (at_place u p) else (do
  r ← read_port (at p 0) 0 (drop 1 p)
  some (
      if ltb r.0 65536
      then at_place (record u { port = r.0 }) r.1
      else give_up (record u { scheme = []; userinfo = []; host = [] })))

unfoldable pub finish_authority : Stage → Option Stage
finish_authority (give_up u) = some (give_up u)
finish_authority (at_place u p) = do u' ← split_userinfo u; some (at_place u' p)

-- A host from `p` to `q`, and what is behind it, at `r`.
unfoldable pub parse_behind_host : Uri → Bytes → Bytes → Bytes → Option Stage
parse_behind_host u p q r = do
  name ← text_between p q
  valid ← valid_host name
  if not valid
      then some (give_up (record u { scheme = []; userinfo = []; host = [] }))
      else parse_port (record u { host = name }) r >>= finish_authority

-- The host at `p`, with `q` where the user information ends.
unfoldable pub parse_host : Uri → Bytes → Bytes → Option Stage
parse_host u q p =
    if at p 0 == b'['
    then (if not (mem b']' (drop 1 p))
        then some (give_up (record u { scheme = []; userinfo = [] }))
        else parse_behind_host u (drop 1 p) q (drop 1 q))
    else (do e ← skip_char_set p regname_char; parse_behind_host u p e e)

-- What follows a scheme: with `//`, the user information and the host.
unfoldable pub parse_authority : Uri → Bytes → Option Stage
parse_authority u p =
    if not ((at p 0 == b'/') && (at p 1 == b'/')) then some (at_place u p) else (do
      q ← skip_char_set (drop 2 p) userinfo_char
      if at q 0 == b'@'
          then (do
            info ← text_between (drop 2 p) q
            parse_host (record u { userinfo = info }) q (drop 1 q))
          else parse_host u q p)

unfoldable pub parse_scheme : Bytes → Option Stage
parse_scheme p = do
  q ← skip_char_set p scheme_char
  has ← and_then (is_in_set alpha (at p 0)) (some (at q 0 == b':'))
  if not has
      then some (at_place clear p)
      else (do name ← text_between p q; parse_authority (record clear { scheme = name }) (drop 1 q))

unfoldable pub parse_path : Uri → Bytes → Option (Uri × Bytes)
parse_path u p = do
  q ← skip_char_set p pchar_slash
  text ← text_between p q
  some (
      if length q == length p
      then (u, p)
      else (record u { path = assign u.path text (codes "/") }, q))

unfoldable pub parse_query : Uri → Bytes → Option (Uri × Bytes)
parse_query u p = if not (at p 0 == b'?') then some (u, p) else (do
  q ← skip_char_set (drop 1 p) query_char
  text ← text_between (drop 1 p) q
  some (record u { query = text }, q))

unfoldable pub parse_fragment : Uri → Bytes → Option (Uri × Bytes)
parse_fragment u p = if not (at p 0 == b'#') then some (u, p) else (do
  q ← skip_char_set (drop 1 p) query_char
  text ← text_between (drop 1 p) q
  some (record u { fragment = text }, q))

unfoldable pub parse_behind_authority : Stage → Option (Uri × Bool)
parse_behind_authority (give_up u) = some (u, false)
parse_behind_authority (at_place u p) = do
  a ← parse_path u p
  b ← parse_query a.0 a.1
  c ← parse_fragment b.0 b.1
  some (c.0, is_end c.1)

-- `parse`: the URI that it leaves, and what it returns.
unfoldable pub parse : Bytes → Option (Uri × Bool)
parse uri = parse_scheme uri >>= parse_behind_authority
