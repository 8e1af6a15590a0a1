-- ===== src/Uri/Writer.antt =====
-- The text of a `URI`, and the setters of include/uri.h. `none` is an exception.
use undervest.Prelude.{
  ℕ, zero, suc, ◌+◌, ◌/◌, ◌%◌, Bool, true, false, not, ◌&&◌, Option, none, some, List, [], ◌∷◌, ltb,
  ◌==◌, if◌then◌else◌, Bytes, codes, ◌>>=◌, ◌++◌,
}
use undervest.FilePath.{assign, get}
use undervest.Uri.{
  is_in_set, alpha, scheme_char, userinfo_char, pchar, pchar_slash, query_char, at, and_then,
  or_else, check_char_set, is_end,
}
use undervest.Uri.Host.{valid_host, valid_ipv6, valid_future}
use undervest.Uri.Reader.{Uri, split_userinfo}

-- `std::to_string`, on fuel, with the digits that come behind.
unfoldable pub decimal_from : ℕ → ℕ → Bytes → Bytes
decimal_from zero n rest = rest
decimal_from (suc f) n rest =
    let more = decimal_from f (n / 10) ((b'0' + n % 10) ∷ rest) in
    if ltb n 10 then (b'0' + n) ∷ rest else more

unfoldable pub decimal : ℕ → Bytes
decimal n = decimal_from (suc n) n []

-- A part of the text, where the URI has it.
abbrev pub unless : Bool → Bytes → Bytes
unless true s = []
unless false s = s

unfoldable pub print_host : Bytes → Option Bytes
print_host host = if is_end host then some [] else (do
  bracketed ← or_else (valid_ipv6 host) (valid_future host)
  some (if bracketed then b'[' ∷ (host ++ (b']' ∷ [])) else host))

unfoldable pub print_authority : Uri → Option Bytes
print_authority u =
    if is_end u.userinfo && is_end u.host && (u.port == 0) && u.path.relative then some [] else (do
      host ← print_host u.host
      some (
          b'/'
          ∷ b'/'
          ∷ (unless (is_end u.userinfo) (u.userinfo ++ (b'@' ∷ []))
              ++ (host ++ unless (u.port == 0) (b':' ∷ decimal u.port)))))

-- `empty` of the path
unfoldable pub no_components : List Bytes → Bool
no_components [] = true
no_components (_ ∷ _) = false

-- `operator std::string`
unfoldable pub print : Uri → Option Bytes
print u = do
  authority ← print_authority u
  some (
      unless (is_end u.scheme) (u.scheme ++ (b':' ∷ []))
      ++ (authority
          ++ (unless (no_components u.path.components && u.path.relative) (get u.path false b'/')
              ++ (unless (is_end u.query) (b'?' ∷ u.query)
                  ++ unless (is_end u.fragment) (b'#' ∷ u.fragment)))))

-- `valid_scheme`
unfoldable pub valid_scheme : Bytes → Option Bool
valid_scheme schm =
    or_else (some (is_end schm))
      (and_then (is_in_set alpha (at schm 0)) (check_char_set schm scheme_char))

unfoldable pub valid_userinfo : Bytes → Option Bool
valid_userinfo info = check_char_set info userinfo_char

unfoldable pub valid_path : Bytes → Option Bool
valid_path pth = check_char_set pth pchar_slash

unfoldable pub valid_segment : Bytes → Option Bool
valid_segment segmt = check_char_set segmt pchar

-- `valid_query`, and `valid_fragment`
unfoldable pub valid_query : Bytes → Option Bool
valid_query qry = check_char_set qry query_char

-- A setter: the changed URI and `true`, where the new part is valid.
abbrev set_if : Option Bool → Uri → Uri → Option (Uri × Bool)
set_if none u u' = none
set_if (some valid) u u' = some (if valid then (u', true) else (u, false))

unfoldable pub set_scheme : Uri → Bytes → Option (Uri × Bool)
set_scheme u schm = set_if (valid_scheme schm) u (record u { scheme = schm })

unfoldable pub set_userinfo : Uri → Bytes → Option (Uri × Bool)
set_userinfo u info = do
  valid ← valid_userinfo info
  if not valid then some (u, false) else (do
    u' ← split_userinfo (record u { userinfo = info; user = []; password = [] })
    some (u', true))

unfoldable pub set_host : Uri → Bytes → Option (Uri × Bool)
set_host u hst = set_if (valid_host hst) u (record u { host = hst })

unfoldable pub set_path : Uri → Bytes → Option (Uri × Bool)
set_path u pth = set_if (valid_path pth) u (record u { path = assign u.path pth (codes "/") })

unfoldable pub replace_at : ℕ → Bytes → List Bytes → List Bytes
replace_at n x [] = []
replace_at zero x (y ∷ ys) = x ∷ ys
replace_at (suc n) x (y ∷ ys) = y ∷ replace_at n x ys

-- `segment`, for a number below the number of components: another one is undefined behaviour.
unfoldable pub set_segment : Uri → ℕ → Bytes → Option (Uri × Bool)
set_segment u n segmt =
    set_if (valid_segment segmt) u
      (record u { path = record (u.path) { components = replace_at n segmt u.path.components } })

unfoldable pub set_query : Uri → Bytes → Option (Uri × Bool)
set_query u qry = set_if (valid_query qry) u (record u { query = qry })

unfoldable pub set_fragment : Uri → Bytes → Option (Uri × Bool)
set_fragment u frgmt = set_if (valid_query frgmt) u (record u { fragment = frgmt })
