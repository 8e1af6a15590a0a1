-- ===== src/Uri/Parts.antt =====
-- `parse` finds the parts of a text: the scheme, the path, the query and the fragment.
use undervest.Prelude.{
  ℕ, suc, ◌≡◌, refl, sym, ap, ◌∙◌, true, false, ◌&&◌, none, some, [], ◌∷◌, ◌++◌, ◌==◌,
  if◌then◌else◌, Bytes, codes, arith, length, length-append,
}
use undervest.FilePath
use undervest.FilePath.{FilePath, empty_path, assign, of_text}
use undervest.Uri.{
  CharSet, is_in_set, alpha, scheme_char, pchar_slash, query_char, at, skip_char_set, skip_from,
  round_of, check_char_set, is_end,
}
use undervest.Uri.Reader.{
  Uri, clear, at_place, parse_scheme, parse_authority, parse_path, parse_query, parse_fragment,
  parse_behind_authority, parse,
}
use undervest.Uri.Writer.{unless, valid_scheme, valid_path, valid_query}
use undervest.Uri.Skip.{skip_char_set-append, text_between-append, check-whole, and_then_both}

-- A query and a fragment as they follow a path.
abbrev pub fragment_text : Bytes → Bytes
fragment_text fragment = unless (is_end fragment) (b'#' ∷ fragment)

abbrev pub query_text : Bytes → Bytes → Bytes
query_text query fragment = unless (is_end query) (b'?' ∷ query) ++ fragment_text fragment

pub skip_nil : (cs : CharSet) → skip_char_set [] cs ≡ some []
unfolding skip_char_set skip_from
skip_nil cs = refl

-- a set without the first character does not pass it
round_stop :
    (cs : CharSet) (c : ℕ) (s : Bytes)
    → is_in_set cs c ≡ some false
    → round_of cs (c ∷ s) ≡ some none
unfolding round_of at
round_stop cs c s h = rw h refl

pub skip_stop :
    (cs : CharSet) (c : ℕ) (s : Bytes)
    → is_in_set cs c ≡ some false
    → skip_char_set (c ∷ s) cs ≡ some (c ∷ s)
unfolding skip_char_set skip_from
skip_stop cs c s h = rw (round_stop cs c s h, skip_from) refl

sets_stop :
    (is_in_set query_char b'#' ≡ some false)
    × (is_in_set pchar_slash b'#' ≡ some false)
    × (is_in_set pchar_slash b'?' ≡ some false)
    × (is_in_set scheme_char b':' ≡ some false)
unfolding is_in_set
sets_stop = (refl, refl, refl, refl)

pub stops_fragment :
    (cs : CharSet) (fragment : Bytes)
    → is_in_set cs b'#' ≡ some false
    → skip_char_set (fragment_text fragment) cs ≡ some (fragment_text fragment)
unfolding is_end
stops_fragment cs [] h = skip_nil cs
stops_fragment cs (c ∷ fragment) h = skip_stop cs b'#' (c ∷ fragment) h

pub stops_query :
    (query fragment : Bytes)
    → skip_char_set (query_text query fragment) pchar_slash ≡ some (query_text query fragment)
unfolding is_end
stops_query [] fragment = stops_fragment pchar_slash fragment (sets_stop.1)
stops_query (c ∷ query) fragment =
    skip_stop pchar_slash b'?' (c ∷ (query ++ fragment_text fragment)) (sets_stop.2)

parse_fragment_lem :
    (u : Uri) (fragment : Bytes)
    → valid_query fragment ≡ some true
    → u.fragment ≡ []
    → parse_fragment u (fragment_text fragment) ≡ some (record u { fragment = fragment }, [])
unfolding is_end parse_fragment valid_query at
parse_fragment_lem u [] h e = ap some (λ i. (record u { fragment = e i }, []))
parse_fragment_lem u (c ∷ fragment) h e =
    let (skipped, read) = check-whole query_char (c ∷ fragment) h in rw skipped (rw read refl)

parse_query_lem :
    (u : Uri) (query fragment : Bytes)
    → valid_query query ≡ some true
    → u.query ≡ []
    → parse_query u (query_text query fragment)
      ≡ some (record u { query = query }, fragment_text fragment)
unfolding is_end parse_query valid_query at
parse_query_lem u [] [] h e = ap some (λ i. (record u { query = e i }, []))
parse_query_lem u [] (c ∷ fragment) h e =
    ap some (λ i. (record u { query = e i }, b'#' ∷ c ∷ fragment))
parse_query_lem u (c ∷ query) fragment h e =
    rw
      (skip_char_set-append query_char (c ∷ query) (fragment_text fragment) h
        (stops_fragment query_char fragment sets_stop.0))
      (rw (text_between-append (c ∷ query) (fragment_text fragment)) refl)

-- assigning nothing to the empty path leaves it
pub assign_nil : assign empty_path [] (codes "/") ≡ empty_path
unfolding assign FilePath.normalize FilePath.walk FilePath.split_from FilePath.skip_delims
    FilePath.starts_relative
assign_nil = refl

path_step :
    (u : Uri) (path q : Bytes)
    → u.path ≡ empty_path
    → ◌≡◌ {A = Uri × Bytes}
        (if length q == length (path ++ q)
          then (u, path ++ q)
          else (record u { path = assign u.path path (codes "/") }, q))
        (record u { path = assign empty_path path (codes "/") }, q)
path_step u [] q e = rw same (λ i. (record u { path = (e ∙ sym assign_nil) i }, q))
  where
    same : (length q == length q) ≡ true
    same = ground arith
path_step u (c ∷ path) q e =
    rw other (λ i. (record u { path = assign (e i) (c ∷ path) (codes "/") }, q))
  where
    other : (length q == suc (length (path ++ q))) ≡ false
    other = let l = length-append path q in ground arith

parse_path_lem :
    (u : Uri) (path query fragment : Bytes)
    → valid_path path ≡ some true
    → u.path ≡ empty_path
    → parse_path u (path ++ query_text query fragment)
      ≡ some (record u { path = of_text path (codes "/") }, query_text query fragment)
unfolding parse_path valid_path of_text
parse_path_lem u path query fragment h e =
    rw
      (skip_char_set-append pchar_slash path (query_text query fragment) h
        (stops_query query fragment))
      (rw (text_between-append path (query_text query fragment))
        (ap some (path_step u path (query_text query fragment) e)))

-- behind the authority
pub parse_rest :
    (u : Uri) (path query fragment : Bytes)
    → valid_path path ≡ some true
    → valid_query query ≡ some true
    → valid_query fragment ≡ some true
    → u.path ≡ empty_path
    → u.query ≡ []
    → u.fragment ≡ []
    → parse_behind_authority (at_place u (path ++ query_text query fragment))
      ≡ some
          (record u { path = of_text path (codes "/"); query = query; fragment = fragment }, true)
unfolding parse_behind_authority is_end
parse_rest u path query fragment hp hq hf ep eq ef =
    rw (parse_path_lem u path query fragment hp ep) (
      rw (parse_query_lem (record u { path = of_text path (codes "/") }) query fragment hq eq) (
        rw
          (parse_fragment_lem (record u { path = of_text path (codes "/"); query = query }) fragment
            hf ef)
          refl))

slashes_stop : (query fragment : Bytes) → ((at (query_text query fragment) 0 == b'/') ≡ false)
unfolding at is_end
slashes_stop [] [] = refl
slashes_stop [] (c ∷ fragment) = refl
slashes_stop (c ∷ query) fragment = refl

pub no_slashes :
    (path query fragment : Bytes)
    → ((at path 0 == b'/') && (at path 1 == b'/')) ≡ false
    → ((at (path ++ query_text query fragment) 0 == b'/')
        && (at (path ++ query_text query fragment) 1 == b'/'))
      ≡ false
unfolding at
no_slashes [] query fragment s = rw (slashes_stop query fragment) refl
no_slashes (c ∷ []) query fragment s = rw (slashes_stop query fragment) s
no_slashes (c ∷ d ∷ path) query fragment s = s

no_authority :
    (u : Uri) (path query fragment : Bytes)
    → ((at path 0 == b'/') && (at path 1 == b'/')) ≡ false
    → parse_authority u (path ++ query_text query fragment)
      ≡ some (at_place u (path ++ query_text query fragment))
unfolding parse_authority
no_authority u path query fragment s = rw (no_slashes path query fragment s) refl

-- a valid scheme is passed up to the colon
pub parse_scheme_lem :
    (scheme rest : Bytes)
    → is_end scheme ≡ false
    → valid_scheme scheme ≡ some true
    → parse_scheme (scheme ++ (b':' ∷ rest))
      ≡ parse_authority (record clear { scheme = scheme }) rest
unfolding parse_scheme valid_scheme is_end at
parse_scheme_lem [] rest n h = absurd cc
parse_scheme_lem (c ∷ scheme) rest n h =
    let (starts, holds) =
      and_then_both (is_in_set alpha c) (check_char_set (c ∷ scheme) scheme_char) h in
    rw
      (skip_char_set-append scheme_char (c ∷ scheme) (b':' ∷ rest) holds
        (skip_stop scheme_char b':' rest (sets_stop.3)))
      (rw starts (rw (text_between-append (c ∷ scheme) (b':' ∷ rest)) refl))

-- What `parse` makes of a text with a scheme, a path, a query and a fragment.
abbrev pub parsed : Bytes → Bytes → Bytes → Bytes → Uri
parsed scheme path query fragment = record clear {
  scheme = scheme;
  path = of_text path (codes "/");
  query = query;
  fragment = fragment;
}

-- Of a text that holds a valid scheme that is not empty, a colon, a valid path that does not start
-- with two slashes, and a valid query and a valid fragment behind their marks where they are not
-- empty, `parse` finds these parts, and returns `true`.
pub parse_parts :
    (scheme path query fragment : Bytes)
    → is_end scheme ≡ false
    → valid_scheme scheme ≡ some true
    → valid_path path ≡ some true
    → valid_query query ≡ some true
    → valid_query fragment ≡ some true
    → ((at path 0 == b'/') && (at path 1 == b'/')) ≡ false
    → parse (scheme ++ (b':' ∷ (path ++ query_text query fragment)))
      ≡ some (parsed scheme path query fragment, true)
unfolding parse
parse_parts scheme path query fragment n hs hp hq hf s =
    rw (parse_scheme_lem scheme (path ++ query_text query fragment) n hs) (
      rw (no_authority (record clear { scheme = scheme }) path query fragment s)
        (parse_rest (record clear { scheme = scheme }) path query fragment hp hq hf refl refl refl))
