-- ===== src/Uri/Round.antt =====
-- The text of a URI, parsed again.
use mathlib.Core.Path.{subst}
use undervest.Prelude.{
  ℕ, ◌≡◌, refl, sym, ap, ◌∙◌, Bool, true, false, ◌&&◌, Option, some, List, [], ◌∷◌, ◌++◌, ◌==◌,
  Bytes, codes, ◌>>=◌, All, append_assoc, append-nil, arith,
}
use undervest.Stringlib.{mem}
use undervest.FilePath.{FilePath, of_text, get}
use undervest.FilePath.Normal.{IsNormal}
use undervest.FilePath.Pieces.{IsClean, joined}
use undervest.FilePath.Text.{get-of_text, get-relative, get-absolute}
use undervest.Uri.{at, or_else, is_end}
use undervest.Uri.Host.{valid_host, valid_ipv6, valid_future, valid_registered_name}
use undervest.Uri.Reader.{Uri, clear, split_userinfo, parse}
use undervest.Uri.Writer.{
  unless, no_components, print, print_authority, print_host, valid_scheme, valid_path, valid_query,
  valid_userinfo,
}
use undervest.Uri.Parts.{query_text, parse_parts, assign_nil}
use undervest.Uri.Authority.{host_read, split-Keeps}

abbrev slash : Bytes
slash = codes "/"

abbrev pub relative_path : List Bytes → FilePath
relative_path cs = record { relative = true; components = cs }

abbrev pub absolute_path : List Bytes → FilePath
absolute_path cs = record { relative = false; components = cs }

-- A URI without user information, host and port.
abbrev pub local_uri : Bytes → FilePath → Bytes → Bytes → Uri
local_uri scheme path query fragment = record clear {
  scheme = scheme;
  path = path;
  query = query;
  fragment = fragment;
}

abbrev path_text : List Bytes → Bytes
path_text [] = []
path_text (x ∷ xs) = get (relative_path (x ∷ xs)) false b'/'

print_local :
    (scheme : Bytes) (cs : List Bytes) (query fragment : Bytes)
    → is_end scheme ≡ false
    → print (local_uri scheme (relative_path cs) query fragment)
      ≡ some (scheme ++ (b':' ∷ (path_text cs ++ query_text query fragment)))
unfolding print print_authority no_components is_end
print_local scheme [] query fragment n =
    rw n (ap some (append_assoc scheme (b':' ∷ []) (query_text query fragment)))
print_local scheme (x ∷ xs) query fragment n =
    rw n
      (ap some (append_assoc scheme (b':' ∷ []) (path_text (x ∷ xs) ++ query_text query fragment)))

path_text-of_text :
    (cs : List Bytes)
    → IsNormal (relative_path cs)
    → All (IsClean slash) cs
    → of_text (path_text cs) slash ≡ relative_path cs
unfolding of_text
path_text-of_text [] n h = assign_nil
path_text-of_text (x ∷ xs) n h = get-of_text (relative_path (x ∷ xs)) b'/' slash n h refl refl

first_other : (c : ℕ) → mem c slash ≡ false → (c == b'/') ≡ false
first_other c h = ground arith

joined-at :
    (x : Bytes) (xs : List Bytes) → IsClean slash x → (at (joined b'/' (x ∷ xs)) 0 == b'/') ≡ false
unfolding at
joined-at [] xs h = absurd h
joined-at (c ∷ x) [] h = first_other c h.0
joined-at (c ∷ x) (y ∷ ys) h = first_other c h.0

path_text-slashes :
    (cs : List Bytes)
    → All (IsClean slash) cs
    → ((at (path_text cs) 0 == b'/') && (at (path_text cs) 1 == b'/')) ≡ false
unfolding at
path_text-slashes [] h = refl
path_text-slashes (x ∷ xs) h =
    subst (λ (t : Bytes). ((at t 0 == b'/') && (at t 1 == b'/')) ≡ false)
      (sym (get-relative b'/' slash x xs h.0)) (rw (joined-at x xs h.0) refl)

-- A URI with a valid scheme that is not empty, without user information, host and port, with a
-- normal relative path whose components have a character and no slash and whose text is valid, and
-- with a valid query and a valid fragment has a text, and `parse` of the text is the URI.
print-parse_local :
    (scheme : Bytes) (cs : List Bytes) (query fragment : Bytes)
    → is_end scheme ≡ false
    → valid_scheme scheme ≡ some true
    → IsNormal (relative_path cs)
    → All (IsClean slash) cs
    → valid_path (path_text cs) ≡ some true
    → valid_query query ≡ some true
    → valid_query fragment ≡ some true
    → (print (local_uri scheme (relative_path cs) query fragment) >>= parse)
      ≡ some (local_uri scheme (relative_path cs) query fragment, true)
print-parse_local scheme cs query fragment n hs np h hp hq hf =
    rw (print_local scheme cs query fragment n) (
      parse_parts scheme (path_text cs) query fragment n hs hp hq hf (path_text-slashes cs h)
      ∙ ap (λ (p : FilePath). some (local_uri scheme p query fragment, true))
          (path_text-of_text cs np h))

always : (b : Bool) (s : Bytes) → unless (b && false) s ≡ s
always true s = refl
always false s = refl

glued :
    (s i h r : Bytes)
    → (s ++ (b':' ∷ [])) ++ ((b'/' ∷ b'/' ∷ ((i ++ (b'@' ∷ [])) ++ (h ++ []))) ++ r)
      ≡ s ++ (b':' ∷ b'/' ∷ b'/' ∷ (i ++ (b'@' ∷ (h ++ r))))
glued s i h r = simp (append_assoc, append-nil)

print_remote :
    (u : Uri) (cs : List Bytes) (query fragment : Bytes)
    → is_end u.scheme ≡ false
    → is_end u.userinfo ≡ false
    → is_end u.host ≡ false
    → u.port ≡ 0
    → or_else (valid_ipv6 u.host) (valid_future u.host) ≡ some false
    → print (record u { path = absolute_path cs; query = query; fragment = fragment })
      ≡ some (
          u.scheme
          ++ (b':'
              ∷ b'/'
              ∷ b'/'
              ∷ (u.userinfo
                  ++ (b'@' ∷ (u.host ++ (b'/' ∷ (joined b'/' cs ++ query_text query fragment)))))))
unfolding print print_authority print_host no_components
print_remote u cs query fragment ns ni nh z b = rw ni (
    rw nh (
      rw b (
        rw ns (
          rw z (
            rw (get-absolute b'/' cs) (
              rw (always (no_components cs) (b'/' ∷ joined b'/' cs)) (
                ap some (
                  glued u.scheme u.userinfo u.host
                    (b'/' ∷ (joined b'/' cs ++ query_text query fragment))))))))))

-- A URI with a valid scheme, valid user information and a valid name of a host, none of them empty
-- and the name not written in brackets, with the user and the password that the user information
-- holds, without port, with a normal absolute path whose components have a character and no slash
-- and whose text is valid, and with a valid query and a valid fragment has a text, and `parse` of
-- the text is the URI.
pub print-parse_remote :
    (scheme info name : Bytes) (u : Uri) (cs : List Bytes) (query fragment : Bytes)
    → is_end scheme ≡ false
    → is_end info ≡ false
    → is_end name ≡ false
    → valid_scheme scheme ≡ some true
    → valid_userinfo info ≡ some true
    → valid_registered_name name ≡ some true
    → valid_host name ≡ some true
    → or_else (valid_ipv6 name) (valid_future name) ≡ some false
    → split_userinfo (record clear { scheme = scheme; userinfo = info; host = name }) ≡ some u
    → IsNormal (absolute_path cs)
    → All (IsClean slash) cs
    → valid_path (b'/' ∷ joined b'/' cs) ≡ some true
    → valid_query query ≡ some true
    → valid_query fragment ≡ some true
    → (print (record u { path = absolute_path cs; query = query; fragment = fragment }) >>= parse)
      ≡ some (record u { path = absolute_path cs; query = query; fragment = fragment }, true)
print-parse_remote scheme info name u cs query fragment ns ni nn hs hi hr hn hb hu np h hp hq hf =
    ap (λ (o : Option Bytes). o >>= parse) printed
    ∙ host_read scheme info name (joined b'/' cs) query fragment u ns hs hi hr hn hp hq hf hu
    ∙ ap (λ (p : FilePath). some (record u { path = p; query = query; fragment = fragment }, true))
        (ap (λ (t : Bytes). of_text t slash) (sym (get-absolute b'/' cs))
          ∙ get-of_text (absolute_path cs) b'/' slash np h refl refl)
  where
    base : Uri
    base = record clear { scheme = scheme; userinfo = info; host = name }

    printed :
        print (record u { path = absolute_path cs; query = query; fragment = fragment })
        ≡ some (
            scheme
            ++ (b':'
                ∷ b'/'
                ∷ b'/'
                ∷ (info
                    ++ (b'@' ∷ (name ++ (b'/' ∷ (joined b'/' cs ++ query_text query fragment)))))))
    printed =
        ap
          (λ (w : Uri).
            print (record w { path = absolute_path cs; query = query; fragment = fragment }))
          (split-Keeps base u hu)
        ∙ print_remote (record base { user = u.user; password = u.password }) cs query fragment ns
            ni nn refl hb
