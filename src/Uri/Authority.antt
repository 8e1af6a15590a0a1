-- ===== src/Uri/Authority.antt =====
-- What `parse` makes of the user information and the host.
use undervest.Prelude.{
  ℕ, suc, ◌≡◌, refl, sym, ap, ◌∙◌, Bool, true, false, Option, none, some, [], ◌∷◌, ◌++◌, ltb, ◌==◌,
  if◌then◌else◌, Bytes, codes, ◌>>=◌, arith, Bool-cases, inl, inr, take, ==_iff, length, drop,
  append_assoc,
}
use mathlib.Core.Path.{subst}
use undervest.Stringlib
use undervest.Stringlib.{mem, find_char}
use undervest.FilePath.{of_text}
use undervest.Uri.{is_in_set, userinfo_char, regname_char, at, check_char_set, is_end, text_between}
use undervest.Uri.Host.{valid_host, valid_registered_name}
use undervest.Uri.Reader.{
  unescape, Uri, clear, Stage, at_place, give_up, parse_authority, parse_host, parse_behind_host,
  parse_port, finish_authority, split_userinfo, parse_behind_authority, parse,
}
use undervest.Uri.Writer.{valid_scheme, valid_path, valid_query, valid_userinfo}
use undervest.Uri.Skip.{skip_char_set-append, text_between-append}
use undervest.Uri.Parts.{query_text, parsed, skip_stop, parse_rest, parse_scheme_lem}

marks_stop :
    (is_in_set userinfo_char b'/' ≡ some false)
    × (is_in_set userinfo_char b'@' ≡ some false)
    × (is_in_set regname_char b'/' ≡ some false)
    × (is_in_set regname_char b'[' ≡ some false)
unfolding is_in_set
marks_stop = (refl, refl, refl, refl)

itself : (s : Bytes) → text_between s s ≡ some []
itself s = text_between-append [] s

-- at a slash there is a host without characters
no_host :
    (u : Uri) (q p : Bytes)
    → u.userinfo ≡ []
    → u.host ≡ []
    → parse_host u q (b'/' ∷ p) ≡ some (at_place u (b'/' ∷ p))
unfolding parse_host parse_behind_host parse_port finish_authority split_userinfo at valid_host
    is_end Stringlib.find_char
no_host u q p e f = rw (skip_stop regname_char b'/' p marks_stop.2) (
    rw (itself (b'/' ∷ p))
      (rw e (λ i. some (at_place (record u { userinfo = []; host = sym f i }) (b'/' ∷ p)))))

not_found :
    (u : Uri) (name rest : Bytes)
    → valid_userinfo name ≡ some true
    → u.userinfo ≡ []
    → u.host ≡ []
    → parse_authority u (b'/' ∷ b'/' ∷ (name ++ (b'/' ∷ rest)))
      ≡ some (at_place u (b'/' ∷ b'/' ∷ (name ++ (b'/' ∷ rest))))
unfolding parse_authority at valid_userinfo
not_found u name rest h e f =
    rw
      (skip_char_set-append userinfo_char name (b'/' ∷ rest) h
        (skip_stop userinfo_char b'/' rest marks_stop.0))
      (no_host u (b'/' ∷ rest) (b'/' ∷ (name ++ (b'/' ∷ rest))) e f)

-- a scheme, and what `parse` makes of the rest
parse_stage :
    (scheme rest : Bytes) (st : Stage)
    → is_end scheme ≡ false
    → valid_scheme scheme ≡ some true
    → parse_authority (record clear { scheme = scheme }) rest ≡ some st
    → parse (scheme ++ (b':' ∷ rest)) ≡ parse_behind_authority st
unfolding parse
parse_stage scheme rest st n h e = rw (parse_scheme_lem scheme rest n h) (rw e refl)

-- Where a valid scheme that is not empty and `://` are followed by a text that may be user
-- information but has no `@` behind it, and by a slash, `parse` does not take the text for a host:
-- it leaves the host empty and reads the text as a part of the path.
host_unread :
    (scheme name path query fragment : Bytes)
    → is_end scheme ≡ false
    → valid_scheme scheme ≡ some true
    → valid_userinfo name ≡ some true
    → valid_path (b'/' ∷ b'/' ∷ (name ++ (b'/' ∷ path))) ≡ some true
    → valid_query query ≡ some true
    → valid_query fragment ≡ some true
    → parse
        (scheme ++ (b':' ∷ b'/' ∷ b'/' ∷ (name ++ (b'/' ∷ (path ++ query_text query fragment)))))
      ≡ some (parsed scheme (b'/' ∷ b'/' ∷ (name ++ (b'/' ∷ path))) query fragment, true)
host_unread scheme name path query fragment n hs hn hp hq hf =
    parse_stage scheme (b'/' ∷ b'/' ∷ (name ++ (b'/' ∷ (path ++ query_text query fragment))))
      (at_place (record clear { scheme = scheme })
        (b'/' ∷ b'/' ∷ (name ++ (b'/' ∷ (path ++ query_text query fragment)))))
      n hs
      (not_found (record clear { scheme = scheme }) name (path ++ query_text query fragment) hn refl
        refl)
    ∙ ap
        (λ (t : Bytes).
          parse_behind_authority (at_place (record clear { scheme = scheme }) (b'/' ∷ b'/' ∷ t)))
        (sym (append_assoc name (b'/' ∷ path) (query_text query fragment)))
    ∙ parse_rest (record clear { scheme = scheme }) (b'/' ∷ b'/' ∷ (name ++ (b'/' ∷ path))) query
        fragment hp hq hf refl refl refl

-- user information up to the `@`
with_userinfo :
    (u : Uri) (info rest : Bytes)
    → valid_userinfo info ≡ some true
    → parse_authority u (b'/' ∷ b'/' ∷ (info ++ (b'@' ∷ rest)))
      ≡ parse_host (record u { userinfo = info }) (b'@' ∷ rest) rest
unfolding parse_authority at valid_userinfo
with_userinfo u info rest h =
    rw
      (skip_char_set-append userinfo_char info (b'@' ∷ rest) h
        (skip_stop userinfo_char b'@' rest marks_stop.1))
      (rw (text_between-append info (b'@' ∷ rest)) refl)

backwards : (rest : Bytes) → text_between rest (b'@' ∷ b'[' ∷ rest) ≡ none
unfolding text_between
backwards rest = rw longer refl
  where
    longer : ltb (length rest) (length (b'@' ∷ b'[' ∷ rest)) ≡ true
    longer = ground arith

bracket :
    (u : Uri) (rest : Bytes)
    → parse_host u (b'@' ∷ b'[' ∷ rest) (b'[' ∷ rest)
      ≡ (if mem b']' rest then none else some (give_up (record u { scheme = []; userinfo = [] })))
unfolding parse_host parse_behind_host at
bracket u rest = elim (Bool-cases (mem b']' rest)) [
  | inl e ↦ rw e (rw (backwards rest) refl)
  | inr e ↦ rw e refl
]

thrown :
    (b : Bool)
    → ((if b then none else some (give_up clear)) >>= parse_behind_authority)
      ≡ (if b then none else some (clear, false))
unfolding parse_behind_authority
thrown true = refl
thrown false = refl

-- Where a valid scheme that is not empty, `://`, valid user information and `@` are followed by a
-- host in brackets, `parse` throws, and without the closing bracket it returns `false` and leaves
-- the URI empty.
bracket_throws :
    (scheme info rest : Bytes)
    → is_end scheme ≡ false
    → valid_scheme scheme ≡ some true
    → valid_userinfo info ≡ some true
    → parse (scheme ++ (b':' ∷ b'/' ∷ b'/' ∷ (info ++ (b'@' ∷ b'[' ∷ rest))))
      ≡ (if mem b']' rest then none else some (clear, false))
unfolding parse parse_behind_authority
bracket_throws scheme info rest n hs hi =
    rw (parse_scheme_lem scheme (b'/' ∷ b'/' ∷ (info ++ (b'@' ∷ b'[' ∷ rest))) n hs) (
      rw (with_userinfo (record clear { scheme = scheme }) info (b'[' ∷ rest) hi) (
        rw (bracket (record clear { scheme = scheme; userinfo = info }) rest)
          (thrown (mem b']' rest))))

abbrev pub Keeps : Uri → Uri → Type 0
Keeps u u' = u' ≡ record u { user = u'.user; password = u'.password }

Keeps-same : (u u' : Uri) → some u ≡ some u' → Keeps u u'
Keeps-same u u' h = subst (Keeps u) e refl
  where
    e : u ≡ u'
    e = cc

Keeps-both :
    (u u' : Uri) (a b : Option Bytes)
    → (a >>= λ name. b >>= λ secret. some (record u { user = name; password = secret })) ≡ some u'
    → Keeps u u'
Keeps-both u u' (some n) (some s) h = Keeps-same (record u { user = n; password = s }) u' h
Keeps-both u u' none b h = absurd cc
Keeps-both u u' (some n) none h = absurd cc

pub split-Keeps : (u u' : Uri) → split_userinfo u ≡ some u' → Keeps u u'
unfolding split_userinfo
split-Keeps u u' h = go (find_char u.userinfo b':') h
  where
    go :
        (o : Option ℕ)
        → (elim o [
          | none ↦ some u
          | some i ↦ unescape (take i u.userinfo) >>= λ name.
              unescape (drop (suc i) u.userinfo) >>= λ secret.
              some (record u { user = name; password = secret })
        ])
          ≡ some u'
        → Keeps u u'
    go none k = Keeps-same u u' k
    go (some i) k =
        Keeps-both u u' (unescape (take i u.userinfo)) (unescape (drop (suc i) u.userinfo)) k

bracket_invalid : (s : Bytes) → valid_registered_name (b'[' ∷ s) ≡ some false
unfolding valid_registered_name check_char_set is_end
bracket_invalid s = rw (skip_stop regname_char b'[' s outside) refl
  where
    outside : is_in_set regname_char b'[' ≡ some false
    outside = marks_stop.3

not_bracket :
    (name rest : Bytes)
    → valid_registered_name name ≡ some true
    → (at (name ++ (b'/' ∷ rest)) 0 == b'[') ≡ false
unfolding at
not_bracket [] rest h = refl
not_bracket (c ∷ name) rest h = elim (Bool-cases (c == b'[')) [
  | inr e ↦ e
  | inl e ↦ absurd (opened ((==_iff c b'[').0 e))
]
  where
    opened : c ≡ b'[' → ⊥
    opened e =
        let k : valid_registered_name (b'[' ∷ name) ≡ some true =
          subst (λ (x : ℕ). valid_registered_name (x ∷ name) ≡ some true) e h in
        let f = bracket_invalid name in absurd cc

-- user information and a name behind it, up to a slash
found :
    (u u' : Uri) (info name rest : Bytes)
    → valid_userinfo info ≡ some true
    → valid_registered_name name ≡ some true
    → valid_host name ≡ some true
    → split_userinfo (record u { userinfo = info; host = name }) ≡ some u'
    → parse_authority u (b'/' ∷ b'/' ∷ (info ++ (b'@' ∷ (name ++ (b'/' ∷ rest)))))
      ≡ some (at_place u' (b'/' ∷ rest))
unfolding parse_host parse_behind_host parse_port finish_authority at valid_registered_name
found u u' info name rest hi hn hh hs =
    with_userinfo u info (name ++ (b'/' ∷ rest)) hi
    ∙ rw (not_bracket name rest hn) (
        rw
          (skip_char_set-append regname_char name (b'/' ∷ rest) hn
            (skip_stop regname_char b'/' rest marks_stop.2))
          (rw (text_between-append name (b'/' ∷ rest)) (rw hh (rw hs refl))))

-- Where a valid scheme that is not empty, `://`, valid user information, `@`, a valid name of a
-- host and a valid path that starts with a slash follow each other, and a valid query and a valid
-- fragment behind their marks where they are not empty, `parse` finds these parts, with the user and the password that the user information
-- holds, and returns `true`.
pub host_read :
    (scheme info name path query fragment : Bytes) (u : Uri)
    → is_end scheme ≡ false
    → valid_scheme scheme ≡ some true
    → valid_userinfo info ≡ some true
    → valid_registered_name name ≡ some true
    → valid_host name ≡ some true
    → valid_path (b'/' ∷ path) ≡ some true
    → valid_query query ≡ some true
    → valid_query fragment ≡ some true
    → split_userinfo (record clear { scheme = scheme; userinfo = info; host = name }) ≡ some u
    → parse (
        scheme
        ++ (b':'
            ∷ b'/'
            ∷ b'/'
            ∷ (info ++ (b'@' ∷ (name ++ (b'/' ∷ (path ++ query_text query fragment)))))))
      ≡ some (
        record u { path = of_text (b'/' ∷ path) (codes "/"); query = query; fragment = fragment },
        true,
      )
host_read scheme info name path query fragment u n hs hi hr hn hp hq hf hu =
    parse_stage scheme
      (b'/' ∷ b'/' ∷ (info ++ (b'@' ∷ (name ++ (b'/' ∷ (path ++ query_text query fragment))))))
      (at_place u (b'/' ∷ (path ++ query_text query fragment))) n hs
      (found (record clear { scheme = scheme }) u info name (path ++ query_text query fragment) hi
        hr hn hu)
    ∙ parse_rest u (b'/' ∷ path) query fragment hp hq hf (ap (λ (v : Uri). v.path) kept)
        (ap (λ (v : Uri). v.query) kept) (ap (λ (v : Uri). v.fragment) kept)
  where
    kept : Keeps (record clear { scheme = scheme; userinfo = info; host = name }) u
    kept = split-Keeps (record clear { scheme = scheme; userinfo = info; host = name }) u hu
