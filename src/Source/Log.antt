-- ===== src/Source/Log.antt =====
-- `Source::log` of src/milter/source.cpp: the text of a message about a source, with its URI. `none` is an
-- exception.
use undervest.Prelude.{
  ◌≡◌, refl, sym, ap, ◌∙◌, true, false, Option, some, [], ◌∷◌, ◌++◌, if◌then◌else◌, Bytes, codes,
  ◌>>=◌,
}
use undervest.Stringlib
use undervest.FilePath.{of_text}
use undervest.Uri
use undervest.Uri.{is_end}
use undervest.Uri.Host.{valid_host, valid_registered_name}
use undervest.Uri.Reader.{Uri, clear, parse, split_userinfo}
use undervest.Uri.Writer.{
  print, set_userinfo, valid_scheme, valid_userinfo, valid_path, valid_query,
}
use undervest.Uri.Parts.{query_text}
use undervest.Uri.Authority.{host_read, split-Keeps}

abbrev pub stars : Bytes
stars = codes "***"

-- `if (!u.userinfo().empty()) u.userinfo("***")`
unfoldable pub mask : Uri → Option Uri
mask u = if is_end u.userinfo then some u else set_userinfo u stars >>= λ r. some r.0

unfoldable pub log_text : Bytes → Bytes → Option Bytes
log_text uri msg = if is_end uri then some msg else (do
  r ← parse uri
  u ← mask r.0
  text ← print u
  some (codes "URI: " ++ (text ++ (codes ", " ++ msg))))

-- A URI with the user information given, up to its query and fragment.
abbrev pub uri_with : Bytes → Bytes → Bytes → Bytes → Bytes → Bytes → Bytes
uri_with scheme info name path query fragment =
    scheme
    ++ (b':'
        ∷ b'/'
        ∷ b'/'
        ∷ (info ++ (b'@' ∷ (name ++ (b'/' ∷ (path ++ query_text query fragment))))))

scheme-starts : (s r : Bytes) → is_end s ≡ false → is_end (s ++ r) ≡ false
unfolding is_end
scheme-starts [] r h = absurd cc
scheme-starts (c ∷ s) r h = refl

set_stars :
    (u : Uri)
    → set_userinfo u stars ≡ some (record u { userinfo = stars; user = []; password = [] }, true)
unfolding set_userinfo valid_userinfo split_userinfo Stringlib.find_char Uri.check_char_set
    Uri.skip_char_set Uri.skip_from Uri.round_of Uri.is_in_set Uri.is_escaped Uri.at is_end
set_stars u = refl

mask_info :
    (u : Uri)
    → is_end u.userinfo ≡ false
    → mask u ≡ some (record u { userinfo = stars; user = []; password = [] })
unfolding mask
mask_info u h = rw h (rw (set_stars u) refl)

-- the masked URI, in which nothing is left of the user information
abbrev masked : Bytes → Bytes → Bytes → Bytes → Bytes → Uri
masked scheme name path query fragment = record clear {
  scheme = scheme;
  userinfo = stars;
  host = name;
  path = of_text (b'/' ∷ path) (codes "/");
  query = query;
  fragment = fragment;
}

log_masked :
    (scheme info name path query fragment msg : Bytes) (u : Uri)
    → is_end scheme ≡ false
    → is_end info ≡ false
    → valid_scheme scheme ≡ some true
    → valid_userinfo info ≡ some true
    → valid_registered_name name ≡ some true
    → valid_host name ≡ some true
    → valid_path (b'/' ∷ path) ≡ some true
    → valid_query query ≡ some true
    → valid_query fragment ≡ some true
    → split_userinfo (record clear { scheme = scheme; userinfo = info; host = name }) ≡ some u
    → log_text (uri_with scheme info name path query fragment) msg ≡ (
        print (masked scheme name path query fragment) >>= λ text.
        some (codes "URI: " ++ (text ++ (codes ", " ++ msg))))
unfolding log_text
log_masked scheme info name path query fragment msg u ns ni hs hi hr hn hp hq hf hu =
    rw
      (scheme-starts scheme
        (b':'
          ∷ b'/'
          ∷ b'/'
          ∷ (info ++ (b'@' ∷ (name ++ (b'/' ∷ (path ++ query_text query fragment))))))
        ns)
      (rw (host_read scheme info name path query fragment u ns hs hi hr hn hp hq hf hu) (
        rw
          (mask_info
            (record u {
              path = of_text (b'/' ∷ path) (codes "/");
              query = query;
              fragment = fragment;
            })
            (ap (λ (w : Uri). is_end w.userinfo) kept ∙ ni))
          (ap
            (λ (w : Uri).
              print (record w {
                userinfo = stars;
                user = [];
                password = [];
                path = of_text (b'/' ∷ path) (codes "/");
                query = query;
                fragment = fragment;
              })
              >>= λ text. some (codes "URI: " ++ (text ++ (codes ", " ++ msg))))
            kept)))
  where
    kept : u ≡ record clear {
      scheme = scheme;
      userinfo = info;
      host = name;
      user = u.user;
      password = u.password;
    }
    kept = split-Keeps (record clear { scheme = scheme; userinfo = info; host = name }) u hu

-- What makes user information and the rest of a URI readable.
pub record IsUri (scheme info name path query fragment : Bytes) : Type 0 where
  pub scheme_some : is_end scheme ≡ false
  pub info_some : is_end info ≡ false
  pub scheme_valid : valid_scheme scheme ≡ some true
  pub info_valid : valid_userinfo info ≡ some true
  pub name_registered : valid_registered_name name ≡ some true
  pub name_valid : valid_host name ≡ some true
  pub path_valid : valid_path (b'/' ∷ path) ≡ some true
  pub query_valid : valid_query query ≡ some true
  pub fragment_valid : valid_query fragment ≡ some true
  pub split : Uri
  pub split_is :
      split_userinfo (record clear { scheme = scheme; userinfo = info; host = name }) ≡ some split

-- Two sources with URIs of a scheme, user information, a host name, no port, an absolute path, and a
-- query and a fragment if not empty, that differ in their user information only: if neither lacks it, if
-- it and all other parts are valid, and if it splits into a user and a password, both give the same
-- message. Nothing is said of a URI with a part that is not valid.
pub log_hides :
    (scheme info other name path query fragment msg : Bytes)
    → IsUri scheme info name path query fragment
    → IsUri scheme other name path query fragment
    → log_text (uri_with scheme info name path query fragment) msg
      ≡ log_text (uri_with scheme other name path query fragment) msg
log_hides scheme info other name path query fragment msg g h =
    log_masked scheme info name path query fragment msg g.split g.scheme_some g.info_some
      g.scheme_valid g.info_valid g.name_registered g.name_valid g.path_valid g.query_valid
      g.fragment_valid g.split_is
    ∙ sym (
        log_masked scheme other name path query fragment msg h.split h.scheme_some h.info_some
          h.scheme_valid h.info_valid h.name_registered h.name_valid h.path_valid h.query_valid
          h.fragment_valid h.split_is)
