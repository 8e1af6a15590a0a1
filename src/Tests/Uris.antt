-- ===== src/Tests/Uris.antt =====
-- URIs at concrete inputs.
use undervest.Prelude.{
  ◌≡◌, inl, refl, true, false, some, List, [], ◌∷◌, Bytes, codes, beq, All, ◌>>=◌,
}
use undervest.Stringlib
use undervest.Stringlib.{mem}
use undervest.FilePath.{of_text}
use undervest.FilePath.Normal.{IsName, IsNormal}
use undervest.FilePath.Pieces.{IsClean}
use undervest.Uri
use undervest.Uri.{is_in_set, is_end, at, or_else, check_char_set, digit}
use undervest.Uri.Host.{valid_host, valid_ipv6, valid_future, valid_registered_name}
use undervest.Uri.Reader.{Uri, clear, Stage, at_place, give_up, parse, parse_port, split_userinfo}
use undervest.Uri.Writer.{print, valid_scheme, valid_userinfo, valid_path, valid_query}
use undervest.Source.Log.{uri_with, log_text, IsUri, log_hides}
use undervest.Uri.Authority.{host_read}
use undervest.Uri.Round.{relative_path, absolute_path, print-parse_remote}

abbrev file : Bytes
file = codes "file"

abbrev ldap : Bytes
ldap = codes "ldap"

abbrev who : Bytes
who = codes "me:pw"

abbrev host : Bytes
host = codes "a.b"

abbrev etc : Bytes
etc = codes "etc"

abbrev names : List Bytes
names = etc ∷ []

file_ok : (valid_scheme file ≡ some true) × (valid_scheme ldap ≡ some true)
unfolding valid_scheme is_end at is_in_set check_char_set Uri.skip_char_set Uri.skip_from
    Uri.round_of Uri.is_escaped
file_ok = (refl, refl)

etc_ok :
    (valid_path etc ≡ some true)
    × (valid_path (codes "/etc") ≡ some true)
    × (valid_query etc ≡ some true)
    × (valid_query [] ≡ some true)
    × (valid_path (codes "//a.b/etc") ≡ some true)
unfolding valid_path valid_query is_end at is_in_set check_char_set Uri.skip_char_set Uri.skip_from
    Uri.round_of Uri.is_escaped
etc_ok = (refl, refl, refl, refl, refl)

who_ok :
    (valid_userinfo who ≡ some true)
    × (valid_userinfo host ≡ some true)
    × (valid_registered_name host ≡ some true)
unfolding valid_userinfo valid_registered_name is_end at is_in_set check_char_set Uri.skip_char_set
    Uri.skip_from Uri.round_of Uri.is_escaped
who_ok = (refl, refl, refl)

host_ok :
    (valid_host host ≡ some true) × (or_else (valid_ipv6 host) (valid_future host) ≡ some false)
unfolding valid_host valid_ipv6 valid_future valid_registered_name Uri.Host.valid_ipv4
    Uri.Host.octets_from Uri.Host.round_ipv4 Uri.Host.starts_colons Uri.Host.ends_colons
    Uri.Host.groups_from Uri.Host.round_ipv6 Uri.hexdigit is_end at is_in_set check_char_set
    Uri.skip_char_set Uri.skip_from Uri.round_of Uri.is_escaped
host_ok = (refl, refl)

etc-IsName : IsName etc
unfolding beq
etc-IsName = (refl, refl)

etc-IsClean : All (IsClean (codes "/")) names
etc-IsClean = ((refl, (refl, (refl, tt))), tt)

absolute-IsNormal : IsNormal (absolute_path names)
absolute-IsNormal = inl (etc-IsName, tt)

relative-IsNormal : IsNormal (relative_path names)
relative-IsNormal = inl (etc-IsName, tt)

abbrev found : Uri
found = record clear {
  scheme = ldap;
  userinfo = who;
  user = codes "me";
  password = codes "pw";
  host = host;
}

who_split :
    split_userinfo (record clear { scheme = ldap; userinfo = who; host = host }) ≡ some found
unfolding split_userinfo Stringlib.find_char Uri.Reader.unescape Uri.Reader.unescape_from
    Uri.Reader.unescape_one Uri.is_escaped at
who_split = refl

host_read_example :
    parse (codes "ldap://me:pw@a.b/etc")
    ≡ some (record found { path = of_text (codes "/etc") (codes "/") }, true)
unfolding is_end
host_read_example =
    host_read ldap who host etc [] [] found refl file_ok.1 who_ok.0 who_ok.2 host_ok.0 etc_ok.1
      etc_ok.3 etc_ok.3 who_split

print-parse_remote_example :
    (print (record found { path = absolute_path names; query = etc; fragment = [] }) >>= parse)
    ≡ some (record found { path = absolute_path names; query = etc; fragment = [] }, true)
unfolding is_end
print-parse_remote_example =
    print-parse_remote ldap who host found names etc [] refl refl refl file_ok.1 who_ok.0 who_ok.2
      host_ok.0 host_ok.1 who_split absolute-IsNormal etc-IsClean etc_ok.1 etc_ok.2 etc_ok.3

abbrev you : Bytes
you = codes "you"

you_ok : valid_userinfo you ≡ some true
unfolding valid_userinfo is_end Uri.at is_in_set check_char_set Uri.skip_char_set Uri.skip_from
    Uri.round_of Uri.is_escaped
you_ok = refl

abbrev for_you : Uri
for_you = record clear { scheme = ldap; userinfo = you; host = host }

you_split : split_userinfo for_you ≡ some for_you
unfolding split_userinfo Stringlib.find_char
you_split = refl

who-IsUri : IsUri ldap who host etc [] []
unfolding is_end
who-IsUri = record {
  scheme_some = refl;
  info_some = refl;
  scheme_valid = file_ok.1;
  info_valid = who_ok.0;
  name_registered = who_ok.2;
  name_valid = host_ok.0;
  path_valid = etc_ok.1;
  query_valid = etc_ok.3;
  fragment_valid = etc_ok.3;
  split = found;
  split_is = who_split;
}

you-IsUri : IsUri ldap you host etc [] []
unfolding is_end
you-IsUri = record {
  scheme_some = refl;
  info_some = refl;
  scheme_valid = file_ok.1;
  info_valid = you_ok;
  name_registered = who_ok.2;
  name_valid = host_ok.0;
  path_valid = etc_ok.1;
  query_valid = etc_ok.3;
  fragment_valid = etc_ok.3;
  split = for_you;
  split_is = you_split;
}

log_hides_example :
    log_text (uri_with ldap who host etc [] []) (codes "gone")
    ≡ log_text (uri_with ldap you host etc [] []) (codes "gone")
log_hides_example = log_hides ldap who you host etc [] [] (codes "gone") who-IsUri you-IsUri
