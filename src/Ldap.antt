-- ===== src/Ldap.antt =====
-- src/loaders/ldap.cpp: the loader that asks an LDAP server. What libldap gives is a parameter: the parts
-- of the URI, and the messages of the server.
pub mod Filter
pub mod Recipients
use undervest.Prelude.{
  ℕ, zero, suc, Bool, true, false, not, ◌&&◌, Option, none, some, List, [], ◌∷◌, ◌++◌, ltb, leb,
  ◌==◌, if◌then◌else◌, Bytes, codes, beq, length, take, drop, ◌>>=◌,
}
use undervest.Stringlib.{mem, strtolower}
use undervest.FilePath.{is_nil}
use undervest.Uri.Reader.{Uri, unescape}
use undervest.Uri.Writer.{decimal}
use undervest.Source.{Failure, exception, Reading, open_throws, gives}

-- `u.user().empty() && u.password().empty()`: the distinguished name to bind with, and the password.
-- `none` is an exception.
unfoldable pub credentials : Uri → Option (Bytes × Bytes)
credentials u =
    if is_nil u.user && is_nil u.password
    then (unescape u.userinfo >>= λ binddn. some (binddn, []))
    else some (u.user, u.password)

-- `LDAPURLDesc`; a pointer that may be null is an option.
pub record LdapUrl : Type 0 where
  pub lud_scheme : Option Bytes
  pub lud_host : Option Bytes
  pub lud_port : ℕ
  pub lud_filter : Option Bytes
  pub lud_attrs : List Bytes

abbrev pub or_text : Bytes → Option Bytes → Bytes
or_text d none = d
or_text d (some s) = s

-- The argument of `ldap_initialize`.
unfoldable pub server_uri : LdapUrl → Bytes
server_uri u =
    or_text (codes "ldap") u.lud_scheme
    ++ (codes "://"
        ++ (or_text [] u.lud_host ++ (if u.lud_port == 0 then [] else (b':' ∷ decimal u.lud_port))))

-- `ldap_sasl_bind_s`: without a name, or with a name and a password.
pub data Bind : Type 0 where
  anonymous : Bind
  simple : Bytes → Bytes → Bind

-- Whether to bind, for the version of the protocol, which is 2 if it is not known.
unfoldable pub bind_of : Bytes × Bytes → Option ℕ → Option Bind
bind_of (c ∷ binddn, password) version = some (simple (c ∷ binddn) password)
bind_of ([], password) none = some anonymous
bind_of ([], password) (some version) = if leb 2 version then some anonymous else none

-- `if (locfilter[0] != '(')`
unfoldable pub in_parentheses : Bytes → Bytes
in_parentheses [] = []
in_parentheses (c ∷ s) = if c == b'(' then c ∷ s else b'(' ∷ ((c ∷ s) ++ codes ")")

-- `if (locfilter.length())`
unfoldable pub filter_start : Bytes → Bytes
filter_start [] = []
filter_start (c ∷ s) = codes "(&" ++ in_parentheses (c ∷ s)

-- The loop over the attributes.
unfoldable pub any_of : List Bytes → Bytes
any_of [] = []
any_of (a ∷ attrs) = (b'(' ∷ (a ++ codes "=*)")) ++ any_of attrs

-- `if (h->uri->lud_attrs[1])` in front of the loop and behind it
unfoldable pub filter_attrs : List Bytes → Bytes
filter_attrs (a ∷ b ∷ attrs) = codes "(|" ++ (any_of (a ∷ b ∷ attrs) ++ codes ")")
filter_attrs attrs = any_of attrs

-- The filter to search with. A null pointer cannot be made a text: `none` is that exception.
unfoldable pub search_filter : Option Bytes → List Bytes → Option Bytes
search_filter none attrs = none
search_filter (some filter) attrs = some (filter_start filter ++ (filter_attrs attrs ++ codes ")"))

-- The messages that `ldap_result` gives, up to one that ends the reading: an entry with the values of
-- its attributes, or a message of another type.
pub data Messages : Type 0 where
  entry : List (List Bytes) → Messages → Messages
  another : Messages → Messages
  search_result : ℕ → ℕ → Messages
  no_message : ℕ → Messages
  entry_error : ℕ → Messages

-- `ldap_handle`: the values of the current attribute and the attributes of the current entry that are
-- left, and the messages to come.
pub record Handle : Type 0 where
  pub values : List Bytes
  pub attributes : List (List Bytes)
  pub messages : Messages

-- What `getRecipient` gives: a text, the empty text at the end, or `ldap_error`.
pub data Got : Type 0 where
  address : Bytes → Handle → Got
  finished : Got
  ldap_error : ℕ → Got

abbrev pub mailchars : Bytes
mailchars = codes "abcdefghijklmnopqrstuvwxyzABCDEFGHIJKLMNOPQRSTUVWXYZ0123456789-+_.{}@"

-- `find_first_not_of(mailchars) == npos`
unfoldable pub all_mailchars : Bytes → Bool
all_mailchars [] = true
all_mailchars (c ∷ s) = mem c mailchars && all_mailchars s

-- `if (result.length() > 5 && !strncasecmp(result.c_str(), "smtp:", 5))`
unfoldable pub behind_smtp : Bytes → Bytes
behind_smtp s =
    if ltb 5 (length s) && beq (strtolower (take 5 s)) (codes "smtp:") then drop 5 s else s

-- The address of a value, unless the value is passed over.
unfoldable pub address_of : Bytes → Option Bytes
address_of v = let s = behind_smtp v in if all_mailchars s then some s else none

-- The rounds of the loop that take a value.
unfoldable pub next_value : List Bytes → Option (Bytes × List Bytes)
next_value [] = none
next_value (v ∷ vs) =
    let rest = next_value vs in elim (address_of v) [ none ↦ rest | some s ↦ some (s, vs) ]

-- And those that take an attribute.
unfoldable pub next_attribute :
    List Bytes → List (List Bytes) → Option (Bytes × (List Bytes × List (List Bytes)))
next_attribute vs [] = next_value vs >>= λ r. some (r.0, (r.1, []))
next_attribute vs (a ∷ attributes) =
    let rest = next_attribute a attributes in
    elim (next_value vs) [ none ↦ rest | some r ↦ some (r.0, (r.1, a ∷ attributes)) ]

abbrev pub success : ℕ
success = 0

-- `LDAP_RES_SEARCH_RESULT`, with the result of `ldap_parse_result` and its code.
unfoldable pub result_of : ℕ → ℕ → Got
result_of rc code =
    if not (rc == success)
    then ldap_error rc
    else if not (code == success)
    then ldap_error code
    else finished

abbrev pub found_in : Messages → Bytes × (List Bytes × List (List Bytes)) → Got
found_in ms (s, (vs, attributes)) =
    address s (record { values = vs; attributes = attributes; messages = ms })

-- The loop of `getRecipient`.
unfoldable pub next_message : List Bytes → List (List Bytes) → Messages → Got
next_message vs attributes (entry e ms) =
    let rest = next_message [] e ms in
    elim (next_attribute vs attributes) [ none ↦ rest | some r ↦ found_in (entry e ms) r ]
next_message vs attributes (another ms) =
    let rest = next_message [] [] ms in
    elim (next_attribute vs attributes) [ none ↦ rest | some r ↦ found_in (another ms) r ]
next_message vs attributes (search_result rc code) = elim (next_attribute vs attributes) [
  | none ↦ result_of rc code
  | some r ↦ found_in (search_result rc code) r
]
next_message vs attributes (no_message rc) = elim (next_attribute vs attributes) [
  | none ↦ ldap_error rc
  | some r ↦ found_in (no_message rc) r
]
next_message vs attributes (entry_error rc) = elim (next_attribute vs attributes) [
  | none ↦ ldap_error rc
  | some r ↦ found_in (entry_error rc) r
]

-- `getRecipient`
unfoldable pub get_recipient : Handle → Got
get_recipient h = next_message h.values h.attributes h.messages
