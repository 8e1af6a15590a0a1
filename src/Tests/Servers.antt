-- ===== src/Tests/Servers.antt =====
-- The loader for LDAP on concrete answers of a server.
use undervest.Prelude.{ℕ, suc, ◌≡◌, refl, none, some, List, [], ◌∷◌, Bytes, codes, beq, length}
use undervest.Stringlib.{strtolower, lower}
use undervest.Source.{exception}
use undervest.Ldap
use undervest.Ldap.{
  Handle, Messages, entry, another, search_result, get_recipient, search_filter, server_uri,
}
use undervest.Ldap.Filter
use undervest.Ldap.Filter.{IsBalanced, search_filter-IsBalanced}
use undervest.Ldap.Recipients.{addresses, ending, up_to_empty, ends_early, drain, drain-addresses}

abbrev person : Bytes
person = codes "objectClass=person"

abbrev mail_or_proxy : List Bytes
mail_or_proxy = codes "mail" ∷ codes "proxyAddresses" ∷ []

person-IsBalanced : IsBalanced person
unfolding Filter.depth
person-IsBalanced = refl

mail-IsBalanced : IsBalanced (codes "mail")
unfolding Filter.depth
mail-IsBalanced = refl

proxy-IsBalanced : IsBalanced (codes "proxyAddresses")
unfolding Filter.depth
proxy-IsBalanced = refl

search_filter-IsBalanced_example :
    (s : Bytes) × (search_filter (some person) mail_or_proxy ≡ some s) × IsBalanced s
search_filter-IsBalanced_example =
    search_filter-IsBalanced b'o' (codes "bjectClass=person") mail_or_proxy person-IsBalanced
      (mail-IsBalanced, (proxy-IsBalanced, tt))

person_filter :
    search_filter (some person) mail_or_proxy
    ≡ some (codes "(&(objectClass=person)(|(mail=*)(proxyAddresses=*)))")
unfolding search_filter Ldap.filter_start Ldap.in_parentheses Ldap.filter_attrs Ldap.any_of
person_filter = refl

-- with an empty filter, a parenthesis is closed that is not open
empty_filter : search_filter (some []) (codes "mail" ∷ []) ≡ some (codes "(mail=*))")
unfolding search_filter Ldap.filter_start Ldap.in_parentheses Ldap.filter_attrs Ldap.any_of
empty_filter = refl

abbrev asked : Handle
asked = record {
  values = [];
  attributes = [];
  messages =
      entry ((codes "SMTP:mary@a" ∷ codes "x400:c=us" ∷ []) ∷ (codes "m.b" ∷ []) ∷ [])
        (another (search_result 0 4));
}

abbrev text_of : ℕ → Bytes
text_of c = codes "size limit"

two_addresses :
    drain text_of 3 (get_recipient asked)
    ≡ some (codes "mary@a" ∷ codes "m.b" ∷ [], some (exception (codes "size limit")))
unfolding drain get_recipient Ldap.next_message Ldap.next_attribute Ldap.next_value Ldap.address_of
    Ldap.behind_smtp Ldap.all_mailchars Ldap.result_of strtolower lower beq
two_addresses = refl

drain-addresses_example :
    drain text_of (suc (length (addresses asked))) (get_recipient asked)
    ≡ some (
      up_to_empty (addresses asked),
      ends_early (addresses asked) (ending text_of asked.messages),
    )
drain-addresses_example = drain-addresses text_of asked

-- an empty value behind the first address ends the reading, and the error is not seen
ended_early :
    drain text_of 4 (
      get_recipient (record {
        values = codes "a@b" ∷ [] ∷ codes "c@d" ∷ [];
        attributes = [];
        messages = search_result 0 4;
      }))
    ≡ some (codes "a@b" ∷ [], none)
unfolding drain get_recipient Ldap.next_message Ldap.next_attribute Ldap.next_value Ldap.address_of
    Ldap.behind_smtp Ldap.all_mailchars Ldap.result_of strtolower lower beq
ended_early = refl
