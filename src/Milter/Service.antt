-- ===== src/Milter/Service.antt =====
-- include/milter.h: the methods with which a context acts on a message. A text that is handed to
-- libmilter ends at its first zero.
use undervest.Prelude.{
  ℕ, suc, ◌≡◌, sym, ap, ◌∙◌, Option, none, some, List, [], ◌∷◌, ◌++◌, append_assoc, append-nil,
  if◌then◌else◌, Bytes, codes, length, min,
}
use undervest.Stringlib.{implode, implode_rest}
use undervest.FilePath.{is_nil}
use undervest.Source.{c_str}
use undervest.Uri.Writer.{decimal}
use undervest.Milter.{
  Call, setreply, addheader, chgheader, insheader, chgfrom, addrcpt, addrcpt_par, delrcpt,
  replacebody, quarantine, setsymlist,
}

-- `reply` of texts, and of a number
unfoldable pub reply : Bytes → Bytes → Bytes → Call
reply rcode xcode message = setreply (c_str rcode) (c_str xcode) (c_str message)

unfoldable pub reply_number : ℕ → Bytes → Bytes → Call
reply_number rcode xcode message = reply (decimal rcode) xcode message

unfoldable pub add_header : Bytes → Bytes → Call
add_header name value = addheader (c_str name) (c_str value)

-- libmilter counts the headers from 1 on here.
unfoldable pub change_header : Bytes → ℕ → Bytes → Call
change_header name index value = chgheader (c_str name) (suc index) (c_str value)

unfoldable pub insert_header : ℕ → Bytes → Bytes → Call
insert_header index name value = insheader index (c_str name) (c_str value)

unfoldable pub change_from : Bytes → Bytes → Call
change_from mail args = chgfrom (c_str mail) (c_str args)

-- `addRecipient`
unfoldable pub add_recipient : Bytes → Bytes → Call
add_recipient recipient args =
    if is_nil (c_str args)
    then addrcpt (c_str recipient)
    else addrcpt_par (c_str recipient) (c_str args)

unfoldable pub delete_recipient : Bytes → Call
delete_recipient recipient = delrcpt (c_str recipient)

-- `replaceBody` of a text, with a length that fits an `int`
unfoldable pub replace_body : Bytes → ℕ → Call
replace_body text len = replacebody text (min len (length text))

unfoldable pub quarantine_for : Bytes → Call
quarantine_for reason = quarantine (c_str reason)

unfoldable pub symbol_list : ℕ → Bytes → Call
symbol_list stage macros = setsymlist stage (c_str macros)

-- `macros += " " + *i`
unfoldable pub spaced : List Bytes → Bytes
spaced [] = []
spaced (x ∷ xs) = (b' ' ∷ x) ++ spaced xs

-- `macros.substr(1)`; `none` is the exception.
unfoldable pub behind_space : Bytes → Option Bytes
behind_space [] = none
behind_space (c ∷ s) = some s

unfoldable pub symbol_list_call : ℕ → Option Bytes → Option Call
symbol_list_call stage none = none
symbol_list_call stage (some macros) = some (symbol_list stage macros)

-- `symbolList` of a range
unfoldable pub symbol_list_range : ℕ → List Bytes → Option Call
symbol_list_range stage names = symbol_list_call stage (behind_space (spaced names))

implode_rest-spaced : (s : Bytes) (xs : List Bytes) → implode_rest (codes " ") s xs ≡ s ++ spaced xs
unfolding implode_rest spaced
implode_rest-spaced s [] = sym (append-nil s)
implode_rest-spaced s (x ∷ xs) =
    implode_rest-spaced (s ++ (codes " " ++ x)) xs ∙ append_assoc s (codes " " ++ x) (spaced xs)

-- A list of macros that is not empty is handed over with a space between them.
pub symbol_list_range-implode :
    (stage : ℕ) (x : Bytes) (xs : List Bytes)
    → symbol_list_range stage (x ∷ xs) ≡ some (symbol_list stage (implode (codes " ") (x ∷ xs)))
unfolding symbol_list_range implode spaced behind_space symbol_list_call
symbol_list_range-implode stage x xs =
    ap (λ (s : Bytes). some (symbol_list stage s)) (sym (implode_rest-spaced x xs))
