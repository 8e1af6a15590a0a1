-- ===== src/Ldap/Recipients.antt =====
-- The recipients that src/loaders/ldap.cpp gives to a source.
use undervest.Prelude.{
  ℕ, zero, suc, ◌≡◌, refl, sym, ap, ◌∙◌, Bool, true, false, not, Option, none, some, List, [], ◌∷◌,
  ◌++◌, ◌+◌, ◌==◌, ◌≤◌, ◌&&◌, ◌||◌, if◌then◌else◌, Bytes, beq, arith, length, append_assoc, ◌>>=◌,
}
use undervest.Stringlib.{mem, lower, strtolower}
use undervest.Source.{Failure, exception}
use undervest.Ldap.{
  Messages, entry, another, search_result, no_message, entry_error, Handle, Got, address, finished,
  ldap_error, mailchars, all_mailchars, behind_smtp, address_of, next_value, next_attribute,
  result_of, found_in, next_message, get_recipient, success,
}

abbrev all_allowed : Bytes → Bool
all_allowed [] = true
all_allowed (c ∷ s) = mem c mailchars && all_allowed s

abbrev in_either_case : ℕ → ℕ → Bool
in_either_case c k = c == k || c + 32 == k

-- What is behind `smtp:` in any case, if anything is.
abbrev less_smtp : Bytes → Bytes
less_smtp (a ∷ b ∷ c ∷ d ∷ e ∷ x ∷ s) =
    if in_either_case a b's'
      && (in_either_case b b'm' && (in_either_case c b't' && (in_either_case d b'p' && e == b':')))
    then x ∷ s
    else a ∷ b ∷ c ∷ d ∷ e ∷ x ∷ s
less_smtp v = v

abbrev keep : Option Bytes → List Bytes → List Bytes
keep none xs = xs
keep (some s) xs = s ∷ xs

-- A value is kept without `smtp:`, if all that is left are characters of mail addresses.
abbrev kept_of : Bytes → Option Bytes
kept_of v = if all_allowed (less_smtp v) then some (less_smtp v) else none

all_mailchars-allowed : (s : Bytes) → all_mailchars s ≡ all_allowed s
unfolding all_mailchars
all_mailchars-allowed [] = refl
all_mailchars-allowed (c ∷ s) = ap (λ (b : Bool). mem c mailchars && b) (all_mailchars-allowed s)

lower_is : (c k : ℕ) → b'a' ≤ k → k ≤ b'z' → (lower c == k) ≡ in_either_case c k
unfolding lower
lower_is c k h g = ground arith

lower_colon : (c : ℕ) → (lower c == b':') ≡ (c == b':')
unfolding lower
lower_colon c = ground arith

behind_smtp-less : (v : Bytes) → behind_smtp v ≡ less_smtp v
unfolding behind_smtp beq strtolower
behind_smtp-less [] = refl
behind_smtp-less (a ∷ []) = refl
behind_smtp-less (a ∷ b ∷ []) = refl
behind_smtp-less (a ∷ b ∷ c ∷ []) = refl
behind_smtp-less (a ∷ b ∷ c ∷ d ∷ []) = refl
behind_smtp-less (a ∷ b ∷ c ∷ d ∷ e ∷ []) = refl
behind_smtp-less (a ∷ b ∷ c ∷ d ∷ e ∷ x ∷ s) = ground (
  arith,
  lower_is a b's' (omega arith) (omega arith),
  lower_is b b'm' (omega arith) (omega arith),
  lower_is c b't' (omega arith) (omega arith),
  lower_is d b'p' (omega arith) (omega arith),
  lower_colon e,
)

kept_of-address : (v : Bytes) → address_of v ≡ kept_of v
unfolding address_of
kept_of-address v =
    ap (λ (t : Bytes). if all_mailchars t then some t else none) (behind_smtp-less v)
    ∙ ap (λ (b : Bool). if b then some (less_smtp v) else none)
        (all_mailchars-allowed (less_smtp v))

-- The addresses among values, among the values of attributes, and in the messages.
abbrev pub addressed : List Bytes → List Bytes
addressed [] = []
addressed (v ∷ vs) = keep (kept_of v) (addressed vs)

abbrev pub addressed_all : List (List Bytes) → List Bytes
addressed_all [] = []
addressed_all (a ∷ attributes) = addressed a ++ addressed_all attributes

abbrev pub addressed_messages : Messages → List Bytes
addressed_messages (entry e ms) = addressed_all e ++ addressed_messages ms
addressed_messages (another ms) = addressed_messages ms
addressed_messages _ = []

abbrev pub addresses : Handle → List Bytes
addresses h = addressed h.values ++ (addressed_all h.attributes ++ addressed_messages h.messages)

abbrev code_failure : (ℕ → Bytes) → ℕ → Option Failure
code_failure text_of c = if c == success then none else some (exception (text_of c))

-- What is thrown at the end, with the text of an error number.
abbrev pub ending : (ℕ → Bytes) → Messages → Option Failure
ending text_of (entry e ms) = ending text_of ms
ending text_of (another ms) = ending text_of ms
ending text_of (search_result rc code) =
    if rc == success then code_failure text_of code else code_failure text_of rc
ending text_of (no_message rc) = some (exception (text_of rc))
ending text_of (entry_error rc) = some (exception (text_of rc))

abbrev pub with_first :
    Bytes → Option (List Bytes × Option Failure) → Option (List Bytes × Option Failure)
with_first s none = none
with_first s (some (ss, f)) = some (s ∷ ss, f)

-- The texts in front of the first empty one.
abbrev pub up_to_empty : List Bytes → List Bytes
up_to_empty [] = []
up_to_empty ([] ∷ xs) = []
up_to_empty ((c ∷ s) ∷ xs) = (c ∷ s) ∷ up_to_empty xs

-- An empty text comes before the end, which ends the reading with no error.
abbrev pub ends_early : List Bytes → Option Failure → Option Failure
ends_early [] f = f
ends_early ([] ∷ xs) f = none
ends_early ((c ∷ s) ∷ xs) f = ends_early xs f

-- The loop of `Source::load_data` over `getRecipient`, on fuel: it goes on while the text is not empty.
unfoldable pub drain : (ℕ → Bytes) → ℕ → Got → Option (List Bytes × Option Failure)
drain text_of zero g = none
drain text_of (suc f) (address [] h) = some ([], none)
drain text_of (suc f) (address (c ∷ s) h) = with_first (c ∷ s) (drain text_of f (get_recipient h))
drain text_of (suc f) finished = some ([], none)
drain text_of (suc f) (ldap_error c) = some ([], some (exception (text_of c)))

abbrev after_value : Option (Bytes × List Bytes) → List Bytes
after_value none = []
after_value (some (s, vs)) = s ∷ addressed vs

addressed-next : (vs : List Bytes) → addressed vs ≡ after_value (next_value vs)
unfolding next_value
addressed-next [] = refl
addressed-next (v ∷ vs) = rw (← kept_of-address v) (go (address_of v) (addressed-next vs))
  where
    go :
        (o : Option Bytes)
        → addressed vs ≡ after_value (next_value vs)
        → keep o (addressed vs)
          ≡ after_value (elim o [ none ↦ next_value vs | some s ↦ some (s, vs) ])
    go none h = h
    go (some s) h = refl

abbrev after_attribute : Option (Bytes × (List Bytes × List (List Bytes))) → List Bytes
after_attribute none = []
after_attribute (some (s, (vs, attributes))) = s ∷ (addressed vs ++ addressed_all attributes)

addressed_all-next :
    (vs : List Bytes) (attributes : List (List Bytes))
    → addressed vs ++ addressed_all attributes ≡ after_attribute (next_attribute vs attributes)
unfolding next_attribute
addressed_all-next vs [] =
    ap (λ (xs : List Bytes). xs ++ []) (addressed-next vs) ∙ go (next_value vs)
  where
    go :
        (o : Option (Bytes × List Bytes))
        → after_value o ++ [] ≡ after_attribute (o >>= λ r. some (r.0, (r.1, [])))
    go none = refl
    go (some (s, ws)) = refl
addressed_all-next vs (a ∷ attributes) =
    ap (λ (xs : List Bytes). xs ++ (addressed a ++ addressed_all attributes)) (addressed-next vs)
    ∙ go (next_value vs) (addressed_all-next a attributes)
  where
    go :
        (o : Option (Bytes × List Bytes))
        → addressed a ++ addressed_all attributes ≡ after_attribute (next_attribute a attributes)
        → after_value o ++ (addressed a ++ addressed_all attributes)
          ≡ after_attribute (elim o [
            | none ↦ next_attribute a attributes
            | some r ↦ some (r.0, (r.1, a ∷ attributes))
          ])
    go none h = h
    go (some (s, ws)) h = refl

-- What a call leaves of the addresses `xs` and the end `f`.
abbrev Leaves : (ℕ → Bytes) → List Bytes → Option Failure → Got → Type 0
Leaves text_of xs f (address s h) = (xs ≡ s ∷ addresses h) × (ending text_of h.messages ≡ f)
Leaves text_of xs f finished = (xs ≡ []) × (f ≡ none)
Leaves text_of xs f (ldap_error c) = (xs ≡ []) × (f ≡ some (exception (text_of c)))

-- an address that is there, or what comes behind
Leaves-found :
    (text_of : ℕ → Bytes) (ms : Messages) (o : Option (Bytes × (List Bytes × List (List Bytes))))
    (g : Got)
    → Leaves text_of (addressed_messages ms) (ending text_of ms) g
    → Leaves text_of
        (after_attribute o ++ addressed_messages ms)
        (ending text_of ms)
        (elim o [ none ↦ g | some r ↦ found_in ms r ])
Leaves-found text_of ms none g h = h
Leaves-found text_of ms (some (s, (vs, attributes))) g h = (
  ap (◌∷◌ s) (append_assoc (addressed vs) (addressed_all attributes) (addressed_messages ms)),
  refl,
)

Leaves-same :
    (text_of : ℕ → Bytes) (xs ys : List Bytes) (f : Option Failure) (g : Got)
    → xs ≡ ys
    → Leaves text_of ys f g
    → Leaves text_of xs f g
Leaves-same text_of xs ys f (address s h) e (p, q) = (e ∙ p, q)
Leaves-same text_of xs ys f finished e (p, q) = (e ∙ p, q)
Leaves-same text_of xs ys f (ldap_error c) e (p, q) = (e ∙ p, q)

Leaves-next :
    (text_of : ℕ → Bytes) (vs : List Bytes) (attributes : List (List Bytes)) (ms : Messages)
    (g : Got)
    → Leaves text_of (addressed_messages ms) (ending text_of ms) g
    → Leaves text_of
        (addressed vs ++ (addressed_all attributes ++ addressed_messages ms))
        (ending text_of ms)
        (elim (next_attribute vs attributes) [ none ↦ g | some r ↦ found_in ms r ])
Leaves-next text_of vs attributes ms g h =
    Leaves-same text_of _ _ _ _
      (sym (append_assoc (addressed vs) (addressed_all attributes) (addressed_messages ms))
        ∙ ap (λ (xs : List Bytes). xs ++ addressed_messages ms) (addressed_all-next vs attributes))
      (Leaves-found text_of ms (next_attribute vs attributes) g h)

result-Leaves :
    (text_of : ℕ → Bytes) (rc code : ℕ)
    → Leaves text_of [] (ending text_of (search_result rc code)) (result_of rc code)
unfolding result_of
result-Leaves text_of rc code = go (rc == success) (code == success)
  where
    go :
        (a b : Bool)
        → Leaves text_of []
            (if a
              then (if b then none else some (exception (text_of code)))
              else (if a then none else some (exception (text_of rc))))
            (if not a then ldap_error rc else if not b then ldap_error code else finished)
    go true true = (refl, refl)
    go true false = (refl, refl)
    go false b = (refl, refl)

next_message-Leaves :
    (text_of : ℕ → Bytes) (vs : List Bytes) (attributes : List (List Bytes)) (ms : Messages)
    → Leaves text_of
        (addressed vs ++ (addressed_all attributes ++ addressed_messages ms))
        (ending text_of ms)
        (next_message vs attributes ms)
unfolding next_message
next_message-Leaves text_of vs attributes (entry e ms) =
    Leaves-next text_of vs attributes (entry e ms) _ (next_message-Leaves text_of [] e ms)
next_message-Leaves text_of vs attributes (another ms) =
    Leaves-next text_of vs attributes (another ms) _ (next_message-Leaves text_of [] [] ms)
next_message-Leaves text_of vs attributes (search_result rc code) =
    Leaves-next text_of vs attributes (search_result rc code) _ (result-Leaves text_of rc code)
next_message-Leaves text_of vs attributes (no_message rc) =
    Leaves-next text_of vs attributes (no_message rc) _ (refl, refl)
next_message-Leaves text_of vs attributes (entry_error rc) =
    Leaves-next text_of vs attributes (entry_error rc) _ (refl, refl)

drain_from :
    (text_of : ℕ → Bytes) (xs : List Bytes) (f : Option Failure) (g : Got)
    → Leaves text_of xs f g
    → drain text_of (suc (length xs)) g ≡ some (up_to_empty xs, ends_early xs f)
unfolding drain get_recipient
drain_from text_of xs f finished (p, q) =
    λ i. some (up_to_empty (sym p i), ends_early (sym p i) (sym q i))
drain_from text_of xs f (ldap_error c) (p, q) =
    λ i. some (up_to_empty (sym p i), ends_early (sym p i) (sym q i))
drain_from text_of [] f (address s h) (p, q) = absurd cc
drain_from text_of (x ∷ xs) f (address [] h) (p, q) =
    let head : [] ≡ x = cc in λ i. some (up_to_empty (head i ∷ xs), ends_early (head i ∷ xs) f)
drain_from text_of (x ∷ xs) f (address (c ∷ s) h) (p, q) =
    let tail : xs ≡ addresses h = cc in
    let head : c ∷ s ≡ x = cc in
    let next = next_message-Leaves text_of h.values h.attributes h.messages in
    ap (with_first (c ∷ s)) (
      drain_from text_of xs (ending text_of h.messages) (get_recipient h)
        (Leaves-same text_of xs (addresses h) _ _ tail next))
    ∙ (λ i. some (up_to_empty (head i ∷ xs), ends_early (head i ∷ xs) (q i)))

-- Called as `load_data` does, until it gives an empty text or throws, `getRecipient` gives the addresses
-- among the values of the attributes of all entries, in the order of the server, up to the first value
-- whose address is the empty text: that one ends the reading without an error. If there is none, the
-- last message says how it ends: well if the search and the result have no error, and with the error
-- otherwise. An address is a value, less smtp: in front of it in any case, if all its characters are
-- among those allowed for mail. One call more than there are addresses is enough.
pub drain-addresses :
    (text_of : ℕ → Bytes) (h : Handle)
    → drain text_of (suc (length (addresses h))) (get_recipient h)
      ≡ some (up_to_empty (addresses h), ends_early (addresses h) (ending text_of h.messages))
unfolding get_recipient
drain-addresses text_of h =
    drain_from text_of (addresses h) _ (get_recipient h)
      (next_message-Leaves text_of h.values h.attributes h.messages)
