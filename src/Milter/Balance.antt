-- ===== src/Milter/Balance.antt =====
-- The contexts that are made and deleted for a connection.
use undervest.Prelude.{
  suc, ◌+◌, ◌≡◌, refl, ap, true, Option, none, some, List, [], ◌∷◌, Bytes, arith,
}
use undervest.Milter.{
  Handled, returns, throws, Handlers, Link, settle, relay_to, relay, enter_with, enter, connect,
  negotiate, helo, envfrom, envrcpt, data_of, header, eoh, body, eom, unknown, abort, closed,
  close_with, close,
}
use undervest.Milter.Callbacks.{
  Callback, negotiates, connects, hellos, mail_from, rcpt_to, data_begins, header_line, headers_end,
  body_chunk, message_ends, unknown_command, aborts, closes, handle, handle_all, new_link, held,
}

-- Every context that was made is deleted or is the one of the connection.
abbrev pub IsBalanced : {C : Type 0} → Link C → Type 0
IsBalanced l = l.created ≡ l.deleted + held l.priv

abbrev pub Returns : {C : Type 0} → Handled C → Type 0
Returns (returns s p cs) = Unit {0}
Returns (throws e p cs) = ⊥

settle-IsBalanced :
    {C : Type 0} (funcname : Bytes) (l : Link C) (r : Handled C)
    → l.created ≡ suc l.deleted
    → IsBalanced (settle funcname l r).1
unfolding settle
settle-IsBalanced funcname l (returns s p cs) e = omega arith
settle-IsBalanced funcname l (throws x p cs) e = omega arith

relay-IsBalanced :
    {C : Type 0} (funcname : Bytes) (h : C → Handled C) (l : Link C) (o : Option C)
    → l.priv ≡ o
    → IsBalanced l
    → IsBalanced (relay_to funcname h l o).1
unfolding relay_to
relay-IsBalanced funcname h l none q e = e
relay-IsBalanced funcname h l (some p) q e =
    let z : held l.priv ≡ 1 = ap held q in settle-IsBalanced funcname l (h p) (omega arith)

enter-IsBalanced :
    {C : Type 0} (funcname : Bytes) (fresh : C) (h : C → Handled C) (l : Link C) (o : Option C)
    → l.priv ≡ o
    → IsBalanced l
    → IsBalanced (enter_with funcname fresh true h l o).1
unfolding enter_with
enter-IsBalanced funcname fresh h l none q e =
    let z : held l.priv ≡ 0 = ap held q in
    settle-IsBalanced funcname (record l { created = suc l.created }) (h fresh) (omega arith)
enter-IsBalanced funcname fresh h l (some p) q e =
    let z : held l.priv ≡ 1 = ap held q in settle-IsBalanced funcname l (h p) (omega arith)

closed-IsBalanced :
    {C : Type 0} (l : Link C) (r : Handled C)
    → Returns r
    → l.created ≡ suc l.deleted
    → ((closed l r).1.created ≡ (closed l r).1.deleted) × ((closed l r).1.priv ≡ none)
unfolding closed
closed-IsBalanced l (returns s p cs) v e = (e, refl)
closed-IsBalanced l (throws x p cs) v e = absurd v

-- what `close` leaves: no context
close_frees :
    {C : Type 0} (h : Handlers C) (l : Link C) (o : Option C)
    → ((p : C) → Returns (h.on_close p))
    → l.priv ≡ o
    → IsBalanced l
    → ((close_with h l o).1.created ≡ (close_with h l o).1.deleted)
      × ((close_with h l o).1.priv ≡ none)
unfolding close_with
close_frees h l none v q e = let z : held l.priv ≡ 0 = ap held q in (omega arith, q)
close_frees h l (some p) v q e =
    let z : held l.priv ≡ 1 = ap held q in closed-IsBalanced l (h.on_close p) (v p) (omega arith)

handle-IsBalanced :
    {C : Type 0} (h : Handlers C) (fresh : C) (e : Callback) (l : Link C)
    → ((p : C) → Returns (h.on_close p))
    → IsBalanced l
    → IsBalanced (handle h fresh true e l).1
unfolding handle relay enter connect negotiate helo envfrom envrcpt data_of header eoh body eom
    unknown abort close
handle-IsBalanced h fresh (negotiates flags callback_flags f) l v b =
    enter-IsBalanced _ fresh _ l l.priv refl b
handle-IsBalanced h fresh (connects hostname) l v b = enter-IsBalanced _ fresh _ l l.priv refl b
handle-IsBalanced h fresh (hellos hellohost) l v b = relay-IsBalanced _ _ l l.priv refl b
handle-IsBalanced h fresh (mail_from address argv) l v b = relay-IsBalanced _ _ l l.priv refl b
handle-IsBalanced h fresh (rcpt_to address argv) l v b = relay-IsBalanced _ _ l l.priv refl b
handle-IsBalanced h fresh data_begins l v b = relay-IsBalanced _ _ l l.priv refl b
handle-IsBalanced h fresh (header_line name value) l v b = relay-IsBalanced _ _ l l.priv refl b
handle-IsBalanced h fresh headers_end l v b = relay-IsBalanced _ _ l l.priv refl b
handle-IsBalanced h fresh (body_chunk bdy) l v b = relay-IsBalanced _ _ l l.priv refl b
handle-IsBalanced h fresh message_ends l v b = relay-IsBalanced _ _ l l.priv refl b
handle-IsBalanced h fresh (unknown_command command) l v b = relay-IsBalanced _ _ l l.priv refl b
handle-IsBalanced h fresh aborts l v b = relay-IsBalanced _ _ l l.priv refl b
handle-IsBalanced h fresh closes l v b =
    let (e, n) = close_frees h l l.priv v refl b in
    let z : held (close_with h l l.priv).1.priv ≡ 0 = ap held n in omega arith

handle_all-IsBalanced :
    {C : Type 0} (h : Handlers C) (fresh : C) (es : List Callback) (l : Link C)
    → ((p : C) → Returns (h.on_close p))
    → IsBalanced l
    → IsBalanced (handle_all h fresh true es l)
unfolding handle_all
handle_all-IsBalanced h fresh [] l v b = b
handle_all-IsBalanced h fresh (e ∷ es) l v b =
    handle_all-IsBalanced h fresh es (handle h fresh true e l).1 v
      (handle-IsBalanced h fresh e l v b)

-- Whatever callbacks libmilter makes on a connection, in whatever order, and whatever the methods do,
-- the contexts made for it are those deleted and the one that it has, if any; and after `close` all of
-- them are deleted and it has none: if `smfi_setpriv` works, and the method `close` does not throw.
pub contexts_freed :
    {C : Type 0} (h : Handlers C) (fresh : C) (es : List Callback)
    → ((p : C) → Returns (h.on_close p))
    → IsBalanced (handle_all h fresh true es new_link)
      × ((close h (handle_all h fresh true es new_link)).1.created
          ≡ (close h (handle_all h fresh true es new_link)).1.deleted)
      × ((close h (handle_all h fresh true es new_link)).1.priv ≡ none)
unfolding close
contexts_freed h fresh es v =
    let b = handle_all-IsBalanced h fresh es new_link v refl in
    let (e, n) = close_frees h (handle_all h fresh true es new_link) _ v refl b in (b, e, n)
