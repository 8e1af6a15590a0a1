-- ===== src/Milter/Errors.antt =====
-- include/milter.h: what a callback answers, and what it makes of an exception.
use undervest.Prelude.{
  ◌≡◌, refl, sym, ap, ◌∙◌, suc, if◌then◌else◌, Bool, true, false, Option, none, some, List, [], ◌∷◌,
  ◌++◌, append-nil, Bytes, codes,
}
use undervest.Milter.{
  Handled, returns, throws, Handlers, Link, Status, tempfail, Call, uncatched, offered, settle,
  relay_to, relay, enter_with, enter, connect, negotiate, helo, envfrom, envrcpt, data_of, header,
  eoh, body, eom, unknown, abort, closed, close_with, close,
}
use undervest.Milter.Callbacks.{
  Callback, negotiates, connects, hellos, mail_from, rcpt_to, data_begins, header_line, headers_end,
  body_chunk, message_ends, unknown_command, aborts, closes, handle,
}

-- The method for a callback.
abbrev pub method : {C : Type 0} → Handlers C → Callback → C → Handled C
method h (negotiates flags callback_flags f) p =
    (h.on_negotiate f (offered flags callback_flags f) p).0
method h (connects hostname) p = h.on_connect hostname p
method h (hellos hellohost) p = h.on_hello hellohost p
method h (mail_from address argv) p = h.on_envelope_from address argv p
method h (rcpt_to address argv) p = h.on_envelope_recipient address argv p
method h data_begins p = h.on_data p
method h (header_line name value) p = h.on_header name value p
method h headers_end p = h.on_end_of_headers p
method h (body_chunk bdy) p = h.on_body bdy p
method h message_ends p = h.on_end_of_message p
method h (unknown_command command) p = h.on_unknown command p
method h aborts p = h.on_abort p
method h closes p = h.on_close p

-- The name that a message about an exception has. That for `body` is the name of another method, as in
-- `_body` of the source.
abbrev pub reported_name : Callback → Bytes
reported_name (negotiates flags callback_flags f) = codes "negotiate"
reported_name (connects hostname) = codes "connect"
reported_name (hellos hellohost) = codes "hello"
reported_name (mail_from address argv) = codes "envelopeFrom"
reported_name (rcpt_to address argv) = codes "envelopeRecipient"
reported_name data_begins = codes "data"
reported_name (header_line name value) = codes "header"
reported_name headers_end = codes "endOfHeaders"
reported_name (body_chunk bdy) = codes "endOfHeaders"
reported_name message_ends = codes "endOfMessage"
reported_name (unknown_command command) = codes "unknown"
reported_name aborts = codes "abort"
reported_name closes = codes "close"

-- The context that a callback makes if there is none.
abbrev pub made : {C : Type 0} → C → Bool → Callback → Option C
made fresh setpriv (negotiates flags callback_flags f) = if setpriv then some fresh else none
made fresh setpriv (connects hostname) = if setpriv then some fresh else none
made fresh setpriv _ = none

abbrev pub or_made : {C : Type 0} → Option C → Option C → Option C
or_made (some p) o = some p
or_made none o = o

-- How the method ends, if there is a context for it.
abbrev pub ended : {C : Type 0} → (C → Handled C) → Option C → Option (Handled C)
ended h none = none
ended h (some p) = some (h p)

abbrev pub status_of : {C : Type 0} → Option (Handled C) → Status
status_of none = tempfail
status_of (some (returns s p cs)) = s
status_of (some (throws e p cs)) = tempfail

abbrev pub calls_of : {C : Type 0} → Option (Handled C) → List Call
calls_of none = []
calls_of (some (returns s p cs)) = cs
calls_of (some (throws e p cs)) = cs

abbrev pub messages_of : {C : Type 0} → Bytes → Option (Handled C) → List Bytes
messages_of name none = []
messages_of name (some (returns s p cs)) = []
messages_of name (some (throws e p cs)) = uncatched name e ∷ []

-- A status and a connection, for what the method did.
pub record Answers {C : Type 0} (name : Bytes) (o : Option (Handled C)) (l : Link C)
    (r : Status × Link C) : Type 0 where
  pub status : r.0 ≡ status_of o
  pub calls : r.1.calls ≡ l.calls ++ calls_of o
  pub logged : r.1.logged ≡ l.logged ++ messages_of name o

settle-Answers :
    {C : Type 0} (name : Bytes) (l : Link C) (r : Handled C)
    → Answers name (some r) l (settle name l r)
unfolding settle
settle-Answers name l (returns s p cs) = record {
  status = refl;
  calls = refl;
  logged = sym (append-nil l.logged);
}
settle-Answers name l (throws e p cs) = record { status = refl; calls = refl; logged = refl }

closed-Answers :
    {C : Type 0} (l : Link C) (r : Handled C) → Answers (codes "close") (some r) l (closed l r)
unfolding closed
closed-Answers l (returns s p cs) = record {
  status = refl;
  calls = refl;
  logged = sym (append-nil l.logged);
}
closed-Answers l (throws e p cs) = record { status = refl; calls = refl; logged = refl }

nothing-Answers : {C : Type 0} (name : Bytes) (l : Link C) → Answers name none l (tempfail, l)
nothing-Answers name l = record {
  status = refl;
  calls = sym (append-nil l.calls);
  logged = sym (append-nil l.logged);
}

relay-Answers :
    {C : Type 0} (name : Bytes) (h : C → Handled C) (l : Link C) (o : Option C)
    → Answers name (ended h (or_made o none)) l (relay_to name h l o)
unfolding relay_to
relay-Answers name h l none = nothing-Answers name l
relay-Answers name h l (some p) = settle-Answers name l (h p)

-- where a new context is only counted
recounted :
    {C : Type 0} (name : Bytes) (o : Option (Handled C)) (l m : Link C) (r : Status × Link C)
    → m.calls ≡ l.calls
    → m.logged ≡ l.logged
    → Answers name o m r
    → Answers name o l r
recounted name o l m r c g a = record {
  status = a.status;
  calls = a.calls ∙ ap (λ (cs : List Call). cs ++ calls_of o) c;
  logged = a.logged ∙ ap (λ (ms : List Bytes). ms ++ messages_of name o) g;
}

enter-Answers :
    {C : Type 0} (name : Bytes) (fresh : C) (setpriv : Bool) (h : C → Handled C) (l : Link C)
    (o : Option C)
    → Answers name
        (ended h (or_made o (if setpriv then some fresh else none)))
        l
        (enter_with name fresh setpriv h l o)
unfolding enter_with
enter-Answers name fresh setpriv h l (some p) = settle-Answers name l (h p)
enter-Answers name fresh true h l none =
    recounted name _ l (record l { created = suc l.created }) _ refl refl
      (settle-Answers name (record l { created = suc l.created }) (h fresh))
enter-Answers name fresh false h l none =
    recounted name _ l (record l { created = suc l.created }) _ refl refl
      (nothing-Answers name (record l { created = suc l.created }))

close-Answers :
    {C : Type 0} (h : Handlers C) (l : Link C) (o : Option C)
    → Answers (codes "close") (ended h.on_close (or_made o none)) l (close_with h l o)
unfolding close_with
close-Answers h l none = nothing-Answers (codes "close") l
close-Answers h l (some p) = closed-Answers l (h.on_close p)

-- Each callback runs the method that it stands for, on the context of the connection, or on a new one
-- at the first callback; the answer is the status of the method, and a temporary failure if there is no
-- context, or if the method throws: then a message with the reported name and the text of the exception is
-- logged, and what it called before stays called.
pub handle-Answers :
    {C : Type 0} (h : Handlers C) (fresh : C) (setpriv : Bool) (e : Callback) (l : Link C)
    → Answers
        (reported_name e)
        (ended (method h e) (or_made l.priv (made fresh setpriv e)))
        l
        (handle h fresh setpriv e l)
unfolding handle relay enter connect negotiate helo envfrom envrcpt data_of header eoh body eom
    unknown abort close
handle-Answers h fresh setpriv (negotiates flags callback_flags f) l =
    enter-Answers _ fresh setpriv _ l l.priv
handle-Answers h fresh setpriv (connects hostname) l = enter-Answers _ fresh setpriv _ l l.priv
handle-Answers h fresh setpriv (hellos hellohost) l = relay-Answers _ _ l l.priv
handle-Answers h fresh setpriv (mail_from address argv) l = relay-Answers _ _ l l.priv
handle-Answers h fresh setpriv (rcpt_to address argv) l = relay-Answers _ _ l l.priv
handle-Answers h fresh setpriv data_begins l = relay-Answers _ _ l l.priv
handle-Answers h fresh setpriv (header_line name value) l = relay-Answers _ _ l l.priv
handle-Answers h fresh setpriv headers_end l = relay-Answers _ _ l l.priv
handle-Answers h fresh setpriv (body_chunk bdy) l = relay-Answers _ _ l l.priv
handle-Answers h fresh setpriv message_ends l = relay-Answers _ _ l l.priv
handle-Answers h fresh setpriv (unknown_command command) l = relay-Answers _ _ l l.priv
handle-Answers h fresh setpriv aborts l = relay-Answers _ _ l l.priv
handle-Answers h fresh setpriv closes l = close-Answers h l l.priv
