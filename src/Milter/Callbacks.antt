-- ===== src/Milter/Callbacks.antt =====
-- include/milter.h: the callbacks of a connection in any order.
use undervest.Prelude.{ℕ, Bool, Option, none, some, List, [], ◌∷◌, Bytes}
use undervest.Milter.{
  Handlers, Link, Status, Flags, Quad, connect, negotiate, helo, envfrom, envrcpt, data_of, header,
  eoh, body, eom, unknown, abort, close,
}

-- A callback of libmilter, with its arguments.
pub data Callback : Type 0 where
  negotiates : Flags → Flags → Quad → Callback
  connects : Bytes → Callback
  hellos : Bytes → Callback
  mail_from : Bytes → List Bytes → Callback
  rcpt_to : Bytes → List Bytes → Callback
  data_begins : Callback
  header_line : Bytes → Bytes → Callback
  headers_end : Callback
  body_chunk : Bytes → Callback
  message_ends : Callback
  unknown_command : Bytes → Callback
  aborts : Callback
  closes : Callback

-- The function that `initialize` registers for an event.
unfoldable pub handle : {C : Type 0} → Handlers C → C → Bool → Callback → Link C → Status × Link C
handle h fresh setpriv (negotiates flags callback_flags f) l =
    (negotiate h fresh setpriv flags callback_flags f l).0
handle h fresh setpriv (connects hostname) l = connect h fresh setpriv hostname l
handle h fresh setpriv (hellos hellohost) l = helo h hellohost l
handle h fresh setpriv (mail_from address argv) l = envfrom h address argv l
handle h fresh setpriv (rcpt_to address argv) l = envrcpt h address argv l
handle h fresh setpriv data_begins l = data_of h l
handle h fresh setpriv (header_line name value) l = header h name value l
handle h fresh setpriv headers_end l = eoh h l
handle h fresh setpriv (body_chunk bdy) l = body h bdy l
handle h fresh setpriv message_ends l = eom h l
handle h fresh setpriv (unknown_command command) l = unknown h command l
handle h fresh setpriv aborts l = abort h l
handle h fresh setpriv closes l = close h l

-- The events of a connection one after the other.
unfoldable pub handle_all : {C : Type 0} → Handlers C → C → Bool → List Callback → Link C → Link C
handle_all h fresh setpriv [] l = l
handle_all h fresh setpriv (e ∷ es) l = handle_all h fresh setpriv es (handle h fresh setpriv e l).1

abbrev pub new_link : {C : Type 0} → Link C
new_link = record { priv = none; created = 0; deleted = 0; calls = []; logged = [] }

abbrev pub held : {C : Type 0} → Option C → ℕ
held none = 0
held (some p) = 1
