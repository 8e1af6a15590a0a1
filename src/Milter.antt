-- ===== src/Milter.antt =====
-- include/milter.h: the callbacks that libmilter makes, handed to the context of a connection. The class
-- of the context is a parameter: its virtual methods, and a new one of it.
pub mod Setup
pub mod Service
pub mod Callbacks
pub mod Balance
pub mod Errors
use undervest.Prelude.{
  ℕ, suc, Bool, true, false, ◌&&◌, Option, none, some, List, [], ◌∷◌, ◌++◌, Bytes, codes,
}

-- `sfsistat`: SMFIS_CONTINUE and the others.
pub data Status : Type 0 where
  continue_on reject discard accept tempfail : Status

-- The functions of libmilter that act on a message, by their names there.
pub data Call : Type 0 where
  setreply : Bytes → Bytes → Bytes → Call
  addheader : Bytes → Bytes → Call
  chgheader : Bytes → ℕ → Bytes → Call
  insheader : ℕ → Bytes → Bytes → Call
  chgfrom : Bytes → Bytes → Call
  addrcpt : Bytes → Call
  addrcpt_par : Bytes → Bytes → Call
  delrcpt : Bytes → Call
  replacebody : Bytes → ℕ → Call
  quarantine : Bytes → Call
  setsymlist : ℕ → Bytes → Call
  progress : Call

-- How a method of the context ends: with a status, or by an exception, which has a text if it is a
-- `std::exception`; with the context afterwards, and what it called.
pub data Handled (C : Type 0) : Type 0 where
  returns : Status → C → List Call → Handled C
  throws : Option Bytes → C → List Call → Handled C

-- A set of flags, by the numbers of its bits.
abbrev pub Flags : Type 0
Flags = ℕ → Bool

pub record Quad : Type 0 where
  pub q0 : Flags
  pub q1 : Flags
  pub q2 : Flags
  pub q3 : Flags

-- The virtual methods.
pub record Handlers (C : Type 0) : Type 0 where
  pub on_connect : Bytes → C → Handled C
  pub on_negotiate : Quad → Quad → C → Handled C × Quad
  pub on_hello : Bytes → C → Handled C
  pub on_envelope_from : Bytes → List Bytes → C → Handled C
  pub on_envelope_recipient : Bytes → List Bytes → C → Handled C
  pub on_data : C → Handled C
  pub on_header : Bytes → Bytes → C → Handled C
  pub on_end_of_headers : C → Handled C
  pub on_body : Bytes → C → Handled C
  pub on_end_of_message : C → Handled C
  pub on_unknown : Bytes → C → Handled C
  pub on_abort : C → Handled C
  pub on_close : C → Handled C

-- The methods of `context`, which continue.
unfoldable pub continues : {C : Type 0} → C → Handled C
continues p = returns continue_on p []

abbrev pub defaults : {C : Type 0} → Handlers C
defaults = record {
  on_connect = λ hostname. continues;
  on_negotiate = λ f rf p. (continues p, rf);
  on_hello = λ hellohost. continues;
  on_envelope_from = λ address argv. continues;
  on_envelope_recipient = λ address argv. continues;
  on_data = continues;
  on_header = λ name value. continues;
  on_end_of_headers = continues;
  on_body = λ bdy. continues;
  on_end_of_message = continues;
  on_unknown = λ command. continues;
  on_abort = continues;
  on_close = continues;
}

-- A connection: the private pointer of libmilter, how many contexts were made and deleted, what was
-- called, and the messages given to `uncatched_exception`.
pub record Link (C : Type 0) : Type 0 where
  pub priv : Option C
  pub created : ℕ
  pub deleted : ℕ
  pub calls : List Call
  pub logged : List Bytes

-- `_uncatched_exception`
unfoldable pub uncatched : Bytes → Option Bytes → Bytes
uncatched funcname (some what) =
    codes "An uncatched exception occured in milter::" ++ (funcname ++ (codes "(): " ++ what))
uncatched funcname none =
    codes "An uncatched unknown exception occured in milter::" ++ (funcname ++ codes "()")

-- What a method that is called leaves, and the status.
unfoldable pub settle : {C : Type 0} → Bytes → Link C → Handled C → Status × Link C
settle funcname l (returns s p cs) = (s, record l { priv = some p; calls = l.calls ++ cs })
settle funcname l (throws e p cs) = (
  tempfail,
  record l {
    priv = some p;
    calls = l.calls ++ cs;
    logged = l.logged ++ (uncatched funcname e ∷ []);
  },
)

-- The body of the callbacks behind the first one: `p = milterContext(ctx); if (p) i = p->...`.
unfoldable pub relay_to :
    {C : Type 0} → Bytes → (C → Handled C) → Link C → Option C → Status × Link C
relay_to funcname h l none = (tempfail, l)
relay_to funcname h l (some p) = settle funcname l (h p)

unfoldable pub relay : {C : Type 0} → Bytes → (C → Handled C) → Link C → Status × Link C
relay funcname h l = relay_to funcname h l l.priv

-- The body of `_connect` and `_negotiate`, which make a context if there is none. `setpriv` is false
-- where `smfi_setpriv` fails.
unfoldable pub enter_with :
    {C : Type 0} → Bytes → C → Bool → (C → Handled C) → Link C → Option C → Status × Link C
enter_with funcname fresh setpriv h l (some p) = settle funcname l (h p)
enter_with funcname fresh true h l none =
    settle funcname (record l { created = suc l.created }) (h fresh)
enter_with funcname fresh false h l none = (tempfail, record l { created = suc l.created })

unfoldable pub enter : {C : Type 0} → Bytes → C → Bool → (C → Handled C) → Link C → Status × Link C
enter funcname fresh setpriv h l = enter_with funcname fresh setpriv h l l.priv

-- `_connect`
unfoldable pub connect : {C : Type 0} → Handlers C → C → Bool → Bytes → Link C → Status × Link C
connect h fresh setpriv hostname l = enter (codes "connect") fresh setpriv (h.on_connect hostname) l

-- `*pf0 = _CTX::flags & f0; *pf1 = _CTX::callbackFlags & f1; *pf2 = *pf3 = 0`
unfoldable pub offered : Flags → Flags → Quad → Quad
offered flags callback_flags f = record {
  q0 = λ i. flags i && f.q0 i;
  q1 = λ i. callback_flags i && f.q1 i;
  q2 = λ i. false;
  q3 = λ i. false;
}

-- What is answered to the offer: the method changes it if it is called.
unfoldable pub answered : {C : Type 0} → Handlers C → C → Bool → Quad → Quad → Option C → Quad
answered h fresh setpriv f rf (some p) = (h.on_negotiate f rf p).1
answered h fresh true f rf none = (h.on_negotiate f rf fresh).1
answered h fresh false f rf none = rf

-- `_negotiate`
unfoldable pub negotiate :
    {C : Type 0} → Handlers C → C → Bool → Flags → Flags → Quad → Link C → (Status × Link C) × Quad
negotiate h fresh setpriv flags callback_flags f l =
    let rf = offered flags callback_flags f in
    (
      enter (codes "negotiate") fresh setpriv (λ p. (h.on_negotiate f rf p).0) l,
      answered h fresh setpriv f rf l.priv,
    )

unfoldable pub helo : {C : Type 0} → Handlers C → Bytes → Link C → Status × Link C
helo h hellohost l = relay (codes "hello") (h.on_hello hellohost) l

-- `_envfrom`, for `argv[0]` and `argv + 1`
unfoldable pub envfrom : {C : Type 0} → Handlers C → Bytes → List Bytes → Link C → Status × Link C
envfrom h address argv l = relay (codes "envelopeFrom") (h.on_envelope_from address argv) l

unfoldable pub envrcpt : {C : Type 0} → Handlers C → Bytes → List Bytes → Link C → Status × Link C
envrcpt h address argv l =
    relay (codes "envelopeRecipient") (h.on_envelope_recipient address argv) l

unfoldable pub data_of : {C : Type 0} → Handlers C → Link C → Status × Link C
data_of h l = relay (codes "data") h.on_data l

unfoldable pub header : {C : Type 0} → Handlers C → Bytes → Bytes → Link C → Status × Link C
header h name value l = relay (codes "header") (h.on_header name value) l

unfoldable pub eoh : {C : Type 0} → Handlers C → Link C → Status × Link C
eoh h l = relay (codes "endOfHeaders") h.on_end_of_headers l

-- `_body`, whose messages have the name of another method
unfoldable pub body : {C : Type 0} → Handlers C → Bytes → Link C → Status × Link C
body h bdy l = relay (codes "endOfHeaders") (h.on_body bdy) l

unfoldable pub eom : {C : Type 0} → Handlers C → Link C → Status × Link C
eom h l = relay (codes "endOfMessage") h.on_end_of_message l

unfoldable pub unknown : {C : Type 0} → Handlers C → Bytes → Link C → Status × Link C
unknown h command l = relay (codes "unknown") (h.on_unknown command) l

unfoldable pub abort : {C : Type 0} → Handlers C → Link C → Status × Link C
abort h l = relay (codes "abort") h.on_abort l

-- Behind `p->close()`: the pointer is gone, and the context is deleted unless `close` throws.
unfoldable pub closed : {C : Type 0} → Link C → Handled C → Status × Link C
closed l (returns s p cs) =
    (s, record l { priv = none; deleted = suc l.deleted; calls = l.calls ++ cs })
closed l (throws e p cs) = (
  tempfail,
  record l {
    priv = none;
    calls = l.calls ++ cs;
    logged = l.logged ++ (uncatched (codes "close") e ∷ []);
  },
)

unfoldable pub close_with : {C : Type 0} → Handlers C → Link C → Option C → Status × Link C
close_with h l none = (tempfail, l)
close_with h l (some p) = closed l (h.on_close p)

-- `_close`
unfoldable pub close : {C : Type 0} → Handlers C → Link C → Status × Link C
close h l = close_with h l l.priv
