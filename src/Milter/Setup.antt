-- ===== src/Milter/Setup.antt =====
-- include/milter.h: the filter itself, and how it is registered, started and stopped. What libmilter
-- answers is an argument.
use undervest.Prelude.{
  ℕ, zero, ◌≡◌, refl, sym, ap, Bool, true, false, not, ◌||◌, Option, none, some, List, [], ◌∷◌,
  ◌++◌, if◌then◌else◌, Bytes, codes, beq, ◌>>=◌,
}
use undervest.Prelude.Int.{ℤ, pos, negsuc}
use undervest.Stringlib.{strtolower}
use undervest.FilePath.{of_text, plus_text, filename, get, is_nil}
use undervest.Uri.Reader.{parse}
use undervest.Milter.Callbacks.{
  Callback, hellos, mail_from, rcpt_to, data_begins, header_line, headers_end, body_chunk,
  unknown_command,
}

-- `registered` says that `_registered` is this filter.
pub record Filter : Type 0 where
  pub name : Bytes
  pub socket : Bytes
  pub timeout : ℤ
  pub debug : ℤ
  pub running : Bool
  pub registered : Bool

-- The constructor from a name.
abbrev pub new_filter : Bytes → Filter
new_filter filtername = record {
  name = filtername;
  socket = [];
  timeout = negsuc 0;
  debug = pos 0;
  running = false;
  registered = false;
}

unfoldable pub set_name : Filter → Bytes → Bytes × Filter
set_name f filtername = (f.name, record f { name = filtername })

unfoldable pub set_socket : Filter → Bytes → Bytes × Filter
set_socket f socketname = (f.socket, record f { socket = socketname })

unfoldable pub set_timeout : Filter → ℤ → ℤ × Filter
set_timeout f seconds = (f.timeout, record f { timeout = seconds })

unfoldable pub set_debug : Filter → ℤ → ℤ × Filter
set_debug f level = (f.debug, record f { debug = level })

-- The flags of a class of contexts for the callbacks that it has no use for.
pub record CallbackFlags : Type 0 where
  pub nohelo : Bool
  pub nomail : Bool
  pub norcpt : Bool
  pub nodata : Bool
  pub nohdrs : Bool
  pub noeoh : Bool
  pub nobody : Bool
  pub nounknown : Bool

-- Whether the description that `initialize` registers has a function for a callback.
unfoldable pub registers : CallbackFlags → Callback → Bool
registers c (hellos hellohost) = not c.nohelo
registers c (mail_from address argv) = not c.nomail
registers c (rcpt_to address argv) = not c.norcpt
registers c data_begins = not c.nodata
registers c (header_line name value) = not c.nohdrs
registers c headers_end = not c.noeoh
registers c (body_chunk bdy) = not c.nobody
registers c (unknown_command command) = not c.nounknown
registers c _ = true

-- The calls of libmilter that set the filter up.
pub data SetupCall : Type 0 where
  setconn : Bytes → SetupCall
  settimeout : ℕ → SetupCall
  register_filter : Bytes → SetupCall
  opensocket : Bool → SetupCall

-- MI_SUCCESS and MI_FAILURE
abbrev pub mi_success : ℤ
mi_success = pos 0

abbrev pub mi_failure : ℤ
mi_failure = negsuc 0

abbrev pub is_success : ℤ → Bool
is_success (pos zero) = true
is_success _ = false

-- The result, the filter afterwards, and the calls.
pub record Ready : Type 0 where
  pub result : ℤ
  pub filter : Filter
  pub made : List SetupCall

-- The calls one after the other, up to the first that fails.
unfoldable pub attempt : (SetupCall → ℤ) → List SetupCall → ℤ × List SetupCall
attempt result_of [] = (mi_success, [])
attempt result_of (c ∷ cs) =
    let rest = attempt result_of cs in
    if is_success (result_of c) then (rest.0, c ∷ rest.1) else (result_of c, c ∷ [])

-- `if (_timeout >= 0) i = smfi_settimeout(_timeout)`
unfoldable pub timeout_calls : ℤ → List SetupCall
timeout_calls (pos n) = settimeout n ∷ []
timeout_calls (negsuc n) = []

unfoldable pub set_up : (SetupCall → ℤ) → Bool → Filter → Ready
set_up result_of del_prev_sock f =
    let r =
      attempt result_of
        (setconn f.socket ∷ (timeout_calls f.timeout ++ (register_filter f.name ∷ []))) in
    let opened = result_of (opensocket del_prev_sock) in
    if is_success r.0
    then record {
      result = opened;
      filter = record f { registered = true };
      made = r.1 ++ (opensocket del_prev_sock ∷ []);
    }
    else record { result = r.0; filter = f; made = r.1 }

-- `(FilePath("/var/run") + FilePath(_name).filename()).get() + ".sock"`; `none` is an exception.
unfoldable pub default_socket : Bytes → Option Bytes
default_socket name =
    plus_text (of_text (codes "/var/run") (codes "/")) (filename (of_text name (codes "/")) b'/')
    >>= λ p. some (get p false b'/' ++ codes ".sock")

-- `initialize`
unfoldable pub initialize : (SetupCall → ℤ) → Bool → Filter → Option Ready
initialize result_of del_prev_sock f =
    if is_nil f.name
    then some (record { result = mi_failure; filter = f; made = [] })
    else if is_nil f.socket
    then (default_socket f.name >>= λ s.
        some (set_up result_of del_prev_sock (record f { socket = s })))
    else some (set_up result_of del_prev_sock f)

-- `start`, up to `smfi_main`; `none` is the failure.
unfoldable pub start : Filter → Option Filter
start f = if f.running || not f.registered then none else some (record f { running = true })

-- `_running = false`, behind `smfi_main`
unfoldable pub main_returned : Filter → Filter
main_returned f = record f { running = false }

-- `stop`, for what `smfi_stop` gives; and whether that is called.
unfoldable pub stop : ℤ → Filter → ℤ × Bool
stop result f = if f.running || not f.registered then (mi_failure, false) else (result, true)

-- A filter that runs refuses to stop.
stop-start :
    (result : ℤ) (f g : Filter)
    → start f ≡ some g
    → ◌≡◌ {A = ℤ × Bool} (stop result g) (mi_failure, false)
unfolding start stop
stop-start result f g h = go (f.running || not f.registered) h
  where
    go :
        (b : Bool)
        → (if b then none else some (record f { running = true })) ≡ some g
        → ◌≡◌ {A = ℤ × Bool}
            (if g.running || not g.registered then (mi_failure, false) else (result, true))
            (mi_failure, false)
    go true e = absurd cc
    go false e =
        let q : record f { running = true } ≡ g = cc in
        rw (sym (ap (λ (x : Filter). x.running) q)) refl

-- The file that the destructor removes; `none` is an exception.
unfoldable pub removed_socket : Bytes → Option (Option Bytes)
removed_socket socket = do
  r ← parse socket
  let t = strtolower r.0.scheme
  some (
      if is_nil t || (beq t (codes "local") || beq t (codes "unix"))
      then some (get r.0.path false b'/')
      else none)
