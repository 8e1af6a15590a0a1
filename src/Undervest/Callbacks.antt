-- ===== src/Undervest/Callbacks.antt =====
-- include/undervest.h, src/milter/undervest.cpp: the methods of a connection, as the callbacks of
-- include/milter.h run them. The macro `{rcpt_mailer}`, `none` where it has no value, and the text of
-- an exception are parameters.
use undervest.Prelude.{ℕ, true, false, Option, none, some, List, [], ◌∷◌, map, Bytes}
use undervest.Configuration.{Configuration}
use undervest.Milter.{
  Handled, returns, throws, Handlers, defaults, Link, Status, continue_on, Call, settle, relay_to,
  relay, envfrom, envrcpt, eom,
}
use undervest.Milter
use undervest.Milter.Service
use undervest.Milter.Setup.{CallbackFlags}
use undervest.Undervest
use undervest.Undervest.{
  Undervest, Verdict, proceed, reject, Action, envelope_from, envelope_recipient, end_of_message,
}
use undervest.Undervest.Session.{message}

-- `callbackFlags`
abbrev pub callback_flags : CallbackFlags
callback_flags = record {
  nohelo = true;
  nomail = false;
  norcpt = false;
  nodata = true;
  nohdrs = true;
  noeoh = true;
  nobody = true;
  nounknown = true;
}

-- The calls of libmilter.
unfoldable pub call_of : Action → Call
call_of (Undervest.add_header name value) = Service.add_header name value
call_of (Undervest.delete_recipient recipient) = Service.delete_recipient recipient
call_of (Undervest.add_recipient recipient args) = Service.add_recipient recipient args

unfoldable pub verdict_status : Verdict → Status
verdict_status proceed = continue_on
verdict_status (reject status extended message) = Milter.reject

unfoldable pub verdict_calls : Verdict → List Call
verdict_calls proceed = []
verdict_calls (reject status extended message) = Service.reply_number status extended message ∷ []

-- How `envelopeRecipient` ends.
unfoldable pub recipient_handled :
    Option Bytes → Undervest → Option (Verdict × Undervest) → Handled Undervest
recipient_handled what u none = throws what u []
recipient_handled what u (some (v, u')) = returns (verdict_status v) u' (verdict_calls v)

-- `std::string mailer(symbolValue("{rcpt_mailer}"))`: a null pointer makes the constructor throw.
unfoldable pub recipient_by :
    Option Bytes → Undervest → Bytes → List Bytes → Option Bytes → Handled Undervest
recipient_by what u address argv none = throws what u []
recipient_by what u address argv (some mailer) =
    recipient_handled what u (envelope_recipient u address argv mailer)

-- The class `Undervest`, at the debug level and the configuration of the globals.
unfoldable pub methods :
    ℕ → Configuration → (Bytes → List Bytes → Option Bytes) → Option Bytes → Handlers Undervest
methods debug conf mailer what = record defaults {
  on_connect = λ hostname u. returns continue_on (Undervest.connect debug conf u) [];
  on_envelope_from = λ address argv u. returns continue_on (envelope_from u) [];
  on_envelope_recipient = λ address argv u. recipient_by what u address argv (mailer address argv);
  on_end_of_message = λ u. returns continue_on u (map call_of (end_of_message u));
}
